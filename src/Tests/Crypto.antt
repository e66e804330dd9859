-- ===== src/Tests/Crypto.antt =====
-- crypto/: a toy cipher that meets the assumptions, and the theorems at rings of it.
use workspace_api.Base.{
  ℕ, ◌+◌, ◌-◌, ◌≡◌, ◌≢◌, refl, Option, none, some, [], ◌∷◌, ◌++◌, arith, ◌==◌, Text, codes, ok, err,
  leb, same, mem, lookup, insert, if◌then◌else◌,
}
use workspace_api.Crypto.Primitives.{Primitives, AreSound, IsPlainWord}
use workspace_api.Crypto.Keyring.{
  Keyring, KeyEntry, new_keyring, encrypt, decrypt, enc_prefix, not_in_ring, new_key_entry,
  add_previous,
}
use workspace_api.Crypto.Keyring.Reads.{decrypt-encrypt, decrypt-encrypt_retired, decrypt_untagged}

abbrev pub shifted : Text → Text
shifted [] = []
shifted (c ∷ s) = (c + 100) ∷ shifted s

unfoldable pub unshifted : Text → Option Text
unshifted [] = some []
unshifted (c ∷ s) =
    let rest = unshifted s in
    if leb 100 c then elim rest [ none ↦ none | some t ↦ some ((c - 100) ∷ t) ] else none

-- The key in front of the text, closed by a 0.
abbrev pub framed : Text → Text → Text
framed [] t = 0 ∷ t
framed (c ∷ k) t = (c + 1) ∷ framed k t

unfoldable pub unframed : Text → Text → Option Text
unframed [] [] = none
unframed [] (c ∷ s) = if c == 0 then some s else none
unframed (d ∷ k) [] = none
unframed (d ∷ k) (c ∷ s) = if c == d + 1 then unframed k s else none

abbrev pub toy : Primitives
toy = record {
  nonce_size = 2;
  seal = λ k n t. framed k t;
  unseal = λ k n c. unframed k c;
  derive_key_id = λ k. b'k' ∷ shifted k;
  encode = shifted;
  decode = unshifted;
}

unframed-framed : (k t : Text) → unframed k (framed k t) ≡ some t
unfolding unframed
unframed-framed [] t = refl
unframed-framed (c ∷ k) t = ground (arith, unframed-framed k t)

unframed_other : (j k t : Text) → j ≢ k → unframed j (framed k t) ≡ none
unfolding unframed
unframed_other [] [] t h = absurd (h refl)
unframed_other [] (c ∷ k) t h = ground arith
unframed_other (d ∷ j) [] t h = ground arith
unframed_other (d ∷ j) (c ∷ k) t h = ground (arith, unframed_other j k t)

unshifted-shifted : (t : Text) → unshifted (shifted t) ≡ some t
unfolding unshifted
unshifted-shifted [] = refl
unshifted-shifted (c ∷ t) = ground (arith, unshifted-shifted t)

shifted-IsPlainWord : (t : Text) → IsPlainWord (shifted t)
shifted-IsPlainWord [] = tt
shifted-IsPlainWord (c ∷ t) = (ground arith, shifted-IsPlainWord t)

pub toy-AreSound : AreSound toy
toy-AreSound = record {
  unseal-seal = λ k n t. unframed-framed k t;
  unseal_other = λ j k n t h. unframed_other j k t h;
  decode-encode = unshifted-shifted;
  encode-IsPlainWord = shifted-IsPlainWord;
  key_id-IsPlainWord = λ k. (refl, shifted-IsPlainWord k);
  key_id-ne_nil = λ k e. cc;
}

-- A key of 32 times one byte.
abbrev pub key : ℕ → Text
key c =
    let quarter : Text = c ∷ c ∷ c ∷ c ∷ c ∷ c ∷ c ∷ c ∷ [] in
    quarter ++ (quarter ++ (quarter ++ quarter))

abbrev pub entry : ℕ → KeyEntry
entry c = record { id = b'k' ∷ shifted (key c); key = key c }

-- The ring under key 2 that keeps key 1 readable, and the ring before the rotation.
abbrev pub rotated : Keyring
rotated = record {
  primary = entry 2;
  by_id = ((entry 2).id, entry 2) ∷ ((entry 1).id, entry 1) ∷ [];
  order = entry 2 ∷ entry 1 ∷ [];
}

abbrev single : ℕ → Keyring
single c = record { primary = entry c; by_id = ((entry c).id, entry c) ∷ []; order = entry c ∷ [] }

pub rotated_built : new_keyring toy (key 2) (key 1 ∷ []) ≡ ok rotated
unfolding new_keyring add_previous new_key_entry insert lookup same
rotated_built = refl

single_built : new_keyring toy (key 1) [] ≡ ok (single 1)
unfolding new_keyring add_previous new_key_entry insert lookup same
single_built = refl

third_built : new_keyring toy (key 3) [] ≡ ok (single 3)
unfolding new_keyring add_previous new_key_entry insert lookup same
third_built = refl

abbrev pub secret : Text
secret = codes "pw:1"

decrypt-encrypt_example :
    (stored : Text) × (encrypt toy (single 1) (some (7 ∷ 9 ∷ [])) secret ≡ ok stored)
    × (decrypt toy rotated stored ≡ ok secret)
unfolding mem same
decrypt-encrypt_example =
    decrypt-encrypt toy toy-AreSound (key 2) (key 1 ∷ []) rotated rotated_built (key 1) []
      (single 1) (7 ∷ 9 ∷ []) secret single_built refl refl

decrypt-encrypt_retired_example :
    (stored : Text) × (encrypt toy (single 3) (some (7 ∷ 9 ∷ [])) secret ≡ ok stored)
    × (decrypt toy rotated stored ≡ err (not_in_ring (b'k' ∷ shifted (key 3))))
unfolding mem same
decrypt-encrypt_retired_example =
    decrypt-encrypt_retired toy toy-AreSound (key 2) (key 1 ∷ []) rotated rotated_built (key 3) []
      (single 3) (7 ∷ 9 ∷ []) secret third_built refl

decrypt_untagged_example :
    decrypt toy rotated (enc_prefix ++ shifted (7 ∷ 9 ∷ framed (key 1) secret)) ≡ ok secret
unfolding mem same
decrypt_untagged_example =
    decrypt_untagged toy toy-AreSound (key 2) (key 1 ∷ []) rotated rotated_built (key 1)
      (7 ∷ 9 ∷ []) secret refl refl
