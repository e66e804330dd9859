-- ===== src/Crypto/Keyring/Reads.antt =====
-- crypto/credentials.go: rings that read what other rings wrote.
use workspace_api.Base.{
  ◌≡◌, refl, ap, true, false, none, some, List, [], ◌∷◌, ◌++◌, arith, Text, length, ok, lookup, map,
  err, Bool-cases, mem, inl, inr, same, same_iff, same-ne, subst, Outcome,
}
use workspace_api.Crypto.Primitives.{Primitives, AreSound}
use workspace_api.Crypto.Keyring.Ring.{IsHeld, entry_of, new_keyring-IsRing}
use workspace_api.Crypto.Keyring.Envelope.{
  split_envelope-append, split_envelope_legacy, open_under-sealed, open_under_other,
}
use workspace_api.Crypto.Keyring.{
  KeyEntry, Keyring, KeyError, new_keyring, encrypt, decrypt, enc_prefix, open_untagged, open_under,
  not_in_ring,
}

module _ (p : Primitives) (s : AreSound p) where
  open p use {nonce_size, seal, derive_key_id, encode, decode}

  -- The key of an entry listed among the ring's is found by its id.
  held_key :
      (ring : Keyring) (keys : List Text) (key : Text)
      → IsHeld ring.by_id (map (entry_of p) keys)
      → mem key keys ≡ true
      → lookup (derive_key_id key) ring.by_id ≡ some (entry_of p key)
  unfolding mem
  held_key ring [] key h m = cc
  held_key ring (k ∷ keys) key h m = elim (Bool-cases (same k key)) [
    | inl e ↦ rw (← (same_iff k key).0 e) h.0
    | inr e ↦ held_key ring keys key h.1 (ground arith)
  ]

  -- An envelope under `key` is looked up by its id and opened with what is found there.
  decrypt-tagged :
      (ring : Keyring) (key c : Text)
      → decrypt p ring (enc_prefix ++ (derive_key_id key ++ (b':' ∷ encode c)))
        ≡ (elim (lookup (derive_key_id key) ring.by_id) [
          | none ↦ err (not_in_ring (derive_key_id key))
          | some entry ↦ open_under p entry c
        ])
  unfolding decrypt
  decrypt-tagged ring key c = ground (
    arith,
    split_envelope-append (derive_key_id key) (encode c) (s.key_id-IsPlainWord key),
    s.decode-encode c,
    s.key_id-ne_nil key,
  )

  -- A value with no key id is tried under every key of the ring.
  decrypt_legacy :
      (ring : Keyring) (c : Text)
      → decrypt p ring (enc_prefix ++ encode c) ≡ open_untagged p ring.order c
  unfolding decrypt
  decrypt_legacy ring c =
      ground (arith, split_envelope_legacy (encode c) (s.encode-IsPlainWord c), s.decode-encode c)

  open_untagged-sealed :
      (keys : List Text) (key nonce t : Text)
      → length nonce ≡ nonce_size
      → mem key keys ≡ true
      → open_untagged p (map (entry_of p) keys) (nonce ++ seal key nonce t) ≡ ok t
  unfolding open_untagged mem
  open_untagged-sealed [] key nonce t h m = cc
  open_untagged-sealed (k ∷ keys) key nonce t h m = elim (Bool-cases (same k key)) [
    | inl e ↦
        rw
          (open_under-sealed p s (entry_of p k) key nonce t h ((same_iff k key).0 e), open_untagged)
    | inr e ↦
        rw (open_under_other p s (entry_of p k) key nonce t h (same-ne k key e), open_untagged)
          (open_untagged-sealed keys key nonce t h (ground arith))
  ]

  ids-entry_of :
      (keys : List Text)
      → map (λ (e : KeyEntry). e.id) (map (entry_of p) keys) ≡ map derive_key_id keys
  ids-entry_of [] = refl
  ids-entry_of (k ∷ keys) = ap (◌∷◌ (derive_key_id k)) (ids-entry_of keys)

  -- What `Encrypt` stores.
  envelope : Text → Text → Text → Text
  envelope key nonce t =
      enc_prefix ++ (derive_key_id key ++ (b':' ∷ encode (nonce ++ seal key nonce t)))

  encrypt-envelope :
      (key : Text) (previous : List Text) (ring : Keyring) (nonce t : Text)
      → new_keyring p key previous ≡ ok ring
      → encrypt p ring (some nonce) t ≡ ok (envelope key nonce t)
  unfolding encrypt envelope
  encrypt-envelope key previous ring nonce t built =
      ap {B = Outcome KeyError Text}
        (λ (e : KeyEntry).
          ok (enc_prefix ++ (e.id ++ (b':' ∷ encode (nonce ++ seal e.key nonce t)))))
        (new_keyring-IsRing p key previous ring built).primary_is

  module _ (key : Text) (previous : List Text) (ring : Keyring)
      (built : new_keyring p key previous ≡ ok ring) where
    -- A ring reads what any ring wrote whose primary key it still lists: `Encrypt` there succeeds, and
    -- `Decrypt` here gives the plaintext back. (The same ring is the case of no rotation.)
    pub decrypt-encrypt :
        (old_key : Text) (older : List Text) (old : Keyring) (nonce t : Text)
        → new_keyring p old_key older ≡ ok old
        → mem old_key (key ∷ previous) ≡ true
        → length nonce ≡ nonce_size
        → (stored : Text) × (encrypt p old (some nonce) t ≡ ok stored)
          × (decrypt p ring stored ≡ ok t)
    unfolding envelope
    decrypt-encrypt old_key older old nonce t was m h =
        let v = new_keyring-IsRing p key previous ring built in
        (
          envelope old_key nonce t,
          encrypt-envelope old_key older old nonce t was,
          rw
              (
                decrypt-tagged ring old_key (nonce ++ seal old_key nonce t),
                held_key ring (key ∷ previous) old_key (subst (IsHeld ring.by_id) v.order_is v.held)
                    m,
              )
              (open_under-sealed p s (entry_of p old_key) old_key nonce t h refl),
        )

    -- Under a key that the ring does not list (and whose id no listed key shares), `Decrypt` fails and
    -- names that key's id.
    pub decrypt-encrypt_retired :
        (old_key : Text) (older : List Text) (old : Keyring) (nonce t : Text)
        → new_keyring p old_key older ≡ ok old
        → mem (derive_key_id old_key) (map derive_key_id (key ∷ previous)) ≡ false
        → (stored : Text) × (encrypt p old (some nonce) t ≡ ok stored)
          × (decrypt p ring stored ≡ err (not_in_ring (derive_key_id old_key)))
    unfolding envelope
    decrypt-encrypt_retired old_key older old nonce t was m =
        let v = new_keyring-IsRing p key previous ring built in
        (
          envelope old_key nonce t,
          encrypt-envelope old_key older old nonce t was,
          rw (
            decrypt-tagged ring old_key (nonce ++ seal old_key nonce t),
            v.only (derive_key_id old_key) (rw (v.order_is, ids-entry_of (key ∷ previous)) m),
          ),
        )

    -- A value in the form without a key id opens under whichever listed key sealed it.
    pub decrypt_untagged :
        (old_key nonce t : Text)
        → mem old_key (key ∷ previous) ≡ true
        → length nonce ≡ nonce_size
        → decrypt p ring (enc_prefix ++ encode (nonce ++ seal old_key nonce t)) ≡ ok t
    decrypt_untagged old_key nonce t m h =
        let v = new_keyring-IsRing p key previous ring built in
        rw (decrypt_legacy ring (nonce ++ seal old_key nonce t), v.order_is)
          (open_untagged-sealed (key ∷ previous) old_key nonce t h m)
