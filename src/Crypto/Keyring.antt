-- ===== src/Crypto/Keyring.antt =====
-- crypto/credentials.go: the key ring, and the envelope `enc:<key id>:<base64>` that it writes.
pub mod Envelope
pub mod Ring
pub mod Reads
use workspace_api.Base.{ℕ, ◌≡◌, Bool, true, false, Option, none, some, List, [], ◌∷◌, ◌++◌, ◌==◌}
use workspace_api.Base.{
  Text, codes, length, take, drop, ltb, if◌then◌else◌, cut_prefix, Map, lookup, insert, Outcome, ok,
  err, and_then, is_empty, is_some,
}
use workspace_api.Crypto.Primitives.{Primitives}

-- The errors of the package, by the call that returns them.
pub data KeyError : Type 0 where
  bad_length duplicate_key no_nonce bad_base64 too_short not_opened opened_by_none : KeyError
  not_in_ring : Text → KeyError

pub record KeyEntry : Type 0 where
  pub id : Text
  pub key : Text

pub record Keyring : Type 0 where
  pub primary : KeyEntry
  pub by_id : Map KeyEntry
  -- primary first, then previous
  pub order : List KeyEntry

abbrev pub enc_prefix : Text
enc_prefix = codes "enc:"

-- `strings.Cut(body, ":")`
unfoldable pub cut_colon : Text → Option (Text × Text)
cut_colon [] = none
cut_colon (c ∷ s) =
    let rest = cut_colon s in
    if c == b':'
    then some ([], s)
    else elim rest [ none ↦ none | some (before, after) ↦ some (c ∷ before, after) ]

unfoldable pub split_envelope : Text → Text × Text
unfolding cut_colon
split_envelope body = elim (cut_colon body) [ none ↦ ([], body) | some parts ↦ parts ]

unfoldable pub primary_key_id : Keyring → Text
primary_key_id ring = ring.primary.id

abbrev pub extended : Keyring → KeyEntry → Keyring
extended ring entry = record ring {
  by_id = insert entry.id entry ring.by_id;
  order = ring.order ++ entry ∷ [];
}

module _ (p : Primitives) where
  open p use {nonce_size, seal, unseal, derive_key_id, encode, decode}

  unfoldable pub new_key_entry : Text → Outcome KeyError KeyEntry
  new_key_entry key =
      if length key == 32 then ok (record { id = derive_key_id key; key = key }) else err bad_length

  -- The loop over the previous keys.
  unfoldable pub add_previous : Keyring → List Text → Outcome KeyError Keyring
  add_previous ring [] = ok ring
  add_previous ring (key ∷ keys) = and_then (new_key_entry key) λ entry.
      let rest = add_previous (extended ring entry) keys in
      if is_some (lookup entry.id ring.by_id) then err duplicate_key else rest

  unfoldable pub new_keyring : Text → List Text → Outcome KeyError Keyring
  new_keyring primary previous = and_then (new_key_entry primary) λ entry.
      add_previous
        (record { primary = entry; by_id = insert entry.id entry []; order = entry ∷ [] }) previous

  -- `rand.Read` fills the nonce or fails.
  unfoldable pub encrypt : Keyring → Option Text → Text → Outcome KeyError Text
  encrypt ring none plaintext = err no_nonce
  encrypt ring (some nonce) plaintext =
      let ciphertext = nonce ++ seal ring.primary.key nonce plaintext in
      ok (enc_prefix ++ (ring.primary.id ++ (b':' ∷ encode ciphertext)))

  -- `open`
  unfoldable pub open_under : KeyEntry → Text → Outcome KeyError Text
  open_under entry stored =
      if ltb (length stored) nonce_size
      then err too_short
      else elim (unseal entry.key (take nonce_size stored) (drop nonce_size stored)) [
        | none ↦ err not_opened
        | some plaintext ↦ ok plaintext
      ]

  unfoldable pub open_untagged : List KeyEntry → Text → Outcome KeyError Text
  open_untagged [] stored = err opened_by_none
  open_untagged (entry ∷ order) stored =
      let rest = open_untagged order stored in
      elim (open_under entry stored) [ ok plaintext ↦ ok plaintext | err e ↦ rest ]

  -- The end of `Decrypt`, on the two parts of an envelope.
  unfoldable pub decrypt_parts : Keyring → Text → Text → Outcome KeyError Text
  decrypt_parts ring key_id payload = elim (decode payload) [
    | none ↦ err bad_base64
    | some stored ↦
        if is_empty key_id
        then open_untagged ring.order stored
        else elim (lookup key_id ring.by_id) [
          | none ↦ err (not_in_ring key_id)
          | some entry ↦ open_under entry stored
        ]
  ]

  unfoldable pub decrypt : Keyring → Text → Outcome KeyError Text
  unfolding decrypt_parts split_envelope cut_prefix
  decrypt ring stored = elim (cut_prefix enc_prefix stored) [
    | none ↦ ok stored
    | some body ↦ let parts = split_envelope body in decrypt_parts ring parts.0 parts.1
  ]
