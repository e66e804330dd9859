-- ===== src/Crypto/Keyring/Envelope.antt =====
-- crypto/credentials.go: what `Encrypt` writes, `Decrypt` takes apart again.
use workspace_api.Base.{
  ◌≡◌, ◌≢◌, refl, none, some, [], ◌∷◌, ◌++◌, arith, Text, length, take-append, drop-append,
  length-append, ok, err,
}
use workspace_api.Crypto.Primitives.{Primitives, AreSound, IsPlainWord}
use workspace_api.Crypto.Keyring.{KeyEntry, cut_colon, split_envelope, open_under, not_opened}

cut_colon-append : (w rest : Text) → IsPlainWord w → cut_colon (w ++ (b':' ∷ rest)) ≡ some (w, rest)
unfolding cut_colon
cut_colon-append [] rest h = refl
cut_colon-append (c ∷ w) rest h = ground (arith, cut_colon-append w rest h.1)

cut_colon_plain : (w : Text) → IsPlainWord w → cut_colon w ≡ none
unfolding cut_colon
cut_colon_plain [] h = refl
cut_colon_plain (c ∷ w) h = ground (arith, cut_colon_plain w h.1)

pub split_envelope-append :
    (id payload : Text) → IsPlainWord id → split_envelope (id ++ (b':' ∷ payload)) ≡ (id, payload)
unfolding split_envelope
split_envelope-append id payload h = rw (cut_colon-append id payload h, split_envelope)

pub split_envelope_legacy :
    (payload : Text) → IsPlainWord payload → split_envelope payload ≡ ([], payload)
unfolding split_envelope
split_envelope_legacy payload h = rw (cut_colon_plain payload h, split_envelope)

module _ (p : Primitives) (s : AreSound p) where
  open p use {nonce_size, seal, unseal, encode, decode}

  module _ (e : KeyEntry) (key nonce t : Text) (h : length nonce ≡ nonce_size) where
    -- What a key sealed opens under that key.
    pub open_under-sealed : e.key ≡ key → open_under p e (nonce ++ seal key nonce t) ≡ ok t
    unfolding open_under
    open_under-sealed same_key = ground (
      arith,
      length-append nonce (seal key nonce t),
      take-append nonce (seal key nonce t) nonce_size h,
      drop-append nonce (seal key nonce t) nonce_size h,
      s.unseal-seal key nonce t,
    )

    pub open_under_other : e.key ≢ key → open_under p e (nonce ++ seal key nonce t) ≡ err not_opened
    unfolding open_under
    open_under_other ne = ground (
      arith,
      length-append nonce (seal key nonce t),
      take-append nonce (seal key nonce t) nonce_size h,
      drop-append nonce (seal key nonce t) nonce_size h,
      s.unseal_other e.key key nonce t ne,
    )
