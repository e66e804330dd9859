-- ===== src/Crypto/Primitives.antt =====
-- What crypto/credentials.go takes from Go's crypto and encoding packages: AES-256-GCM, the truncated
-- HMAC that names a key, and base64. They are parameters; their documented behaviour is a record.
use workspace_api.Base.{ℕ, ◌≡◌, ◌≢◌, false, Option, none, some, [], ◌∷◌, ◌==◌}
use workspace_api.Base.{Text}

pub record Primitives : Type 0 where
  pub nonce_size : ℕ
  pub seal : Text → Text → Text → Text
  pub unseal : Text → Text → Text → Option Text
  pub derive_key_id : Text → Text
  pub encode : Text → Text
  pub decode : Text → Option Text

-- No `:` in a text.
abbrev pub IsPlainWord : Text → Type 0
IsPlainWord [] = Unit {0}
IsPlainWord (c ∷ s) = ((c == b':') ≡ false) × IsPlainWord s

-- A sealed text opens under its own key and nonce, and under no other key; base64 decodes what it
-- encodes and has no `:`; a key id is hex, so it has no `:` and is not empty.
pub record AreSound (p : Primitives) : Type 0 where
  pub unseal-seal : (k n t : Text) → p.unseal k n (p.seal k n t) ≡ some t
  pub unseal_other : (j k n t : Text) → j ≢ k → p.unseal j n (p.seal k n t) ≡ none
  pub decode-encode : (t : Text) → p.decode (p.encode t) ≡ some t
  pub encode-IsPlainWord : (t : Text) → IsPlainWord (p.encode t)
  pub key_id-IsPlainWord : (k : Text) → IsPlainWord (p.derive_key_id k)
  pub key_id-ne_nil : (k : Text) → p.derive_key_id k ≢ []
