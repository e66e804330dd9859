-- ===== src/Auth/Jwt.antt =====
-- What core/auth.go takes from golang-jwt and keyfunc: the claims of a token, unverified or verified
-- with the keys of an issuer, and the keys that a URL serves.
use workspace_api.Base.{Option, none, some, List, [], ◌∷◌, Text, codes, Map, lookup, Outcome}

pub data AuthError : Type 0 where
  missing_header invalid_header invalid_token missing_subject : AuthError
  service_account_token untrusted_issuer not_service_account : AuthError
  unknown_issuer unreachable : AuthError

abbrev pub Auth {ℓ} : Type ℓ → Type ℓ
Auth A = Outcome AuthError A

-- A claim is a text or another JSON value.
pub data Claim : Type 0 where
  text : Text → Claim
  other_value : Claim

abbrev pub Claims : Type 0
Claims = Map Claim

-- `MapClaims.parseString`: a claim that is missing is empty, one that is no text is an error.
abbrev pub as_text : Option Claim → Option Text
as_text none = some []
as_text (some (text t)) = some t
as_text (some other_value) = none

unfoldable pub get_claim : Text → Claims → Option Text
unfolding lookup
get_claim name claims = as_text (lookup name claims)

-- The options of a parser; expiry is always required.
pub record ParserOptions : Type 0 where
  pub valid_methods : List Text
  pub issuer : Option Text
  pub audiences : List Text

pub record Jwt (K : Type 0) : Type 0 where
  pub parse_unverified : Text → Option Claims
  pub parse : K → ParserOptions → Text → Option Claims

-- `validSigningMethods`
abbrev pub valid_signing_methods : List Text
valid_signing_methods =
    codes "RS256"
    ∷ codes "RS384"
    ∷ codes "RS512"
    ∷ codes "PS256"
    ∷ codes "PS384"
    ∷ codes "PS512"
    ∷ codes "ES256"
    ∷ codes "ES384"
    ∷ codes "ES512"
    ∷ codes "EdDSA"
    ∷ []
