-- ===== src/Auth/User.antt =====
-- core/auth.go: the Console's users. A bearer token becomes the caller of a handler, or the handler
-- does not run.
use workspace_api.Base.{
  not, Option, none, some, List, [], Text, codes, is_empty, or_else, cut_prefix, ok, err, and_then,
  if◌then◌else◌, lookup,
}
use workspace_api.Auth.Subject.{is_service_account}
use workspace_api.Auth.Jwt.{
  Auth, missing_header, invalid_header, invalid_token, missing_subject, service_account_token,
  Claim, text, other_value, Claims, get_claim, ParserOptions, Jwt, valid_signing_methods,
}

pub record TokenProfile : Type 0 where
  pub subject : Text
  pub name : Text
  pub display_name : Text
  pub email : Text

pub record InternalCaller : Type 0 where
  pub app : Text
  pub slug : Text
  pub issuer : Text

-- What the interceptors put into the context of a request.
pub record Context : Type 0 where
  pub user_id : Text
  pub internal_caller : InternalCaller
  pub token_profile : Option TokenProfile

pub record UserAuth (K : Type 0) : Type 0 where
  pub jwks : K
  pub issuer : Text
  pub audiences : List Text

abbrev pub bearer_token : Option Text → Auth Text
bearer_token none = err invalid_header
bearer_token (some token) = if is_empty token then err invalid_header else ok token

unfoldable pub token_from_header : Text → Auth Text
unfolding cut_prefix
token_from_header header =
    if is_empty header
    then err missing_header
    else bearer_token (cut_prefix (codes "Bearer ") header)

abbrev pub claim_text : Option Claim → Text
claim_text none = []
claim_text (some (text t)) = t
claim_text (some other_value) = []

unfoldable pub string_claim : Claims → Text → Text
unfolding lookup
string_claim claims name = claim_text (lookup name claims)

unfoldable pub token_profile : Text → Claims → TokenProfile
unfolding string_claim
token_profile sub claims =
    let username = string_claim claims (codes "preferred_username") in
    if not (is_empty username)
    then record {
      subject = sub;
      name = username;
      display_name = string_claim claims (codes "name");
      email = string_claim claims (codes "email");
    }
    else record {
      subject = sub;
      name = string_claim claims (codes "name");
      display_name = string_claim claims (codes "displayName");
      email = string_claim claims (codes "email");
    }

module _ {K : Type 0} where
  abbrev pub parser_options : UserAuth K → ParserOptions
  parser_options a = record {
    valid_methods = valid_signing_methods;
    issuer = some a.issuer;
    audiences = a.audiences;
  }

unfoldable pub user_of_claims : Option Claims → Auth (Text × TokenProfile)
unfolding get_claim is_service_account token_profile
user_of_claims none = err invalid_token
user_of_claims (some claims) =
    let sub = or_else (get_claim (codes "sub") claims) [] in
    if is_empty sub
    then err missing_subject
    else if is_service_account sub
    then err service_account_token
    else ok (sub, token_profile sub claims)

module _ {K : Type 0} (jwt : Jwt K) (auth : UserAuth K) where
  unfoldable pub parse_token : Text → Auth (Text × TokenProfile)
  unfolding user_of_claims
  parse_token token = user_of_claims (jwt.parse auth.jwks (parser_options auth) token)

  unfoldable pub user_id_from_token : Text → Auth Text
  unfolding parse_token
  user_id_from_token token = and_then (parse_token token) λ r. ok r.0

  unfoldable pub user_id_from_bearer : Text → Auth Text
  unfolding token_from_header user_id_from_token
  user_id_from_bearer header = and_then (token_from_header header) user_id_from_token

  abbrev pub with_user : Context → Text × TokenProfile → Context
  with_user ctx r = record ctx { user_id = r.0; token_profile = some r.1 }

  unfoldable pub authenticate_token : Context → Text → Auth Context
  unfolding parse_token
  authenticate_token ctx token = and_then (parse_token token) λ r. ok (with_user ctx r)

  unfoldable pub authenticate_bearer : Context → Text → Auth Context
  unfolding token_from_header authenticate_token
  authenticate_bearer ctx header = and_then (token_from_header header) (authenticate_token ctx)

  -- `authInterceptor`: the unary and the streaming handler are wrapped in one way. A handler is what
  -- it makes of the context.
  module _ {A : Type 0} where
    unfoldable pub wrap_unary : (Context → A) → Context → Text → Auth A
    unfolding authenticate_bearer
    wrap_unary handler ctx header = and_then (authenticate_bearer ctx header) λ c. ok (handler c)

    unfoldable pub wrap_streaming_handler : (Context → A) → Context → Text → Auth A
    unfolding authenticate_bearer
    wrap_streaming_handler handler ctx header =
        and_then (authenticate_bearer ctx header) λ c. ok (handler c)

    -- `NewOptionalAuthInterceptor`: a request with no token goes on with no caller.
    abbrev pub optional_with : (Context → A) → Context → Auth Text → Auth A
    optional_with handler ctx (err e) = ok (handler ctx)
    optional_with handler ctx (ok token) =
        and_then (authenticate_token ctx token) λ c. ok (handler c)

    unfoldable pub optional_auth : (Context → A) → Context → Text → Auth A
    unfolding token_from_header authenticate_token
    optional_auth handler ctx header = optional_with handler ctx (token_from_header header)
