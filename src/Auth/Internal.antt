-- ===== src/Auth/Internal.antt =====
-- core/auth.go: the callers of the internal API, by a central token or by a token of a box.
use workspace_api.Base.{
  not, Option, none, some, [], Text, codes, is_empty, or_else, ok, err, and_then, if◌then◌else◌,
}
use workspace_api.Auth.Subject.{service_account_app}
use workspace_api.Auth.Jwt.{
  Auth, invalid_token, missing_subject, untrusted_issuer, not_service_account, Claims, get_claim,
  ParserOptions, Jwt, valid_signing_methods,
}
use workspace_api.Auth.User.{InternalCaller, Context, token_from_header}
use workspace_api.Auth.Trust.{BoxTrust}

abbrev pub app_or_err : Option Text → Auth Text
app_or_err none = err not_service_account
app_or_err (some app) = ok app

-- `serviceAppFromSubject`, on the claims of a parsed token.
unfoldable pub service_app_from_subject : Claims → Auth Text
unfolding get_claim service_account_app
service_app_from_subject claims =
    let sub = or_else (get_claim (codes "sub") claims) [] in
    if is_empty sub then err missing_subject else app_or_err (service_account_app sub)

-- The claims of a token that is checked with a key: the app, as the caller of a slug and an issuer.
abbrev pub caller_of : Text → Text → Option Claims → Auth InternalCaller
caller_of slug iss none = err invalid_token
caller_of slug iss (some claims) =
    and_then (service_app_from_subject claims)
      λ app. ok (record { app = app; slug = slug; issuer = iss })

abbrev pub options_for : Option Text → ParserOptions
options_for iss = record { valid_methods = valid_signing_methods; issuer = iss; audiences = [] }

module _ {K S : Type 0} (jwt : Jwt K) where
  -- A box's token: the issuer is required again of the verified token.
  abbrev pub box_caller : Text → Text → Text → Auth K × S → Auth InternalCaller × S
  box_caller iss slug token (err e, s) = (err untrusted_issuer, s)
  box_caller iss slug token (ok kf, s) =
      (caller_of slug iss (jwt.parse kf (options_for (some iss)) token), s)

  abbrev pub slug_of : Option (BoxTrust K S) → Text → Text
  slug_of none iss = []
  slug_of (some box) iss = box.slug_for iss

  abbrev pub trusted_key : Option (BoxTrust K S) → Text → Text → S → Auth K × S
  trusted_key none iss slug s = (err untrusted_issuer, s)
  trusted_key (some box) iss slug s = box.keyfunc_for iss slug s

  -- By the issuer that the unverified claims name.
  unfoldable pub route : K → Option (BoxTrust K S) → Text → Text → S → Auth InternalCaller × S
  unfolding service_app_from_subject
  route jwks box token iss s =
      let slug = slug_of box iss in
      if not (is_empty slug)
      then box_caller iss slug token (trusted_key box iss slug s)
      else (caller_of [] [] (jwt.parse jwks (options_for none) token), s)

  abbrev pub routed : K → Option (BoxTrust K S) → Text → Option Claims → S → Auth InternalCaller × S
  routed jwks box token none s = (err invalid_token, s)
  routed jwks box token (some claims) s =
      route jwks box token (or_else (get_claim (codes "iss") claims) []) s

  abbrev pub from_token : K → Option (BoxTrust K S) → Auth Text → S → Auth InternalCaller × S
  from_token jwks box (err e) s = (err e, s)
  from_token jwks box (ok token) s = routed jwks box token (jwt.parse_unverified token) s

  unfoldable pub internal_caller_from_request :
      K → Option (BoxTrust K S) → Text → S → Auth InternalCaller × S
  unfolding token_from_header route get_claim
  internal_caller_from_request jwks box header s = from_token jwks box (token_from_header header) s

  -- `NewInternalAuthInterceptor`
  module _ {A : Type 0} where
    abbrev pub run_internal : (Context → A) → Context → Auth InternalCaller × S → Auth A × S
    run_internal handler ctx (err e, s) = (err e, s)
    run_internal handler ctx (ok caller, s) =
        (ok (handler (record ctx { internal_caller = caller })), s)

    unfoldable pub internal_auth :
        K → Option (BoxTrust K S) → (Context → A) → Context → Text → S → Auth A × S
    unfolding internal_caller_from_request
    internal_auth jwks box handler ctx header s =
        run_internal handler ctx (internal_caller_from_request jwks box header s)
