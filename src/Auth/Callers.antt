-- ===== src/Auth/Callers.antt =====
-- core/auth.go: what is known of a caller for whom a handler runs.
use workspace_api.Base.{
  ◌≡◌, refl, ap, sym, subst, ◌∙◌, Bool, true, false, not, ◌⊎◌, inl, inr, Option, none, some, [],
  ◌∷◌, ◌++◌, Text, codes, is_empty, or_else, cut_prefix, append-cut_prefix, ok, err, ok-inj,
  and_then-eq-ok, if◌then◌else◌,
}
use workspace_api.Auth.Subject.{
  service_account_prefix, service_account_app, is_service_account, service_account_app-eq,
}
use workspace_api.Auth.Jwt.{Auth, missing_subject, service_account_token, Claims, get_claim, Jwt}
use workspace_api.Auth.User.{
  TokenProfile, InternalCaller, Context, UserAuth, bearer_token, token_from_header, token_profile,
  parser_options, user_of_claims, parse_token, with_user, authenticate_token, authenticate_bearer,
  wrap_unary, wrap_streaming_handler,
}
use workspace_api.Auth.Internal.{
  app_or_err, service_app_from_subject, caller_of, options_for, box_caller, slug_of, trusted_key,
  route, routed, from_token, internal_caller_from_request,
}
use workspace_api.Auth.Trust.{BoxTrust}

bearer_token-eq : (o : Option Text) (token : Text) → bearer_token o ≡ ok token → o ≡ some token
bearer_token-eq none token h = cc
bearer_token-eq (some []) token h = cc
bearer_token-eq (some (c ∷ t)) token h = ap some (ok-inj h)

token_from_header-eq :
    (header token : Text) → token_from_header header ≡ ok token → header ≡ codes "Bearer " ++ token
unfolding token_from_header
token_from_header-eq [] token h = cc
token_from_header-eq (c ∷ header) token h =
    append-cut_prefix (codes "Bearer ") (c ∷ header)
      (bearer_token-eq (cut_prefix (codes "Bearer ") (c ∷ header)) token h)

-- The subject that verified claims name is a person.
abbrev pub NamesUser : Claims → Text × TokenProfile → Type 0
NamesUser claims r =
    (get_claim (codes "sub") claims ≡ some r.0)
    × (is_empty r.0 ≡ false)
    × (is_service_account r.0 ≡ false)
    × (r.1 ≡ token_profile r.0 claims)

claim_full : (o : Option Text) → is_empty (or_else o []) ≡ false → o ≡ some (or_else o [])
claim_full none h = cc
claim_full (some t) h = refl

user_of_claims-NamesUser :
    (o : Option Claims) (r : Text × TokenProfile)
    → user_of_claims o ≡ ok r
    → (claims : Claims) × (o ≡ some claims) × NamesUser claims r
unfolding user_of_claims
user_of_claims-NamesUser none r h = cc
user_of_claims-NamesUser (some claims) r h =
    by_tests (is_empty sub) (is_service_account sub) refl refl h
  where
    sub : Text
    sub = or_else (get_claim (codes "sub") claims) []

    by_tests :
        (b1 b2 : Bool)
        → is_empty sub ≡ b1
        → is_service_account sub ≡ b2
        → ◌≡◌ {A = Auth (Text × TokenProfile)}
            (if b1
              then err missing_subject
              else if b2
              then err service_account_token
              else ok (sub, token_profile sub claims))
            (ok r)
        → (c : Claims) × (some claims ≡ some c) × NamesUser c r
    by_tests true b2 e f k = cc
    by_tests false true e f k = cc
    by_tests false false e f k = (
      claims,
      refl,
      subst (NamesUser claims) (ok-inj k)
          (claim_full (get_claim (codes "sub") claims) e, e, f, refl),
    )

module _ {K : Type 0} (jwt : Jwt K) (auth : UserAuth K) {A : Type 0} where
  -- The interceptor ran the handler of a call, a unary one or a stream, and it gave `a`.
  abbrev pub IsRun : (Context → A) → Context → Text → A → Type 0
  IsRun handler ctx header a =
      (wrap_unary jwt auth handler ctx header ≡ ok a)
      ⊎ (wrap_streaming_handler jwt auth handler ctx header ≡ ok a)

  run-authenticated :
      (handler : Context → A) (ctx : Context) (header : Text) (a : A)
      → IsRun handler ctx header a
      → (c : Context) × (authenticate_bearer jwt auth ctx header ≡ ok c) × (handler c ≡ a)
  unfolding wrap_unary wrap_streaming_handler
  run-authenticated handler ctx header a (inl h) =
      let (c, authed, ran) = and_then-eq-ok (authenticate_bearer jwt auth ctx header) _ h in
      (c, authed, ok-inj ran)
  run-authenticated handler ctx header a (inr h) =
      let (c, authed, ran) = and_then-eq-ok (authenticate_bearer jwt auth ctx header) _ h in
      (c, authed, ok-inj ran)

  -- A handler behind authInterceptor, of a unary call or of a stream, runs only for a bearer
  -- token that the trusted keys verify, for the issuer, audiences and algorithms of the policy, and only
  -- with the subject of that token as its caller: never an application of Casdoor, never nobody.
  pub auth_interceptor-NamesUser :
      (handler : Context → A) (ctx : Context) (header : Text) (a : A)
      → IsRun handler ctx header a
      → (token : Text) × (claims : Claims) × (r : Text × TokenProfile) × (header
          ≡ codes "Bearer " ++ token)
        × (jwt.parse auth.jwks (parser_options auth) token ≡ some claims)
        × NamesUser claims r
        × (handler (with_user jwt auth ctx r) ≡ a)
  unfolding authenticate_bearer authenticate_token parse_token
  auth_interceptor-NamesUser handler ctx header a h =
      let (c, authed, ran) = run-authenticated handler ctx header a h in
      let (token, cut, checked) =
        and_then-eq-ok (token_from_header header) (authenticate_token jwt auth ctx) authed in
      let (r, parsed, user) = and_then-eq-ok (parse_token jwt auth token) _ checked in
      let (claims, verified, names) =
        user_of_claims-NamesUser (jwt.parse auth.jwks (parser_options auth) token) r parsed in
      (
        token,
        claims,
        r,
        token_from_header-eq header token cut,
        verified,
        names,
        ap handler (ok-inj user) ∙ ran,
      )

-- The subject that verified claims name is an application of the platform's owner.
abbrev pub NamesApp : Claims → Text → Type 0
NamesApp claims app =
    (get_claim (codes "sub") claims ≡ some (service_account_prefix ++ app)) × (is_empty app ≡ false)

app_or_err-eq : (o : Option Text) (app : Text) → app_or_err o ≡ ok app → o ≡ some app
app_or_err-eq none app h = cc
app_or_err-eq (some a) app h = ap some (ok-inj h)

service_app_from_subject-NamesApp :
    (claims : Claims) (app : Text) → service_app_from_subject claims ≡ ok app → NamesApp claims app
unfolding service_app_from_subject
service_app_from_subject-NamesApp claims app h = by_test (is_empty sub) refl h
  where
    sub : Text
    sub = or_else (get_claim (codes "sub") claims) []

    by_test :
        (b : Bool)
        → is_empty sub ≡ b
        → (if b then err missing_subject else app_or_err (service_account_app sub)) ≡ ok app
        → NamesApp claims app
    by_test true e k = cc
    by_test false e k =
        let (same_sub, full) =
          service_account_app-eq sub app (app_or_err-eq (service_account_app sub) app k) in
        (claim_full (get_claim (codes "sub") claims) e ∙ ap some same_sub, full)

caller_of-NamesApp :
    (slug iss : Text) (o : Option Claims) (caller : InternalCaller)
    → caller_of slug iss o ≡ ok caller
    → (claims : Claims) × (o ≡ some claims)
      × NamesApp claims caller.app
      × (caller.slug ≡ slug)
      × (caller.issuer ≡ iss)
caller_of-NamesApp slug iss none caller h = cc
caller_of-NamesApp slug iss (some claims) caller h =
    let (app, named, made) = and_then-eq-ok (service_app_from_subject claims) _ h in
    let same_caller = ok-inj made in
    (
      claims,
      refl,
      subst (λ c. NamesApp claims c.app) same_caller
          (service_app_from_subject-NamesApp claims app named),
      ap (λ c. c.slug) (sym same_caller),
      ap (λ c. c.issuer) (sym same_caller),
    )

module _ {K S : Type 0} (jwt : Jwt K) (jwks : K) (box : Option (BoxTrust K S)) where
  -- A caller by a box's token: the anchor names the slug for the issuer, and the key that it gives for
  -- them verifies the token for that very issuer.
  abbrev pub IsBoxCaller : Text → S → InternalCaller → Type 0
  IsBoxCaller token s caller =
      (kf : K) × (claims : Claims) × (slug_of jwt box caller.issuer ≡ caller.slug)
      × (is_empty caller.slug ≡ false)
      × ((trusted_key jwt box caller.issuer caller.slug s).0 ≡ ok kf)
      × (jwt.parse kf (options_for (some caller.issuer)) token ≡ some claims)
      × NamesApp claims caller.app

  abbrev pub IsCentralCaller : Text → InternalCaller → Type 0
  IsCentralCaller token caller =
      (claims : Claims) × (caller.slug ≡ [])
      × (caller.issuer ≡ [])
      × (jwt.parse jwks (options_for none) token ≡ some claims)
      × NamesApp claims caller.app

  box_caller-IsBoxCaller :
      (token iss slug : Text) (s s' : S) (r : Auth K × S) (caller : InternalCaller)
      → trusted_key jwt box iss slug s ≡ r
      → slug_of jwt box iss ≡ slug
      → is_empty slug ≡ false
      → box_caller jwt iss slug token r ≡ (ok caller, s')
      → IsBoxCaller token s caller
  box_caller-IsBoxCaller token iss slug s s' (err e, t) caller k m f h = cc
  box_caller-IsBoxCaller token iss slug s s' (ok kf, t) caller k m f h =
      let (claims, verified, names, same_slug, same_iss) =
        caller_of-NamesApp slug iss (jwt.parse kf (options_for (some iss)) token) caller
          (ap (λ z. z.0) h) in
      (
        kf,
        claims,
        ap (slug_of jwt box) same_iss ∙ (m ∙ sym same_slug),
        ap is_empty same_slug ∙ f,
        ap (λ i. (trusted_key jwt box i caller.slug s).0) same_iss
            ∙ (ap (λ g. (trusted_key jwt box iss g s).0) same_slug ∙ ap (λ z. z.0) k),
        ap (λ i. jwt.parse kf (options_for (some i)) token) same_iss ∙ verified,
        names,
      )

  route-caller :
      (token iss : Text) (s s' : S) (caller : InternalCaller)
      → route jwt jwks box token iss s ≡ (ok caller, s')
      → IsBoxCaller token s caller ⊎ IsCentralCaller token caller
  unfolding route
  route-caller token iss s s' caller h = by_test (is_empty slug) refl h
    where
      slug : Text
      slug = slug_of jwt box iss

      by_test :
          (b : Bool)
          → is_empty slug ≡ b
          → (if not b
              then box_caller jwt iss slug token (trusted_key jwt box iss slug s)
              else (caller_of [] [] (jwt.parse jwks (options_for none) token), s))
            ≡ (ok caller, s')
          → IsBoxCaller token s caller ⊎ IsCentralCaller token caller
      by_test false e k = inl (
          box_caller-IsBoxCaller token iss slug s s' (trusted_key jwt box iss slug s) caller refl
            refl e k)
      by_test true e k =
          let (claims, verified, names, same_slug, same_iss) =
            caller_of-NamesApp [] [] (jwt.parse jwks (options_for none) token) caller
              (ap (λ z. z.0) k) in
          inr (claims, same_slug, same_iss, verified, names)

  routed-caller :
      (token : Text) (s s' : S) (caller : InternalCaller) (o : Option Claims)
      → routed jwt jwks box token o s ≡ (ok caller, s')
      → IsBoxCaller token s caller ⊎ IsCentralCaller token caller
  routed-caller token s s' caller none h = cc
  routed-caller token s s' caller (some claims) h =
      route-caller token (or_else (get_claim (codes "iss") claims) []) s s' caller h

  pub internal_caller-parts :
      (header : Text) (s s' : S) (caller : InternalCaller)
      → internal_caller_from_request jwt jwks box header s ≡ (ok caller, s')
      → (token : Text) × (header ≡ codes "Bearer " ++ token)
        × (IsBoxCaller token s caller ⊎ IsCentralCaller token caller)
  unfolding internal_caller_from_request
  internal_caller-parts header s s' caller h = by_token (token_from_header header) refl h
    where
      by_token :
          (t : Auth Text)
          → token_from_header header ≡ t
          → from_token jwt jwks box t s ≡ (ok caller, s')
          → (token : Text) × (header ≡ codes "Bearer " ++ token)
            × (IsBoxCaller token s caller ⊎ IsCentralCaller token caller)
      by_token (err e) k m = cc
      by_token (ok token) k m = (
        token,
        token_from_header-eq header token k,
        routed-caller token s s' caller (jwt.parse_unverified token) m,
      )
