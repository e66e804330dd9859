-- ===== src/Auth/Tenants.antt =====
-- core/auth.go: the tenant that a caller of the internal API is bound to, under either trust anchor.
use workspace_api.Base.{
  ◌≡◌, refl, ap, sym, subst, ◌∙◌, Bool, true, false, not, ◌⊎◌, inl, inr, Option, some, [], ◌∷◌,
  ◌++◌, Text, codes, same, same→eq, is_empty, Map, ok, ok-inj, if◌then◌else◌,
}
use workspace_api.Auth.Jwt.{Claims, Jwt}
use workspace_api.Auth.User.{InternalCaller}
use workspace_api.Auth.Issuer.{issuer_prefix, domain_suffix}
use workspace_api.Auth.Boxes.{IsLabel, slug_for_issuer_iff}
use workspace_api.Auth.Trust.{
  Outside, BoxTrust, PinnedBoxTrust, new_pinned_box_trust, pinned_slug_for_issuer, pinned_box_trust,
  jwks_url, keyfunc_for, box_issuer_trust,
}
use workspace_api.Auth.Keys.{IsHonest, Reach, keyfunc_for-IsGood}
use workspace_api.Auth.Internal.{options_for, internal_caller_from_request}
use workspace_api.Auth.Callers.{NamesApp, IsBoxCaller, IsCentralCaller, internal_caller-parts}

-- An anchor for the tokens of boxes: BoxIssuerTrust on the control plane, with what the outside answers
-- and what other requests do to the cache, or NewPinnedBoxTrust on a box.
pub data Anchor (K : Type 0) : Type 0 where
  issuers : Text → Outside K → (Map K → Map K) → Anchor K
  pinned : Text → Text → K → Anchor K

abbrev pub box_trust_of : {K : Type 0} → Anchor K → Option (BoxTrust K (Map K))
box_trust_of (issuers base_domain out meanwhile) = box_issuer_trust base_domain out meanwhile
box_trust_of (pinned issuer slug kf) = some (pinned_box_trust (new_pinned_box_trust issuer slug kf))

module _ {K : Type 0} (jwt : Jwt K) (IsVm : Text → Type 0) (Serves : Text → K → Type 0) where
  -- The token of a box: its issuer is the box's, for the very slug that the caller is bound to.
  abbrev pub IsBound : Text → Text → InternalCaller → Type 0
  IsBound base_domain token caller =
      (k : K) × (claims : Claims) × (caller.issuer
        ≡ issuer_prefix ++ caller.slug ++ domain_suffix base_domain)
      × IsLabel caller.slug
      × IsVm caller.slug
      × Serves (jwks_url caller.issuer) k
      × (jwt.parse k (options_for (some caller.issuer)) token ≡ some claims)
      × NamesApp claims caller.app

  box_caller-IsBound :
      (jwks : K) (base_domain token : Text) (out : Outside K) (meanwhile : Map K → Map K)
      (cache : Map K) (caller : InternalCaller)
      → IsHonest base_domain IsVm Serves out
      → ((c : Map K)
          → Reach base_domain IsVm Serves c
          → Reach base_domain IsVm Serves (meanwhile c))
      → Reach base_domain IsVm Serves cache
      → IsBoxCaller jwt jwks (box_issuer_trust base_domain out meanwhile) token cache caller
      → IsBound base_domain token caller
  box_caller-IsBound jwks [] token out meanwhile cache caller honest others r
        (kf, claims, m, f, key, verified, names) =
      cc (subst (λ s. is_empty s ≡ false) (sym m) f)
  box_caller-IsBound jwks (c ∷ b) token out meanwhile cache caller honest others r
        (kf, claims, m, f, key, verified, names) =
      let (shape, label) = (slug_for_issuer_iff (c ∷ b) caller.issuer caller.slug).0 (m, f) in
      let (reached, trusted) =
        keyfunc_for-IsGood (c ∷ b) IsVm Serves out meanwhile caller.issuer cache honest others r in
      let (vm, serves) =
        trusted kf (ap (λ s. (keyfunc_for out meanwhile caller.issuer s cache).0) m ∙ key) in
      (kf, claims, shape, label, subst IsVm m vm, serves, verified, names)

  -- The box's own token: of the one issuer that is pinned, verified by the box's keys.
  abbrev pub IsPinned : PinnedBoxTrust K → Text → InternalCaller → Type 0
  IsPinned p token caller =
      (claims : Claims) × (caller.issuer ≡ p.issuer)
      × (caller.slug ≡ p.slug)
      × (is_empty p.issuer ≡ false)
      × (jwt.parse p.kf (options_for (some p.issuer)) token ≡ some claims)
      × NamesApp claims caller.app

  pinned_slug_for_issuer-eq :
      (p : PinnedBoxTrust K) (iss slug : Text)
      → pinned_slug_for_issuer p iss ≡ slug
      → is_empty slug ≡ false
      → (iss ≡ p.issuer) × (slug ≡ p.slug) × (is_empty p.issuer ≡ false)
  unfolding pinned_slug_for_issuer
  pinned_slug_for_issuer-eq p iss slug h f = by_tests (is_empty iss) (same iss p.issuer) refl refl h
    where
      by_tests :
          (b1 b2 : Bool)
          → is_empty iss ≡ b1
          → same iss p.issuer ≡ b2
          → (if b1 then [] else if not b2 then [] else p.slug) ≡ slug
          → (iss ≡ p.issuer) × (slug ≡ p.slug) × (is_empty p.issuer ≡ false)
      by_tests true b2 e g k = cc (subst (λ t. is_empty t ≡ false) (sym k) f)
      by_tests false false e g k = cc (subst (λ t. is_empty t ≡ false) (sym k) f)
      by_tests false true e g k =
          let eq = same→eq iss p.issuer g in (eq, sym k, subst (λ t. is_empty t ≡ false) eq e)

  -- What the outside said is so, and the cache is one that requests reach; nothing is asked of a box.
  abbrev pub IsFair : Anchor K → Map K → Type 0
  IsFair (issuers base_domain out meanwhile) cache =
      IsHonest base_domain IsVm Serves out
      × ((c : Map K)
          → Reach base_domain IsVm Serves c
          → Reach base_domain IsVm Serves (meanwhile c))
      × Reach base_domain IsVm Serves cache
  IsFair (pinned issuer slug kf) cache = Unit

  abbrev pub IsBoundBy : Anchor K → Text → InternalCaller → Type 0
  IsBoundBy (issuers base_domain out meanwhile) token caller = IsBound base_domain token caller
  IsBoundBy (pinned issuer slug kf) token caller =
      IsPinned (new_pinned_box_trust issuer slug kf) token caller

  box_caller-IsBoundBy :
      (jwks : K) (anchor : Anchor K) (token : Text) (cache : Map K) (caller : InternalCaller)
      → IsFair anchor cache
      → IsBoxCaller jwt jwks (box_trust_of anchor) token cache caller
      → IsBoundBy anchor token caller
  box_caller-IsBoundBy jwks (issuers base_domain out meanwhile) token cache caller
        (honest, others, r) b =
      box_caller-IsBound jwks base_domain token out meanwhile cache caller honest others r b
  box_caller-IsBoundBy jwks (pinned issuer slug kf) token cache caller fair
        (k, claims, m, f, key, verified, names) =
      let p = new_pinned_box_trust issuer slug kf in
      let (iss, bound, full) = pinned_slug_for_issuer-eq p caller.issuer caller.slug m f in
      (
        claims,
        iss,
        bound,
        full,
        ap (λ i. jwt.parse kf (options_for (some i)) token) (sym iss)
            ∙ (ap (λ x. jwt.parse x (options_for (some caller.issuer)) token) (ok-inj key)
                ∙ verified),
        names,
      )

  -- A caller of the internal API presented a bearer token. Either it is a box's. On the control plane
  -- (BoxIssuerTrust) the caller is then bound to the slug that its issuer's host names, that slug is a
  -- customer with a box, a key that this very host served verified the token for this issuer, and the
  -- subject is an application; other requests may write to the cache meanwhile, and the cache is one that
  -- such requests can reach. On a box (NewPinnedBoxTrust) the caller is then bound to the box's own slug,
  -- its issuer is the one that is pinned, the box's keys verified the token for that issuer, and the
  -- subject is an application. Or, with either, it is bound to no slug, and the API's own keys verified it.
  pub internal_caller-IsBoundBy :
      (jwks : K) (anchor : Anchor K) (header : Text) (cache cache' : Map K)
      (caller : InternalCaller)
      → IsFair anchor cache
      → internal_caller_from_request jwt jwks (box_trust_of anchor) header cache
        ≡ (ok caller, cache')
      → (token : Text) × (header ≡ codes "Bearer " ++ token)
        × (IsBoundBy anchor token caller
            ⊎ IsCentralCaller jwt jwks (box_trust_of anchor) token caller)
  internal_caller-IsBoundBy jwks anchor header cache cache' caller fair h =
      let (token, shape, found) =
        internal_caller-parts jwt jwks (box_trust_of anchor) header cache cache' caller h in
      (
        token,
        shape,
        elim found [
          | inl b ↦ inl (box_caller-IsBoundBy jwks anchor token cache caller fair b)
          | inr central ↦ inr central
        ],
      )
