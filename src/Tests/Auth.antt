-- ===== src/Tests/Auth.antt =====
-- core/auth.go and workspace/static.go: a box called acme, its worker and its users.
use workspace_api.Base.{
  ◌≡◌, refl, true, false, some, [], ◌∷◌, ◌++◌, Text, codes, ok, err, is_empty, same, cut_prefix,
  ◌⊎◌, inr, ◌↔◌, none, Option, workspace_not_found,
}
use workspace_api.Auth.Jwt.{Claims, text, Jwt}
use workspace_api.Auth.User.{
  Context, UserAuth, TokenProfile, InternalCaller, wrap_streaming_handler,
}
use workspace_api.Auth.Issuer.{slug_for_issuer, issuer_prefix, domain_suffix}
use workspace_api.Auth.Trust.{Outside, jwks_url, keyfunc_for, pinned_slug_for_issuer}
use workspace_api.Auth.Internal.{internal_caller_from_request}
use workspace_api.Auth.Static.{get_workspace_by_user}
use workspace_api.Auth.Boxes.{IsLabel, slug_for_issuer_iff}
use workspace_api.Auth.Keys.{IsHonest, Reach, start, keyfunc_for-IsTrusted}
use workspace_api.Auth.Callers.{NamesUser, IsCentralCaller, auth_interceptor-NamesUser}
use workspace_api.Auth.Tenants.{
  Anchor, issuers, pinned, box_trust_of, IsBoundBy, internal_caller-IsBoundBy,
}
use workspace_api.Auth.Tenancy.{IsMember, get_workspace_by_user_iff}
use workspace_api.Tests.Repo.{acme}

abbrev base_domain : Text
base_domain = codes "fairtier.com"

abbrev issuer : Text
issuer = codes "https://auth.customer-acme.fairtier.com"

slug_for_issuer_iff_example :
    ((slug_for_issuer base_domain issuer ≡ codes "acme") × (is_empty (codes "acme") ≡ false)) ↔ (
      (issuer ≡ issuer_prefix ++ codes "acme" ++ domain_suffix base_domain)
      × IsLabel (codes "acme"))
slug_for_issuer_iff_example = slug_for_issuer_iff base_domain issuer (codes "acme")

slug_of_acme : slug_for_issuer base_domain issuer ≡ codes "acme"
unfolding slug_for_issuer
slug_of_acme = refl

no_slug_with_a_dash_last :
    slug_for_issuer base_domain (codes "https://auth.customer-acme-.fairtier.com") ≡ []
unfolding slug_for_issuer
no_slug_with_a_dash_last = refl

-- A library whose tokens all carry the same claims, and keys that are their URLs.
abbrev toy : Claims → Jwt Text
toy claims = record { parse_unverified = λ t. some claims; parse = λ k o t. some claims }

abbrev worker : Claims
worker = (codes "iss", text issuer) ∷ (codes "sub", text (codes "admin/dlt-worker")) ∷ []

abbrev alice : Claims
alice = (codes "sub", text (codes "alice")) ∷ (codes "name", text (codes "Alice")) ∷ []

abbrev outside : Outside Text
outside = record { is_vm_customer = λ slug. ok true; new_keyfunc = λ url. ok url }

abbrev IsVm : Text → Type 0
IsVm slug = Unit

abbrev Serves : Text → Text → Type 0
Serves url k = k ≡ url

honest : IsHonest base_domain IsVm Serves outside
honest = record { vm = λ slug h. tt; serves = λ url k h. cc }

keyfunc_for-IsTrusted_example :
    (Unit {0} × (jwks_url issuer ≡ jwks_url issuer))
    × Reach base_domain IsVm Serves ((issuer, jwks_url issuer) ∷ [])
unfolding slug_for_issuer keyfunc_for
keyfunc_for-IsTrusted_example =
    keyfunc_for-IsTrusted base_domain IsVm Serves outside (λ c. c) issuer []
      ((issuer, jwks_url issuer) ∷ []) (jwks_url issuer) honest (λ c r. r) start refl

abbrev caller : InternalCaller
caller = record { app = codes "dlt-worker"; slug = codes "acme"; issuer = issuer }

abbrev central : Anchor Text
central = issuers base_domain outside (λ c. c)

internal_caller-IsBoundBy_example :
    (token : Text) × (codes "Bearer t" ≡ codes "Bearer " ++ token)
    × (IsBoundBy (toy worker) IsVm Serves central token caller
        ⊎ IsCentralCaller (toy worker) (codes "central") (box_trust_of central) token caller)
unfolding internal_caller_from_request slug_for_issuer keyfunc_for
internal_caller-IsBoundBy_example =
    internal_caller-IsBoundBy (toy worker) IsVm Serves (codes "central") central (codes "Bearer t")
      [] ((issuer, jwks_url issuer) ∷ []) caller (honest, (λ c r. r), start) refl

-- On a box, a token of another issuer is bound to no slug.
pinned_callers :
    ((internal_caller_from_request
        (toy worker)
        (codes "box")
        (box_trust_of (pinned issuer (codes "acme") (codes "box")))
        (codes "Bearer t")
        []).0
      ≡ ok caller)
    × ((internal_caller_from_request
          (toy worker)
          (codes "box")
          (box_trust_of (pinned (codes "https://auth.other") (codes "other") (codes "box")))
          (codes "Bearer t")
          []).0
        ≡ ok (record caller { slug = []; issuer = [] }))
unfolding internal_caller_from_request pinned_slug_for_issuer
pinned_callers = (refl, refl)

abbrev context : Context
context = record {
  user_id = [];
  internal_caller = record { app = []; slug = []; issuer = [] };
  token_profile = none;
}

abbrev policy : UserAuth Text
policy = record { jwks = codes "central"; issuer = issuer; audiences = [] }

auth_interceptor-NamesUser_example :
    (token : Text) × (claims : Claims) × (r : Text × TokenProfile) × (codes "Bearer t"
      ≡ codes "Bearer " ++ token)
    × (◌≡◌ {A = Option Claims} (some alice) (some claims))
    × NamesUser claims r
    × (r.0 ≡ codes "alice")
unfolding wrap_streaming_handler same
auth_interceptor-NamesUser_example =
    auth_interceptor-NamesUser (toy alice) policy (λ c. c.user_id) context (codes "Bearer t")
      (codes "alice") (inr refl)

get_workspace_by_user_iff_example :
    (get_workspace_by_user acme (codes "customer-acme/alice") ≡ ok acme)
    ↔ IsMember (codes "customer-acme") (codes "customer-acme/alice")
get_workspace_by_user_iff_example = get_workspace_by_user_iff acme (codes "customer-acme/alice")

-- The data-platform credentials that a box hands out are no members.
reader_refused : get_workspace_by_user acme (codes "admin/rill-reader") ≡ err workspace_not_found
unfolding get_workspace_by_user cut_prefix
reader_refused = refl
