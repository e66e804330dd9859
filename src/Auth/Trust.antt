-- ===== src/Auth/Trust.antt =====
-- core/auth.go: which keys check the tokens of an issuer. BoxIssuerTrust serves many boxes and keeps
-- the keys it fetched; pinnedBoxTrust is the one box's own.
use workspace_api.Base.{
  Bool, not, Option, none, some, [], ◌++◌, Text, codes, same, is_empty, Map, lookup, insert, ok,
  err, if◌then◌else◌,
}
use workspace_api.Auth.Jwt.{Auth, unknown_issuer}
use workspace_api.Auth.Issuer.{slug_for_issuer}

-- `boxTrust`, over the state that the anchor keeps.
pub record BoxTrust (K S : Type 0) : Type 0 where
  pub slug_for : Text → Text
  pub keyfunc_for : Text → Text → S → Auth K × S

-- What the outside answers during one call: the customer table, and the key sets that URLs serve.
pub record Outside (K : Type 0) : Type 0 where
  pub is_vm_customer : Text → Auth Bool
  pub new_keyfunc : Text → Auth K

abbrev pub jwks_url : Text → Text
jwks_url iss = iss ++ codes "/.well-known/jwks"

module _ {K : Type 0} where
  -- The second critical section of `keyfuncFor`: a key that another call has stored wins.
  abbrev pub stored_key : Text → K → Option K → Map K → Auth K × Map K
  stored_key iss k (some existing) cache = (ok existing, cache)
  stored_key iss k none cache = (ok k, insert iss k cache)

  unfoldable pub store_key : Text → K → Map K → Auth K × Map K
  unfolding lookup insert
  store_key iss k cache = stored_key iss k (lookup iss cache) cache

  abbrev pub store_fetched : Text → Auth K → Map K → Auth K × Map K
  store_fetched iss (ok k) cache = store_key iss k cache
  store_fetched iss (err e) cache = (err e, cache)

  abbrev pub fetch_for : Outside K → Text → Auth Bool → Auth K
  fetch_for out iss (ok is_vm) =
      if not is_vm then err unknown_issuer else out.new_keyfunc (jwks_url iss)
  fetch_for out iss (err e) = err e

  -- `meanwhile` is what other calls do to the cache while this one asks outside.
  abbrev pub keyfunc_with :
      Outside K → (Map K → Map K) → Text → Text → Option K → Map K → Auth K × Map K
  keyfunc_with out meanwhile iss slug (some k) cache = (ok k, cache)
  keyfunc_with out meanwhile iss slug none cache =
      store_fetched iss (fetch_for out iss (out.is_vm_customer slug)) (meanwhile cache)

  unfoldable pub keyfunc_for : Outside K → (Map K → Map K) → Text → Text → Map K → Auth K × Map K
  unfolding store_key lookup
  keyfunc_for out meanwhile iss slug cache =
      keyfunc_with out meanwhile iss slug (lookup iss cache) cache

  -- `BoxIssuerTrust`; an empty base domain makes no anchor (`NewBoxIssuerTrust`).
  abbrev pub box_issuer_trust : Text → Outside K → (Map K → Map K) → Option (BoxTrust K (Map K))
  box_issuer_trust base_domain out meanwhile =
      if is_empty base_domain
      then none
      else some (record {
        slug_for = slug_for_issuer base_domain;
        keyfunc_for = keyfunc_for out meanwhile;
      })

pub record PinnedBoxTrust (K : Type 0) : Type 0 where
  pub issuer : Text
  pub slug : Text
  pub kf : K

-- `NewPinnedBoxTrust`
abbrev pub new_pinned_box_trust : {K : Type 0} → Text → Text → K → PinnedBoxTrust K
new_pinned_box_trust issuer slug jwks = record { issuer = issuer; slug = slug; kf = jwks }

module _ {K : Type 0} where
  unfoldable pub pinned_slug_for_issuer : PinnedBoxTrust K → Text → Text
  unfolding same
  pinned_slug_for_issuer p iss =
      if is_empty iss then [] else if not (same iss p.issuer) then [] else p.slug

  abbrev pub pinned_box_trust : {S : Type 0} → PinnedBoxTrust K → BoxTrust K S
  pinned_box_trust p = record {
    slug_for = pinned_slug_for_issuer p;
    keyfunc_for = λ iss slug s. (ok p.kf, s);
  }
