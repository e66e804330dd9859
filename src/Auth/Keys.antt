-- ===== src/Auth/Keys.antt =====
-- core/auth.go: the cache of BoxIssuerTrust, whatever the order in which requests read and write it.
use workspace_api.Base.{
  ◌≡◌, refl, ap, sym, subst, ◌∙◌, Bool, true, false, Option, none, some, or_else, [], Text, same,
  same→eq, Bool-cases, inl, inr, Map, lookup, insert, lookup-insert, ok, err, ok-inj,
}
use workspace_api.Auth.Jwt.{Auth}
use workspace_api.Auth.Issuer.{slug_for_issuer}
use workspace_api.Auth.Trust.{
  Outside, jwks_url, stored_key, store_key, store_fetched, fetch_for, keyfunc_with, keyfunc_for,
}

-- `IsVm slug`: the customer table has said so. `Serves url k`: the URL has served the key.
module _ {K : Type 0} (base_domain : Text) (IsVm : Text → Type 0) (Serves : Text → K → Type 0) where
  -- What the outside answers during one call was said.
  pub record IsHonest (out : Outside K) : Type 0 where
    pub vm : (slug : Text) → out.is_vm_customer slug ≡ ok true → IsVm slug
    pub serves : (url : Text) (k : K) → out.new_keyfunc url ≡ ok k → Serves url k

  -- The key of an issuer: its slug is a customer with a box, and its own URL served the key.
  abbrev pub IsTrusted : Text → K → Type 0
  IsTrusted iss k = IsVm (slug_for_issuer base_domain iss) × Serves (jwks_url iss) k

  -- One call's second critical section.
  pub data Step (cache next : Map K) : Type 0 where
    store :
        (iss : Text) (k : K) → IsTrusted iss k → next ≡ (store_key iss k cache).1 → Step cache next

  pub data Reach : Map K → Type 0 where
    start : Reach []
    more : {cache next : Map K} → Reach cache → Step cache next → Reach next

  abbrev HasTrusted : Map K → Type 0
  HasTrusted cache = (iss : Text) (k : K) → lookup iss cache ≡ some k → IsTrusted iss k

  HasTrusted-insert :
      (iss : Text) (k : K) (cache : Map K)
      → IsTrusted iss k
      → HasTrusted cache
      → HasTrusted (insert iss k cache)
  HasTrusted-insert iss k cache t all j v h = elim (Bool-cases (same iss j)) [
    | inl e ↦
        let found = sym (lookup-insert iss j k cache) ∙ h in
        let same_key : k ≡ v = ap (λ o. or_else o k) (rw e at found) in
        subst (λ i. IsTrusted i v) (same→eq iss j e) (subst (IsTrusted iss) same_key t)
    | inr e ↦ let found = sym (lookup-insert iss j k cache) ∙ h in all j v (rw e at found)
  ]

  HasTrusted-store_key :
      (iss : Text) (k : K) (cache : Map K)
      → IsTrusted iss k
      → HasTrusted cache
      → HasTrusted (store_key iss k cache).1
  unfolding store_key
  HasTrusted-store_key iss k cache t all = by_old (lookup iss cache)
    where
      by_old : (o : Option K) → HasTrusted (stored_key iss k o cache).1
      by_old (some old) = all
      by_old none = HasTrusted-insert iss k cache t all

  -- Every key in the cache is trusted, in every state that calls can reach.
  pub Reach-trusted : {cache : Map K} → Reach cache → HasTrusted cache
  unfolding lookup
  Reach-trusted start iss k h = cc
  Reach-trusted (more {cache} r (store j v t e)) iss k h =
      subst HasTrusted (sym e) (HasTrusted-store_key j v cache t (Reach-trusted r)) iss k h

  -- The result of a call: the cache is one that calls can reach, the key is trusted.
  abbrev IsGood : Text → Auth K × Map K → Type 0
  IsGood iss r = Reach r.1 × ((k : K) → r.0 ≡ ok k → IsTrusted iss k)

  stored_key-IsGood :
      (iss : Text) (k : K) (cache : Map K) (o : Option K)
      → IsTrusted iss k
      → Reach cache
      → lookup iss cache ≡ o
      → IsGood iss (stored_key iss k o cache)
  unfolding store_key
  stored_key-IsGood iss k cache (some old) t r e =
      (r, λ v h. subst (IsTrusted iss) (ok-inj h) (Reach-trusted r iss old e))
  stored_key-IsGood iss k cache none t r e = (
    more r (store iss k t (ap (λ o. (stored_key iss k o cache).1) (sym e))),
    λ v h. subst (IsTrusted iss) (ok-inj h) t,
  )

  store_fetched-IsGood :
      (out : Outside K) (iss : Text) (cache : Map K)
      → IsHonest out
      → Reach cache
      → IsGood iss (
          store_fetched iss
            (fetch_for out iss (out.is_vm_customer (slug_for_issuer base_domain iss)))
            cache)
  unfolding store_key
  store_fetched-IsGood out iss cache honest r = by_customer (out.is_vm_customer slug) refl
    where
      slug : Text
      slug = slug_for_issuer base_domain iss

      by_key :
          (f : Auth K)
          → IsVm slug
          → out.new_keyfunc (jwks_url iss) ≡ f
          → IsGood iss (store_fetched iss f cache)
      by_key (ok k) vm e =
          stored_key-IsGood iss k cache (lookup iss cache) (vm, honest.serves (jwks_url iss) k e) r
            refl
      by_key (err x) vm e = (r, λ k h. cc)

      by_customer :
          (a : Auth Bool)
          → out.is_vm_customer slug ≡ a
          → IsGood iss (store_fetched iss (fetch_for out iss a) cache)
      by_customer (ok true) e = by_key (out.new_keyfunc (jwks_url iss)) (honest.vm slug e) refl
      by_customer (ok false) e = (r, λ k h. cc)
      by_customer (err x) e = (r, λ k h. cc)

  pub keyfunc_for-IsGood :
      (out : Outside K) (meanwhile : Map K → Map K) (iss : Text) (cache : Map K)
      → IsHonest out
      → ((c : Map K) → Reach c → Reach (meanwhile c))
      → Reach cache
      → IsGood iss (keyfunc_for out meanwhile iss (slug_for_issuer base_domain iss) cache)
  unfolding keyfunc_for
  keyfunc_for-IsGood out meanwhile iss cache honest others r = by_cached (lookup iss cache) refl
    where
      by_cached :
          (o : Option K)
          → lookup iss cache ≡ o
          → IsGood iss (keyfunc_with out meanwhile iss (slug_for_issuer base_domain iss) o cache)
      by_cached (some k) e = (r, λ v h. subst (IsTrusted iss) (ok-inj h) (Reach-trusted r iss k e))
      by_cached none e = store_fetched-IsGood out iss (meanwhile cache) honest (others cache r)

  -- The key that a call gets for an issuer is one that the issuer's own URL served, and the issuer's
  -- slug is a customer with a box, also when other calls write to the cache while this one asks; and
  -- the cache stays one that such calls can reach.
  pub keyfunc_for-IsTrusted :
      (out : Outside K) (meanwhile : Map K → Map K) (iss : Text) (cache cache' : Map K) (k : K)
      → IsHonest out
      → ((c : Map K) → Reach c → Reach (meanwhile c))
      → Reach cache
      → keyfunc_for out meanwhile iss (slug_for_issuer base_domain iss) cache ≡ (ok k, cache')
      → IsTrusted iss k × Reach cache'
  keyfunc_for-IsTrusted out meanwhile iss cache cache' k honest others r h =
      let (reached, trusted) = keyfunc_for-IsGood out meanwhile iss cache honest others r in
      (trusted k (ap (λ z. z.0) h), subst (λ z. Reach z.1) h reached)
