-- ===== src/Poll/Cache.antt =====
-- workspace/pipeline.go: the caches of oauthClientResolver over a batch of pipelines.
use workspace_api.Base.{
  ◌≡◌, refl, ap, sym, subst, ◌∙◌, Bool, true, false, not, Option, none, some, List, [], ◌∷◌, Text,
  codes, same, same→eq, lookup, insert, lookup-insert, map, Result, ok, err, if◌then◌else◌, or_else,
  is_some,
}
use workspace_api.Model.{Pipeline}
use workspace_api.Schema.Google.{is_google_oauth_source_type, google_connection_ref}
use workspace_api.Schema.Drive.{some-eq}
use workspace_api.Poll.Resolver.{
  Connection, GoogleConnectionCredentials, Stores, Resolver, new_resolver, of_connection, cached,
  resolved_creds, resolve_ref, resolve_connection_credential, with_pair, fetch_pair, load,
  inject_loaded, inject_resolved, inject,
}

-- A batch, all of it with one resolver, as every caller has it.
unfoldable pub inject_each : Stores → List Pipeline → Resolver → List (Option Text)
unfolding inject
inject_each s [] r = []
inject_each s (p ∷ ps) r = let (out, t) = inject s p r in out ∷ inject_each s ps t

module _ (s : Stores) where
  abbrev pair : Resolver → Text × Text
  pair r = (r.client_id, r.client_secret)

  resolved-with_pair :
      (a : Result (Text × Text)) (r : Resolver) → (with_pair s a r).resolved ≡ r.resolved
  resolved-with_pair (err e) r = refl
  resolved-with_pair (ok (id, secret)) r = refl

  resolved-load : (r : Resolver) → (load s r).resolved ≡ true
  unfolding load
  resolved-load r = by_test r.resolved refl
    where
      by_clients :
          (c : Option (Text → Text → Result (Text × Text)))
          → (fetch_pair s c (record r { resolved = true })).resolved ≡ true
      by_clients none = refl
      by_clients (some get) =
          resolved-with_pair (get s.customer_slug (codes "google")) (record r { resolved = true })

      by_test :
          (b : Bool)
          → r.resolved ≡ b
          → (if b then r else fetch_pair s s.clients (record r { resolved = true })).resolved ≡ true
      by_test true e = e
      by_test false e = by_clients s.clients

  load_resolved : (r : Resolver) → r.resolved ≡ true → load s r ≡ r
  unfolding load
  load_resolved r h = rw h refl

  load_again : (r : Resolver) → load s (load s r) ≡ load s r
  load_again r = load_resolved (load s r) (resolved-load r)

  -- What is cached of connections has no part in the pair.
  abbrev cache_of : Resolver → List (Text × Option GoogleConnectionCredentials)
  cache_of r = r.conn_cache

  pair-load_cache :
      (r : Resolver) (m : List (Text × Option GoogleConnectionCredentials))
      → pair (load s (record r { conn_cache = m })) ≡ pair (load s r)
  unfolding load
  pair-load_cache r m = by_parts r.resolved s.clients
    where
      by_parts :
          (b : Bool) (c : Option (Text → Text → Result (Text × Text)))
          → pair (
              if b
              then record r { conn_cache = m }
              else fetch_pair s c (record r { conn_cache = m; resolved = true }))
            ≡ pair (if b then r else fetch_pair s c (record r { resolved = true }))
      by_parts true c = refl
      by_parts false none = refl
      by_parts false (some get) = by_answer (get s.customer_slug (codes "google"))
        where
          by_answer :
              (a : Result (Text × Text))
              → pair (with_pair s a (record r { conn_cache = m; resolved = true }))
                ≡ pair (with_pair s a (record r { resolved = true }))
          by_answer (err e) = refl
          by_answer (ok (id, secret)) = refl

  conn_cache-load : (r : Resolver) → (load s r).conn_cache ≡ r.conn_cache
  unfolding load
  conn_cache-load r = by_parts r.resolved s.clients
    where
      by_parts :
          (b : Bool) (c : Option (Text → Text → Result (Text × Text)))
          → (if b then r else fetch_pair s c (record r { resolved = true })).conn_cache
            ≡ r.conn_cache
      by_parts true c = refl
      by_parts false none = refl
      by_parts false (some get) = by_answer (get s.customer_slug (codes "google"))
        where
          by_answer :
              (a : Result (Text × Text))
              → (with_pair s a (record r { resolved = true })).conn_cache ≡ r.conn_cache
          by_answer (err e) = refl
          by_answer (ok (id, secret)) = refl

  -- A resolver that has of the client and of the connections what a new one would look up.
  record Agrees (r : Resolver) : Type 0 where
    same_pair : pair (load s r) ≡ pair (load s new_resolver)
    same_cache :
        (id : Text) (gc : Option GoogleConnectionCredentials)
        (get : Text → Text → Result Connection)
        → s.connections ≡ some get
        → lookup id r.conn_cache ≡ some gc
        → gc ≡ of_connection s (get s.customer_slug id)

  new_resolver-Agrees : Agrees new_resolver
  unfolding lookup
  new_resolver-Agrees = record { same_pair = refl; same_cache = λ id gc get e h. cc }

  load-Agrees : (r : Resolver) → Agrees r → Agrees (load s r)
  load-Agrees r a = record {
    same_pair = ap (λ t. pair t) (load_again r) ∙ a.same_pair;
    same_cache = λ id gc get e h.
        a.same_cache id gc get e (subst (λ m. lookup id m ≡ some gc) (conn_cache-load r) h);
  }

  insert-Agrees :
      (r : Resolver) (id : Text) (get : Text → Text → Result Connection)
      → s.connections ≡ some get
      → Agrees r
      → Agrees (record r {
        conn_cache = insert id (of_connection s (get s.customer_slug id)) r.conn_cache;
      })
  insert-Agrees r id get e a = record {
    same_pair = pair-load_cache r _ ∙ a.same_pair;
    same_cache = λ j gc get' e' h.
        by_test j gc get' e' (same id j) refl (sym (lookup-insert id j _ r.conn_cache) ∙ h);
  }
    where
      by_test :
          (j : Text) (gc : Option GoogleConnectionCredentials)
          (other_get : Text → Text → Result Connection)
          → s.connections ≡ some other_get
          → (b : Bool) → same id j ≡ b
          → (if b then some (of_connection s (get s.customer_slug id)) else lookup j r.conn_cache)
            ≡ some gc
          → gc ≡ of_connection s (other_get s.customer_slug j)
      by_test j gc other_get e' true f h =
          let k : of_connection s (get s.customer_slug id) ≡ gc = some-eq h in
          let g : get ≡ other_get = some-eq (sym e ∙ e') in
          sym k
          ∙ ap (λ i. of_connection s (get s.customer_slug i)) (same→eq id j f)
          ∙ ap (λ x. of_connection s (x s.customer_slug j)) g
      by_test j gc other_get e' false f h = a.same_cache j gc other_get e' h

  resolve_ref-Agrees :
      (ref : Option Text) (c : Option (Text → Text → Result Connection)) (source_type raw : Text)
      (r : Resolver)
      → s.connections ≡ c
      → Agrees r
      → ((resolve_ref s ref c source_type raw r).0
          ≡ (resolve_ref s ref c source_type raw new_resolver).0)
        × Agrees (resolve_ref s ref c source_type raw r).1
  unfolding lookup
  resolve_ref-Agrees none c source_type raw r e a = (refl, a)
  resolve_ref-Agrees (some id) none source_type raw r e a = (refl, a)
  resolve_ref-Agrees (some id) (some get) source_type raw r e a =
      by_cached (lookup id r.conn_cache) refl
    where
      by_cached :
          (o : Option (Option GoogleConnectionCredentials))
          → lookup id r.conn_cache ≡ o
          → (resolved_creds s source_type raw
                (cached s o id (of_connection s (get s.customer_slug id)) r).0
              ≡ resolved_creds s source_type raw (of_connection s (get s.customer_slug id)))
            × Agrees (cached s o id (of_connection s (get s.customer_slug id)) r).1
      by_cached none f = (refl, insert-Agrees r id get e a)
      by_cached (some gc) f =
          (ap (resolved_creds s source_type raw) (a.same_cache id gc get e f), a)

  inject-Agrees :
      (p : Pipeline) (r : Resolver)
      → Agrees r
      → ((inject s p r).0 ≡ (inject s p new_resolver).0) × Agrees (inject s p r).1
  unfolding inject resolve_connection_credential
  inject-Agrees p r a = by_test (is_google_oauth_source_type p.source_type)
    where
      ref : Option Text
      ref = google_connection_ref s.json p.source_type p.source_credentials

      creds : Resolver → Option Text × Resolver
      creds t = resolve_connection_credential s p.source_type p.source_credentials t

      loaded : Option Text → Text × Text → Option Text
      loaded o t =
          inject_loaded s p.source_type (or_else o p.source_credentials) (is_some o) t.0 t.1

      creds-Agrees :
          (t : Resolver) → Agrees t → ((creds t).0 ≡ (creds new_resolver).0) × Agrees (creds t).1
      creds-Agrees t b =
          resolve_ref-Agrees ref s.connections p.source_type p.source_credentials t refl b

      by_test :
          (b : Bool)
          → ((if not b
                then (none, r)
                else inject_resolved s p.source_type p.source_credentials (creds r)).0
              ≡ (if not b
                  then (none, new_resolver)
                  else inject_resolved s p.source_type p.source_credentials (creds new_resolver)).0)
            × Agrees
                (if not b
                  then (none, r)
                  else inject_resolved s p.source_type p.source_credentials (creds r)).1
      by_test false = (refl, a)
      by_test true =
          let (out, agrees) = creds-Agrees r a in
          let (_, fresh) = creds-Agrees new_resolver new_resolver-Agrees in
          (
            ap (loaded (creds r).0) (agrees.same_pair ∙ sym fresh.same_pair)
                ∙ ap (λ o. loaded o (pair (load s (creds new_resolver).1))) out,
            load-Agrees (creds r).1 agrees,
          )

  inject_each-map :
      (ps : List Pipeline) (r : Resolver)
      → Agrees r
      → inject_each s ps r ≡ map (λ p. (inject s p new_resolver).0) ps
  unfolding inject_each
  inject_each-map [] r a = refl
  inject_each-map (p ∷ ps) r a =
      let (out, agrees) = inject-Agrees p r a in
      cc (out, inject_each-map ps (inject s p r).1 agrees)

-- With its caches, that fill up while a batch is served, the resolver gives every pipeline the credential
-- that a new resolver would give it alone: the order and the other pipelines of the batch do not matter.
pub inject_each-cached :
    (s : Stores) (ps : List Pipeline)
    → inject_each s ps new_resolver ≡ map (λ p. (inject s p new_resolver).0) ps
inject_each-cached s ps = inject_each-map s ps new_resolver (new_resolver-Agrees s)
