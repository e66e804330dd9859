-- ===== src/Schema/Params.antt =====
-- workspace/pipeline_schema.go: the parameters that validateDuckDBAttachParams asks for.
use workspace_api.Base.{
  ◌≡◌, refl, sym, subst, ◌∙◌, Bool, true, false, not, ◌&&◌, ◌||◌, ◌⊎◌, inl, inr, List, [], ◌∷◌,
  ◌++◌, Text, codes, same, same→eq, same_refl, mem, mem-append, is_some, Map, lookup, ok, err,
  if◌then◌else◌,
}
use workspace_api.Schema.Types.{SchemaError, at, invalid_credentials, Check, no_items}
use workspace_api.Schema.DuckDb.{placeholders, missing_params, validate_duckdb_attach_params}
use workspace_api.Schema.Placeholders.{IsPlaceholder, placeholders-found, found-placeholders}

-- Nothing is missing: nothing was before, and the parameters have each of the names.
missing_params_none :
    (params : Map Text) (missing names : List Text) (name : Text)
    → no_items (missing_params params missing names) ≡ true
    → (no_items missing ≡ true) × (mem name names ≡ true → is_some (lookup name params) ≡ true)
unfolding missing_params mem
missing_params_none params missing [] name h = (h, λ m. cc)
missing_params_none params missing (x ∷ names) name h =
    by_tests (is_some (lookup x params)) (mem x missing) (same x name) refl refl refl (
      missing_params_none params
        (if not (is_some (lookup x params)) && not (mem x missing)
          then missing ++ x ∷ []
          else missing)
        names name h)
  where
    seen : (ms : List Text) → mem x ms ≡ true → no_items ms ≡ true → ⊥
    seen [] e k = subst (λ b. if b then ⊥ else Unit {0}) e tt
    seen (m ∷ ms) e k = subst (λ b. if b then ⊥ else Unit {0}) k tt

    added : (ms : List Text) → no_items (ms ++ x ∷ []) ≡ true → ⊥
    added [] k = subst (λ b. if b then ⊥ else Unit {0}) k tt
    added (m ∷ ms) k = subst (λ b. if b then ⊥ else Unit {0}) k tt

    by_name :
        (b : Bool)
        → same x name ≡ b
        → is_some (lookup x params) ≡ true
        → (mem name names ≡ true → is_some (lookup name params) ≡ true)
        → (b || mem name names) ≡ true
        → is_some (lookup name params) ≡ true
    by_name true e bound ih k =
        subst (λ n. is_some (lookup n params) ≡ true) (same→eq x name e) bound
    by_name false e bound ih k = ih k

    by_tests :
        (b1 b2 b3 : Bool)
        → is_some (lookup x params) ≡ b1
        → mem x missing ≡ b2
        → same x name ≡ b3
        → (no_items (if not b1 && not b2 then missing ++ x ∷ [] else missing) ≡ true)
          × (mem name names ≡ true → is_some (lookup name params) ≡ true)
        → (no_items missing ≡ true)
          × ((b3 || mem name names) ≡ true → is_some (lookup name params) ≡ true)
    by_tests true b2 b3 e f g (k, ih) = (k, by_name b3 g e ih)
    by_tests false true b3 e f g (k, ih) = absurd (seen missing f k)
    by_tests false false b3 e f g (k, ih) = absurd (added missing k)

-- What is missing was missing before, or is one of the names that the parameters do not have.
missing_params_some :
    (params : Map Text) (missing names : List Text) (name : Text)
    → mem name (missing_params params missing names) ≡ true
    → (mem name missing ≡ true) ⊎ ((mem name names ≡ true) × (is_some (lookup name params) ≡ false))
unfolding missing_params mem
missing_params_some params missing [] name h = inl h
missing_params_some params missing (x ∷ names) name h =
    by_tests (is_some (lookup x params)) (mem x missing) (same x name) refl refl refl (
      missing_params_some params
        (if not (is_some (lookup x params)) && not (mem x missing)
          then missing ++ x ∷ []
          else missing)
        names name h)
  where
    later : (b : Bool) → mem name names ≡ true → (b || mem name names) ≡ true
    later true m = refl
    later false m = m

    by_tests :
        (b1 b2 b3 : Bool)
        → is_some (lookup x params) ≡ b1
        → mem x missing ≡ b2
        → same x name ≡ b3
        → (mem name (if not b1 && not b2 then missing ++ x ∷ [] else missing) ≡ true)
          ⊎ ((mem name names ≡ true) × (is_some (lookup name params) ≡ false))
        → (mem name missing ≡ true)
          ⊎ (((b3 || mem name names) ≡ true) × (is_some (lookup name params) ≡ false))
    by_tests b1 b2 b3 e f g (inr (m, unbound)) = inr (later b3 m, unbound)
    by_tests true b2 b3 e f g (inl m) = inl m
    by_tests false true b3 e f g (inl m) = inl m
    by_tests false false true e f g (inl m) =
        inr (refl, subst (λ n. is_some (lookup n params) ≡ false) (same→eq x name g) e)
    by_tests false false false e f g (inl m) =
        inl (without (mem name missing) (sym (mem-append name missing (x ∷ [])) ∙ m) g)
      where
        without : (b : Bool) → (b || (same x name || false)) ≡ true → same x name ≡ false → b ≡ true
        without true k e = refl
        without false k e = rw e at k

head_mem : (m : Text) (ms : List Text) → mem m (m ∷ ms) ≡ true
unfolding mem
head_mem m ms = rw (same_refl m)

empty_mem : (m : Text) → mem m [] ≡ true → ⊥
unfolding mem
empty_mem m h = subst (λ b. if b then ⊥ else Unit {0}) h tt

-- Credentials are accepted for an attach template only if their parameters have every name that the
-- template has in braces.
pub validate_duckdb_attach_params-filled :
    (attach : Text) (params : Map Text) (name : Text)
    → validate_duckdb_attach_params attach params ≡ ok tt
    → IsPlaceholder attach name
    → is_some (lookup name params) ≡ true
unfolding validate_duckdb_attach_params
validate_duckdb_attach_params-filled attach params name h (a, b, shape, n) =
    let found =
      subst (λ t. mem name (placeholders t) ≡ true) (sym shape) (placeholders-found a name b n) in
    (missing_params_none params [] (placeholders attach) name
        (by_test (no_items (missing_params params [] (placeholders attach))) h)).1
      found
  where
    by_test :
        (b1 : Bool)
        → ◌≡◌ {A = Check (Unit {0})}
            (if b1 then ok tt else err (invalid_credentials (at (codes "attach_params"))))
            (ok tt)
        → b1 ≡ true
    by_test true k = refl
    by_test false k = cc

-- Parameters are refused for an attach template only if the template has a name in braces that they do
-- not have.
pub validate_duckdb_attach_params-missing :
    (attach : Text) (params : Map Text) (e : SchemaError)
    → validate_duckdb_attach_params attach params ≡ err e
    → (name : Text) × IsPlaceholder attach name × (is_some (lookup name params) ≡ false)
unfolding validate_duckdb_attach_params
validate_duckdb_attach_params-missing attach params e h =
    by_missing (missing_params params [] (placeholders attach)) refl h
  where
    by_missing :
        (ms : List Text)
        → missing_params params [] (placeholders attach) ≡ ms
        → ◌≡◌ {A = Check (Unit {0})}
            (if no_items ms then ok tt else err (invalid_credentials (at (codes "attach_params"))))
            (err e)
        → (name : Text) × IsPlaceholder attach name × (is_some (lookup name params) ≡ false)
    by_missing [] k r = cc
    by_missing (m ∷ ms) k r = by_origin (
        missing_params_some params [] (placeholders attach) m
          (subst (λ xs. mem m xs ≡ true) (sym k) (head_mem m ms)))
      where
        by_origin :
            (mem m [] ≡ true)
              ⊎ ((mem m (placeholders attach) ≡ true) × (is_some (lookup m params) ≡ false))
            → (name : Text) × IsPlaceholder attach name × (is_some (lookup name params) ≡ false)
        by_origin (inl none_there) = absurd (empty_mem m none_there)
        by_origin (inr (found, unbound)) = (m, found-placeholders attach m found, unbound)
