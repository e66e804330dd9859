-- ===== src/Schema/Extensions.antt =====
-- workspace/pipeline_schema.go: what loadList makes of the extensions that a duckdb config names.
use workspace_api.Base.{
  ◌≡◌, refl, ap, subst, ◌∙◌, Bool, true, false, not, ◌&&◌, ◌||◌, List, [], ◌∷◌, ◌++◌, Text, codes,
  All, same, same→eq, same_sym, mem, mem-append, is_empty, ok, err, ok-inj, arith, if◌then◌else◌,
}
use workspace_api.Schema.Types.{at, invalid_config, Check, no_items, DuckDbConfig}
use workspace_api.Schema.DuckDb.{
  duckdb_extension_allowlist, is_ident, add_name, load_names, load_list, has_extension,
}

abbrev pub AreDistinct : List Text → Type 0
AreDistinct [] = Unit {0}
AreDistinct (x ∷ xs) = (mem x xs ≡ false) × AreDistinct xs

abbrev pub AreSupported : List Text → Type 0
AreSupported names = All (λ n. mem n duckdb_extension_allowlist ≡ true) names

AreDistinct-append :
    (n : Text) (xs : List Text) → AreDistinct xs → mem n xs ≡ false → AreDistinct (xs ++ n ∷ [])
unfolding mem
AreDistinct-append n [] d h = (refl, tt)
AreDistinct-append n (x ∷ xs) d h =
    let (apart, rest) = or_false (same x n) (mem n xs) h in
    (
      mem-append x xs (n ∷ []) ∙ rw (d.0, same_sym n x ∙ apart) refl,
      AreDistinct-append n xs d.1 rest,
    )
  where
    or_false : (a b : Bool) → (a || b) ≡ false → (a ≡ false) × (b ≡ false)
    or_false true b k = cc
    or_false false b k = (refl, k)

AreSupported-append :
    (n : Text) (xs : List Text)
    → AreSupported xs
    → mem n duckdb_extension_allowlist ≡ true
    → AreSupported (xs ++ n ∷ [])
AreSupported-append n [] s h = (h, tt)
AreSupported-append n (x ∷ xs) s h = (s.0, AreSupported-append n xs s.1 h)

-- What the loop keeps true of the names that are out, when it goes on with more of them.
abbrev Extends : List Text → List Text → List Text → Type 0
Extends out names r =
    ((x : Text) → mem x r ≡ (mem x out || mem x names))
    × (AreDistinct out → AreDistinct r)
    × (AreSupported out → AreSupported r)

add_name-Extends :
    (n : Text) (out : List Text)
    → mem n duckdb_extension_allowlist ≡ true
    → Extends out (n ∷ []) (add_name n out)
unfolding mem
add_name-Extends n out allowed = by_seen (mem n out) refl
  where
    absorbed :
        (x : Text) (b : Bool)
        → same n x ≡ b
        → mem n out ≡ true
        → mem x out ≡ (mem x out || (b || false))
    absorbed x true e m = cc (same→eq n x e)
    absorbed x false e m = ground arith

    by_seen : (b : Bool) → mem n out ≡ b → Extends out (n ∷ []) (if b then out else out ++ n ∷ [])
    by_seen true e = (λ x. absorbed x (same n x) refl e, λ d. d, λ s. s)
    by_seen false e = (
      λ x. mem-append x out (n ∷ []),
      λ d. AreDistinct-append n out d e,
      λ s. AreSupported-append n out s allowed,
    )

Extends-trans :
    (n : Text) (a b r names : List Text)
    → Extends a (n ∷ []) b
    → Extends b names r
    → Extends a (n ∷ names) r
unfolding mem
Extends-trans n a b r names (m, d, s) (m2, d2, s2) = (
  λ x. m2 x ∙ (ap (λ t. t || mem x names) (m x) ∙ assoc (mem x a) (same n x) (mem x names)),
  λ k. d2 (d k),
  λ k. s2 (s k),
)
  where
    assoc : (p q t : Bool) → ((p || (q || false)) || t) ≡ (p || (q || t))
    assoc true q t = refl
    assoc false true t = refl
    assoc false false t = refl

load_names-Extends : (out names r : List Text) → load_names out names ≡ ok r → Extends out names r
unfolding load_names
load_names-Extends out [] r h =
    subst (Extends out []) (ok-inj h) (λ x. or_none (mem x out), λ d. d, λ s. s)
  where
    or_none : (b : Bool) → b ≡ (b || false)
    or_none true = refl
    or_none false = refl
load_names-Extends out (n ∷ names) r h =
    by_tests (is_ident n) (mem n duckdb_extension_allowlist) refl refl h
      (load_names-Extends (add_name n out) names r)
  where
    by_tests :
        (b1 b2 : Bool)
        → is_ident n ≡ b1
        → mem n duckdb_extension_allowlist ≡ b2
        → ◌≡◌ {A = Check (List Text)}
            (if not b1
              then err (invalid_config (at (codes "extension")))
              else if not b2
              then err (invalid_config (at (codes "extension")))
              else load_names (add_name n out) names)
            (ok r)
        → (load_names (add_name n out) names ≡ ok r → Extends (add_name n out) names r)
        → Extends out (n ∷ names) r
    by_tests false b2 e f k ih = cc
    by_tests true false e f k ih = cc
    by_tests true true e f k ih =
        Extends-trans n out (add_name n out) r names (add_name-Extends n out f) (ih k)

abbrev Loaded : Text → List Text → Text → List Text → Type 0
Loaded e es x out =
    (mem x out ≡ (if same e x then true else mem x es)) × AreDistinct out × AreSupported out

loaded : (names out : List Text) → load_names [] names ≡ ok out → Extends [] names out
loaded names out h = load_names-Extends [] names out h

by_form :
    (e : Text) (es out : List Text) (x : Text)
    → ◌≡◌ {A = Check (List Text)}
        (if not (is_empty e) && not (no_items es)
          then err (invalid_config (at (codes "extensions")))
          else if no_items (if not (is_empty e) then e ∷ [] else es)
          then err (invalid_config (at (codes "extension")))
          else load_names [] (if not (is_empty e) then e ∷ [] else es))
        (ok out)
    → is_empty x ≡ false
    → Loaded e es x out
unfolding mem same
by_form [] [] out x h full = cc
by_form [] (n ∷ es) out [] h full = cc
by_form [] (n ∷ es) out (d ∷ x) h full =
    let (m, distinct, supported) = loaded (n ∷ es) out h in (m (d ∷ x), distinct tt, supported tt)
by_form (a ∷ e) [] out x h full =
    let (m, distinct, supported) = loaded ((a ∷ e) ∷ []) out h in
    (m x ∙ one (same (a ∷ e) x), distinct tt, supported tt)
  where
    one : (b : Bool) → (b || false) ≡ (if b then true else false)
    one true = refl
    one false = refl
by_form (a ∷ e) (n ∷ es) out x h full = cc

-- The list of extensions that a config loads names each exactly once, names only supported ones, and
-- has an extension exactly if the config names it in either form.
pub load_list-has_extension :
    (c : DuckDbConfig) (out : List Text) (x : Text)
    → load_list c ≡ ok out
    → is_empty x ≡ false
    → (mem x out ≡ has_extension c x) × AreDistinct out × AreSupported out
unfolding load_list has_extension
load_list-has_extension c out x h full = by_form c.extension c.extensions out x h full
