-- ===== src/Schema/Dialect.antt =====
-- workspace/pipeline_schema.go: the connection strings that validateSQLDatabaseDialect accepts.
use workspace_api.Base.{
  ℕ, ◌≡◌, ◌↔◌, refl, ap, sym, subst, ◌∙◌, Bool, true, false, not, ◌&&◌, ◌==◌, Bool-cases, ◌⊎◌,
  and_parts, inl, inr, Option, none, some, List, [], ◌∷◌, ◌++◌, Text, codes, All, same, same→eq,
  mem, is_empty, or_else, ok, err, arith, if◌then◌else◌,
}
use workspace_api.Mirror.Slug.{lower}
use workspace_api.Schema.Types.{Check, at, invalid_credentials}
use workspace_api.Schema.Cut.{cut, append-cut, cut-append}
use workspace_api.Schema.Sources.{
  to_lower, dialect_driver, check_dialect, check_scheme, validate_sql_database_dialect,
}

-- PostgreSQL with no driver named, or with the one that the worker has.
abbrev pub postgres_schemes : List Text
postgres_schemes =
    codes "postgres"
    ∷ codes "postgresql"
    ∷ codes "postgres+"
    ∷ codes "postgresql+"
    ∷ codes "postgres+psycopg"
    ∷ codes "postgresql+psycopg"
    ∷ []

abbrev IsPostgresUrl : Text → Type 0
IsPostgresUrl s =
    (scheme : Text) × (rest : Text) × (s ≡ scheme ++ codes "://" ++ rest)
    × (mem (to_lower scheme) postgres_schemes ≡ true)

lower-colon : (c : ℕ) → (b':' == c) ≡ true → lower c ≡ b':'
unfolding lower
lower-colon c h = ground arith

-- No accepted scheme has a colon in it.
colonless : (s : Text) → Bool
colonless [] = true
colonless (c ∷ s) = not (c == b':') && colonless s

colonless_schemes : All (λ s. colonless s ≡ true) postgres_schemes
unfolding colonless
colonless_schemes = (refl, (refl, (refl, (refl, (refl, (refl, tt))))))

mem-All : (P : Text → Type 0) (k : Text) (xs : List Text) → All P xs → mem k xs ≡ true → P k
unfolding mem
mem-All P k [] h m = cc
mem-All P k (x ∷ xs) h m = elim (Bool-cases (same x k)) [
  | inl e ↦ subst P (same→eq x k e) h.0
  | inr e ↦ mem-All P k xs h.1 (rw e at m)
]

colonless_tail :
    (c : ℕ) (t : Text) → colonless (c ∷ t) ≡ true → (not (c == b':') ≡ true) × (colonless t ≡ true)
unfolding colonless
colonless_tail c t h = and_parts (not (c == b':')) (colonless t) h

colonless-All : (s : Text) → colonless (to_lower s) ≡ true → All (λ c. (b':' == c) ≡ false) s
unfolding to_lower
colonless-All [] h = tt
colonless-All (c ∷ s) h =
    let (plain, rest) = colonless_tail (lower c) (to_lower s) h in
    (unlike (b':' == c) refl plain, colonless-All s rest)
  where
    unlike : (b : Bool) → (b':' == c) ≡ b → not (lower c == b':') ≡ true → b ≡ false
    unlike true e k = cc (ap (λ x. not (x == b':')) (lower-colon c e))
    unlike false e k = refl

accepts_schemes :
    All
      (λ s. ◌≡◌ {A = Check (Unit {0})} (check_dialect (dialect_driver s)) (ok tt))
      postgres_schemes
unfolding dialect_driver cut same
accepts_schemes = (refl, (refl, (refl, (refl, (refl, (refl, tt))))))

from_url : (s : Text) → IsPostgresUrl s → validate_sql_database_dialect s ≡ ok tt
unfolding validate_sql_database_dialect
from_url s (scheme, rest, shape, accepted) =
    let clear = colonless-All scheme (
      mem-All (λ t. colonless t ≡ true) (to_lower scheme) postgres_schemes colonless_schemes
        accepted) in
    ap check_scheme (ap (cut (codes "://")) shape ∙ cut-append b':' (codes "//") scheme rest clear)
    ∙ mem-All (λ t. check_dialect (dialect_driver t) ≡ ok tt) (to_lower scheme) postgres_schemes
        accepts_schemes accepted

either_of : (t : Text) (x y : Text) → not (same t x) && not (same t y) ≡ false → (t ≡ x) ⊎ (t ≡ y)
either_of t x y h = by_tests (same t x) (same t y) refl refl h
  where
    by_tests :
        (b1 b2 : Bool)
        → same t x ≡ b1
        → same t y ≡ b2
        → not b1 && not b2 ≡ false
        → (t ≡ x) ⊎ (t ≡ y)
    by_tests true b2 e f k = inl (same→eq t x e)
    by_tests false true e f k = inr (same→eq t y f)
    by_tests false false e f k = cc

driver_of :
    (t : Text)
    → not (is_empty t) && not (same t (codes "psycopg")) ≡ false
    → (t ≡ []) ⊎ (t ≡ codes "psycopg")
driver_of [] h = inl refl
driver_of (c ∷ t) h =
    inr (same→eq (c ∷ t) (codes "psycopg") (by_test (same (c ∷ t) (codes "psycopg")) h))
  where
    by_test : (b : Bool) → not b ≡ false → b ≡ true
    by_test true k = refl
    by_test false k = cc

check_dialect-parts :
    (d v : Text)
    → check_dialect (d, v) ≡ ok tt
    → ((d ≡ codes "postgres") ⊎ (d ≡ codes "postgresql")) × ((v ≡ []) ⊎ (v ≡ codes "psycopg"))
check_dialect-parts d v h =
    by_tests (not (same d (codes "postgres")) && not (same d (codes "postgresql")))
      (not (is_empty v) && not (same v (codes "psycopg"))) refl refl h
  where
    by_tests :
        (b1 b2 : Bool)
        → not (same d (codes "postgres")) && not (same d (codes "postgresql")) ≡ b1
        → not (is_empty v) && not (same v (codes "psycopg")) ≡ b2
        → ◌≡◌ {A = Check (Unit {0})}
            (if b1
              then err (invalid_credentials (at (codes "connection_string")))
              else if b2
              then err (invalid_credentials (at (codes "connection_string")))
              else ok tt)
            (ok tt)
        → ((d ≡ codes "postgres") ⊎ (d ≡ codes "postgresql")) × ((v ≡ []) ⊎ (v ≡ codes "psycopg"))
    by_tests true b2 e f k = cc
    by_tests false true e f k = cc
    by_tests false false e f k =
        (either_of d (codes "postgres") (codes "postgresql") e, driver_of v f)

joined_scheme :
    (d v : Text)
    → ((d ≡ codes "postgres") ⊎ (d ≡ codes "postgresql")) × ((v ≡ []) ⊎ (v ≡ codes "psycopg"))
    → (mem d postgres_schemes ≡ true) × (mem (d ++ codes "+" ++ v) postgres_schemes ≡ true)
unfolding mem same
joined_scheme d v (inl e, inl f) = rw (e, f) (refl, refl)
joined_scheme d v (inl e, inr f) = rw (e, f) (refl, refl)
joined_scheme d v (inr e, inl f) = rw (e, f) (refl, refl)
joined_scheme d v (inr e, inr f) = rw (e, f) (refl, refl)

to_scheme : (l : Text) → check_dialect (dialect_driver l) ≡ ok tt → mem l postgres_schemes ≡ true
unfolding dialect_driver
to_scheme l h = by_cut (cut (codes "+") l) refl h
  where
    by_cut :
        (r : Option (Text × Text))
        → cut (codes "+") l ≡ r
        → check_dialect (or_else r (l, [])) ≡ ok tt
        → mem l postgres_schemes ≡ true
    by_cut none e k = (joined_scheme l [] (check_dialect-parts l [] k)).0
    by_cut (some (d, v)) e k =
        subst (λ t. mem t postgres_schemes ≡ true) (sym (append-cut (codes "+") l d v e))
          (joined_scheme d v (check_dialect-parts d v k)).1

to_url : (s : Text) → validate_sql_database_dialect s ≡ ok tt → IsPostgresUrl s
unfolding validate_sql_database_dialect
to_url s h = by_cut (cut (codes "://") s) refl h
  where
    by_cut :
        (r : Option (Text × Text))
        → cut (codes "://") s ≡ r
        → check_scheme r ≡ ok tt
        → IsPostgresUrl s
    by_cut none e k = cc
    by_cut (some (scheme, rest)) e k =
        (scheme, rest, append-cut (codes "://") s scheme rest e, to_scheme (to_lower scheme) k)

-- A connection string is accepted exactly if it is a URL whose scheme, in any case of its letters, is
-- that of PostgreSQL with no driver named or with psycopg.
pub validate_sql_database_dialect_iff :
    (s : Text) → (validate_sql_database_dialect s ≡ ok tt) ↔ IsPostgresUrl s
validate_sql_database_dialect_iff s = (to_url s, from_url s)
