-- ===== src/Mirror/Slug/Order.antt =====
-- workspace/pipelinemirror.go: slugs and the order of the pipelines, and when two slugs can be equal.
use workspace_api.Base.{
  or_else, ℕ, ◌≡◌, refl, ap, sym, ◌∙◌, true, false, List, [], ◌∷◌, ◌++◌, ◌⊎◌, length, suc, ◌≢◌,
  length-append, arith, Text, same_iff, same_sym, Option, some, if◌then◌else◌, has, find, lookup,
  ltb, Bool-cases, inl, inr,
}
use mathlib.Core.List.{Permᴰ, Perm}
use mathlib.Core.Logic.{∥∥₁_elim}
use workspace_api.Model.{Pipeline}
use workspace_api.Postgres.{has_id}
use workspace_api.Mirror.Slug.{pipeline_file_slugs, pipeline_file_slug, short_id}
use workspace_api.Mirror.Slug.Assign.{
  count, distinct, slug_in, slug_among, count-perm, lookup-pipeline_file_slugs,
}

has-perm : {ps qs : List Pipeline} (k : Text) → Permᴰ ps qs → has (has_id k) ps ≡ has (has_id k) qs
unfolding has
has-perm k Permᴰ.nil = refl
has-perm k (Permᴰ.cons {a = a} {b = b} e d) = ground (arith, e, has-perm k d)
has-perm k (Permᴰ.swap e f) = ground (arith, e, f)
has-perm k (Permᴰ.trans d e) = has-perm k d ∙ has-perm k e

distinct-perm : {ps qs : List Pipeline} → Permᴰ ps qs → distinct ps ≡ distinct qs
unfolding distinct has
distinct-perm Permᴰ.nil = refl
distinct-perm (Permᴰ.cons {a = a} {b = b} e d) = ground (arith, e, has-perm a.id d, distinct-perm d)
distinct-perm (Permᴰ.swap {a = a} {b = b} e f) = ground (arith, e, f, same_sym a.id b.id)
distinct-perm (Permᴰ.trans d e) = distinct-perm d ∙ distinct-perm e

find-perm :
    {ps qs : List Pipeline} (k : Text)
    → Permᴰ ps qs
    → distinct ps ≡ true
    → find (has_id k) ps ≡ find (has_id k) qs
unfolding distinct has find
find-perm k Permᴰ.nil h = refl
find-perm k (Permᴰ.cons {a = a} {b = b} e d) h = ground (arith, e, find-perm k d)
find-perm k (Permᴰ.swap {a = a} {b = b} e f) h =
    ground (arith, e, f, same_iff a.id k, same_iff b.id k, same_iff b.id a.id)
find-perm k (Permᴰ.trans d e) h = find-perm k d h ∙ find-perm k e (sym (distinct-perm d) ∙ h)

slugs_set : IsSet (Option Text)
slugs_set = hlevel

-- Of two lists with the same pipelines, in any order, the slug of a pipeline is the same.
pub pipeline_file_slugs-perm :
    (ps qs : List Pipeline) (k : Text) (p : Pipeline)
    → Perm ps qs
    → distinct ps ≡ true
    → find (has_id k) ps ≡ some p
    → lookup k (pipeline_file_slugs ps) ≡ lookup k (pipeline_file_slugs qs)
pipeline_file_slugs-perm ps qs k p perm d h = ∥∥₁_elim perm (slugs_set _ _) λ e.
    lookup-pipeline_file_slugs ps k p d h
    ∙ ap (λ n. some (slug_in n p)) (count-perm (pipeline_file_slug p) e)
    ∙ sym
        (lookup-pipeline_file_slugs qs k p (sym (distinct-perm e) ∙ d) (sym (find-perm k e d) ∙ h))

-- Ends of one length are the ends of equal texts.
append-inj : (a b s t : Text) → length s ≡ length t → a ++ s ≡ b ++ t → (a ≡ b) × (s ≡ t)
append-inj [] [] s t l e = (refl, e)
append-inj [] (c ∷ b) s t l e = absurd (omega (arith, ap length e, length-append (c ∷ b) t, l))
append-inj (c ∷ a) [] s t l e = absurd (omega (arith, ap length e, length-append (c ∷ a) s, l))
append-inj (c ∷ a) (d ∷ b) s t l e = ground (arith, append-inj a b s t l)

-- The slugs of two bases, with the sizes of their groups.
collision :
    (m n : ℕ) (a b s t : Text)
    → length s ≡ length t
    → (if ltb 1 m then a ++ (b'-' ∷ s) else a) ≡ (if ltb 1 n then b ++ (b'-' ∷ t) else b)
    → (s ≡ t) ⊎ (a ≡ b ++ (b'-' ∷ t)) ⊎ (b ≡ a ++ (b'-' ∷ s)) ⊎ ((a ≡ b) × (ltb 1 m ≡ false))
collision m n a b s t l e = elim (Bool-cases (ltb 1 m)) [
  | inl g ↦ elim (Bool-cases (ltb 1 n)) [
    | inl h ↦ ground (arith, append-inj a b (b'-' ∷ s) (b'-' ∷ t) (ap suc l) (rw (g, h) at e))
    | inr h ↦ inr (inr (inl (sym (rw (g, h) at e))))
  ]
  | inr g ↦ elim (Bool-cases (ltb 1 n)) [
    | inl h ↦ inr (inl (rw (g, h) at e))
    | inr h ↦ inr (inr (inr (rw (g, h) at e, g)))
  ]
]

-- A pipeline counts in its group.
count_found :
    (b : Text) (ps : List Pipeline) (i : Text) (p : Pipeline)
    → find (has_id i) ps ≡ some p
    → pipeline_file_slug p ≡ b
    → count b ps ≢ 0
unfolding count find
count_found b [] i p f e = cc
count_found b (x ∷ ps) i p f e =
    ground (arith, count_found b ps i p, same_iff (pipeline_file_slug x) b)

group_of_one :
    (b : Text) (ps : List Pipeline) (i j : Text) (p q : Pipeline)
    → ltb 1 (count b ps) ≡ false
    → find (has_id i) ps ≡ some p
    → find (has_id j) ps ≡ some q
    → pipeline_file_slug p ≡ b
    → pipeline_file_slug q ≡ b
    → p ≡ q
unfolding count find
group_of_one b [] i j p q h f g e k = cc
group_of_one b (x ∷ ps) i j p q h f g e k = ground (
  arith,
  group_of_one b ps i j p q,
  count_found b ps i p,
  count_found b ps j q,
  same_iff (pipeline_file_slug x) b,
)

some-inj : {A : Type 0} {a b : A} → ◌≡◌ {A = Option A} (some a) (some b) → a ≡ b
some-inj {a = a} h = ap (λ o. or_else o a) h

-- The slugs of two pipelines that are the same.
slug_among-collision :
    (ps : List Pipeline) (i j : Text) (p q : Pipeline)
    → find (has_id i) ps ≡ some p
    → find (has_id j) ps ≡ some q
    → length (short_id p.id) ≡ length (short_id q.id)
    → slug_among ps p ≡ slug_among ps q
    → (short_id p.id ≡ short_id q.id)
      ⊎ (pipeline_file_slug p ≡ pipeline_file_slug q ++ (b'-' ∷ short_id q.id))
      ⊎ (pipeline_file_slug q ≡ pipeline_file_slug p ++ (b'-' ∷ short_id p.id))
slug_among-collision ps i j p q f g l e =
    let bp = pipeline_file_slug p in
    let bq = pipeline_file_slug q in
    elim (collision (count bp ps) (count bq ps) bp bq (short_id p.id) (short_id q.id) l e) [
      | inl h ↦ inl h
      | inr (inl h) ↦ inr (inl h)
      | inr (inr (inl h)) ↦ inr (inr h)
      | inr (inr (inr (h, k))) ↦
          inl (ap (λ r. short_id r.id) (group_of_one bp ps i j p q k f g refl (sym h)))
    ]

-- Two pipelines of a workspace whose pipelines have distinct ids, with short ids of one length, get one
-- slug only if the short ids are the same, or the base slug of one is the other's base slug with the
-- other's short id behind it.
pub pipeline_file_slugs-collision :
    (ps : List Pipeline) (i j : Text) (p q : Pipeline)
    → distinct ps ≡ true
    → find (has_id i) ps ≡ some p
    → find (has_id j) ps ≡ some q
    → length (short_id p.id) ≡ length (short_id q.id)
    → lookup i (pipeline_file_slugs ps) ≡ lookup j (pipeline_file_slugs ps)
    → (short_id p.id ≡ short_id q.id)
      ⊎ (pipeline_file_slug p ≡ pipeline_file_slug q ++ (b'-' ∷ short_id q.id))
      ⊎ (pipeline_file_slug q ≡ pipeline_file_slug p ++ (b'-' ∷ short_id p.id))
pipeline_file_slugs-collision ps i j p q d f g l e = slug_among-collision ps i j p q f g l (
    some-inj
      (sym (lookup-pipeline_file_slugs ps i p d f) ∙ (e ∙ lookup-pipeline_file_slugs ps j q d g)))
