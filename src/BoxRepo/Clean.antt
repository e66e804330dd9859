-- ===== src/BoxRepo/Clean.antt =====
-- workspace/boxrepo.go: what validateRepoPath accepts, said segment by segment.
use workspace_api.Base.{
  ℕ, ◌≡◌, refl, ap, sym, ◌∙◌, Bool, true, false, not, ◌||◌, ◌==◌, Bool-cases, inl, inr, List, [],
  ◌∷◌, ◌++◌, Text, All, same, has, has_prefix, is_empty, keep, arith, if◌then◌else◌,
}
use workspace_api.BoxRepo.Path.{
  onto_first, split_slash, join_slash, clean_step, clean_from, turned, is_rooted, dot_if_empty,
  clean, is_dotted,
}

abbrev pub has_slash : Text → Bool
has_slash s = has (λ c. c == b'/') s

abbrev pub IsClear : Text → Type 0
IsClear s = has_slash s ≡ false

-- The segments of a text have no slash, and there is at least one.
pub split_slash-IsClear : (s : Text) → All IsClear (split_slash s)
unfolding split_slash has
split_slash-IsClear [] = (refl, tt)
split_slash-IsClear (c ∷ s) = elim (Bool-cases (c == b'/')) [
  | inl e ↦ rw e (refl, split_slash-IsClear s)
  | inr e ↦ rw e (onto_first-clear c (split_slash s) e (split_slash-IsClear s))
]
  where
    onto_first-clear :
        (c : ℕ) (segs : List Text)
        → (c == b'/') ≡ false
        → All IsClear segs
        → All IsClear (onto_first c segs)
    onto_first-clear c [] e h = (ground arith, tt)
    onto_first-clear c (seg ∷ segs) e h = (ground arith, h.1)

split_slash-append :
    (seg s : Text) → IsClear seg → split_slash (seg ++ b'/' ∷ s) ≡ seg ∷ split_slash s
unfolding split_slash has
split_slash-append [] s h = refl
split_slash-append (c ∷ seg) s h =
    let (first, rest) = not_either (c == b'/') (has_slash seg) h in
    rw (first, split_slash-append seg s rest)
  where
    not_either : (a b : Bool) → (a || b) ≡ false → (a ≡ false) × (b ≡ false)
    not_either false b h = (refl, h)
    not_either true b h = cc

split_slash_one : (seg : Text) → IsClear seg → split_slash seg ≡ seg ∷ []
unfolding split_slash has
split_slash_one [] h = refl
split_slash_one (c ∷ seg) h = ground (arith, split_slash_one seg)

pub split_slash-join_slash :
    (seg : Text) (segs : List Text)
    → All IsClear (seg ∷ segs)
    → split_slash (join_slash (seg ∷ segs)) ≡ seg ∷ segs
unfolding join_slash
split_slash-join_slash seg [] h = split_slash_one seg h.0
split_slash-join_slash seg (t ∷ segs) h =
    split_slash-append seg (join_slash (t ∷ segs)) h.0
    ∙ ap (λ r. seg ∷ r) (split_slash-join_slash t segs h.1)

pub split_slash-cons : (s : Text) → (seg : Text) × (segs : List Text) × (split_slash s ≡ seg ∷ segs)
unfolding split_slash
split_slash-cons [] = ([], [], refl)
split_slash-cons (c ∷ s) =
    let (seg, segs, e) = split_slash-cons s in
    elim (Bool-cases (c == b'/')) [
      | inl f ↦ ([], split_slash s, rw f)
      | inr f ↦ (c ∷ seg, segs, rw (f, e))
    ]

join_slash-onto_first :
    (c : ℕ) (seg : Text) (segs : List Text)
    → join_slash (if c == b'/' then [] ∷ seg ∷ segs else (c ∷ seg) ∷ segs)
      ≡ c ∷ join_slash (seg ∷ segs)
unfolding join_slash
join_slash-onto_first c seg [] = ground arith
join_slash-onto_first c seg (t ∷ segs) = ground arith

pub join_slash-split_slash : (s : Text) → join_slash (split_slash s) ≡ s
unfolding split_slash join_slash
join_slash-split_slash [] = refl
join_slash-split_slash (c ∷ s) =
    let (seg, segs, e) = split_slash-cons s in
    let rest = ap join_slash (sym e) ∙ join_slash-split_slash s in
    rw e (join_slash-onto_first c seg segs ∙ ap (λ r. c ∷ r) rest)

abbrev pub IsFull : Text → Type 0
IsFull seg = is_empty seg ≡ false

abbrev pub IsUndotted : Text → Type 0
IsUndotted seg = is_dotted seg ≡ false

abbrev pub full : Text → Bool
full seg = not (is_empty seg)

-- Where no segment starts with a dot, `path.Clean` only drops the empty ones.
clean_step-undotted :
    (rooted : Bool) (stack : List Text) (seg : Text)
    → IsUndotted seg
    → clean_step rooted stack seg ≡ (if full seg then seg ∷ stack else stack)
unfolding clean_step same has_prefix
clean_step-undotted rooted stack [] h = refl
clean_step-undotted rooted stack (c ∷ seg) h = ground arith

turned-clean_from :
    (rooted : Bool) (stack segs out : List Text)
    → All IsUndotted segs
    → turned (clean_from rooted stack segs) out ≡ turned stack (keep full segs ++ out)
unfolding clean_from turned keep
turned-clean_from rooted stack [] out h = refl
turned-clean_from rooted stack ([] ∷ segs) out h =
    ap (λ st. turned (clean_from rooted st segs) out) (clean_step-undotted rooted stack [] h.0)
    ∙ turned-clean_from rooted stack segs out h.1
turned-clean_from rooted stack ((c ∷ seg) ∷ segs) out h =
    ap (λ st. turned (clean_from rooted st segs) out)
      (clean_step-undotted rooted stack (c ∷ seg) h.0)
    ∙ turned-clean_from rooted ((c ∷ seg) ∷ stack) segs out h.1

append_nil : (xs : List Text) → xs ++ [] ≡ xs
append_nil [] = refl
append_nil (x ∷ xs) = rw (append_nil xs)

pub clean-undotted :
    (p : Text)
    → All IsUndotted (split_slash p)
    → is_rooted p ≡ false
    → clean p ≡ dot_if_empty (join_slash (keep full (split_slash p)))
unfolding clean turned
clean-undotted p h r =
    ap
      (λ b. dot_if_empty (
        let body = join_slash (turned (clean_from b [] (split_slash p)) []) in
        if b then b'/' ∷ body else body))
      r
    ∙ ap (λ segs. dot_if_empty (join_slash segs))
        (turned-clean_from false [] (split_slash p) [] h ∙ append_nil (keep full (split_slash p)))

pub has_none-All : (segs : List Text) → has is_dotted segs ≡ false → All IsUndotted segs
unfolding has
has_none-All [] h = tt
has_none-All (seg ∷ segs) h = (ground arith, has_none-All segs (ground arith))

pub All-has_none : (segs : List Text) → All IsUndotted segs → has is_dotted segs ≡ false
unfolding has
All-has_none [] h = refl
All-has_none (seg ∷ segs) h = ground (arith, All-has_none segs)

pub All-keep : (segs : List Text) → All IsClear segs → All IsClear (keep full segs)
unfolding keep
All-keep [] h = tt
All-keep ([] ∷ segs) h = All-keep segs h.1
All-keep ((c ∷ seg) ∷ segs) h = (h.0, All-keep segs h.1)

pub keep_full : (segs : List Text) → All IsFull (keep full segs)
unfolding keep
keep_full [] = tt
keep_full ([] ∷ segs) = keep_full segs
keep_full ((c ∷ seg) ∷ segs) = (refl, keep_full segs)

pub keep-IsFull_same : (segs : List Text) → All IsFull segs → keep full segs ≡ segs
unfolding keep
keep-IsFull_same [] h = refl
keep-IsFull_same ([] ∷ segs) h = cc h.0
keep-IsFull_same ((c ∷ seg) ∷ segs) h = rw (keep-IsFull_same segs h.1)
