-- ===== src/BoxRepo/Guard.antt =====
-- workspace/boxrepo.go: the paths that validateRepoPath accepts.
use workspace_api.Base.{
  ℕ, ◌≡◌, ◌↔◌, refl, ap, sym, subst, ◌∙◌, Bool, true, false, not, ◌||◌, ◌==◌, Bool-cases, ◌⊎◌, inl,
  inr, List, [], ◌∷◌, Text, codes, All, same, same_refl, same→eq, mem, has, has_prefix, is_empty,
  keep, Result, ok, err, invalid_source_config, arith, if◌then◌else◌,
}
use workspace_api.BoxRepo.Path.{
  split_slash, join_slash, is_rooted, dot_if_empty, clean, box_repo_blocked_files, is_dotted,
  is_hidden_repo_path, validate_repo_path,
}
use workspace_api.BoxRepo.Clean.{
  IsClear, IsFull, IsUndotted, full, split_slash-IsClear, split_slash-join_slash,
  join_slash-split_slash, split_slash-cons, clean-undotted, has_none-All, All-has_none, All-keep,
  keep_full, keep-IsFull_same,
}

-- A path that the customer may edit: no segment is empty or starts with a dot, and it is no file that
-- the platform manages.
pub record IsEditable (p : Text) : Type 0 where
  pub full_segments : All IsFull (split_slash p)
  pub undotted : All IsUndotted (split_slash p)
  pub own : mem p box_repo_blocked_files ≡ false

pub hidden-parts :
    (p : Text)
    → is_hidden_repo_path p ≡ false
    → (mem p box_repo_blocked_files ≡ false) × All IsUndotted (split_slash p)
unfolding is_hidden_repo_path
hidden-parts p h = by_test (mem p box_repo_blocked_files) refl h
  where
    by_test :
        (b : Bool)
        → mem p box_repo_blocked_files ≡ b
        → (if b then true else has is_dotted (split_slash p)) ≡ false
        → (mem p box_repo_blocked_files ≡ false) × All IsUndotted (split_slash p)
    by_test true e k = cc
    by_test false e k = (e, has_none-All (split_slash p) k)

pub parts-hidden :
    (p : Text)
    → mem p box_repo_blocked_files ≡ false
    → All IsUndotted (split_slash p)
    → is_hidden_repo_path p ≡ false
unfolding is_hidden_repo_path
parts-hidden p m u = rw (m, All-has_none (split_slash p) u)

has_prefix-rooted : (p : Text) → has_prefix (codes "/") p ≡ is_rooted p
unfolding has_prefix
has_prefix-rooted [] = refl
has_prefix-rooted (c ∷ p) = ground arith

-- A segment that is full keeps what is joined from being empty.
join_full :
    (seg : Text) (segs : List Text) → IsFull seg → is_empty (join_slash (seg ∷ segs)) ≡ false
unfolding join_slash
join_full [] segs h = cc h
join_full (c ∷ seg) [] h = refl
join_full (c ∷ seg) (t ∷ segs) h = refl

dot_if_empty-eq : (s p : Text) → dot_if_empty s ≡ p → (s ≡ p) ⊎ (p ≡ codes ".")
dot_if_empty-eq [] p h = inr (sym h)
dot_if_empty-eq (c ∷ s) p h = inl h

dot_if_empty-full : (p : Text) → is_empty p ≡ false → dot_if_empty p ≡ p
dot_if_empty-full [] h = cc h
dot_if_empty-full (c ∷ p) h = refl

-- A clean path whose segments have no dot in front has no empty segment.
joined-IsFull :
    (p : Text) (segs : List Text)
    → is_empty p ≡ false
    → All IsClear segs
    → All IsFull segs
    → join_slash segs ≡ p
    → All IsFull (split_slash p)
unfolding join_slash
joined-IsFull p [] e c f h = cc (subst (λ t. is_empty t ≡ false) (sym h) e)
joined-IsFull p (seg ∷ segs) e c f h =
    subst (λ q. All IsFull (split_slash q)) h
      (subst (All IsFull) (sym (split_slash-join_slash seg segs c)) f)

dot-dotted : All IsUndotted (split_slash (codes ".")) → ⊥
unfolding split_slash has_prefix
dot-dotted u = subst (λ b. if b then Unit {0} else ⊥) u.0 tt

clean-IsFull :
    (p : Text)
    → is_empty p ≡ false
    → is_rooted p ≡ false
    → All IsUndotted (split_slash p)
    → clean p ≡ p
    → All IsFull (split_slash p)
clean-IsFull p e r u h =
    elim (dot_if_empty-eq (join_slash (keep full (split_slash p))) p
      (sym (clean-undotted p u r) ∙ h)) [
        | inl j ↦
            joined-IsFull p (keep full (split_slash p)) e
              (All-keep (split_slash p) (split_slash-IsClear p)) (keep_full (split_slash p)) j
        | inr d ↦ absurd (dot-dotted (subst (λ q. All IsUndotted (split_slash q)) d u))
      ]

full-unrooted : (p : Text) → All IsFull (split_slash p) → is_rooted p ≡ false
unfolding split_slash
full-unrooted [] h = refl
full-unrooted (c ∷ p) h = elim (Bool-cases (c == b'/')) [
  | inl e ↦ absurd (no_empty_first (split_slash p) (rw e at h))
  | inr e ↦ e
]
  where
    no_empty_first : (segs : List Text) → All IsFull ([] ∷ segs) → ⊥
    no_empty_first segs k = subst (λ b. if b then Unit {0} else ⊥) k.0 tt

full-nonempty : (p : Text) → All IsFull (split_slash p) → is_empty p ≡ false
unfolding split_slash
full-nonempty [] h = h.0
full-nonempty (c ∷ p) h = refl

undotted_first :
    (c : ℕ) (seg p : Text) → IsUndotted (c ∷ seg) → has_prefix (codes "..") (c ∷ p) ≡ false
unfolding has_prefix
undotted_first c seg p h = ground arith

-- A first segment with no dot in front keeps `..` from the path's front.
undotted-parent :
    (p : Text)
    → is_rooted p ≡ false
    → All IsUndotted (split_slash p)
    → has_prefix (codes "..") p ≡ false
unfolding split_slash has_prefix
undotted-parent [] r u = refl
undotted-parent (c ∷ p) r u =
    let (seg, segs, e) = split_slash-cons p in
    let first : All IsUndotted ((c ∷ seg) ∷ segs) = rw (r, e) at u in undotted_first c seg p first.0

clean-same : (p : Text) → All IsFull (split_slash p) → All IsUndotted (split_slash p) → clean p ≡ p
clean-same p f u =
    clean-undotted p u (full-unrooted p f)
    ∙ (ap (λ segs. dot_if_empty (join_slash segs)) (keep-IsFull_same (split_slash p) f)
        ∙ (ap dot_if_empty (join_slash-split_slash p) ∙ dot_if_empty-full p (full-nonempty p f)))

from_editable : (p : Text) → IsEditable p → validate_repo_path p ≡ ok tt
unfolding validate_repo_path
from_editable p e =
    let cleaned = clean-same p e.full_segments e.undotted in
    rw (
      full-nonempty p e.full_segments,
      cleaned,
      same_refl p,
      has_prefix-rooted p,
      full-unrooted p e.full_segments,
      undotted-parent p (full-unrooted p e.full_segments) e.undotted,
      parts-hidden p e.own e.undotted,
    )

refused : {A : Type 0} → ◌≡◌ {A = Result (Unit {0})} (err invalid_source_config) (ok tt) → A
refused h = absurd (subst (λ r. elim r [ ok u ↦ ⊥ | err e ↦ Unit {0} ]) h tt)

to_editable : (p : Text) → validate_repo_path p ≡ ok tt → IsEditable p
unfolding validate_repo_path
to_editable p h =
    by_tests (is_empty p) (same (clean p) p) (has_prefix (codes "/") (clean p))
      (has_prefix (codes "..") (clean p)) (is_hidden_repo_path (clean p)) refl refl refl refl h
  where
    by_tests :
        (b1 b2 b3 b4 b5 : Bool)
        → is_empty p ≡ b1
        → same (clean p) p ≡ b2
        → has_prefix (codes "/") (clean p) ≡ b3
        → is_hidden_repo_path (clean p) ≡ b5
        → ◌≡◌ {A = Result (Unit {0})}
            (if b1
              then err invalid_source_config
              else if not b2 || (b3 || b4)
              then err invalid_source_config
              else if b5
              then err invalid_source_config
              else ok tt)
            (ok tt)
        → IsEditable p
    by_tests true b2 b3 b4 b5 e f g i k = refused k
    by_tests false false b3 b4 b5 e f g i k = refused k
    by_tests false true true b4 b5 e f g i k = refused k
    by_tests false true false true b5 e f g i k = refused k
    by_tests false true false false true e f g i k = refused k
    by_tests false true false false false e f g i k =
        let cleaned = same→eq (clean p) p f in
        let (own, undotted) = hidden-parts p (ap is_hidden_repo_path (sym cleaned) ∙ i) in
        let unrooted =
          sym (has_prefix-rooted p) ∙ (ap (has_prefix (codes "/")) (sym cleaned) ∙ g) in
        record {
          full_segments = clean-IsFull p e unrooted undotted cleaned;
          undotted = undotted;
          own = own;
        }

-- The editor takes exactly the paths whose segments are all full and have no dot in front and that are
-- no file of the platform.
pub validate_repo_path_iff : (p : Text) → (validate_repo_path p ≡ ok tt) ↔ IsEditable p
validate_repo_path_iff p = (to_editable p, from_editable p)
