-- ===== src/Schema/Cut.antt =====
-- `strings.Cut`, and what the two sides of a cut are.
use workspace_api.Base.{
  ℕ, All, ◌≡◌, refl, false, ◌==◌, Option, none, some, [], ◌∷◌, ◌++◌, Text, cut_prefix,
  append-cut_prefix, cut_prefix-append, arith,
}

abbrev pub before : ℕ → Option (Text × Text) → Option (Text × Text)
before c none = none
before c (some (a, b)) = some (c ∷ a, b)

-- The separator is not empty where this is used.
unfoldable pub cut : Text → Text → Option (Text × Text)
unfolding cut_prefix
cut sep [] = none
cut sep (c ∷ s) =
    let later = before c (cut sep s) in
    elim (cut_prefix sep (c ∷ s)) [ some rest ↦ some ([], rest) | none ↦ later ]

pub append-cut : (sep s a b : Text) → cut sep s ≡ some (a, b) → s ≡ a ++ sep ++ b
unfolding cut
append-cut sep [] a b h = cc
append-cut sep (c ∷ s) a b h = by_front (cut_prefix sep (c ∷ s)) refl h (append-cut sep s)
  where
    by_later :
        (r : Option (Text × Text))
        → before c r ≡ some (a, b)
        → ((a2 b2 : Text) → r ≡ some (a2, b2) → s ≡ a2 ++ sep ++ b2)
        → c ∷ s ≡ a ++ sep ++ b
    by_later none k ih = cc
    by_later (some (a2, b2)) k ih = cc (ih a2 b2 refl)

    by_front :
        (r : Option Text)
        → cut_prefix sep (c ∷ s) ≡ r
        → elim r [ some rest ↦ some ([], rest) | none ↦ before c (cut sep s) ] ≡ some (a, b)
        → ((a2 b2 : Text) → cut sep s ≡ some (a2, b2) → s ≡ a2 ++ sep ++ b2)
        → c ∷ s ≡ a ++ sep ++ b
    by_front (some rest) e k ih = cc (append-cut_prefix sep (c ∷ s) e)
    by_front none e k ih = by_later (cut sep s) k ih

-- A text without the separator's first letter is what stands before the separator.
pub cut-append :
    (d : ℕ) (sep a b : Text)
    → All (λ c. (d == c) ≡ false) a
    → cut (d ∷ sep) (a ++ d ∷ sep ++ b) ≡ some (a, b)
unfolding cut cut_prefix
cut-append d sep [] b h = ground (arith, cut_prefix-append sep b)
cut-append d sep (c ∷ a) b h = ground (arith, h.0, cut-append d sep a b h.1)
