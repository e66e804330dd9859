-- ===== src/Base/Texts.antt =====
-- Texts as lists of code points, and the operations of Go's `strings` that the program uses.
use Prim.Native.Nat.{ℕ}
use Prim.Native.Char.{code}
use Prim.Native.String.{String}
use mathlib.Core.Path.{◌≡◌, refl}
use mathlib.Core.Logic.{◌≢◌, ◌↔◌, inl, inr}
use mathlib.Core.Bool.{Bool, true, false, ◌&&◌}
use mathlib.Core.Option.{Option, none, some}
use mathlib.Core.List.{List, [], ◌∷◌, ◌++◌}
use native.Mathlib.Omega.{arith}
use workspace_api.Base.Tests.{◌==◌, if◌then◌else◌, Bool-cases}

abbrev pub Text : Type 0
Text = List ℕ

abbrev pub codes : String → Text
codes String.[] = []
codes (String.◌∷◌ c s) = code c ∷ codes s

-- `a == b` on strings.
unfoldable pub same : Text → Text → Bool
same [] [] = true
same (x ∷ xs) (y ∷ ys) = x == y && same xs ys
same _ _ = false

pub same_iff : (a b : Text) → (same a b ≡ true) ↔ (a ≡ b)
unfolding same
same_iff (x ∷ a) (y ∷ b) = ground (arith, same_iff a b)
same_iff _ _ = ground arith

pub same_refl : (a : Text) → same a a ≡ true
same_refl a = (same_iff a a).1 refl

pub same_sym : (a b : Text) → same a b ≡ same b a
same_sym a b = ground (arith, same_iff a b, same_iff b a)

pub same→eq : (a b : Text) → same a b ≡ true → a ≡ b
same→eq a b = (same_iff a b).0

pub same-ne : (a b : Text) → same a b ≡ false → a ≢ b
same-ne a b h e = ground (arith, same_iff a b)

-- `s == ""`
abbrev pub is_empty : Text → Bool
is_empty [] = true
is_empty (c ∷ s) = false

-- `strings.CutPrefix`
unfoldable pub cut_prefix : Text → Text → Option Text
cut_prefix [] s = some s
cut_prefix (p ∷ ps) [] = none
cut_prefix (p ∷ ps) (c ∷ s) = if p == c then cut_prefix ps s else none

-- `strings.HasPrefix`
abbrev pub is_some {ℓ} : {A : Type ℓ} → Option A → Bool
is_some none = false
is_some (some a) = true

unfoldable pub has_prefix : Text → Text → Bool
unfolding cut_prefix
has_prefix p s = is_some (cut_prefix p s)

pub cut_prefix-append : (p s : Text) → cut_prefix p (p ++ s) ≡ some s
unfolding cut_prefix
cut_prefix-append [] s = refl
cut_prefix-append (c ∷ p) s = ground (arith, cut_prefix-append p s)

pub append-cut_prefix : (p s : Text) {t : Text} → cut_prefix p s ≡ some t → s ≡ p ++ t
unfolding cut_prefix
append-cut_prefix [] s h = cc
append-cut_prefix (c ∷ p) [] h = cc
append-cut_prefix (c ∷ p) (d ∷ s) {t} h = ground (arith, append-cut_prefix p s {t = t})

pub has_prefix-append : (p s : Text) → has_prefix p (p ++ s) ≡ true
unfolding has_prefix
has_prefix-append p s = rw (cut_prefix-append p s)

-- `strings.HasSuffix`, and `strings.TrimSuffix`
unfoldable pub cut_suffix : Text → Text → Option Text
unfolding same
cut_suffix t [] = if same t [] then some [] else none
cut_suffix t (c ∷ s) =
    let shorter = cut_suffix t s in
    if same t (c ∷ s) then some [] else elim shorter [ none ↦ none | some r ↦ some (c ∷ r) ]

unfoldable pub has_suffix : Text → Text → Bool
unfolding cut_suffix
has_suffix t s = is_some (cut_suffix t s)

abbrev pub or_else {ℓ} : {A : Type ℓ} → Option A → A → A
or_else none a = a
or_else (some b) a = b

unfoldable pub trim_suffix : Text → Text → Text
unfolding cut_suffix
trim_suffix t s = or_else (cut_suffix t s) s

unfoldable pub trim_prefix : Text → Text → Text
unfolding cut_prefix
trim_prefix p s = or_else (cut_prefix p s) s

-- One more letter in front of what `cut_suffix` leaves.
cut_suffix_step :
    (t s : Text) (c : ℕ) (r : Text) (o : Option Text)
    → ((q : Text) → o ≡ some q → s ≡ q ++ t)
    → elim o [ none ↦ none | some q ↦ some (c ∷ q) ] ≡ some r
    → c ∷ s ≡ r ++ t
cut_suffix_step t s c r none ih k = cc
cut_suffix_step t s c r (some q) ih k = ground (arith, ih q refl)

pub append-cut_suffix : (t s : Text) (r : Text) → cut_suffix t s ≡ some r → s ≡ r ++ t
unfolding cut_suffix
append-cut_suffix t [] r h = ground (arith, same_iff t [])
append-cut_suffix t (c ∷ s) r h = elim (Bool-cases (same t (c ∷ s))) [
  | inl e ↦ ground (arith, same_iff t (c ∷ s))
  | inr e ↦ cut_suffix_step t s c r (cut_suffix t s) (λ q. append-cut_suffix t s q) (rw e at h)
]

pub has_suffix-append : (r t : Text) → has_suffix t (r ++ t) ≡ true
unfolding has_suffix
has_suffix-append [] [] = ground (arith, same_refl [])
has_suffix-append [] (c ∷ t) = rw (same_refl (c ∷ t))
has_suffix-append (c ∷ r) t = ground (arith, has_suffix-append r t)

-- The last letter, if there is one: it tells two suffixes apart.
abbrev pub last : ℕ → Text → ℕ
last d [] = d
last d (c ∷ s) = last c s

pub last-append : (r t : Text) (c d : ℕ) → last d (r ++ c ∷ t) ≡ last c t
last-append [] t c d = refl
last-append (x ∷ r) t c d = last-append r t c x

-- A text with one suffix does not have another that ends in a different letter.
pub has_suffix_ends :
    (c : ℕ) (t s : Text) → has_suffix (c ∷ t) s ≡ true → (d : ℕ) → last d s ≡ last c t
unfolding has_suffix
has_suffix_ends c t s h d = go (cut_suffix (c ∷ t) s) refl h
  where
    go : (o : Option Text) → cut_suffix (c ∷ t) s ≡ o → is_some o ≡ true → last d s ≡ last c t
    go none e k = cc
    go (some r) e k = rw (append-cut_suffix (c ∷ t) s r e) (last-append r t c d)
