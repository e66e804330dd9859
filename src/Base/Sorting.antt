-- ===== src/Base/Sorting.antt =====
-- `sort.Strings`: texts in lexicographic order.
use mathlib.Core.Path.{◌≡◌, refl, ◌∙◌}
use mathlib.Core.Logic.{∥∥₁_elim}
use mathlib.Core.Bool.{Bool, true, false, ◌&&◌, ◌||◌}
use mathlib.Core.List.{List, [], ◌∷◌, Permᴰ, Perm}
use native.Mathlib.Omega.{arith}
use workspace_api.Base.Tests.{ltb, ◌==◌, if◌then◌else◌}
use workspace_api.Base.Texts.{Text, same}
use workspace_api.Base.Maps.{mem}

unfoldable pub text_le : Text → Text → Bool
text_le [] t = true
text_le (c ∷ s) [] = false
text_le (c ∷ s) (d ∷ t) = ltb c d || (c == d && text_le s t)

text_le_total : (a b : Text) → text_le a b ≡ false → text_le b a ≡ true
unfolding text_le
text_le_total [] b h = cc
text_le_total (c ∷ s) [] h = refl
text_le_total (c ∷ s) (d ∷ t) h = ground (arith, text_le_total s t)

text_le_antisymm : (a b : Text) → text_le a b ≡ true → text_le b a ≡ true → a ≡ b
unfolding text_le
text_le_antisymm [] [] h k = refl
text_le_antisymm [] (d ∷ t) h k = cc
text_le_antisymm (c ∷ s) [] h k = cc
text_le_antisymm (c ∷ s) (d ∷ t) h k = ground (arith, text_le_antisymm s t)

text_le_trans : (a b c : Text) → text_le a b ≡ true → text_le b c ≡ true → text_le a c ≡ true
unfolding text_le
text_le_trans [] b c h k = refl
text_le_trans (x ∷ a) [] c h k = cc
text_le_trans (x ∷ a) (y ∷ b) [] h k = cc
text_le_trans (x ∷ a) (y ∷ b) (z ∷ c) h k = ground (arith, text_le_trans a b c)

unfoldable pub insert_sorted : Text → List Text → List Text
insert_sorted a [] = a ∷ []
insert_sorted a (x ∷ xs) = if text_le a x then a ∷ x ∷ xs else x ∷ insert_sorted a xs

unfoldable pub sort : List Text → List Text
unfolding insert_sorted text_le
sort [] = []
sort (x ∷ xs) = insert_sorted x (sort xs)

mem-insert_sorted :
    (k a : Text) (xs : List Text) → mem k (insert_sorted a xs) ≡ (same a k || mem k xs)
unfolding mem insert_sorted
mem-insert_sorted k a [] = refl
mem-insert_sorted k a (x ∷ xs) = ground (arith, mem-insert_sorted k a xs)

-- Sorting keeps the members.
pub mem-sort : (k : Text) (xs : List Text) → mem k (sort xs) ≡ mem k xs
unfolding mem sort
mem-sort k [] = refl
mem-sort k (x ∷ xs) = ground (arith, mem-insert_sorted k x (sort xs), mem-sort k xs)

insert_sorted_comm :
    (a b : Text) (xs : List Text)
    → insert_sorted a (insert_sorted b xs) ≡ insert_sorted b (insert_sorted a xs)
unfolding insert_sorted
insert_sorted_comm a b [] =
    ground (arith, text_le_total a b, text_le_total b a, text_le_antisymm a b)
insert_sorted_comm a b (x ∷ xs) = ground (
  arith,
  text_le_total a b,
  text_le_total b a,
  text_le_antisymm a b,
  text_le_trans a b x,
  text_le_trans b a x,
  insert_sorted_comm a b xs,
)

-- Sorting forgets the order in which a map's keys are met.
sort-permᴰ : {xs ys : List Text} → Permᴰ xs ys → sort xs ≡ sort ys
unfolding sort
sort-permᴰ Permᴰ.nil = refl
sort-permᴰ (Permᴰ.cons e d) = cc (sort-permᴰ d)
sort-permᴰ (Permᴰ.swap {a = a} {b = b} {l = l} e f) = insert_sorted_comm a b (sort l) ∙ cc
sort-permᴰ (Permᴰ.trans d e) = sort-permᴰ d ∙ sort-permᴰ e

texts_set : IsSet (List Text)
texts_set = hlevel

pub sort-perm : {xs ys : List Text} → Perm xs ys → sort xs ≡ sort ys
sort-perm p = ∥∥₁_elim p (texts_set _ _) sort-permᴰ
