-- ===== src/Schema/Placeholders.antt =====
-- workspace/pipeline_schema.go: the names in braces of an attach template.
use workspace_api.Base.{
  ℕ, ◌≡◌, refl, ap, subst, ◌∙◌, Bool, true, false, ◌||◌, ◌==◌, Option, none, some, List, [], ◌∷◌,
  ◌++◌, Text, All, same, same→eq, same_refl, mem, is_empty, or_else, arith, if◌then◌else◌,
}
use workspace_api.Schema.DuckDb.{is_word_char, longer, closed, opened, placeholders}

-- A placeholder of a template: a name in braces.
abbrev pub IsName : Text → Type 0
IsName name = (is_empty name ≡ false) × All (λ c. is_word_char c ≡ true) name

abbrev pub IsPlaceholder : Text → Text → Type 0
IsPlaceholder attach name =
    (a : Text) × (b : Text) × (attach ≡ a ++ b'{' ∷ name ++ b'}' ∷ b) × IsName name

word_unlike_close : (c : ℕ) → is_word_char c ≡ true → (c == b'}') ≡ false
word_unlike_close c h = ground arith

closed-append :
    (name b : Text) → All (λ c. is_word_char c ≡ true) name → closed (name ++ b'}' ∷ b) ≡ some name
unfolding closed
closed-append [] b h = refl
closed-append (c ∷ name) b h = rw (word_unlike_close c h.0, h.0, closed-append name b h.1)

some-inj : {a b : Text} → ◌≡◌ {A = Option Text} (some a) (some b) → a ≡ b
some-inj h = ap (λ o. or_else o []) h

==-eq : (c d : ℕ) → (c == d) ≡ true → c ≡ d
==-eq c d h = ground arith

append-closed :
    (s name : Text)
    → closed s ≡ some name
    → (b : Text) × (s ≡ name ++ b'}' ∷ b) × All (λ c. is_word_char c ≡ true) name
unfolding closed
append-closed [] name h = cc
append-closed (c ∷ s) name h =
    by_tests (c == b'}') (is_word_char c) (closed s) refl refl refl h (append-closed s)
  where
    by_tests :
        (b1 b2 : Bool) (r : Option Text)
        → (c == b'}') ≡ b1
        → is_word_char c ≡ b2
        → closed s ≡ r
        → ◌≡◌ {A = Option Text}
            (if b1 then some [] else if b2 then longer c r else none)
            (some name)
        → ((n : Text)
            → closed s ≡ some n
            → (b : Text) × (s ≡ n ++ b'}' ∷ b) × All (λ c. is_word_char c ≡ true) n)
        → (b : Text) × (c ∷ s ≡ name ++ b'}' ∷ b) × All (λ c. is_word_char c ≡ true) name
    by_tests true b2 r e f g k ih =
        let empty : [] ≡ name = some-inj k in
        (
          s,
          ap (λ x. x ∷ s) (==-eq c b'}' e) ∙ ap (λ n. n ++ b'}' ∷ s) empty,
          subst (All (λ c. is_word_char c ≡ true)) empty tt,
        )
    by_tests false false r e f g k ih = cc
    by_tests false true none e f g k ih = cc
    by_tests false true (some n) e f g k ih =
        let (b, shape, words) = ih n g in
        let longer_name : c ∷ n ≡ name = some-inj k in
        (
          b,
          ap (λ t. c ∷ t) shape ∙ ap (λ t. t ++ b'}' ∷ b) longer_name,
          subst (All (λ c. is_word_char c ≡ true)) longer_name (f, words),
        )

opened-head :
    (name : Text) (found : List Text)
    → is_empty name ≡ false
    → mem name (opened (some name) found) ≡ true
unfolding mem
opened-head name found h = rw (h, same_refl name)

opened-tail :
    (name : Text) (o : Option Text) (found : List Text)
    → mem name found ≡ true
    → mem name (opened o found) ≡ true
unfolding mem
opened-tail name none found h = h
opened-tail name (some []) found h = h
opened-tail name (some (c ∷ n)) found h = rw h (either (same (c ∷ n) name))
  where
    either : (b : Bool) → (b || true) ≡ true
    either true = refl
    either false = refl

pub placeholders-found :
    (a name b : Text) → IsName name → mem name (placeholders (a ++ b'{' ∷ name ++ b'}' ∷ b)) ≡ true
unfolding placeholders mem
placeholders-found [] name b n =
    rw (closed-append name b n.1) (opened-head name (placeholders (name ++ b'}' ∷ b)) n.0)
placeholders-found (c ∷ a) name b n = by_test (c == b'{') (placeholders-found a name b n)
  where
    s : Text
    s = a ++ b'{' ∷ name ++ b'}' ∷ b

    by_test :
        (b1 : Bool)
        → mem name (placeholders s) ≡ true
        → mem name (if b1 then opened (closed s) (placeholders s) else placeholders s) ≡ true
    by_test true ih = opened-tail name (closed s) (placeholders s) ih
    by_test false ih = ih

pub found-placeholders :
    (attach name : Text) → mem name (placeholders attach) ≡ true → IsPlaceholder attach name
unfolding placeholders mem
found-placeholders [] name h = cc
found-placeholders (c ∷ s) name h =
    by_tests (c == b'{') (closed s) refl refl h (found-placeholders s name)
  where
    behind : IsPlaceholder s name → IsPlaceholder (c ∷ s) name
    behind (a, b, shape, n) = (c ∷ a, b, ap (λ t. c ∷ t) shape, n)

    by_name :
        (m : Text) (b2 b3 : Bool)
        → (c == b'{') ≡ true
        → closed s ≡ some m
        → is_empty m ≡ b2
        → same m name ≡ b3
        → mem name (if b2 then placeholders s else m ∷ placeholders s) ≡ true
        → (mem name (placeholders s) ≡ true → IsPlaceholder s name)
        → IsPlaceholder (c ∷ s) name
    by_name m true b3 e f g i k ih = behind (ih k)
    by_name m false true e f g i k ih =
        let (b, shape, words) = append-closed s m f in
        let own = same→eq m name i in
        subst (IsPlaceholder (c ∷ s)) own
          ([], b, ap (λ x. x ∷ s) (==-eq c b'{' e) ∙ ap (λ t. b'{' ∷ t) shape, (g, words))
    by_name m false false e f g i k ih = behind (ih (rw i at k))

    by_tests :
        (b1 : Bool) (r : Option Text)
        → (c == b'{') ≡ b1
        → closed s ≡ r
        → mem name (if b1 then opened r (placeholders s) else placeholders s) ≡ true
        → (mem name (placeholders s) ≡ true → IsPlaceholder s name)
        → IsPlaceholder (c ∷ s) name
    by_tests false r e f k ih = behind (ih k)
    by_tests true none e f k ih = behind (ih k)
    by_tests true (some m) e f k ih = by_name m (is_empty m) (same m name) e f refl refl k ih
