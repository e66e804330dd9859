-- ===== src/Base/Results.antt =====
-- Results of fallible calls, the sentinels that callers test with `errors.Is`, and the monad of a
-- method: it returns its result and the state that it leaves, also when it fails.
use mathlib.Core.Path.{◌≡◌, refl, ap, subst}
use mathlib.Core.Logic.{◌⊎◌, inl, inr}
use mathlib.Core.List.{List, [], ◌∷◌}
use mathlib.Core.Bool.{Bool, true, false}

-- `fmt.Errorf("…: %w", err)` keeps the sentinel, so only that is kept here; `other` is an error with
-- no sentinel, such as a lost connection.
pub data Error : Type 0 where
  workspace_not_found pipeline_not_found pipeline_already_exists run_not_found : Error
  box_credential_not_found repo_file_changed box_repo_unavailable version_mismatch : Error
  invalid_source_config invalid_source_credentials grant_not_found connection_not_found : Error
  invalid_upload_file not_file_upload_pipeline customer_not_provisioned : Error
  other : Error

pub data Outcome {ℓ} (E : Type 0) (A : Type ℓ) : Type ℓ where
  ok : A → Outcome E A
  err : E → Outcome E A

abbrev pub Result {ℓ} : Type ℓ → Type ℓ
Result A = Outcome Error A

abbrev pub is_ok {ℓ} : {E : Type 0} {A : Type ℓ} → Outcome E A → Bool
is_ok (ok a) = true
is_ok (err e) = false

module _ {E : Type 0} {A B : Type 0} where
  -- `a, err := r; if err != nil { return err }; …`
  abbrev pub and_then : Outcome E A → (A → Outcome E B) → Outcome E B
  and_then (ok a) f = f a
  and_then (err e) f = err e

  pub and_then-eq-ok :
      (r : Outcome E A) (f : A → Outcome E B) {b : B}
      → and_then r f ≡ ok b
      → (a : A) × (r ≡ ok a) × (f a ≡ ok b)
  and_then-eq-ok (ok a) f h = (a, refl, h)
  and_then-eq-ok (err e) f h = cc

module _ {E A : Type 0} where
  pub Outcome-cases : (r : Outcome E A) → ((a : A) × (r ≡ ok a)) ⊎ ((e : E) × (r ≡ err e))
  Outcome-cases (ok a) = inl (a, refl)
  Outcome-cases (err e) = inr (e, refl)

or_value : {E A : Type 0} → A → Outcome E A → A
or_value d (ok a) = a
or_value d (err e) = d

pub ok-inj : {E A : Type 0} {a b : A} → ◌≡◌ {A = Outcome E A} (ok a) (ok b) → a ≡ b
unfolding or_value
ok-inj {a = a} h = ap (or_value a) h

abbrev pub M : Type 0 → Type 0 → Type 0
M S A = S → Result A × S

module _ {S A B : Type 0} where
  abbrev pub next : Result A × S → (A → M S B) → Result B × S
  next (ok a, s) f = f a s
  next (err e, s) f = (err e, s)

  infixl 5 ◌>>=◌
  abbrev pub ◌>>=◌ : M S A → (A → M S B) → M S B
  ◌>>=◌ m f s = next (m s) f

  -- A successful chain is two successful steps.
  pub next-eq-ok :
      (r : Result A × S) (f : A → M S B) {b : B} {s' : S}
      → next r f ≡ (ok b, s')
      → (a : A) × (t : S) × (r ≡ (ok a, t)) × (f a t ≡ (ok b, s'))
  next-eq-ok (ok a, t) f h = (a, t, refl, h)
  next-eq-ok (err e, t) f h = cc

-- What a successful call promises of its result and of the state, and a chain of two calls.
abbrev pub Ensures : {S A : Type 0} → M S A → (A → S → Type 0) → Type 0
Ensures {S = S} {A = A} m P = (w t : S) (a : A) → m w ≡ (ok a, t) → P a t

pub Ensures-bind :
    {S A B : Type 0} (m : M S A) (f : A → M S B) (Q : A → Type 0) (P : B → S → Type 0)
    → Ensures m (λ a t. Q a)
    → ((a : A) → Q a → Ensures (f a) P)
    → Ensures (m >>= f) P
Ensures-bind m f Q P h k w t b e =
    let (a, u, first, rest) = next-eq-ok (m w) f e in k a (h w u a first) u t b rest

abbrev pub pure : {S A : Type 0} → A → M S A
pure a s = (ok a, s)

abbrev pub fail : {S A : Type 0} → Error → M S A
fail e s = (err e, s)

module _ {S B : Type 0} where
  infixl 5 ◌>>◌
  abbrev pub ◌>>◌ : M S (Unit {0}) → M S B → M S B
  m >> k = m >>= λ _. k

-- `if err := m(); err != nil { … }` with the error looked at and not returned.
abbrev pub attempted : {S A : Type 0} → Result A × S → Result (Result A) × S
attempted (r, s) = (ok r, s)

abbrev pub attempt : {S A : Type 0} → M S A → M S (Result A)
attempt m s = attempted (m s)

-- A best-effort call: its error is logged and dropped.
abbrev pub dropped : {S A : Type 0} → Result A × S → Result (Unit {0}) × S
dropped (r, s) = (ok tt, s)

abbrev pub best_effort : {S A : Type 0} → M S A → M S (Unit {0})
best_effort m s = dropped (m s)

abbrev pub of_result : {S A : Type 0} → Result A → M S A
of_result r s = (r, s)

-- `for _, x := range xs { if err := f(x); err != nil { return err } }`
unfoldable pub for_each : {S X : Type 0} → List X → (X → M S (Unit {0})) → M S (Unit {0})
for_each [] f = pure tt
for_each (x ∷ xs) f = f x >> for_each xs f

pub Ensures-pure :
    {S A : Type 0} (P : A → Type 0) (a : A) → P a → Ensures {S = S} (pure a) (λ b t. P b)
Ensures-pure P a p w t b e = subst P (ok-inj (ap (λ r. r.0) e)) p

pub Ensures-fail :
    {S A : Type 0} (P : A → S → Type 0) (e : Error) → Ensures {S = S} {A = A} (fail e) P
Ensures-fail P e w t b h = cc

-- A value that is there already is what it promises.
pub Ensures-of_result :
    {S A : Type 0} (r : Result A) → Ensures {S = S} (of_result r) (λ a t. r ≡ ok a)
Ensures-of_result r w t a e = ap (λ x. x.0) e

module _ {S A B : Type 0} (m : M S A) (f : A → M S B) (s : S) where
  pub bind-ok : {a : A} {t : S} → m s ≡ (ok a, t) → (m >>= f) s ≡ f a t
  bind-ok h = ap (λ r. next r f) h

  pub bind-err : {e : Error} {t : S} → m s ≡ (err e, t) → (m >>= f) s ≡ (err e, t)
  bind-err h = ap (λ r. next r f) h
