-- ===== src/Base/Views.antt =====
-- Calls that leave a part of the state as it is, whatever they return.
use mathlib.Core.Path.{◌≡◌, refl, sym, ap, ◌∙◌}
use mathlib.Core.Bool.{Bool, true, false}
use workspace_api.Base.Tests.{if◌then◌else◌}
use workspace_api.Base.Results.{
  Result, ok, err, M, next, ◌>>=◌, attempted, attempt, dropped, best_effort,
}

module _ {S X : Type 0} (view : S → X) where
  abbrev pub Keeps : {A : Type 0} → M S A → Type 0
  Keeps op = (w : S) → view (op w).1 ≡ view w

  module _ {A B : Type 0} where
    Keeps-next :
        (r : Result A × S) (f : A → M S B) → ((a : A) → Keeps (f a)) → view (next r f).1 ≡ view r.1
    Keeps-next (ok a, w) f h = h a w
    Keeps-next (err e, w) f h = refl

    pub Keeps-bind :
        (op : M S A) (f : A → M S B) → Keeps op → ((a : A) → Keeps (f a)) → Keeps (op >>= f)
    Keeps-bind op f h k w = Keeps-next (op w) f k ∙ h w

  module _ {A : Type 0} where
    Keeps-dropped : (r : Result A × S) → view (dropped r).1 ≡ view r.1
    Keeps-dropped (a, w) = refl

    pub Keeps-best_effort : (op : M S A) → Keeps op → Keeps (best_effort op)
    Keeps-best_effort op h w = Keeps-dropped (op w) ∙ h w

    Keeps-attempted : (r : Result A × S) → view (attempted r).1 ≡ view r.1
    Keeps-attempted (a, w) = refl

    pub Keeps-attempt : (op : M S A) → Keeps op → Keeps (attempt op)
    Keeps-attempt op h w = Keeps-attempted (op w) ∙ h w

    pub Keeps-if : (b : Bool) (f g : M S A) → Keeps f → Keeps g → Keeps (if b then f else g)
    Keeps-if true f g h k = h
    Keeps-if false f g h k = k

    pub Keeps-eq :
        (op : M S A) {w t : S} {r : Result A} → Keeps op → op w ≡ (r, t) → view t ≡ view w
    Keeps-eq op {w} h e = sym (ap (λ z. view z.1) e) ∙ h w
