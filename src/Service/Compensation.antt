-- ===== src/Service/Compensation.antt =====
-- workspace/pipeline.go: commitOrCompensate and the rows of the pipelines.
use workspace_api.Base.{
  List, pure, ◌≡◌, refl, ap, ◌∙◌, sym, subst, [], Text, Result, Error, ok, err, M, next, ◌>>=◌,
  attempted, of_result, bind-ok, bind-err, arith,
}
use workspace_api.Model.{Pipeline}
use workspace_api.Mirror.World.{World}
use workspace_api.Service.{PipelineService, commit_mirror, or_compensate, commit_or_compensate}

-- An operation that leaves the rows as they are, in a database in which no statement fails.
abbrev pub Steady : {R A : Type 0} → M (World R) A → Type 0
Steady {R = R} op =
    (w : World R)
    → w.db.faults ≡ []
    → ((op w).1.db.faults ≡ []) × ((op w).1.db.pipelines ≡ w.db.pipelines)

pub Steady-check :
    {R A B : Type 0} (r : Result A) (f : A → M (World R) B)
    → ((a : A) → Steady (f a))
    → Steady (of_result r >>= f)
Steady-check (ok a) f h w q = h a w q
Steady-check (err e) f h w q = (q, refl)

-- An operation that leaves the rows as they were if it fails, from a state with these rows.
abbrev pub FailsClean : {R A : Type 0} → List Pipeline → M (World R) A → Type 0
FailsClean {R = R} rows op =
    (w t : World R) (e : Error)
    → w.db.faults ≡ []
    → w.db.pipelines ≡ rows
    → op w ≡ (err e, t)
    → t.db.pipelines ≡ rows

pub FailsClean-bind :
    {R A B : Type 0} {rows : List Pipeline} (op : M (World R) A) (f : A → M (World R) B)
    → Steady op
    → ((a : A) → FailsClean rows (f a))
    → FailsClean rows (op >>= f)
FailsClean-bind {R = R} {A = A} {rows = rows} op f steady clean w t e q o h = by_result (op w) refl
  where
    by_result : (r : Result A × World R) → op w ≡ r → t.db.pipelines ≡ rows
    by_result (ok a, v) k =
        let (f1, p1) =
          subst (λ z. (z.1.db.faults ≡ []) × (z.1.db.pipelines ≡ w.db.pipelines)) k (steady w q) in
        clean a v t e f1 (p1 ∙ o) (sym (bind-ok op f w k) ∙ h)
    by_result (err x, v) k =
        let (f1, p1) =
          subst (λ z. (z.1.db.faults ≡ []) × (z.1.db.pipelines ≡ w.db.pipelines)) k (steady w q) in
        sym (ap (λ z. z.1.db.pipelines) (sym (bind-err op f w k) ∙ h)) ∙ p1 ∙ o

pub FailsClean-check :
    {R A B : Type 0} {rows : List Pipeline} (r : Result A) (f : A → M (World R) B)
    → ((a : A) → FailsClean rows (f a))
    → FailsClean rows (of_result r >>= f)
FailsClean-check r f = FailsClean-bind (of_result r) f (λ w q. (q, refl))

module _ {R : Type 0} (s : PipelineService R)
    (steady : (caller slug : Text) → Steady (commit_mirror s caller slug)) where
  -- A commit that fails is undone by the compensation.
  pub commit_or_compensate_err :
      (caller slug : Text) (undo : M (World R) (Unit {0})) (w t : World R) (e : Error)
      → w.db.faults ≡ []
      → commit_or_compensate s caller slug undo w ≡ (err e, t)
      → (v : World R) × (v.db.faults ≡ []) × (v.db.pipelines ≡ w.db.pipelines) × ((undo v).1 ≡ t)
  unfolding commit_or_compensate or_compensate
  commit_or_compensate_err caller slug undo w t e q h =
      by_result (commit_mirror s caller slug w) refl
    where
      by_result :
          (r : Result (Unit {0}) × World R)
          → commit_mirror s caller slug w ≡ r
          → (v : World R) × (v.db.faults ≡ [])
            × (v.db.pipelines ≡ w.db.pipelines)
            × ((undo v).1 ≡ t)
      by_result (ok u, v) k = ground arith
      by_result (err x, v) k =
          let (f1, p1) =
            subst (λ z. (z.1.db.faults ≡ []) × (z.1.db.pipelines ≡ w.db.pipelines)) k
              (steady caller slug w q) in
          (
            v,
            f1,
            p1,
            ap (λ z. z.1) (sym (ap (λ z. next (attempted z) (or_compensate s undo)) k) ∙ h),
          )

  -- The same, with the value of the save behind the commit.
  pub save_err :
      {A : Type 0} (a : A) (caller slug : Text) (undo : M (World R) (Unit {0})) (w t : World R)
      (e : Error)
      → w.db.faults ≡ []
      → (commit_or_compensate s caller slug undo >>= λ _. pure a) w ≡ (err e, t)
      → (v : World R) × (v.db.faults ≡ []) × (v.db.pipelines ≡ w.db.pipelines) × ((undo v).1 ≡ t)
  save_err a caller slug undo w t e q h = by_result (commit w) refl
    where
      commit : M (World R) (Unit {0})
      commit = commit_or_compensate s caller slug undo

      by_result :
          (r : Result (Unit {0}) × World R)
          → commit w ≡ r
          → (v : World R) × (v.db.faults ≡ [])
            × (v.db.pipelines ≡ w.db.pipelines)
            × ((undo v).1 ≡ t)
      by_result (ok u, v) c = let z = sym (bind-ok commit (λ _. pure a) w c) ∙ h in cc
      by_result (err x, v) c =
          let same_end = ap (λ z. z.1) (sym (bind-err commit (λ _. pure a) w c) ∙ h) in
          let (u, f1, p1, undone) = commit_or_compensate_err caller slug undo w v x q c in
          (u, f1, p1, undone ∙ same_end)
