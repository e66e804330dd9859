-- ===== src/Service/Grants.antt =====
-- workspace/pipeline.go: swapGoogleOAuthGrant and the rows of the pipelines.
use workspace_api.Base.{
  ◌≡◌, refl, ◌∙◌, Option, none, some, [], Text, Result, ok, err, M, ◌>>=◌, pure, of_result,
  grant_not_found,
}
use workspace_api.Model.{Pipeline}
use workspace_api.Mirror.World.{World}
use workspace_api.Service.{
  PipelineService, consumed, swap_grant, swap_reference, check_google_connection,
}
use workspace_api.Service.Compensation.{Steady}

module _ {R : Type 0} (s : PipelineService R) where
  Steady-consumed : (p : Pipeline) (r : Result Text) → Steady (consumed s p r)
  unfolding consumed
  Steady-consumed p (ok grant) w q = (q, refl)
  Steady-consumed p (err grant_not_found) w q = (q, refl)
  Steady-consumed p (err e) w q = (q, refl)

  Steady-swap_grant :
      (consume : Option (Text → Text → M (World R) Text))
      → ((c : Text → Text → M (World R) Text)
          → consume ≡ some c
          → (id slug : Text) → Steady (c id slug))
      → (slug : Text) (p : Pipeline) (grant : Option Text)
      → Steady (swap_grant s consume slug p grant)
  unfolding swap_grant
  Steady-swap_grant consume consumes slug p none w q = (q, refl)
  Steady-swap_grant none consumes slug p (some id) w q = (q, refl)
  Steady-swap_grant (some consume) consumes slug p (some id) w q =
      let (f1, p1) = consumes consume refl id slug w q in
      let r = consume id slug w in let (f2, p2) = Steady-consumed p r.0 r.1 f1 in (f2, p2 ∙ p1)

  pub Steady-swap_reference :
      ((c : Text → Text → M (World R) Text)
        → s.consume_grant ≡ some c
        → (id slug : Text) → Steady (c id slug))
      → (slug : Text) (p : Pipeline) (connection : Option Text)
      → Steady (swap_reference s slug p connection)
  unfolding swap_reference
  Steady-swap_reference consumes slug p none w q =
      Steady-swap_grant s.consume_grant consumes slug p
        (s.google_grant_id p.source_type p.source_credentials) w q
  Steady-swap_reference consumes slug p (some id) w q =
      by_check (check_google_connection s s.get_connection slug p.source_type id)
    where
      stored : Result (Unit {0}) → M (World R) Text
      stored r = of_result r >>= λ _. pure p.source_credentials

      by_check :
          (r : Result (Unit {0}))
          → ((stored r w).1.db.faults ≡ []) × ((stored r w).1.db.pipelines ≡ w.db.pipelines)
      by_check (ok u) = (q, refl)
      by_check (err e) = (q, refl)
