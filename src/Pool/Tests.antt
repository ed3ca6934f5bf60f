-- ===== src/Pool/Tests.antt =====
-- internal/domain/pool: one project as a test.
use cloud_lab_gateway.Common.{◌≡◌, ◌≢◌, refl, none, some, List, [], ◌∷◌, arith}
use cloud_lab_gateway.Common.Int.{pos}
use cloud_lab_gateway.Shared.{panic}
use cloud_lab_gateway.Pool.{Project, ProjectState}
use cloud_lab_gateway.Pool.Ops.{ProjectOp, apply, run}
use cloud_lab_gateway.Pool.Invariant.{IsSound, apply-IsSound}
use cloud_lab_gateway.Pool.Tenancy.{tenancy, run-tenancy}

abbrev idle : Project
idle = record {
  id = 5;
  ki_project_id = "p5";
  ki_domain_id = "domain";
  name = "pool-5";
  state = ProjectState.free;
  allocated_to_lab_id = none;
  cleanup_failures = 0;
  last_state_change_at = pos 0;
  created_at = pos 0;
  pending_events = [];
}

abbrev dirty : Project
dirty = record idle { state = ProjectState.cleaning; allocated_to_lab_id = some 1 }

dirty-IsSound : IsSound dirty
dirty-IsSound = ground arith

abbrev calls : List ProjectOp
calls =
    ProjectOp.allocate 1 (pos 1)
    ∷ ProjectOp.allocate 2 (pos 2)
    ∷ ProjectOp.release_at (pos 3)
    ∷ ProjectOp.clean_at (pos 4)
    ∷ ProjectOp.allocate 2 (pos 5)
    ∷ []

run-tenancy_example :
    tenancy none (run idle calls).pending_events ≡ some (run idle calls).allocated_to_lab_id
run-tenancy_example = run-tenancy idle calls (tt, (tt, (tt, (tt, (tt, tt))))) refl refl refl

apply-IsSound_example :
    let op = ProjectOp.fail_cleanup "cloud down" (pos 4) in
    IsSound (apply dirty op).0 × ((apply dirty op).1 ≢ panic)
apply-IsSound_example =
    apply-IsSound dirty (ProjectOp.fail_cleanup "cloud down" (pos 4)) dirty-IsSound
