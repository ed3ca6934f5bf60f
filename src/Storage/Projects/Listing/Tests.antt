-- ===== src/Storage/Projects/Listing/Tests.antt =====
-- internal/adapters/storage/pgxrepo/pool.go, SeedInsert: two projects as a test.
use cloud_lab_gateway.Common.{◌≡◌, none, [], ◌∷◌, List, arith}
use cloud_lab_gateway.Common.Int.{pos}
use cloud_lab_gateway.Pool.{allocated_lab_for_state, Project, ProjectState}
use cloud_lab_gateway.Storage.Projects.{is_consistent, cleanup_failures_int32}
use cloud_lab_gateway.Storage.Samples.{quiet_world, some_rows}
use cloud_lab_gateway.Storage.Projects.Listing.{
  seed_insert, seed_all, seed_one, seed_counted, seed_insert_project, insert_seed,
}

abbrev seed : Project
seed = record {
  id = 15;
  ki_project_id = "k15";
  ki_domain_id = "domain";
  name = "pool-15";
  state = ProjectState.free;
  allocated_to_lab_id = none;
  cleanup_failures = 0;
  last_state_change_at = pos 10;
  created_at = pos 5;
  pending_events = [];
}

abbrev seeds : List Project
seeds = seed ∷ record seed { id = 5; ki_project_id = "k5" } ∷ []

inserted : (seed_insert quiet_world seeds some_rows).1 ≡ none
unfolding seed_insert seed_all seed_one seed_counted seed_insert_project insert_seed is_consistent
    cleanup_failures_int32 allocated_lab_for_state
inserted = ground arith
