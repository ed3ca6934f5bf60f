-- ===== src/Storage/Projects/Tests.antt =====
-- internal/adapters/storage/pgxrepo/pool.go: projects over a small database as tests.
use cloud_lab_gateway.Common.{◌≡◌, refl, none, some, [], ◌∷◌, false, arith}
use cloud_lab_gateway.Common.Int.{pos}
use cloud_lab_gateway.Pool.{allocated_lab_for_state, Project, ProjectState}
use cloud_lab_gateway.Pool.Ops.{ProjectOp, apply}
use cloud_lab_gateway.Ports.{gives}
use cloud_lab_gateway.Storage.Rows.{Database}
use cloud_lab_gateway.Storage.Events.{append_events}
use cloud_lab_gateway.Storage.Samples.{quiet_world, project_row, some_rows}
use cloud_lab_gateway.Storage.Projects.{
  allocate_one_free, take_candidate, candidate, project_from_row, save, get_by_id, found_project,
  save_counted, after_save, update_project, update_found, store_project, is_consistent,
  cleanup_failures_int32, flush_project_events, taken,
}
use cloud_lab_gateway.Storage.Projects.Reading.{IsSameOrigin, get-save-store_and_load}
use cloud_lab_gateway.Storage.Projects.Renting.{Rented, allocate_one_free-Rented}

abbrev project : Project
project = record {
  id = 5;
  ki_project_id = "k5";
  ki_domain_id = "domain";
  name = "pool-5";
  state = ProjectState.quarantine;
  allocated_to_lab_id = some 1;
  cleanup_failures = 3;
  last_state_change_at = pos 60;
  created_at = pos 5;
  pending_events = [];
}

abbrev before : Project
before = record project {
  state = ProjectState.free;
  allocated_to_lab_id = none;
  cleanup_failures = 0;
  last_state_change_at = pos 10;
}

read_before : get_by_id quiet_world 5 some_rows ≡ gives before
unfolding get_by_id found_project project_from_row
read_before = ground arith

saved : (save quiet_world project some_rows).1 ≡ none
unfolding save save_counted cleanup_failures_int32 after_save update_project update_found
    store_project is_consistent flush_project_events append_events allocated_lab_for_state
saved = ground arith

same_origin : IsSameOrigin project before
same_origin = ground arith

get-save-store_and_load_example :
    get_by_id quiet_world 5 (save quiet_world project some_rows).0
    ≡ gives (record (apply project ProjectOp.store_and_load).0 { last_state_change_at = pos 60 })
get-save-store_and_load_example =
    get-save-store_and_load quiet_world project some_rows {old = before} (ground arith) refl
      read_before same_origin saved refl

allocate_one_free-Rented_example :
    Rented quiet_world
      (λ r. false)
      "domain"
      1
      some_rows
      (allocate_one_free quiet_world (λ r. false) "domain" 1 some_rows)
allocate_one_free-Rented_example =
    allocate_one_free-Rented quiet_world (λ r. false) "domain" 1 some_rows

abbrev one_rented : Database
one_rented = record some_rows {
  projects =
      taken quiet_world some_rows 1 project_row
      ∷ record project_row { id = 6; ki_project_id = "k6" }
      ∷ [];
}

abbrev rented : Project
rented = record before {
  state = ProjectState.allocated;
  allocated_to_lab_id = some 1;
  last_state_change_at = pos 90;
}

rent_one :
    allocate_one_free quiet_world (λ r. false) "domain" 1 some_rows ≡ (one_rented, gives rented)
unfolding allocate_one_free take_candidate candidate project_from_row
rent_one = ground arith

abbrev second : Project
second = record rented { id = 6; ki_project_id = "k6"; allocated_to_lab_id = some 2 }

abbrev two_rented : Database
two_rented = record some_rows {
  projects =
      taken quiet_world some_rows 1 project_row
      ∷ taken quiet_world some_rows 2 (record project_row { id = 6; ki_project_id = "k6" })
      ∷ [];
}

rent_two :
    allocate_one_free quiet_world (λ r. false) "domain" 2 one_rented ≡ (two_rented, gives second)
unfolding allocate_one_free take_candidate candidate project_from_row
rent_two = ground arith
