-- ===== src/Storage/Projects.antt =====
-- internal/adapters/storage/pgxrepo/pool.go and pool_mapping.go over sqlcgen/pool.sql.go: the repository of
-- projects. Writes are inside the transaction of the caller, as in Storage/Labs.
pub mod Choosing
pub mod Renting
pub mod Listing
mod Tests
pub mod Reading
use cloud_lab_gateway.Common.{
  ℕ, ◌≡◌, refl, Bool, true, false, not, ◌&&◌, ◌||◌, Option, none, some, List, [], ◌∷◌, String,
  if◌then◌else◌, ◌==◌, str_eq, ltb, leb, arith,
}
use cloud_lab_gateway.Common.Int.{ltb_ℤ}
use cloud_lab_gateway.Shared.{LabInstanceId, ProjectId, Time, Err, Sentinel}
use cloud_lab_gateway.Ports.{Answer, gives, fails}
use cloud_lab_gateway.Pool
use cloud_lab_gateway.Pool.{Project, ProjectState, ProjectEvent}
use cloud_lab_gateway.Storage.Columns.{
  NullUuid, Timestamptz, nullable_id, id_from_null, timestamptz, time_from_timestamptz,
}
use cloud_lab_gateway.Storage.Rows.{
  ProjectRow, Database, World, Reply, reply, no_rows, duplicate, broken, keep, or_now, at_most,
  check_violation,
}
use cloud_lab_gateway.Storage.Sorting.{order_by, where_true, limit_to}
use cloud_lab_gateway.Storage.Events.{Notice, project_notice, append_events}
use cloud_lab_gateway.Storage.Labs.Listing.{max_int32}

pub project_from_row : ProjectRow → Project
project_from_row r = record {
  id = r.id;
  ki_project_id = r.ki_project_id;
  ki_domain_id = r.ki_domain_id;
  name = r.name;
  state = r.state;
  allocated_to_lab_id = id_from_null r.allocated_to_lab_id;
  cleanup_failures = r.cleanup_failures;
  last_state_change_at = time_from_timestamptz r.last_state_change_at;
  created_at = time_from_timestamptz r.created_at;
  pending_events = [];
}

pub projects_from_rows : List ProjectRow → List Project
unfolding project_from_row
projects_from_rows [] = []
projects_from_rows (r ∷ rs) = project_from_row r ∷ projects_from_rows rs

-- The UUID of a project; the zero one becomes a new one.
abbrev pub project_uuid : World → Database → ProjectId → ℕ
project_uuid w db id = if id == 0 then w.fresh_id db else id

unfoldable pub cleanup_failures_int32 : ℕ → Answer ℕ
cleanup_failures_int32 n =
    if ltb max_int32 n then fails (Err.sentinel Sentinel.invalid_input) else gives n

-- The constraint projects_allocation_consistency.
unfoldable pub is_consistent : ProjectState → NullUuid → Bool
is_consistent s lab =
    (Pool.same_state s ProjectState.allocated && lab.valid)
    || (not (Pool.same_state s ProjectState.allocated) && not lab.valid)
    || Pool.same_state s ProjectState.cleaning

abbrev pub find_project : ℕ → List ProjectRow → Option ProjectRow
find_project id [] = none
find_project id (r ∷ rs) = if r.id == id then some r else find_project id rs

abbrev pub replace_project : ProjectRow → List ProjectRow → List ProjectRow
replace_project r [] = []
replace_project r (s ∷ rs) =
    let rest = replace_project r rs in if s.id == r.id then r ∷ rest else s ∷ rest

-- `WHERE p.ki_domain_id = $1 AND p.state = 'free'`, among the rows that no other transaction has locked
abbrev pub is_candidate : (ProjectRow → Bool) → String → ProjectRow → Bool
is_candidate locked domain r =
    str_eq r.ki_domain_id domain && Pool.same_state r.state ProjectState.free && not (locked r)

-- `ORDER BY last_state_change_at, id`
abbrev pub oldest_first : ProjectRow → ProjectRow → Bool
oldest_first r s =
    if ltb_ℤ r.last_state_change_at.time s.last_state_change_at.time
    then true
    else if ltb_ℤ s.last_state_change_at.time r.last_state_change_at.time
    then false
    else leb r.id s.id

abbrev first_row : List ProjectRow → Option ProjectRow
first_row [] = none
first_row (r ∷ _) = some r

pub candidate : (ProjectRow → Bool) → String → List ProjectRow → Option ProjectRow
candidate locked domain rows =
    first_row (limit_to 1 (order_by oldest_first (where_true (is_candidate locked domain) rows)))

abbrev pub taken : World → Database → LabInstanceId → ProjectRow → ProjectRow
taken w db lab r = record r {
  state = ProjectState.allocated;
  allocated_to_lab_id = record { uuid = lab; valid = true };
  last_state_change_at = record { time = w.kept (w.now db); valid = true };
}

take_candidate : World → LabInstanceId → Database → Option ProjectRow → Database × Answer Project
unfolding project_from_row
take_candidate w lab db none = (db, fails (Err.sentinel Sentinel.pool_empty))
take_candidate w lab db (some r) =
    let q = taken w db lab r in
    (record db { projects = replace_project q db.projects }, gives (project_from_row q))

pub allocate_one_free :
    World → (ProjectRow → Bool) → String → LabInstanceId → Database → Database × Answer Project
unfolding take_candidate candidate
allocate_one_free w locked domain lab db = elim (w.refuses "AllocateOneFreeProject" db) [
  | none ↦ take_candidate w lab db (candidate locked domain db.projects)
  | some e ↦ (db, fails (Err.wrapped "pgxrepo: allocate free project" e))
]

abbrev pub project_notices : World → List ProjectEvent → List Notice
project_notices w [] = []
project_notices w (ev ∷ evs) = project_notice w ev ∷ project_notices w evs

pub flush_project_events : World → Project → Database → Database × Option Err
flush_project_events w p db =
    append_events w "pgxrepo: insert outbox" "pgxrepo: insert audit event"
      (project_notices w p.pending_events) (timestamptz p.last_state_change_at) db

abbrev pub updated_project : World → Project → ℕ → ProjectRow → ProjectRow
updated_project w p failures r = record r {
  state = p.state;
  allocated_to_lab_id = nullable_id (Pool.allocated_lab_for_state p);
  cleanup_failures = failures;
  last_state_change_at = keep w (timestamptz p.last_state_change_at);
}

store_project : ProjectRow → Database → Reply Database
store_project r db =
    if is_consistent r.state r.allocated_to_lab_id
    then reply (record db { projects = replace_project r db.projects })
    else broken check_violation

update_found : World → Project → ℕ → Database → Option ProjectRow → Reply Database
unfolding store_project
update_found w p failures db none = no_rows
update_found w p failures db (some r) =
    if at_most r.last_state_change_at (keep w (timestamptz p.last_state_change_at))
    then store_project (updated_project w p failures r) db
    else no_rows

update_project : World → Project → ℕ → Database → Reply Database
unfolding update_found
update_project w p failures db = elim (w.refuses "UpdateProject" db) [
  | none ↦ update_found w p failures db (find_project (project_uuid w db p.id) db.projects)
  | some e ↦ broken e
]

after_save : World → Project → Database → Reply Database → Database × Option Err
unfolding flush_project_events
after_save w p db (reply db') = flush_project_events w p db'
after_save w p db no_rows = (db, some (Err.sentinel Sentinel.idempotency_clash))
after_save w p db duplicate = (db, some (Err.wrapped "pgxrepo: save project" check_violation))
after_save w p db (broken e) = (db, some (Err.wrapped "pgxrepo: save project" e))

save_counted : World → Project → Database → Answer ℕ → Database × Option Err
unfolding after_save update_project
save_counted w p db (fails e) = (db, some e)
save_counted w p db (gives n) = after_save w p db (update_project w p n db)

pub save : World → Project → Database → Database × Option Err
unfolding save_counted cleanup_failures_int32
save w p db = save_counted w p db (cleanup_failures_int32 p.cleanup_failures)

found_project : Option ProjectRow → Answer Project
unfolding project_from_row
found_project none = fails (Err.sentinel Sentinel.not_found)
found_project (some r) = gives (project_from_row r)

pub get_by_id : World → ProjectId → Database → Answer Project
unfolding found_project
get_by_id w id db = elim (w.refuses "GetProjectByID" db) [
  | none ↦ found_project (find_project (project_uuid w db id) db.projects)
  | some e ↦ fails (Err.wrapped "pgxrepo: get project" e)
]
