-- ===== src/Storage/Projects/Listing.antt =====
-- internal/adapters/storage/pgxrepo/pool.go: the list of a domain, and the insertion of projects that
-- were made before. A list is inserted in one transaction, which an error takes back.
pub mod Seeding
mod Tests
use cloud_lab_gateway.Common.{
  ℕ, ◌≡◌, refl, inl, inr, Bool, true, false, Bool-cases, not, ◌&&◌, ◌||◌, Option, Option-cases,
  none, some, List, [], ◌∷◌, ◌⧺◌, String, if◌then◌else◌, str_eq, eq_iff, leb, All, arith,
}
use cloud_lab_gateway.Common.Int.{ltb_ℤ}
use cloud_lab_gateway.Shared.{Err, Sentinel}
use cloud_lab_gateway.Ports.{Answer, Answer-cases, gives, fails}
use cloud_lab_gateway.Pool
use cloud_lab_gateway.Pool.{Project, ProjectState}
use cloud_lab_gateway.Storage.Columns.{nullable_id, timestamptz}
use cloud_lab_gateway.Storage.Rows.{
  ProjectRow, Database, World, Reply, reply, no_rows, duplicate, broken, or_now, check_violation,
}
use cloud_lab_gateway.Storage.Sorting.{order_by, where_true}
use cloud_lab_gateway.Storage.Labs.{unique_violation}
use cloud_lab_gateway.Storage.Projects.{
  projects_from_rows, project_uuid, cleanup_failures_int32, is_consistent, find_project,
}

abbrev matches_domain : String → String → Bool
matches_domain domain d = if str_eq domain "" then true else str_eq d domain

abbrev matches_state : Option ProjectState → ProjectState → Bool
matches_state none s = true
matches_state (some t) s = Pool.same_state s t

-- `ORDER BY created_at, id`
abbrev first_made : ProjectRow → ProjectRow → Bool
first_made r s =
    if ltb_ℤ r.created_at.time s.created_at.time
    then true
    else if ltb_ℤ s.created_at.time r.created_at.time
    then false
    else leb r.id s.id

-- The rows of the query ListProjectsByDomain.
abbrev pub domain_rows : String → Option ProjectState → Database → List ProjectRow
domain_rows domain state db = order_by first_made (
    where_true (λ r. matches_domain domain r.ki_domain_id && matches_state state r.state)
      db.projects)

pub list_by_domain : World → String → Option ProjectState → Database → Answer (List Project)
list_by_domain w domain state db = elim (w.refuses "ListProjectsByDomain" db) [
  | none ↦ gives (projects_from_rows (domain_rows domain state db))
  | some e ↦ fails (Err.wrapped "pgxrepo: list projects" e)
]

abbrev pub has_ki_project : String → List ProjectRow → Bool
has_ki_project k [] = false
has_ki_project k (r ∷ rs) = str_eq r.ki_project_id k || has_ki_project k rs

abbrev is_there : Option ProjectRow → Bool
is_there none = false
is_there (some _) = true

-- A state is one of the constants, so `stateOrFree` keeps it.
abbrev pub seed_row : World → Database → Project → ℕ → ProjectRow
seed_row w db p failures = record {
  id = project_uuid w db p.id;
  ki_project_id = p.ki_project_id;
  ki_domain_id = p.ki_domain_id;
  name = p.name;
  state = p.state;
  allocated_to_lab_id = nullable_id (Pool.allocated_lab_for_state p);
  cleanup_failures = failures;
  last_state_change_at = or_now w db (timestamptz p.last_state_change_at);
  created_at = or_now w db (timestamptz p.created_at);
}

-- `ON CONFLICT (ki_project_id) DO NOTHING`
insert_seed : ProjectRow → Database → Reply Database
insert_seed r db =
    if not (is_consistent r.state r.allocated_to_lab_id)
    then broken check_violation
    else if has_ki_project r.ki_project_id db.projects
    then reply db
    else if is_there (find_project r.id db.projects)
    then broken unique_violation
    else reply (record db { projects = r ∷ db.projects })

seed_insert_project : World → ProjectRow → Database → Reply Database
unfolding insert_seed
seed_insert_project w r db = elim (w.refuses "SeedInsertProject" db) [
  | none ↦ insert_seed r db
  | some e ↦ broken e
]

abbrev seeded : String → Reply Database → Database → Database × Option Err
seeded k (reply db') db = (db', none)
seeded k (broken e) db = (db, some (Err.wrapped ("pgxrepo: seed project " ⧺ k) e))
seeded k _ db = (db, none)

seed_counted : World → Project → Database → Answer ℕ → Database × Option Err
unfolding seed_insert_project
seed_counted w p db (fails e) = (db, some e)
seed_counted w p db (gives n) =
    seeded p.ki_project_id (seed_insert_project w (seed_row w db p n) db) db

pub seed_one : World → Project → Database → Database × Option Err
unfolding seed_counted cleanup_failures_int32
seed_one w p db = seed_counted w p db (cleanup_failures_int32 p.cleanup_failures)

abbrev go_on : Database × Option Err → (Database → Database × Option Err) → Database × Option Err
go_on (db, none) f = f db
go_on (db, some e) f = (db, some e)

pub seed_all : World → List Project → Database → Database × Option Err
unfolding seed_one
seed_all w [] db = (db, none)
seed_all w (p ∷ ps) db = go_on (seed_one w p db) (λ mid. seed_all w ps mid)

-- The transaction around the loop.
abbrev kept_or_back : Database → Database × Option Err → Database × Option Err
kept_or_back db (db', none) = (db', none)
kept_or_back db (db', some e) = (db, some e)

pub seed_insert : World → List Project → Database → Database × Option Err
unfolding seed_all
seed_insert w ps db = kept_or_back db (seed_all w ps db)
