-- ===== src/Storage/Projects/Reading.antt =====
-- internal/adapters/storage/pgxrepo/pool.go, Save and GetByID: what is read after a project was saved.
use cloud_lab_gateway.Common.{
  ℕ, ◌≡◌, ◌≢◌, inl, inr, false, Option-cases, none, some, List, [], ◌∷◌, arith,
}
use cloud_lab_gateway.Ports.{gives}
use cloud_lab_gateway.Pool.{Project}
use cloud_lab_gateway.Pool.Ops.{ProjectOp, apply}
use cloud_lab_gateway.Storage.Columns.{is_zero_time}
use cloud_lab_gateway.Storage.Rows.{ProjectRow, Database, World}
use cloud_lab_gateway.Storage.Events.Noting.{IsApart, append_events-IsApart}
use cloud_lab_gateway.Storage.Projects.{
  project_from_row, cleanup_failures_int32, find_project, replace_project, flush_project_events,
  updated_project, store_project, update_found, update_project, after_save, save_counted, save,
  found_project, get_by_id,
}

find-replace :
    (r : ProjectRow) (rs : List ProjectRow) {s : ProjectRow}
    → find_project r.id rs ≡ some s
    → find_project r.id (replace_project r rs) ≡ some r
find-replace r [] h = cc
find-replace r (t ∷ rs) {s} h = ground (arith, find-replace r rs {s = s})

find_project_id :
    (id : ℕ) (rs : List ProjectRow) {r : ProjectRow} → find_project id rs ≡ some r → r.id ≡ id
find_project_id id [] h = cc
find_project_id id (t ∷ rs) {r} h = ground (arith, find_project_id id rs {r = r})

flush-IsApart :
    (w : World) (p : Project) (db : Database) → IsApart db (flush_project_events w p db).0
unfolding flush_project_events
flush-IsApart w p db = append_events-IsApart w _ _ _ _ db

save_find :
    (w : World) (p : Project) (db : Database) {r : ProjectRow}
    → p.id ≢ 0
    → find_project p.id db.projects ≡ some r
    → (save w p db).1 ≡ none
    → find_project p.id (save w p db).0.projects ≡ some (updated_project w p p.cleanup_failures r)
unfolding save save_counted cleanup_failures_int32 after_save update_project update_found
    store_project
save_find w p db {r} real f h =
    let q = updated_project w p p.cleanup_failures r in
    let same = find_project_id p.id db.projects f in
    ground (
      arith,
      real,
      h,
      f,
      same,
      flush-IsApart w p (record db { projects = replace_project q db.projects }),
      find-replace q db.projects {s = r},
    )

-- What the identity and the origin of a project are, which a save does not write.
pub record IsSameOrigin (p q : Project) : Type 0 where
  pub id : q.id ≡ p.id
  pub ki_project_id : q.ki_project_id ≡ p.ki_project_id
  pub ki_domain_id : q.ki_domain_id ≡ p.ki_domain_id
  pub name : q.name ≡ p.name
  pub created_at : q.created_at ≡ p.created_at

-- A project, not of the zero identifier, that was saved without an error over a row of the same origin is
-- read back as the operation `store_and_load` of the aggregate leaves it: the events are gone, and the lab
-- is dropped outside the states `allocated` and `cleaning`. Only the instant of its last change is as the
-- server keeps it. The change must not be at the zero of package time, and the read not be refused.
pub get-save-store_and_load :
    (w : World) (p : Project) (db : Database) {old : Project}
    → p.id ≢ 0
    → is_zero_time p.last_state_change_at ≡ false
    → get_by_id w p.id db ≡ gives old
    → IsSameOrigin p old
    → (save w p db).1 ≡ none
    → w.refuses "GetProjectByID" (save w p db).0 ≡ none
    → get_by_id w p.id (save w p db).0
      ≡ gives (record (apply p ProjectOp.store_and_load).0 {
        last_state_change_at = w.kept p.last_state_change_at;
      })
unfolding get_by_id found_project project_from_row apply
get-save-store_and_load w p db {old} real dated before same h fine =
    elim (Option-cases (find_project p.id db.projects)) [
      | inl e ↦ absurd (ground (arith, before, e, real))
      | inr (r, e) ↦
          let was : project_from_row r ≡ old = ground (arith, before, e, real) in
          let now = save_find w p db real e h in ground (arith, real, dated, fine, now, was, same)
    ]
