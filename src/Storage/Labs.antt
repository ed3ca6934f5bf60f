-- ===== src/Storage/Labs.antt =====
-- internal/adapters/storage/pgxrepo/lab.go and lab_mapping.go over sqlcgen/lab.sql.go: the repository of
-- labs. A call that writes returns the database it leaves, inside the transaction of the caller, which
-- takes it back where the call returns an error.
pub mod Reading
pub mod Active
pub mod Keeping
pub mod Writes
pub mod Flushing
pub mod Listing
mod Tests
use cloud_lab_gateway.Common.{
  ℕ, ◌≡◌, refl, Bool, true, false, not, ◌&&◌, ◌||◌, Option, none, some, List, [], ◌∷◌, ◌++◌, map,
  String, if◌then◌else◌, ◌==◌, arith,
}
use cloud_lab_gateway.Common.Int.{ℤ}
use cloud_lab_gateway.Shared.{LabInstanceId, Time, Err, Sentinel}
use cloud_lab_gateway.Ports.{Answer, gives, fails}
use cloud_lab_gateway.Lab.{LabState, LabInstance, KiResources, LabEvent}
use cloud_lab_gateway.Storage.Columns.{
  NullUuid, Timestamptz, Json, nullable_id, id_from_null, zero_time, is_zero_time, timestamptz,
  time_from_timestamptz, timestamptz_ptr, time_ptr_from_timestamptz, nullable_string,
  string_from_ptr, ki_resources_to_json, ki_resources_from_json,
}
use cloud_lab_gateway.Storage.Rows.{
  LabRow, Database, World, Reply, reply, no_rows, duplicate, broken, keep, or_now, at_most,
  is_allowed, find_lab, conflicts, replace_lab, check_violation,
}
use cloud_lab_gateway.Storage.Events.{Notice, lab_notice, append_events}

-- `created_at` and `updated_at` are null where Go passes nil.
pub create_lab_params : LabInstance → LabRow
create_lab_params l = record {
  id = l.id;
  student_user_id = l.student_user_id;
  course_id = l.course_id;
  lab_template_id = l.lab_template_id;
  project_id = nullable_id l.project_id;
  state = l.state;
  state_reason = l.state_reason;
  ki_resources = ki_resources_to_json l.ki_resources;
  cleanup_at = timestamptz_ptr l.cleanup_at;
  unfreeze_at = timestamptz_ptr l.unfreeze_at;
  frozen_by_user_id = nullable_id l.frozen_by_user_id;
  frozen_reason = nullable_string l.frozen_reason;
  student_ssh_key_secret_id = nullable_id l.student_ssh_key_secret_id;
  checker_ssh_key_secret_id = nullable_id l.checker_ssh_key_secret_id;
  created_at = timestamptz l.created_at;
  updated_at = timestamptz l.updated_at;
}

pub record UpdateLabParams : Type 0 where
  pub id : ℕ
  pub project_id : NullUuid
  pub state : LabState
  pub state_reason : String
  pub ki_resources : Json
  pub cleanup_at : Timestamptz
  pub unfreeze_at : Timestamptz
  pub frozen_by_user_id : NullUuid
  pub frozen_reason : Option String
  pub student_ssh_key_secret_id : NullUuid
  pub checker_ssh_key_secret_id : NullUuid
  pub updated_at : Timestamptz

pub update_lab_params : LabInstance → UpdateLabParams
update_lab_params l = record {
  id = l.id;
  project_id = nullable_id l.project_id;
  state = l.state;
  state_reason = l.state_reason;
  ki_resources = ki_resources_to_json l.ki_resources;
  cleanup_at = timestamptz_ptr l.cleanup_at;
  unfreeze_at = timestamptz_ptr l.unfreeze_at;
  frozen_by_user_id = nullable_id l.frozen_by_user_id;
  frozen_reason = nullable_string l.frozen_reason;
  student_ssh_key_secret_id = nullable_id l.student_ssh_key_secret_id;
  checker_ssh_key_secret_id = nullable_id l.checker_ssh_key_secret_id;
  updated_at = timestamptz l.updated_at;
}

abbrev loaded : LabRow → Answer KiResources → Answer LabInstance
loaded r (fails e) = fails e
loaded r (gives resources) = gives (record {
  id = r.id;
  student_user_id = r.student_user_id;
  course_id = r.course_id;
  lab_template_id = r.lab_template_id;
  project_id = id_from_null r.project_id;
  state = r.state;
  state_reason = r.state_reason;
  ki_resources = resources;
  cleanup_at = time_ptr_from_timestamptz r.cleanup_at;
  unfreeze_at = time_ptr_from_timestamptz r.unfreeze_at;
  frozen_by_user_id = id_from_null r.frozen_by_user_id;
  frozen_reason = string_from_ptr r.frozen_reason;
  student_ssh_key_secret_id = id_from_null r.student_ssh_key_secret_id;
  checker_ssh_key_secret_id = id_from_null r.checker_ssh_key_secret_id;
  created_at = time_from_timestamptz r.created_at;
  updated_at = time_from_timestamptz r.updated_at;
  pending_events = [];
})

pub lab_from_row : LabRow → Answer LabInstance
lab_from_row r = loaded r (ki_resources_from_json r.ki_resources)

-- The row as the server fills it in.
abbrev pub filled_lab : World → Database → LabRow → LabRow
filled_lab w db r = record r {
  cleanup_at = keep w r.cleanup_at;
  unfreeze_at = keep w r.unfreeze_at;
  created_at = or_now w db r.created_at;
  updated_at = or_now w db r.updated_at;
}

abbrev is_taken : ℕ → Option LabRow → Bool
is_taken id none = false
is_taken id (some _) = true

insert_lab : LabRow → Database → Reply Database
insert_lab r db =
    if not (is_allowed r)
    then broken check_violation
    else if is_taken r.id (find_lab r.id db.labs) || conflicts r db.labs
    then duplicate
    else reply (record db { labs = r ∷ db.labs })

create_lab_instance : World → LabRow → Database → Reply Database
unfolding insert_lab
create_lab_instance w p db = elim (w.refuses "CreateLabInstance" db) [
  | none ↦ insert_lab (filled_lab w db p) db
  | some e ↦ broken e
]

abbrev pub updated_lab : World → LabRow → UpdateLabParams → LabRow
updated_lab w r p = record r {
  project_id = p.project_id;
  state = p.state;
  state_reason = p.state_reason;
  ki_resources = p.ki_resources;
  cleanup_at = keep w p.cleanup_at;
  unfreeze_at = keep w p.unfreeze_at;
  frozen_by_user_id = p.frozen_by_user_id;
  frozen_reason = p.frozen_reason;
  student_ssh_key_secret_id = p.student_ssh_key_secret_id;
  checker_ssh_key_secret_id = p.checker_ssh_key_secret_id;
  updated_at = keep w p.updated_at;
}

store_lab : LabRow → Database → Reply Database
store_lab r db =
    if not (is_allowed r)
    then broken check_violation
    else if conflicts r db.labs
    then duplicate
    else reply (record db { labs = replace_lab r db.labs })

-- The row with the identifier, unless it is newer.
update_found : World → UpdateLabParams → Database → Option LabRow → Reply Database
unfolding store_lab
update_found w p db none = no_rows
update_found w p db (some r) =
    if at_most r.updated_at (keep w p.updated_at) then store_lab (updated_lab w r p) db else no_rows

update_lab_instance : World → UpdateLabParams → Database → Reply Database
unfolding update_found
update_lab_instance w p db = elim (w.refuses "UpdateLabInstance" db) [
  | none ↦ update_found w p db (find_lab p.id db.labs)
  | some e ↦ broken e
]

-- The error of an update, or none; the code of a duplicate is looked at by Create only.
abbrev pub unique_violation : Err
unique_violation = Err.external "duplicate key value violates unique constraint"

pub lab_event_occurred_at : LabInstance → Time
lab_event_occurred_at l = if is_zero_time l.updated_at then l.created_at else l.updated_at

abbrev pub lab_notices : World → List LabEvent → List Notice
lab_notices w [] = []
lab_notices w (ev ∷ evs) = lab_notice w ev ∷ lab_notices w evs

pub flush_lab_events : World → LabInstance → Database → Database × Option Err
unfolding lab_event_occurred_at
flush_lab_events w l db =
    append_events w "pgxrepo: insert lab outbox" "pgxrepo: insert lab audit event"
      (lab_notices w l.pending_events) (timestamptz (lab_event_occurred_at l)) db

after_create : World → LabInstance → Database → Reply Database → Database × Option Err
unfolding flush_lab_events
after_create w l db (reply db') = flush_lab_events w l db'
after_create w l db duplicate = (db, some (Err.sentinel Sentinel.lab_already_active))
after_create w l db (broken e) = (db, some (Err.wrapped "pgxrepo: create lab" e))
after_create w l db no_rows = flush_lab_events w l db

pub create : World → LabInstance → Database → Database × Option Err
unfolding after_create create_lab_instance
create w l db = after_create w l db (create_lab_instance w (create_lab_params l) db)

after_save : World → LabInstance → Database → Reply Database → Database × Option Err
unfolding flush_lab_events
after_save w l db (reply db') = flush_lab_events w l db'
after_save w l db no_rows = (db, some (Err.sentinel Sentinel.idempotency_clash))
after_save w l db duplicate = (db, some (Err.wrapped "pgxrepo: save lab" unique_violation))
after_save w l db (broken e) = (db, some (Err.wrapped "pgxrepo: save lab" e))

pub save : World → LabInstance → Database → Database × Option Err
unfolding after_save update_lab_instance
save w l db = after_save w l db (update_lab_instance w (update_lab_params l) db)

found_lab : Option LabRow → Answer LabInstance
unfolding lab_from_row
found_lab none = fails (Err.sentinel Sentinel.not_found)
found_lab (some r) = lab_from_row r

pub get_by_id : World → LabInstanceId → Database → Answer LabInstance
unfolding found_lab
get_by_id w id db = elim (w.refuses "GetLabInstanceByID" db) [
  | none ↦ found_lab (find_lab id db.labs)
  | some e ↦ fails (Err.wrapped "pgxrepo: get lab" e)
]
