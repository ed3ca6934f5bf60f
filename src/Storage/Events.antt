-- ===== src/Storage/Events.antt =====
-- internal/adapters/storage/pgxrepo/lab.go and pool.go, with sqlcgen/pool.sql.go: the events of the
-- aggregates go to the outbox and to the audit events. The keys of a payload are in the order of the
-- source; package json sorts them and the column does not keep an order.
pub mod Noting
use cloud_lab_gateway.Common.{
  ℕ, ◌+◌, ◌≡◌, refl, Bool, true, false, Option, none, some, List, [], ◌∷◌, ◌++◌, map, String,
  length, arith,
}
use cloud_lab_gateway.Shared.{Time, Err}
use cloud_lab_gateway.Lab
use cloud_lab_gateway.Lab.{LabEvent}
use cloud_lab_gateway.Pool
use cloud_lab_gateway.Pool.{ProjectEvent}
use cloud_lab_gateway.Storage.Columns.{Timestamptz, timestamptz, Value, Json}
use cloud_lab_gateway.Storage.Rows.{
  Database, OutboxRow, AuditRow, World, Reply, reply, broken, or_now,
}

abbrev Fields : Type 0
Fields = List (String × Value)

-- The payload, and the identifier of the subject.
unfoldable pub lab_event_payload : World → LabEvent → Fields × String
lab_event_payload w (LabEvent.created lab student course template) = (
  ("lab_id", Value.text (w.uuid_text lab))
      ∷ ("student_id", Value.text (w.uuid_text student))
      ∷ ("course_id", Value.text (w.uuid_text course))
      ∷ ("template_id", Value.text (w.uuid_text template))
      ∷ [],
  w.uuid_text lab,
)
lab_event_payload w (LabEvent.state_changed lab from to reason) = (
  ("lab_id", Value.text (w.uuid_text lab))
      ∷ ("from", Value.text (Lab.state_text from))
      ∷ ("to", Value.text (Lab.state_text to))
      ∷ ("reason", Value.text reason)
      ∷ [],
  w.uuid_text lab,
)
lab_event_payload w (LabEvent.project_assigned lab project) = (
  ("lab_id", Value.text (w.uuid_text lab)) ∷ ("project_id", Value.text (w.uuid_text project)) ∷ [],
  w.uuid_text lab,
)
lab_event_payload w (LabEvent.cleanup_extended lab at) = (
  ("lab_id", Value.text (w.uuid_text lab)) ∷ ("new_cleanup_at", Value.text (w.rfc3339 at)) ∷ [],
  w.uuid_text lab,
)

pub project_event_payload : World → ProjectEvent → Fields × String
project_event_payload w (ProjectEvent.allocated project lab) = (
  ("project_id", Value.text (w.uuid_text project)) ∷ ("lab_id", Value.text (w.uuid_text lab)) ∷ [],
  w.uuid_text project,
)
project_event_payload w (ProjectEvent.releasing project lab) = (
  ("project_id", Value.text (w.uuid_text project)) ∷ ("lab_id", Value.text (w.uuid_text lab)) ∷ [],
  w.uuid_text project,
)
project_event_payload w (ProjectEvent.freed project) =
    (("project_id", Value.text (w.uuid_text project)) ∷ [], w.uuid_text project)
project_event_payload w (ProjectEvent.quarantined project reason failures) = (
  ("project_id", Value.text (w.uuid_text project))
      ∷ ("reason", Value.text reason)
      ∷ ("failures", Value.number failures)
      ∷ [],
  w.uuid_text project,
)

-- What one event makes of the rows: its topic, the type of its subject, and the payload.
pub record Notice : Type 0 where
  pub topic : String
  pub subject_type : String
  pub subject_id : String
  pub payload : Json

abbrev pub lab_notice : World → LabEvent → Notice
lab_notice w ev = record {
  topic = Lab.kind ev;
  subject_type = "lab_instance";
  subject_id = (lab_event_payload w ev).1;
  payload = Json.object (lab_event_payload w ev).0;
}

abbrev pub project_notice : World → ProjectEvent → Notice
project_notice w ev = record {
  topic = Pool.kind ev;
  subject_type = "project";
  subject_id = (project_event_payload w ev).1;
  payload = Json.object (project_event_payload w ev).0;
}

abbrev pub outbox_row : World → Notice → Timestamptz → Database → OutboxRow
outbox_row w n occurred db = record {
  id = db.next_outbox_id;
  topic = n.topic;
  payload = n.payload;
  occurred_at = or_now w db occurred;
  published_at = none;
  attempts = 0;
}

pub insert_outbox : World → Notice → Timestamptz → Database → Reply Database
insert_outbox w n occurred db = elim (w.refuses "InsertOutbox" db) [
  | none ↦ reply (record db {
    outbox = db.outbox ++ outbox_row w n occurred db ∷ [];
    next_outbox_id = db.next_outbox_id + 1;
  })
  | some e ↦ broken e
]

pub insert_audit_event : World → Notice → Timestamptz → Database → Reply Database
insert_audit_event w n occurred db = elim (w.refuses "InsertAuditEvent" db) [
  | none ↦
      let row : AuditRow = record {
        id = w.fresh_id db;
        kind = n.topic;
        subject_type = n.subject_type;
        subject_id = some n.subject_id;
        payload = n.payload;
        occurred_at = or_now w db occurred;
      } in
      reply (record db { audit_events = row ∷ db.audit_events })
  | some e ↦ broken e
]

-- An error that the insertion gave, in its context; the database is the one that it leaves.
abbrev inserted : String → Database → Reply Database → Database × Option Err
inserted context db (reply db') = (db', none)
inserted context db (broken e) = (db, some (Err.wrapped context e))
inserted context db _ = (db, none)

abbrev pub if_fine :
    Database × Option Err → (Database → Database × Option Err) → Database × Option Err
if_fine (db, none) f = f db
if_fine (db, some e) f = (db, some e)

pub append_event : World → String → String → Notice → Timestamptz → Database → Database × Option Err
unfolding insert_outbox insert_audit_event
append_event w outbox_context audit_context n occurred db =
    if_fine (inserted outbox_context db (insert_outbox w n occurred db))
      (λ db'. inserted audit_context db' (insert_audit_event w n occurred db'))

-- The loop over the events, which stops at the first error.
unfoldable pub append_events :
    World → String → String → List Notice → Timestamptz → Database → Database × Option Err
unfolding append_event
append_events w outbox_context audit_context [] occurred db = (db, none)
append_events w outbox_context audit_context (n ∷ ns) occurred db =
    if_fine (append_event w outbox_context audit_context n occurred db)
      (λ db'. append_events w outbox_context audit_context ns occurred db')
