-- ===== src/Storage/Labs/Flushing.antt =====
-- internal/adapters/storage/pgxrepo/lab.go, flushLabEvents: the events of a lab that was written.
use cloud_lab_gateway.Common.{
  ◌≡◌, sym, ap, ◌∙◌, true, false, none, some, List, [], ◌∷◌, ◌++◌, String, arith,
}
use cloud_lab_gateway.Common.Maps.{get, text_keys}
use cloud_lab_gateway.Shared.{LabInstanceId, Time}
use cloud_lab_gateway.Lab
use cloud_lab_gateway.Lab.{LabInstance, LabEvent}
use cloud_lab_gateway.Storage.Columns.{Value, Json, timestamptz, is_zero_time}
use cloud_lab_gateway.Storage.Rows.{OutboxRow, AuditRow, Database, World, Reply}
use cloud_lab_gateway.Storage.Events.{lab_notice, lab_event_payload, append_events}
use cloud_lab_gateway.Storage.Events.Noting.{IsLogged, AreLogged, append_events-AreLogged}
use cloud_lab_gateway.Storage.Labs.{
  create_lab_params, update_lab_params, insert_lab, create_lab_instance, store_lab, update_found,
  update_lab_instance, lab_notices, lab_event_occurred_at, flush_lab_events, after_create, create,
  after_save, save,
}

-- The topic of an event, and the lab that it is about.
abbrev pub topic_of : LabEvent → String
topic_of (LabEvent.created _ _ _ _) = "lab.created"
topic_of (LabEvent.state_changed _ _ _ _) = "lab.state_changed"
topic_of (LabEvent.project_assigned _ _) = "lab.project_assigned"
topic_of (LabEvent.cleanup_extended _ _) = "lab.cleanup_extended"

abbrev pub event_lab : LabEvent → LabInstanceId
event_lab (LabEvent.created lab _ _ _) = lab
event_lab (LabEvent.state_changed lab _ _ _) = lab
event_lab (LabEvent.project_assigned lab _) = lab
event_lab (LabEvent.cleanup_extended lab _) = lab

abbrev fields_of : Json → List (String × Value)
fields_of (Json.object fields) = fields
fields_of _ = []

-- The payload has the text under the key.
abbrev pub Says : String → String → Json → Type 0
Says key text j = get key (fields_of j) ≡ some (Value.text text)

-- The payload names the lab and tells what has happened to it.
abbrev pub Tells : World → LabEvent → Json → Type 0
Tells w (LabEvent.created lab student course template) j =
    Says "lab_id" (w.uuid_text lab) j
    × Says "student_id" (w.uuid_text student) j
    × Says "course_id" (w.uuid_text course) j
    × Says "template_id" (w.uuid_text template) j
Tells w (LabEvent.state_changed lab from to reason) j =
    Says "lab_id" (w.uuid_text lab) j
    × Says "from" (Lab.state_text from) j
    × Says "to" (Lab.state_text to) j
    × Says "reason" reason j
Tells w (LabEvent.project_assigned lab project) j =
    Says "lab_id" (w.uuid_text lab) j × Says "project_id" (w.uuid_text project) j
Tells w (LabEvent.cleanup_extended lab at) j =
    Says "lab_id" (w.uuid_text lab) j × Says "new_cleanup_at" (w.rfc3339 at) j

-- The rows of one event: one of the outbox, which is not published and was not tried, and one audit event.
pub record IsEvent (w : World) (at : Time) (ev : LabEvent) (r : OutboxRow) (q : AuditRow)
    : Type 0 where
  pub topic : r.topic ≡ topic_of ev
  pub payload : Tells w ev r.payload
  pub occurred : r.occurred_at ≡ record { time = w.kept at; valid = true }
  pub unpublished : r.published_at ≡ none
  pub untried : r.attempts ≡ 0
  pub kind : q.kind ≡ topic_of ev
  pub subject_type : q.subject_type ≡ "lab_instance"
  pub subject_id : q.subject_id ≡ some (w.uuid_text (event_lab ev))
  pub audited : Tells w ev q.payload
  pub audited_at : q.occurred_at ≡ record { time = w.kept at; valid = true }

-- The events of an instant, in order: their rows stand at the end of the outbox, and their audit events are added
-- to the audit events one after the other.
abbrev pub AreEvents :
    World
    → Time
    → List LabEvent
    → List OutboxRow
    → List AuditRow
    → List OutboxRow
    → List AuditRow
    → Type 0
AreEvents w at [] o a o' a' = (o' ≡ o) × (a' ≡ a)
AreEvents w at (ev ∷ evs) o a o' a' =
    (r : OutboxRow) × (q : AuditRow) × IsEvent w at ev r q
    × AreEvents w at evs (o ++ r ∷ []) (q ∷ a) o' a'

lab_notice-IsEvent :
    (w : World) (at : Time) (ev : LabEvent) (r : OutboxRow) (q : AuditRow)
    → is_zero_time at ≡ false
    → IsLogged w (timestamptz at) (lab_notice w ev) r q
    → IsEvent w at ev r q
unfolding lab_event_payload Lab.kind
lab_notice-IsEvent w at ev r q z h = ground (arith, z, h)

AreLogged-AreEvents :
    (w : World) (at : Time) (evs : List LabEvent) (o : List OutboxRow) (a : List AuditRow)
    (o' : List OutboxRow) (a' : List AuditRow)
    → is_zero_time at ≡ false
    → AreLogged w (timestamptz at) (lab_notices w evs) o a o' a'
    → AreEvents w at evs o a o' a'
AreLogged-AreEvents w at [] o a o' a' z h = h
AreLogged-AreEvents w at (ev ∷ evs) o a o' a' z (r, q, one, rest) = (
  r,
  q,
  lab_notice-IsEvent w at ev r q z one,
  AreLogged-AreEvents w at evs (o ++ r ∷ []) (q ∷ a) o' a' z rest,
)

abbrev pub IsFlushed : World → LabInstance → Database → Database → Type 0
IsFlushed w l db db' =
    AreEvents w l.updated_at l.pending_events db.outbox db.audit_events db'.outbox db'.audit_events

module _ (w : World) (l : LabInstance) (dated : is_zero_time l.updated_at ≡ false) where
  event_time : lab_event_occurred_at l ≡ l.updated_at
  unfolding lab_event_occurred_at
  event_time = ground (arith, dated)

  flush_step :
      (db : Database)
      → flush_lab_events w l db
        ≡ append_events w "pgxrepo: insert lab outbox" "pgxrepo: insert lab audit event"
            (lab_notices w l.pending_events)
            (timestamptz l.updated_at)
            db
  unfolding flush_lab_events
  flush_step db =
      ap
        (λ t.
          append_events w "pgxrepo: insert lab outbox" "pgxrepo: insert lab audit event"
            (lab_notices w l.pending_events) (timestamptz t) db)
        event_time

  flush-IsFlushed :
      (db : Database)
      → (flush_lab_events w l db).1 ≡ none
      → IsFlushed w l db (flush_lab_events w l db).0
  flush-IsFlushed db h =
      let step = flush_step db in
      let fine : (timestamptz l.updated_at).valid ≡ true = ground (arith, dated) in
      let logged =
        append_events-AreLogged w "pgxrepo: insert lab outbox" "pgxrepo: insert lab audit event"
          (timestamptz l.updated_at) (lab_notices w l.pending_events) db fine
          (ap (λ p. p.1) (sym step) ∙ h) in
      rw step (AreLogged-AreEvents w l.updated_at l.pending_events _ _ _ _ dated logged)

  -- A write of the table of labs leaves the outbox and the audit events.
  abbrev LeavesLogs : Database → Reply Database → Type 0
  LeavesLogs db (Reply.reply db') = (db'.outbox ≡ db.outbox) × (db'.audit_events ≡ db.audit_events)
  LeavesLogs db _ = Unit

  flush_over :
      (db db' : Database)
      → LeavesLogs db (Reply.reply db')
      → (flush_lab_events w l db').1 ≡ none
      → IsFlushed w l db (flush_lab_events w l db').0
  flush_over db db' s h = rw (← s.0, ← s.1) (flush-IsFlushed db' h)

  after_create-IsFlushed :
      (db : Database) (o : Reply Database)
      → LeavesLogs db o
      → (after_create w l db o).1 ≡ none
      → IsFlushed w l db (after_create w l db o).0
  unfolding after_create
  after_create-IsFlushed db (Reply.reply db') s h = flush_over db db' s h
  after_create-IsFlushed db Reply.no_rows s h = flush-IsFlushed db h
  after_create-IsFlushed db Reply.duplicate s h = cc
  after_create-IsFlushed db (Reply.broken e) s h = cc

  after_save-IsFlushed :
      (db : Database) (o : Reply Database)
      → LeavesLogs db o
      → (after_save w l db o).1 ≡ none
      → IsFlushed w l db (after_save w l db o).0
  unfolding after_save
  after_save-IsFlushed db (Reply.reply db') s h = flush_over db db' s h
  after_save-IsFlushed db Reply.no_rows s h = cc
  after_save-IsFlushed db Reply.duplicate s h = cc
  after_save-IsFlushed db (Reply.broken e) s h = cc

  create-leaves : (db : Database) → LeavesLogs db (create_lab_instance w (create_lab_params l) db)
  unfolding create_lab_instance insert_lab
  create-leaves db = ground arith

  update-leaves : (db : Database) → LeavesLogs db (update_lab_instance w (update_lab_params l) db)
  unfolding update_lab_instance update_found store_lab
  update-leaves db = ground arith

  -- What save-IsFlushed says of a save is so of a creation.
  pub create-IsFlushed :
      (db : Database) → (create w l db).1 ≡ none → IsFlushed w l db (create w l db).0
  unfolding create
  create-IsFlushed db h =
      after_create-IsFlushed db (create_lab_instance w (create_lab_params l) db) (create-leaves db)
        h

  -- Where a lab has an instant of its last change, not the zero of package time, and its save returns no error, each
  -- of its pending events, in order, has one new row of the outbox behind those that were there, and one audit
  -- event; no other row comes or goes. The row is not published and was not tried; both have the topic of the
  -- event, the instant of the change as the server keeps it and a payload that names the lab and tells the event;
  -- the audit event has the lab as its subject.
  pub save-IsFlushed : (db : Database) → (save w l db).1 ≡ none → IsFlushed w l db (save w l db).0
  unfolding save
  save-IsFlushed db h =
      after_save-IsFlushed db (update_lab_instance w (update_lab_params l) db) (update-leaves db) h
