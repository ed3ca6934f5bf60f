-- ===== src/Storage/Events/Noting.antt =====
-- internal/adapters/storage/pgxrepo/lab.go and pool.go, flushLabEvents: what the loop over the events
-- leaves in the outbox and in the audit events.
use cloud_lab_gateway.Common.{
  ◌+◌, ◌≡◌, refl, inl, inr, true, some, Option-cases, none, List, [], ◌∷◌, ◌++◌, String, arith,
}
use cloud_lab_gateway.Storage.Columns.{Timestamptz}
use cloud_lab_gateway.Storage.Rows.{Database, OutboxRow, AuditRow, World, keep, or_now}
use cloud_lab_gateway.Storage.Events.{
  Notice, outbox_row, insert_outbox, insert_audit_event, append_event, append_events,
}

-- The rows of the aggregates are left.
pub record IsApart (db db' : Database) : Type 0 where
  pub labs : db'.labs ≡ db.labs
  pub projects : db'.projects ≡ db.projects

-- The rows that a notice makes: one of the outbox, not published and without attempts, and one of the audit events.
pub record IsLogged (w : World) (t : Timestamptz) (n : Notice) (r : OutboxRow) (q : AuditRow)
    : Type 0 where
  pub topic : r.topic ≡ n.topic
  pub payload : r.payload ≡ n.payload
  pub occurred : r.occurred_at ≡ keep w t
  pub unpublished : r.published_at ≡ none
  pub untried : r.attempts ≡ 0
  pub kind : q.kind ≡ n.topic
  pub subject_type : q.subject_type ≡ n.subject_type
  pub subject_id : q.subject_id ≡ some n.subject_id
  pub audited : q.payload ≡ n.payload
  pub audited_at : q.occurred_at ≡ keep w t

-- The notices are in the outbox once, in order, behind what was there, and in the audit events, the last one first.
abbrev pub AreLogged :
    World
    → Timestamptz
    → List Notice
    → List OutboxRow
    → List AuditRow
    → List OutboxRow
    → List AuditRow
    → Type 0
AreLogged w t [] o a o' a' = (o' ≡ o) × (a' ≡ a)
AreLogged w t (n ∷ ns) o a o' a' =
    (r : OutboxRow) × (q : AuditRow) × IsLogged w t n r q
    × AreLogged w t ns (o ++ r ∷ []) (q ∷ a) o' a'

append_event-IsApart :
    (w : World) (oc ac : String) (n : Notice) (t : Timestamptz) (db : Database)
    → IsApart db (append_event w oc ac n t db).0
unfolding append_event insert_outbox insert_audit_event
append_event-IsApart w oc ac n t db = ground arith

record AddsOne (w : World) (t : Timestamptz) (n : Notice) (db db' : Database) : Type 0 where
  row : OutboxRow
  event : AuditRow
  logged : IsLogged w t n row event
  outbox : db'.outbox ≡ db.outbox ++ row ∷ []
  audits : db'.audit_events ≡ event ∷ db.audit_events

append_event-AddsOne :
    (w : World) (oc ac : String) (n : Notice) (t : Timestamptz) (db : Database)
    → t.valid ≡ true
    → (append_event w oc ac n t db).1 ≡ none
    → AddsOne w t n db (append_event w oc ac n t db).0
unfolding append_event insert_outbox insert_audit_event
append_event-AddsOne w oc ac n t db v h =
    let row = outbox_row w n t db in
    let mid = record db {
      outbox = db.outbox ++ row ∷ [];
      next_outbox_id = db.next_outbox_id + 1;
    } in
    let event : AuditRow = record {
      id = w.fresh_id mid;
      kind = n.topic;
      subject_type = n.subject_type;
      subject_id = some n.subject_id;
      payload = n.payload;
      occurred_at = or_now w mid t;
    } in
    record {
      row = row;
      event = event;
      logged = ground (arith, v);
      outbox = ground (arith, h);
      audits = ground (arith, h);
    }

AreLogged-cons :
    (w : World) (t : Timestamptz) (n : Notice) (ns : List Notice) (db mid db' : Database)
    → AddsOne w t n db mid
    → AreLogged w t ns mid.outbox mid.audit_events db'.outbox db'.audit_events
    → AreLogged w t (n ∷ ns) db.outbox db.audit_events db'.outbox db'.audit_events
AreLogged-cons w t n ns db mid db' one rest =
    (one.row, one.event, one.logged, rw (← one.outbox, ← one.audits) rest)

module _ (w : World) (oc ac : String) (t : Timestamptz) where
  pub append_events-IsApart :
      (ns : List Notice) (db : Database) → IsApart db (append_events w oc ac ns t db).0
  unfolding append_events
  append_events-IsApart [] db = record { labs = refl; projects = refl }
  append_events-IsApart (n ∷ ns) db =
      let (mid, e) = append_event w oc ac n t db in
      let here = append_event-IsApart w oc ac n t db in
      elim (Option-cases e) [
        | inl h ↦ ground (arith, h, here, append_events-IsApart ns mid)
        | inr (x, h) ↦ ground (arith, h, here)
      ]

  pub append_events-AreLogged :
      (ns : List Notice) (db : Database)
      → t.valid ≡ true
      → (append_events w oc ac ns t db).1 ≡ none
      → let db' = (append_events w oc ac ns t db).0 in
        AreLogged w t ns db.outbox db.audit_events db'.outbox db'.audit_events
  unfolding append_events
  append_events-AreLogged [] db v h = (refl, refl)
  append_events-AreLogged (n ∷ ns) db v h =
      let (mid, e) = append_event w oc ac n t db in
      elim (Option-cases e) [
        | inl k ↦
            let step : append_events w oc ac (n ∷ ns) t db ≡ append_events w oc ac ns t mid =
              ground (arith, k) in
            let rest = append_events-AreLogged ns mid v (ground (arith, k, h)) in
            rw step (
              AreLogged-cons w t n ns db mid (append_events w oc ac ns t mid).0
                (append_event-AddsOne w oc ac n t db v k) rest)
        | inr (x, k) ↦ absurd (ground (arith, h, k))
      ]
