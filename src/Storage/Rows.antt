-- ===== src/Storage/Rows.antt =====
-- internal/adapters/storage/sqlcgen: the rows of the tables, with what migrations/0001_init.sql demands
-- of them, and the database. Columns that are not null are plain, save the instants that a query
-- may fill in. The columns of an audit event that the aggregates leave empty are left out.
use cloud_lab_gateway.Common.{
  ℕ, Bool, true, false, not, ◌&&◌, ◌||◌, Option, none, some, List, [], ◌∷◌, String, ◌==◌,
  if◌then◌else◌,
}
use cloud_lab_gateway.Common.Int.{ltb_ℤ}
use cloud_lab_gateway.Shared.{Time, Err}
use cloud_lab_gateway.Lab
use cloud_lab_gateway.Lab.{LabState}
use cloud_lab_gateway.Pool.{ProjectState}
use cloud_lab_gateway.Storage.Columns.{NullUuid, Timestamptz, Json}

pub record LabRow : Type 0 where
  pub id : ℕ
  pub student_user_id : ℕ
  pub course_id : ℕ
  pub lab_template_id : ℕ
  pub project_id : NullUuid
  pub state : LabState
  pub state_reason : String
  pub ki_resources : Json
  pub cleanup_at : Timestamptz
  pub unfreeze_at : Timestamptz
  pub frozen_by_user_id : NullUuid
  pub frozen_reason : Option String
  pub student_ssh_key_secret_id : NullUuid
  pub checker_ssh_key_secret_id : NullUuid
  pub created_at : Timestamptz
  pub updated_at : Timestamptz

pub record ProjectRow : Type 0 where
  pub id : ℕ
  pub ki_project_id : String
  pub ki_domain_id : String
  pub name : String
  pub state : ProjectState
  pub allocated_to_lab_id : NullUuid
  pub cleanup_failures : ℕ
  pub last_state_change_at : Timestamptz
  pub created_at : Timestamptz

pub record OutboxRow : Type 0 where
  pub id : ℕ
  pub topic : String
  pub payload : Json
  pub occurred_at : Timestamptz
  pub published_at : Option Time
  pub attempts : ℕ

pub record AuditRow : Type 0 where
  pub id : ℕ
  pub kind : String
  pub subject_type : String
  pub subject_id : Option String
  pub payload : Json
  pub occurred_at : Timestamptz

-- New rows stand first, except in the outbox, which is in the order of its identifiers.
pub record Database : Type 0 where
  pub labs : List LabRow
  pub projects : List ProjectRow
  pub outbox : List OutboxRow
  pub audit_events : List AuditRow
  -- the next identifier of the outbox
  pub next_outbox_id : ℕ

-- What is outside: whether the server refuses a query, for a cause that the tables do not show (a lost
-- connection, a missing parent row), its clock, the instants that it can keep, and texts.
pub record World : Type 0 where
  pub refuses : String → Database → Option Err
  pub now : Database → Time
  pub kept : Time → Time
  pub uuid_text : ℕ → String
  pub rfc3339 : Time → String
  pub fresh_id : Database → ℕ

pub data Reply {ℓ} (A : Type ℓ) : Type ℓ where
  reply : A → Reply A
  no_rows : Reply A
  -- a unique violation, code 23505
  duplicate : Reply A
  broken : Err → Reply A

-- The instant as the server keeps it.
abbrev pub keep : World → Timestamptz → Timestamptz
keep w t = if t.valid then record t { time = w.kept t.time } else t

-- `COALESCE(t, now())`
abbrev pub or_now : World → Database → Timestamptz → Timestamptz
or_now w db t = if t.valid then keep w t else record { time = w.kept (w.now db); valid = true }

-- `a <= b`, which is not true of a null.
abbrev pub at_most : Timestamptz → Timestamptz → Bool
at_most a b = a.valid && b.valid && not (ltb_ℤ b.time a.time)

-- `state NOT IN ('done', 'rejected', 'failed')`
unfoldable pub is_active : LabState → Bool
is_active s = not (
    Lab.same_state s LabState.done
    || Lab.same_state s LabState.rejected
    || Lab.same_state s LabState.failed)

-- The constraints lab_ready_has_cleanup_at and lab_frozen_has_unfreeze.
unfoldable pub is_allowed : LabRow → Bool
is_allowed r =
    (not (Lab.same_state r.state LabState.ready) || r.cleanup_at.valid)
    && (not (Lab.same_state r.state LabState.frozen)
        || (r.unfreeze_at.valid && r.frozen_by_user_id.valid))

abbrev pub find_lab : ℕ → List LabRow → Option LabRow
find_lab id [] = none
find_lab id (r ∷ rs) = if r.id == id then some r else find_lab id rs

-- The index lab_instances_one_active_per_student_course against one other row.
abbrev pub collide : LabRow → LabRow → Bool
collide r s =
    not (s.id == r.id)
    && is_active r.state
    && is_active s.state
    && s.student_user_id == r.student_user_id
    && s.course_id == r.course_id

abbrev pub conflicts : LabRow → List LabRow → Bool
conflicts r [] = false
conflicts r (s ∷ rs) = collide r s || conflicts r rs

-- The row takes the place of the one with its identifier.
abbrev pub replace_lab : LabRow → List LabRow → List LabRow
replace_lab r [] = []
replace_lab r (s ∷ rs) = let rest = replace_lab r rs in if s.id == r.id then r ∷ rest else s ∷ rest

abbrev pub check_violation : Err
check_violation = Err.external "new row violates check constraint"
