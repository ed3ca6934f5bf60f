-- ===== src/Storage/Labs/Listing.antt =====
-- internal/adapters/storage/pgxrepo/lab.go: the queries that list labs. A limit is a natural number; a
-- negative one, which the source refuses like one above int32, is left out.
pub mod Answers
mod Tests
use cloud_lab_gateway.Common.{
  ℕ, ◌≤◌, ◌≡◌, refl, ◌⊎◌, inl, inr, Bool, true, false, Bool-cases, not, ◌&&◌, ◌||◌, Option,
  Option-cases, none, some, List, [], ◌∷◌, map, String, if◌then◌else◌, ◌==◌, ltb, leb, length, All,
  arith,
}
use cloud_lab_gateway.Common.Int.{ltb_ℤ, ◌≤ℤ◌}
use cloud_lab_gateway.Shared.{UserId, CourseId, Time, Err, Sentinel}
use cloud_lab_gateway.Ports.{Answer, Answer-cases, gives, fails, LabListFilter}
use cloud_lab_gateway.Lab
use cloud_lab_gateway.Lab.{LabState, LabInstance}
use cloud_lab_gateway.Storage.Columns.{
  Timestamptz, timestamptz, NullUuid, nullable_id, ki_resources_from_json,
}
use cloud_lab_gateway.Storage.Rows.{LabRow, Database, World, keep, at_most, is_active}
use cloud_lab_gateway.Storage.Sorting.{
  order_by, where_true, limit_to, length-limit_to, All-limit_to, All-order_by, All-where_true,
  where_true_none,
}
use cloud_lab_gateway.Storage.Labs.{lab_from_row}

abbrev pub max_int32 : ℕ
max_int32 = 2147483647

unfoldable pub list_limit_int32 : ℕ → Answer ℕ
list_limit_int32 limit =
    if ltb max_int32 limit then fails (Err.sentinel Sentinel.invalid_input) else gives limit

abbrev and_then {ℓ κ} : {A : Type ℓ} {B : Type κ} → Answer A → (A → Answer B) → Answer B
and_then (gives a) f = f a
and_then (fails e) f = fails e

pub labs_from_rows : List LabRow → Answer (List LabInstance)
labs_from_rows [] = gives []
labs_from_rows (r ∷ rs) =
    let rest = labs_from_rows rs in
    and_then (lab_from_row r) (λ l. and_then rest (λ ls. gives (l ∷ ls)))

-- `ORDER BY t, id`
abbrev earlier_first : (LabRow → Timestamptz) → LabRow → LabRow → Bool
earlier_first at r s =
    if ltb_ℤ (at r).time (at s).time
    then true
    else if ltb_ℤ (at s).time (at r).time
    then false
    else leb r.id s.id

-- `ORDER BY created_at DESC, id`
abbrev newest_first : LabRow → LabRow → Bool
newest_first r s =
    if ltb_ℤ s.created_at.time r.created_at.time
    then true
    else if ltb_ℤ r.created_at.time s.created_at.time
    then false
    else leb r.id s.id

-- `ORDER BY created_at DESC, id DESC`
abbrev newest_and_last_first : LabRow → LabRow → Bool
newest_and_last_first r s =
    if ltb_ℤ s.created_at.time r.created_at.time
    then true
    else if ltb_ℤ r.created_at.time s.created_at.time
    then false
    else leb s.id r.id

abbrev pub is_active_of : UserId → CourseId → LabRow → Bool
is_active_of student course r =
    r.student_user_id == student && r.course_id == course && is_active r.state

first_lab : List LabRow → Answer (Option LabInstance)
first_lab [] = gives none
first_lab (r ∷ _) = and_then (lab_from_row r) (λ l. gives (some l))

-- The rows of the query FindActiveLabByStudentAndCourse.
abbrev pub active_rows : UserId → CourseId → Database → List LabRow
active_rows student course db =
    limit_to 1 (order_by newest_first (where_true (is_active_of student course) db.labs))

pub find_active_by_student_and_course :
    World → UserId → CourseId → Database → Answer (Option LabInstance)
unfolding first_lab
find_active_by_student_and_course w student course db =
    elim (w.refuses "FindActiveLabByStudentAndCourse" db) [
      | none ↦ first_lab (active_rows student course db)
      | some e ↦ fails (Err.wrapped "pgxrepo: find active lab" e)
    ]

abbrev pub is_overdue : LabState → (LabRow → Timestamptz) → Timestamptz → LabRow → Bool
is_overdue s at before r = Lab.same_state r.state s && at_most (at r) before

overdue_rows : LabState → (LabRow → Timestamptz) → Timestamptz → ℕ → Database → List LabRow
overdue_rows s at before limit db =
    limit_to limit (order_by (earlier_first at) (where_true (is_overdue s at before) db.labs))

pub list_pending_cleanup : World → Time → ℕ → Database → Answer (List LabInstance)
unfolding overdue_rows
list_pending_cleanup w before limit db = and_then (list_limit_int32 limit) (λ n.
    if n == 0 then gives [] else elim (w.refuses "ListPendingCleanupLabs" db) [
      | none ↦
          labs_from_rows
            (overdue_rows LabState.ready (λ r. r.cleanup_at) (keep w (timestamptz before)) n db)
      | some e ↦ fails (Err.wrapped "pgxrepo: list pending cleanup labs" e)
    ])

pub list_pending_unfreeze : World → Time → ℕ → Database → Answer (List LabInstance)
unfolding overdue_rows
list_pending_unfreeze w before limit db = and_then (list_limit_int32 limit) (λ n.
    if n == 0 then gives [] else elim (w.refuses "ListPendingUnfreezeLabs" db) [
      | none ↦
          labs_from_rows
            (overdue_rows LabState.frozen (λ r. r.unfreeze_at) (keep w (timestamptz before)) n db)
      | some e ↦ fails (Err.wrapped "pgxrepo: list pending unfreeze labs" e)
    ])

abbrev any_or_equal : Option ℕ → ℕ → Bool
any_or_equal none n = true
any_or_equal (some m) n = n == m

abbrev among : ℕ → List ℕ → Bool
among n [] = false
among n (m ∷ ms) = n == m || among n ms

abbrev none_or_among : ℕ → List ℕ → Bool
none_or_among n [] = true
none_or_among n (m ∷ ms) = among n (m ∷ ms)

abbrev state_among : LabState → List LabState → Bool
state_among s [] = false
state_among s (t ∷ ts) = Lab.same_state s t || state_among s ts

abbrev none_or_state_among : LabState → List LabState → Bool
none_or_state_among s [] = true
none_or_state_among s (t ∷ ts) = state_among s (t ∷ ts)

abbrev pub matches : LabListFilter → LabRow → Bool
matches f r =
    any_or_equal f.student_user_id r.student_user_id
    && any_or_equal f.course_id r.course_id
    && none_or_among r.course_id f.course_ids
    && none_or_state_among r.state f.states

-- The rows of the query ListLabInstances.
abbrev pub matching_rows : LabListFilter → ℕ → Database → List LabRow
matching_rows f limit db =
    limit_to limit (order_by newest_and_last_first (where_true (matches f) db.labs))

-- A limit of zero stands for 200.
pub list : World → LabListFilter → Database → Answer (List LabInstance)
list w f db = and_then (list_limit_int32 f.limit) (λ n.
    let limit = if n == 0 then 200 else n in
    elim (w.refuses "ListLabInstances" db) [
      | none ↦ labs_from_rows (matching_rows f limit db)
      | some e ↦ fails (Err.wrapped "pgxrepo: list labs" e)
    ])
