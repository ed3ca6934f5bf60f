-- ===== src/Storage/Labs/Listing/Answers.antt =====
-- internal/adapters/storage/pgxrepo/lab.go: what the queries answer.
use cloud_lab_gateway.Common.{
  ℕ, ltb, ◌≤◌, ◌≡◌, refl, inl, inr, true, false, Bool-cases, Option, Option-cases, none, some, List,
  [], ◌∷◌, ◌==◌, ==_iff, length, All, arith,
}
use cloud_lab_gateway.Common.Int.{◌≤ℤ◌}
use cloud_lab_gateway.Shared.{UserId, CourseId, Time}
use cloud_lab_gateway.Ports.{Answer-cases, gives}
use cloud_lab_gateway.Lab.{LabState, LabInstance}
use cloud_lab_gateway.Storage.Columns.{
  timestamptz, time_ptr_from_timestamptz, ki_resources_from_json,
}
use cloud_lab_gateway.Storage.Rows.{LabRow, Database, World, keep, is_active}
use cloud_lab_gateway.Storage.Sorting.{
  limit_one-order_by, order_by, where_true, limit_to, length-limit_to, All-limit_to, All-order_by,
  All-where_true, where_true_none,
}
use cloud_lab_gateway.Storage.Labs.{lab_from_row}
use cloud_lab_gateway.Storage.Labs.Listing.{
  max_int32, list_limit_int32, labs_from_rows, earlier_first, newest_first, is_active_of, first_lab,
  find_active_by_student_and_course, is_overdue, overdue_rows, list_pending_cleanup,
}

-- What of a row comes into the lab.
record IsRead (r : LabRow) (l : LabInstance) : Type 0 where
  state : l.state ≡ r.state
  student : l.student_user_id ≡ r.student_user_id
  course : l.course_id ≡ r.course_id
  cleanup : l.cleanup_at ≡ time_ptr_from_timestamptz r.cleanup_at

lab_from_row-IsRead : (r : LabRow) {l : LabInstance} → lab_from_row r ≡ gives l → IsRead r l
unfolding lab_from_row
lab_from_row-IsRead r {l} h = elim (Answer-cases (ki_resources_from_json r.ki_resources)) [
  | inl (res, e) ↦ ground (arith, h, e)
  | inr (x, e) ↦ ground (arith, h, e)
]

module _ (P : LabRow → Type 0) (Q : LabInstance → Type 0)
    (go : (r : LabRow) (l : LabInstance) → P r → IsRead r l → Q l) where
  labs_from_rows-All :
      (rs : List LabRow) {ls : List LabInstance}
      → All P rs
      → labs_from_rows rs ≡ gives ls
      → All Q ls × (length ls ≡ length rs)
  unfolding labs_from_rows
  labs_from_rows-All [] {ls} a h = let e : ls ≡ [] = ground (arith, h) in rw e (tt, refl)
  labs_from_rows-All (r ∷ rs) {ls} a h = elim (Answer-cases (lab_from_row r)) [
    | inl (l, e) ↦ elim (Answer-cases (labs_from_rows rs)) [
      | inl (ms, k) ↦
          let s : ls ≡ l ∷ ms = ground (arith, h, e, k) in
          let ih = labs_from_rows-All rs {ls = ms} a.1 k in
          rw s ((go r l a.0 (lab_from_row-IsRead r e), ih.0), omega (arith, ih.1))
      | inr (x, k) ↦ ground (arith, h, e, k)
    ]
    | inr (x, e) ↦ ground (arith, h, e)
  ]

abbrev pub IsDueBy : Time → Option Time → Type 0
IsDueBy t none = ⊥
IsDueBy t (some u) = u ≤ℤ t

All-map :
    {A : Type 0} (P Q : A → Type 0) (xs : List A) → ((a : A) → P a → Q a) → All P xs → All Q xs
All-map P Q [] f h = tt
All-map P Q (a ∷ xs) f h = (f a h.0, All-map P Q xs f h.1)

abbrev IsDueRow : Time → LabRow → Type 0
IsDueRow t r = (r.state ≡ LabState.ready) × IsDueBy t (time_ptr_from_timestamptz r.cleanup_at)

is_overdue-IsDueRow :
    (w : World) (before : Time) (r : LabRow)
    → is_overdue LabState.ready (λ q. q.cleanup_at) (keep w (timestamptz before)) r ≡ true
    → IsDueRow (w.kept before) r
is_overdue-IsDueRow w before r h = ground (arith, h)

due_rows :
    (w : World) (before : Time) (n : ℕ) (db : Database)
    → let rs = overdue_rows LabState.ready (λ r. r.cleanup_at) (keep w (timestamptz before)) n db in
      All (IsDueRow (w.kept before)) rs × (length rs ≤ n)
unfolding overdue_rows
due_rows w before n db =
    let at = keep w (timestamptz before) in
    let chosen = where_true (is_overdue LabState.ready (λ r. r.cleanup_at) at) db.labs in
    let sorted = order_by (earlier_first (λ r. r.cleanup_at)) chosen in
    let P = IsDueRow (w.kept before) in
    let due : All P chosen =
      All-map _ P chosen (is_overdue-IsDueRow w before)
        (All-where_true (is_overdue LabState.ready (λ r. r.cleanup_at) at) db.labs) in
    (
      All-limit_to P n sorted (All-order_by P (earlier_first (λ r. r.cleanup_at)) chosen due),
      length-limit_to n sorted,
    )

IsRead-due :
    (w : World) (before : Time) (r : LabRow) (l : LabInstance)
    → IsDueRow (w.kept before) r
    → IsRead r l
    → (l.state ≡ LabState.ready) × IsDueBy (w.kept before) l.cleanup_at
IsRead-due w before r l d i = ground (arith, d, i)

abbrev IsActiveOf : UserId → CourseId → LabInstance → Type 0
IsActiveOf student course l =
    (l.student_user_id ≡ student) × (l.course_id ≡ course) × (is_active l.state ≡ true)

-- What the search for an active lab says of the table.
abbrev pub Found : UserId → CourseId → List LabRow → Option LabInstance → Type 0
Found student course rows none = All (λ r. is_active_of student course r ≡ false) rows
Found student course rows (some l) = IsActiveOf student course l

Found-first :
    (student : UserId) (course : CourseId) (rows rs : List LabRow) {o : Option LabInstance}
    → All (λ r. is_active_of student course r ≡ true) rs
    → (rs ≡ [] → All (λ r. is_active_of student course r ≡ false) rows)
    → first_lab rs ≡ gives o
    → Found student course rows o
unfolding first_lab
Found-first student course rows [] {o} a empty h =
    let e : o ≡ none = ground (arith, h) in rw e (empty refl)
Found-first student course rows (r ∷ rs) {o} a empty h = elim (Answer-cases (lab_from_row r)) [
  | inl (l, e) ↦
      let s : o ≡ some l = ground (arith, h, e) in
      rw s (
        ground (
          arith,
          a,
          lab_from_row-IsRead r e,
          ==_iff r.student_user_id student,
          ==_iff r.course_id course,
        ))
  | inr (x, e) ↦ absurd (ground (arith, h, e))
]

-- Every lab that is listed for cleanup is ready and due by the instant asked for, as the server keeps it,
-- and no more are listed than asked for.
pub list_pending_cleanup-IsDueBy :
    (w : World) (before : Time) (limit : ℕ) (db : Database) {ls : List LabInstance}
    → list_pending_cleanup w before limit db ≡ gives ls
    → All (λ l. (l.state ≡ LabState.ready) × IsDueBy (w.kept before) l.cleanup_at) ls
      × (length ls ≤ limit)
unfolding list_pending_cleanup list_limit_int32
list_pending_cleanup-IsDueBy w before limit db {ls} h = elim (Bool-cases (ltb max_int32 limit)) [
  | inl over ↦ absurd (ground (arith, h, over))
  | inr fits ↦ elim (Bool-cases (limit == 0)) [
    | inl zero ↦ let e : ls ≡ [] = ground (arith, h, fits, zero) in rw e (tt, omega arith)
    | inr more ↦ elim (Option-cases (w.refuses "ListPendingCleanupLabs" db)) [
      | inr (x, r) ↦ absurd (ground (arith, h, fits, more, r))
      | inl fine ↦
          let rs =
            overdue_rows LabState.ready (λ q. q.cleanup_at) (keep w (timestamptz before)) limit
              db in
          let read : labs_from_rows rs ≡ gives ls = ground (arith, h, fits, more, fine) in
          let due = due_rows w before limit db in
          let all =
            labs_from_rows-All (IsDueRow (w.kept before))
              (λ l. (l.state ≡ LabState.ready) × IsDueBy (w.kept before) l.cleanup_at)
              (IsRead-due w before) rs {ls = ls} due.0 read in
          (all.0, omega (arith, all.1, due.1))
    ]
  ]
]

-- A search that finds no active lab of a student in a course says that there is none in the table, and a
-- lab that it finds is one.
pub find_active-IsActive :
    (w : World) (student : UserId) (course : CourseId) (db : Database) {o : Option LabInstance}
    → find_active_by_student_and_course w student course db ≡ gives o
    → Found student course db.labs o
unfolding find_active_by_student_and_course first_lab
find_active-IsActive w student course db {o} h =
    elim (Option-cases (w.refuses "FindActiveLabByStudentAndCourse" db)) [
      | inr (x, r) ↦ absurd (ground (arith, h, r))
      | inl fine ↦
          let wanted = is_active_of student course in
          let chosen = where_true wanted db.labs in
          let P : LabRow → Type 0 = λ r. wanted r ≡ true in
          Found-first student course db.labs (limit_to 1 (order_by newest_first chosen))
            (All-limit_to P 1 (order_by newest_first chosen)
              (All-order_by P newest_first chosen (All-where_true wanted db.labs)))
            (λ e. where_true_none wanted db.labs (limit_one-order_by newest_first chosen e))
            (ground (arith, h, fine))
    ]
