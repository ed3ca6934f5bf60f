-- ===== src/Storage/Labs/Writes.antt =====
-- internal/adapters/storage/pgxrepo/lab.go over the table of labs: what is so over any writes.
use cloud_lab_gateway.Common.{
  ◌≡◌, ◌≢◌, refl, inl, inr, true, false, Option, Option-cases, none, some, List, [], ◌∷◌, All,
  arith,
}
use cloud_lab_gateway.Shared.{Err}
use cloud_lab_gateway.Lab.{LabState, LabInstance}
use cloud_lab_gateway.Storage.Rows.{
  LabRow, Database, World, is_allowed, is_active, find_lab, conflicts,
}
use cloud_lab_gateway.Storage.Labs.{create, save}
use cloud_lab_gateway.Storage.Labs.Active.{AreValid, create-AreValid, save-AreValid}
use cloud_lab_gateway.Storage.Labs.Keeping.{
  IsKept, IsKept-refl, IsKept-trans, create-IsKept, save-IsKept,
}

-- A write of a lab in a transaction, which is taken back where it returns an error.
pub data LabWrite : Type 0 where
  created saved : LabInstance → LabWrite

abbrev commit : Database → Database × Option Err → Database
commit db (db', none) = db'
commit db (db', some e) = db

pub write : World → Database → LabWrite → Database
write w db (LabWrite.created l) = commit db (create w l db)
write w db (LabWrite.saved l) = commit db (save w l db)

pub write_all : World → Database → List LabWrite → Database
unfolding write
write_all w db [] = db
write_all w db (x ∷ xs) = write_all w (write w db x) xs

write-AreValid :
    (w : World) (db : Database) (x : LabWrite) → AreValid db.labs → AreValid (write w db x).labs
unfolding write
write-AreValid w db (LabWrite.created l) a = ground (arith, a, create-AreValid w l db a)
write-AreValid w db (LabWrite.saved l) a = ground (arith, a, save-AreValid w l db a)

write_all-AreValid :
    (w : World) (db : Database) (xs : List LabWrite)
    → AreValid db.labs
    → AreValid (write_all w db xs).labs
unfolding write_all
write_all-AreValid w db [] a = a
write_all-AreValid w db (x ∷ xs) a =
    write_all-AreValid w (write w db x) xs (write-AreValid w db x a)

-- A lab in the state is not over, as the storage counts it.
abbrev pub IsOpen : LabState → Type 0
IsOpen LabState.done = ⊥
IsOpen LabState.rejected = ⊥
IsOpen LabState.failed = ⊥
IsOpen _ = Unit

-- Different labs; if both are not over, they are of different students or in different courses.
pub record Apart (r s : LabRow) : Type 0 where
  pub ids : r.id ≢ s.id
  pub one_open :
      IsOpen r.state × IsOpen s.state × (r.student_user_id ≡ s.student_user_id)
      → r.course_id ≢ s.course_id

-- A ready lab has its cleanup, a frozen one the end of the freeze and who froze it.
abbrev IsSetFor : LabState → LabRow → Type 0
IsSetFor LabState.ready r = r.cleanup_at.valid ≡ true
IsSetFor LabState.frozen r = (r.unfreeze_at.valid ≡ true) × (r.frozen_by_user_id.valid ≡ true)
IsSetFor _ r = Unit

abbrev pub AreApart : List LabRow → Type 0
AreApart [] = Unit
AreApart (r ∷ rs) = All (Apart r) rs × IsSetFor r.state r × AreApart rs

valid-Apart :
    (r : LabRow) (rs : List LabRow)
    → find_lab r.id rs ≡ none
    → conflicts r rs ≡ false
    → All (Apart r) rs
unfolding is_active
valid-Apart r [] n c = tt
valid-Apart r (s ∷ rs) n c = (
  record { ids = ground (arith, n); one_open = ground (arith, n, c) },
  valid-Apart r rs (ground (arith, n)) (ground (arith, c)),
)

Apart-valid :
    (r : LabRow) (rs : List LabRow)
    → All (Apart r) rs
    → (find_lab r.id rs ≡ none) × (conflicts r rs ≡ false)
unfolding is_active
Apart-valid r [] a = (refl, refl)
Apart-valid r (s ∷ rs) a =
    let rest = Apart-valid r rs a.1 in
    (ground (arith, a.0.ids, rest), ground (arith, a.0.ids, a.0.one_open, rest))

allowed-IsSetFor : (r : LabRow) → is_allowed r ≡ true → IsSetFor r.state r
unfolding is_allowed
allowed-IsSetFor r h = ground (arith, h)

IsSetFor-allowed : (r : LabRow) → IsSetFor r.state r → is_allowed r ≡ true
unfolding is_allowed
IsSetFor-allowed r h = ground (arith, h)

AreValid-AreApart : (rs : List LabRow) → AreValid rs → AreApart rs
AreValid-AreApart [] a = tt
AreValid-AreApart (r ∷ rs) (n, c, ok, a) =
    (valid-Apart r rs n c, allowed-IsSetFor r ok, AreValid-AreApart rs a)

AreApart-AreValid : (rs : List LabRow) → AreApart rs → AreValid rs
AreApart-AreValid [] a = tt
AreApart-AreValid (r ∷ rs) (apart, fit, a) =
    let (n, c) = Apart-valid r rs apart in (n, c, IsSetFor-allowed r fit, AreApart-AreValid rs a)

write-IsKept : (w : World) (db : Database) (x : LabWrite) → IsKept db.labs (write w db x).labs
unfolding write
write-IsKept w db (LabWrite.created l) = elim (Option-cases (create w l db).1) [
  | inl e ↦ rw e (create-IsKept w l db)
  | inr (x, e) ↦ rw e (IsKept-refl db.labs)
]
write-IsKept w db (LabWrite.saved l) = elim (Option-cases (save w l db).1) [
  | inl e ↦ rw e (save-IsKept w l db)
  | inr (x, e) ↦ rw e (IsKept-refl db.labs)
]

write_all-IsKept :
    (w : World) (db : Database) (xs : List LabWrite) → IsKept db.labs (write_all w db xs).labs
unfolding write_all
write_all-IsKept w db [] = IsKept-refl db.labs
write_all-IsKept w db (x ∷ xs) =
    let next = write w db x in
    IsKept-trans db.labs next.labs (write_all w next xs).labs (write-IsKept w db x)
      (write_all-IsKept w next xs)

-- Over any creations and saves, of any labs and with any refusals of the server: if it was so before, the rows of labs
-- have different identifiers, no student has two labs in one course whose states are not done, rejected or failed,
-- a ready lab has the time of its cleanup, and a frozen lab has its end and who froze it. Each lab that has a row
-- keeps one, with its student, course, template and instant of creation, and the instant of its last change does
-- not go back.
pub write_all-AreApart :
    (w : World) (db : Database) (xs : List LabWrite)
    → AreApart db.labs
    → AreApart (write_all w db xs).labs × IsKept db.labs (write_all w db xs).labs
write_all-AreApart w db xs a = (
  AreValid-AreApart (write_all w db xs).labs
      (write_all-AreValid w db xs (AreApart-AreValid db.labs a)),
  write_all-IsKept w db xs,
)
