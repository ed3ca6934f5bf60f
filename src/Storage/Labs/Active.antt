-- ===== src/Storage/Labs/Active.antt =====
-- internal/adapters/storage/pgxrepo/lab.go over the table of labs: what the storage tests before it
-- writes, and the saves that it refuses.
use cloud_lab_gateway.Common.{
  ℕ, ◌≡◌, ◌≢◌, refl, inl, inr, true, false, Bool-cases, Option-cases, none, some, List, [], ◌∷◌,
  ◌==◌, arith,
}
use cloud_lab_gateway.Shared.{Err, Sentinel}
use cloud_lab_gateway.Lab.{LabState, LabInstance}
use cloud_lab_gateway.Storage.Rows.{
  LabRow, Database, World, keep, at_most, is_allowed, is_active, find_lab, collide, conflicts,
  replace_lab,
}
use cloud_lab_gateway.Storage.Columns.{timestamptz}
use cloud_lab_gateway.Storage.Labs.{
  create_lab_params, update_lab_params, filled_lab, updated_lab, insert_lab, create_lab_instance,
  store_lab, update_found, update_lab_instance, after_create, create, after_save, save,
  unique_violation,
}
use cloud_lab_gateway.Storage.Labs.Reading.{flush-IsApart}

-- What the storage tests before it writes, of all rows.
abbrev pub AreValid : List LabRow → Type 0
AreValid [] = Unit
AreValid (r ∷ rs) =
    (find_lab r.id rs ≡ none) × (conflicts r rs ≡ false) × (is_allowed r ≡ true) × AreValid rs

replace-none :
    (id : ℕ) (r : LabRow) (rs : List LabRow)
    → find_lab id rs ≡ none
    → find_lab id (replace_lab r rs) ≡ none
replace-none id r [] h = refl
replace-none id r (s ∷ rs) h = ground (arith, replace-none id r rs)

replace_none_self :
    (r : LabRow) (rs : List LabRow) → find_lab r.id rs ≡ none → replace_lab r rs ≡ rs
replace_none_self r [] h = refl
replace_none_self r (s ∷ rs) h = ground (arith, replace_none_self r rs)

conflicts-replace :
    (s r : LabRow) (rs : List LabRow)
    → conflicts s rs ≡ false
    → collide s r ≡ false
    → conflicts s (replace_lab r rs) ≡ false
conflicts-replace s r [] h k = refl
conflicts-replace s r (t ∷ rs) h k = ground (arith, conflicts-replace s r rs)

collide_sym : (r s : LabRow) → collide r s ≡ false → collide s r ≡ false
collide_sym r s h = ground arith

replace-AreValid :
    (r : LabRow) (rs : List LabRow)
    → AreValid rs
    → is_allowed r ≡ true
    → conflicts r rs ≡ false
    → AreValid (replace_lab r rs)
replace-AreValid r [] a ok c = tt
replace-AreValid r (s ∷ rs) a ok c =
    let rest : conflicts r rs ≡ false = ground (arith, c) in
    elim (Bool-cases (s.id == r.id)) [
      | inl e ↦
          let gone : find_lab r.id rs ≡ none = ground (arith, a, e) in
          ground (arith, e, a, ok, rest, gone, replace_none_self r rs gone)
      | inr e ↦
          let free : collide r s ≡ false = ground (arith, c) in
          ground (
            arith,
            e,
            a,
            replace-none s.id r rs a.0,
            conflicts-replace s r rs a.1 (collide_sym r s free),
            replace-AreValid r rs a.3 ok rest,
          )
    ]

module _ (w : World) (l : LabInstance) (db : Database) (apart : AreValid db.labs) where
  pub create-AreValid : AreValid (create w l db).0.labs
  unfolding create after_create create_lab_instance insert_lab
  create-AreValid =
      let r = filled_lab w db (create_lab_params l) in
      ground
        (arith, apart, flush-IsApart w l db, flush-IsApart w l (record db { labs = r ∷ db.labs }))

  pub save-AreValid : AreValid (save w l db).0.labs
  unfolding save after_save update_lab_instance update_found store_lab update_lab_params
  save-AreValid = elim (Option-cases (find_lab l.id db.labs)) [
    | inl e ↦ ground (arith, apart, e)
    | inr (r, e) ↦
        let q = updated_lab w r (update_lab_params l) in
        ground (
          arith,
          apart,
          e,
          flush-IsApart w l (record db { labs = replace_lab q db.labs }),
          replace-AreValid q db.labs apart,
        )
  ]

-- A save of a lab that is older than its row is refused as a clash, and so is one of a lab without a row;
-- the database is left.
pub save_stale :
    (w : World) (l : LabInstance) (db : Database)
    → w.refuses "UpdateLabInstance" db ≡ none
    → ((r : LabRow)
        → find_lab l.id db.labs ≡ some r
        → at_most r.updated_at (keep w (timestamptz l.updated_at)) ≡ false)
    → save w l db ≡ (db, some (Err.sentinel Sentinel.idempotency_clash))
unfolding save after_save update_lab_instance update_found update_lab_params
save_stale w l db fine old = elim (Option-cases (find_lab l.id db.labs)) [
  | inl e ↦ ground (arith, fine, e)
  | inr (r, e) ↦ ground (arith, fine, e, old r e)
]

conflicts_of :
    (r : LabRow) (id : ℕ) (rs : List LabRow) {s : LabRow}
    → find_lab id rs ≡ some s
    → collide r s ≡ true
    → conflicts r rs ≡ true
conflicts_of r id [] h k = cc
conflicts_of r id (t ∷ rs) {s} h k = ground (arith, conflicts_of r id rs {s = s})

-- A row that is an active lab of the same student in the same course as `r`, and another.
pub record IsRival (r s : LabRow) : Type 0 where
  pub apart : s.id ≢ r.id
  pub active : is_active s.state ≡ true
  pub student : s.student_user_id ≡ r.student_user_id
  pub course : s.course_id ≡ r.course_id

-- While the student has another active lab in the course, which the storage admits once a lab has failed,
-- a save that takes the failed lab on to `cleaning` is refused and the database is left: the cleanup of
-- the failed lab cannot start.
pub save_failed_stuck :
    (w : World) (l : LabInstance) (db : Database) {r s : LabRow}
    → w.refuses "UpdateLabInstance" db ≡ none
    → l.state ≡ LabState.cleaning
    → find_lab l.id db.labs ≡ some r
    → at_most r.updated_at (keep w (timestamptz l.updated_at)) ≡ true
    → find_lab s.id db.labs ≡ some s
    → IsRival r s
    → save w l db ≡ (db, some (Err.wrapped "pgxrepo: save lab" unique_violation))
unfolding save after_save update_lab_instance update_found update_lab_params store_lab is_allowed
    is_active
save_failed_stuck w l db {r} {s} fine state found fresh there rival =
    let q = updated_lab w r (update_lab_params l) in
    let hit : collide q s ≡ true = ground (arith, state, rival) in
    let clash = conflicts_of q s.id db.labs there hit in
    ground (arith, fine, state, found, fresh, clash)
