-- ===== src/Storage/Labs/Keeping.antt =====
-- internal/adapters/storage/pgxrepo/lab.go over the table of labs: a lab keeps its row, whose origin stays.
use cloud_lab_gateway.Common.{
  ℕ, ◌≡◌, ◌⊎◌, refl, ◌∙◌, inl, inr, Bool, true, false, Bool-cases, Option-cases, none, some, List,
  [], ◌∷◌, ◌==◌, arith,
}
use cloud_lab_gateway.Common.Int.{◌≤ℤ◌}
use cloud_lab_gateway.Lab.{LabInstance}
use cloud_lab_gateway.Storage.Rows.{LabRow, Database, World, keep, at_most, find_lab, replace_lab}
use cloud_lab_gateway.Storage.Columns.{Timestamptz, timestamptz}
use cloud_lab_gateway.Storage.Labs.{
  create_lab_params, update_lab_params, filled_lab, updated_lab, insert_lab, create_lab_instance,
  store_lab, update_found, update_lab_instance, after_create, create, after_save, save,
}
use cloud_lab_gateway.Storage.Labs.Reading.{flush-IsApart, find-replace, find_lab_id}

-- The second instant is not before the first, if there is a first.
abbrev NotBefore : Bool → Timestamptz → Timestamptz → Type 0
NotBefore true t u = (u.valid ≡ true) × (t.time ≤ℤ u.time)
NotBefore false t u = Unit

-- The row of the same lab at a later time.
pub record IsLater (r q : LabRow) : Type 0 where
  pub student : q.student_user_id ≡ r.student_user_id
  pub course : q.course_id ≡ r.course_id
  pub template : q.lab_template_id ≡ r.lab_template_id
  pub created : q.created_at ≡ r.created_at
  pub changed : NotBefore r.updated_at.valid r.updated_at q.updated_at

IsLater-refl : (r : LabRow) → IsLater r r
IsLater-refl r = record {
  student = refl;
  course = refl;
  template = refl;
  created = refl;
  changed = ground arith;
}

IsLater-trans : {a b c : LabRow} → IsLater a b → IsLater b c → IsLater a c
IsLater-trans h k = record {
  student = k.student ∙ h.student;
  course = k.course ∙ h.course;
  template = k.template ∙ h.template;
  created = k.created ∙ h.created;
  changed = ground (arith, h.changed, k.changed);
}

updated_lab-IsLater :
    (w : World) (r : LabRow) (l : LabInstance)
    → at_most r.updated_at (keep w (timestamptz l.updated_at)) ≡ true
    → IsLater r (updated_lab w r (update_lab_params l))
unfolding update_lab_params
updated_lab-IsLater w r l h = record {
  student = refl;
  course = refl;
  template = refl;
  created = refl;
  changed = ground (arith, h);
}

-- Each lab with a row has one later.
abbrev pub IsKept : List LabRow → List LabRow → Type 0
IsKept old new =
    (id : ℕ) (r : LabRow)
    → find_lab id old ≡ some r
    → (q : LabRow) × (find_lab id new ≡ some q) × IsLater r q

pub IsKept-refl : (rs : List LabRow) → IsKept rs rs
IsKept-refl rs id r h = (r, h, IsLater-refl r)

IsKept-of_same : (rs new : List LabRow) → new ≡ rs → IsKept rs new
IsKept-of_same rs new e = rw e (IsKept-refl rs)

pub IsKept-trans : (a b c : List LabRow) → IsKept a b → IsKept b c → IsKept a c
IsKept-trans a b c h k id r f =
    let (q, found, later) = h id r f in
    let (p, found', later') = k id q found in (p, found', IsLater-trans later later')

IsKept-cons : (r : LabRow) (rs : List LabRow) → find_lab r.id rs ≡ none → IsKept rs (r ∷ rs)
IsKept-cons r rs n id s f = elim (Bool-cases (r.id == id)) [
  | inl e ↦ absurd (ground (arith, n, f, e))
  | inr e ↦ (s, ground (arith, e, f), IsLater-refl s)
]

find-replace_other :
    (q : LabRow) (id : ℕ) (rs : List LabRow)
    → (q.id == id) ≡ false
    → find_lab id (replace_lab q rs) ≡ find_lab id rs
find-replace_other q id [] n = refl
find-replace_other q id (s ∷ rs) n = ground (arith, n, find-replace_other q id rs n)

IsKept-replace :
    (r q : LabRow) (rs : List LabRow)
    → find_lab q.id rs ≡ some r
    → IsLater r q
    → IsKept rs (replace_lab q rs)
IsKept-replace r q rs there later id s f = elim (Bool-cases (q.id == id)) [
  | inl e ↦
      let same : q.id ≡ id = ground (arith, e) in
      let row : s ≡ r = ground (arith, there, f, same) in
      rw (← same, row) (q, find-replace q rs there, later)
  | inr e ↦ (s, find-replace_other q id rs e ∙ f, IsLater-refl s)
]

module _ (w : World) (l : LabInstance) (db : Database) where
  pub create-IsKept : IsKept db.labs (create w l db).0.labs
  unfolding create after_create create_lab_instance insert_lab create_lab_params
  create-IsKept =
      let r = filled_lab w db (create_lab_params l) in
      let rows : ((create w l db).0.labs ≡ db.labs)
          ⊎ ((find_lab r.id db.labs ≡ none) × ((create w l db).0.labs ≡ r ∷ db.labs)) =
        ground
          (arith, flush-IsApart w l db, flush-IsApart w l (record db { labs = r ∷ db.labs })) in
      elim rows [ inl e ↦ IsKept-of_same db.labs _ e | inr (n, e) ↦ rw e (IsKept-cons r db.labs n) ]

  pub save-IsKept : IsKept db.labs (save w l db).0.labs
  unfolding save after_save update_lab_instance update_found store_lab update_lab_params
  save-IsKept = elim (Option-cases (find_lab l.id db.labs)) [
    | inl e ↦ IsKept-of_same db.labs _ (ground (arith, e))
    | inr (r, e) ↦
        let q = updated_lab w r (update_lab_params l) in
        let rows : ((save w l db).0.labs ≡ db.labs)
            ⊎ ((at_most r.updated_at (keep w (timestamptz l.updated_at)) ≡ true)
                × ((save w l db).0.labs ≡ replace_lab q db.labs)) =
          ground (arith, e, flush-IsApart w l (record db { labs = replace_lab q db.labs })) in
        elim rows [
          | inl e ↦ IsKept-of_same db.labs _ e
          | inr (h, k) ↦
              let there : find_lab q.id db.labs ≡ some r =
                ground (arith, e, find_lab_id l.id db.labs e) in
              rw k (IsKept-replace r q db.labs there (updated_lab-IsLater w r l h))
        ]
  ]
