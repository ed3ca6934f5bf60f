-- ===== src/Storage/Labs/Reading.antt =====
-- internal/adapters/storage/pgxrepo/lab.go: what is read after a lab was written.
use cloud_lab_gateway.Common.{
  ℕ, ◌≡◌, inl, inr, false, Option, Option-cases, none, some, List, [], ◌∷◌, arith,
}
use cloud_lab_gateway.Shared.{Time}
use cloud_lab_gateway.Ports.{Answer-cases, gives}
use cloud_lab_gateway.Lab.{LabInstance}
use cloud_lab_gateway.Storage.Columns.{
  is_zero_time, nullable_string_back, ki_resources_from_json, ki_resources_from_json-to_json,
}
use cloud_lab_gateway.Storage.Rows.{LabRow, Database, World, find_lab, replace_lab}
use cloud_lab_gateway.Storage.Events.Noting.{IsApart, append_events-IsApart}
use cloud_lab_gateway.Storage.Labs.{
  create_lab_params, update_lab_params, lab_from_row, filled_lab, updated_lab, insert_lab,
  create_lab_instance, store_lab, update_found, update_lab_instance, lab_event_occurred_at,
  flush_lab_events, after_create, create, after_save, save, found_lab, get_by_id,
}

-- Instants that are set are not the zero of package time.
abbrev IsMarked : Option Time → Type 0
IsMarked none = Unit
IsMarked (some t) = is_zero_time t ≡ false

pub record IsDated (l : LabInstance) : Type 0 where
  pub created : is_zero_time l.created_at ≡ false
  pub updated : is_zero_time l.updated_at ≡ false
  pub cleanup_set : IsMarked l.cleanup_at
  pub unfreeze_set : IsMarked l.unfreeze_at

abbrev kept_option : World → Option Time → Option Time
kept_option w none = none
kept_option w (some t) = some (w.kept t)

-- The lab with its instants as the server keeps them, and without events.
abbrev pub stored : World → LabInstance → LabInstance
stored w l = record l {
  cleanup_at = kept_option w l.cleanup_at;
  unfreeze_at = kept_option w l.unfreeze_at;
  created_at = w.kept l.created_at;
  updated_at = w.kept l.updated_at;
  pending_events = [];
}

-- What a save cannot change is that of the lab before.
abbrev pub with_origin : LabInstance → LabInstance → LabInstance
with_origin old l = record l {
  student_user_id = old.student_user_id;
  course_id = old.course_id;
  lab_template_id = old.lab_template_id;
  created_at = old.created_at;
}

filled_lab_back :
    (w : World) (db : Database) (l : LabInstance)
    → IsDated l
    → lab_from_row (filled_lab w db (create_lab_params l)) ≡ gives (stored w l)
unfolding lab_from_row create_lab_params
filled_lab_back w db l d =
    ground (
      arith,
      d,
      ki_resources_from_json-to_json l.ki_resources,
      nullable_string_back l.frozen_reason,
    )

updated_lab_back :
    (w : World) (r : LabRow) (old l : LabInstance)
    → IsDated l
    → lab_from_row r ≡ gives old
    → r.id ≡ l.id
    → lab_from_row (updated_lab w r (update_lab_params l)) ≡ gives (with_origin old (stored w l))
unfolding lab_from_row update_lab_params
updated_lab_back w r old l d h e = elim (Answer-cases (ki_resources_from_json r.ki_resources)) [
  | inl (res, k) ↦ ground (
    arith,
    d,
    h,
    k,
    ki_resources_from_json-to_json l.ki_resources,
    nullable_string_back l.frozen_reason,
  )
  | inr (x, k) ↦ ground (arith, h, k)
]

pub find-replace :
    (r : LabRow) (rs : List LabRow) {s : LabRow}
    → find_lab r.id rs ≡ some s
    → find_lab r.id (replace_lab r rs) ≡ some r
find-replace r [] h = cc
find-replace r (t ∷ rs) {s} h = ground (arith, find-replace r rs {s = s})

pub find_lab_id : (id : ℕ) (rs : List LabRow) {r : LabRow} → find_lab id rs ≡ some r → r.id ≡ id
find_lab_id id [] h = cc
find_lab_id id (t ∷ rs) {r} h = ground (arith, find_lab_id id rs {r = r})

module _ (w : World) (l : LabInstance) where
  pub flush-IsApart : (db : Database) → IsApart db (flush_lab_events w l db).0
  unfolding flush_lab_events lab_event_occurred_at
  flush-IsApart db = append_events-IsApart w _ _ _ _ db

  create_find :
      (db : Database)
      → (create w l db).1 ≡ none
      → find_lab l.id (create w l db).0.labs ≡ some (filled_lab w db (create_lab_params l))
  unfolding create after_create create_lab_instance insert_lab create_lab_params
  create_find db h =
      let r = filled_lab w db (create_lab_params l) in
      ground (arith, h, flush-IsApart (record db { labs = r ∷ db.labs }))

  save_find :
      (db : Database) {r : LabRow}
      → find_lab l.id db.labs ≡ some r
      → (save w l db).1 ≡ none
      → find_lab l.id (save w l db).0.labs ≡ some (updated_lab w r (update_lab_params l))
  unfolding save after_save update_lab_instance update_found store_lab update_lab_params
  save_find db {r} f h =
      let q = updated_lab w r (update_lab_params l) in
      let same = find_lab_id l.id db.labs f in
      ground (
        arith,
        h,
        f,
        same,
        flush-IsApart (record db { labs = replace_lab q db.labs }),
        find-replace q db.labs {s = r},
      )

module _ (w : World) (l : LabInstance) (db : Database) (dated : IsDated l) where
  -- A lab whose creation returned no error is read back as it was, with its instants as the server keeps
  -- them and without the events, where the read is not refused and no instant that is set is the
  -- zero of package time.
  pub get-create :
      (create w l db).1 ≡ none
      → w.refuses "GetLabInstanceByID" (create w l db).0 ≡ none
      → get_by_id w l.id (create w l db).0 ≡ gives (stored w l)
  unfolding get_by_id found_lab
  get-create h fine = ground (arith, fine, create_find w l db h, filled_lab_back w db l dated)

  -- Where no instant of a lab that is set is the zero of package time, the lab was read before, its save returned
  -- no error and the read after it is not refused, that read gives the lab as it was saved, with its instants as
  -- the server keeps them and without its pending events, save for its student, its course, its template and the
  -- instant of its creation, which are those of the lab read before.
  pub get-save :
      {old : LabInstance}
      → get_by_id w l.id db ≡ gives old
      → (save w l db).1 ≡ none
      → w.refuses "GetLabInstanceByID" (save w l db).0 ≡ none
      → get_by_id w l.id (save w l db).0 ≡ gives (with_origin old (stored w l))
  unfolding get_by_id found_lab
  get-save {old} before h fine = elim (Option-cases (find_lab l.id db.labs)) [
    | inl e ↦ ground (arith, before, e)
    | inr (r, e) ↦
        let was : lab_from_row r ≡ gives old = ground (arith, before, e) in
        ground (
          arith,
          fine,
          save_find w l db e h,
          updated_lab_back w r old l dated was (find_lab_id l.id db.labs e),
        )
  ]
