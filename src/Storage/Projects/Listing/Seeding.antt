-- ===== src/Storage/Projects/Listing/Seeding.antt =====
-- internal/adapters/storage/pgxrepo/pool.go, SeedInsert: projects are inserted once.
use cloud_lab_gateway.Common.{
  ◌≡◌, refl, inl, inr, true, false, Option-cases, none, List, [], ◌∷◌, String, eq_iff, All, ltb,
  arith,
}
use cloud_lab_gateway.Pool
use cloud_lab_gateway.Pool.{Project}
use cloud_lab_gateway.Storage.Columns.{nullable_id}
use cloud_lab_gateway.Storage.Rows.{ProjectRow, Database, World}
use cloud_lab_gateway.Storage.Labs.Listing.{max_int32}
use cloud_lab_gateway.Storage.Projects.{cleanup_failures_int32, is_consistent}
use cloud_lab_gateway.Storage.Projects.Listing.{
  has_ki_project, insert_seed, seed_insert_project, seed_counted, seed_one, seed_all, seed_insert,
}

-- Every project of a list has a row.
abbrev pub AllThere : List Project → List ProjectRow → Type 0
AllThere ps rows = All (λ p. has_ki_project p.ki_project_id rows ≡ true) ps

-- The rows that were there stay there.
abbrev Grows : Database → Database → Type 0
Grows db db' =
    (k : String) → has_ki_project k db.projects ≡ true → has_ki_project k db'.projects ≡ true

seed_one-Grows : (w : World) (p : Project) (db : Database) → Grows db (seed_one w p db).0
unfolding seed_one seed_counted seed_insert_project insert_seed cleanup_failures_int32
seed_one-Grows w p db k h = ground (arith, h)

seed_one-there :
    (w : World) (p : Project) (db : Database)
    → (seed_one w p db).1 ≡ none
    → has_ki_project p.ki_project_id (seed_one w p db).0.projects ≡ true
unfolding seed_one seed_counted seed_insert_project insert_seed cleanup_failures_int32
seed_one-there w p db h = ground (arith, h, eq_iff p.ki_project_id p.ki_project_id)

-- A project that can be inserted.
record IsSeedable (p : Project) : Type 0 where
  counted : ltb max_int32 p.cleanup_failures ≡ false
  consistent : is_consistent p.state (nullable_id (Pool.allocated_lab_for_state p)) ≡ true

seed_one-IsSeedable :
    (w : World) (p : Project) (db : Database) → (seed_one w p db).1 ≡ none → IsSeedable p
unfolding seed_one seed_counted seed_insert_project insert_seed cleanup_failures_int32
seed_one-IsSeedable w p db h = ground (arith, h)

seed_one_again :
    (w : World) (p : Project) (db : Database)
    → w.refuses "SeedInsertProject" db ≡ none
    → IsSeedable p
    → has_ki_project p.ki_project_id db.projects ≡ true
    → seed_one w p db ≡ (db, none)
unfolding seed_one seed_counted seed_insert_project insert_seed cleanup_failures_int32
seed_one_again w p db fine ok there = ground (arith, fine, ok, there)

seed_all-Grows : (w : World) (ps : List Project) (db : Database) → Grows db (seed_all w ps db).0
unfolding seed_all
seed_all-Grows w [] db k h = h
seed_all-Grows w (p ∷ ps) db k h =
    let mid = (seed_one w p db).0 in
    let here = seed_one-Grows w p db k h in
    elim (Option-cases (seed_one w p db).1) [
      | inl e ↦ ground (arith, e, here, seed_all-Grows w ps mid k here)
      | inr (x, e) ↦ ground (arith, e, here)
    ]

seed_all-AllThere :
    (w : World) (ps : List Project) (db db' : Database)
    → seed_all w ps db ≡ (db', none)
    → AllThere ps db'.projects × All IsSeedable ps
unfolding seed_all
seed_all-AllThere w [] db db' h = (tt, tt)
seed_all-AllThere w (p ∷ ps) db db' h =
    let mid = (seed_one w p db).0 in
    elim (Option-cases (seed_one w p db).1) [
      | inl e ↦
          let step : seed_all w ps mid ≡ (db', none) = ground (arith, h, e) in
          let rest = seed_all-AllThere w ps mid db' step in
          let kept = seed_all-Grows w ps mid p.ki_project_id (seed_one-there w p db e) in
          let there : has_ki_project p.ki_project_id db'.projects ≡ true =
            ground (arith, step, kept) in
          ((there, rest.0), (seed_one-IsSeedable w p db e, rest.1))
      | inr (x, e) ↦ absurd (ground (arith, h, e))
    ]

seed_all_again :
    (w : World) (ps : List Project) (db : Database)
    → w.refuses "SeedInsertProject" db ≡ none
    → All IsSeedable ps
    → AllThere ps db.projects
    → seed_all w ps db ≡ (db, none)
unfolding seed_all
seed_all_again w [] db fine ok there = refl
seed_all_again w (p ∷ ps) db fine ok there =
    ground
      (arith, seed_one_again w p db fine ok.0 there.0, seed_all_again w ps db fine ok.1 there.1)

-- Where an insertion of projects returned no error, inserting the same list again, unless the server
-- refuses, returns none either and changes nothing.
pub seed_insert_again :
    (w : World) (ps : List Project) (db : Database)
    → (seed_insert w ps db).1 ≡ none
    → w.refuses "SeedInsertProject" (seed_insert w ps db).0 ≡ none
    → seed_insert w ps (seed_insert w ps db).0 ≡ ((seed_insert w ps db).0, none)
unfolding seed_insert
seed_insert_again w ps db h fine =
    let db' = (seed_insert w ps db).0 in
    elim (Option-cases (seed_all w ps db).1) [
      | inl e ↦
          let step : seed_all w ps db ≡ (db', none) = ground (arith, e) in
          let done = seed_all-AllThere w ps db db' step in
          ground (arith, e, fine, step, seed_all_again w ps db' fine done.1 done.0)
      | inr (x, e) ↦ absurd (ground (arith, h, e))
    ]
