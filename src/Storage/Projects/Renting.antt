-- ===== src/Storage/Projects/Renting.antt =====
-- internal/adapters/storage/pgxrepo/pool.go, AllocateOneFree: which project is rented.
use cloud_lab_gateway.Common.{
  ℕ, ◌⊎◌, ◌≡◌, ◌≢◌, refl, inl, inr, Bool, true, false, Bool-cases, Option-cases, none, some, List,
  [], ◌∷◌, String, ◌==◌, All, eq_iff, arith,
}
use cloud_lab_gateway.Shared.{LabInstanceId, Err, Sentinel}
use cloud_lab_gateway.Ports.{Answer, gives, fails}
use cloud_lab_gateway.Pool.{Project, ProjectState}
use cloud_lab_gateway.Storage.Rows.{ProjectRow, Database, World}
use cloud_lab_gateway.Storage.Projects.{
  project_from_row, find_project, replace_project, is_candidate, candidate, taken, take_candidate,
  allocate_one_free,
}
use cloud_lab_gateway.Storage.Projects.Choosing.{
  All-kept, All-weaken, candidate-of, candidate-is_candidate, candidate-none, candidate-oldest,
  not_candidate, IsNoOlder, IsTaken,
}

-- The row is one of the rows.
abbrev pub IsRowOf : ProjectRow → List ProjectRow → Type 0
IsRowOf r [] = ⊥
IsRowOf r (s ∷ rows) = (s ≡ r) ⊎ IsRowOf r rows

All-IsRowOf : (rows : List ProjectRow) → All (λ r. IsRowOf r rows) rows
All-IsRowOf [] = tt
All-IsRowOf (r ∷ rows) = (
  inl refl,
  All-weaken (λ s. IsRowOf s rows) (λ s. IsRowOf s (r ∷ rows)) rows (λ s h. inr h)
      (All-IsRowOf rows),
)

find-replace_own :
    (q r : ProjectRow) (rows : List ProjectRow)
    → IsRowOf r rows
    → r.id ≡ q.id
    → find_project q.id (replace_project q rows) ≡ some q
find-replace_own q r [] h e = absurd h
find-replace_own q r (s ∷ rows) (inl k) e = ground (arith, k, e)
find-replace_own q r (s ∷ rows) (inr k) e = ground (arith, e, find-replace_own q r rows k e)

find-replace_other :
    (q : ProjectRow) (id : ℕ) (rows : List ProjectRow)
    → id ≢ q.id
    → find_project id (replace_project q rows) ≡ find_project id rows
find-replace_other q id [] h = refl
find-replace_other q id (r ∷ rows) h = ground (arith, find-replace_other q id rows)

-- A row that was free, in the domain and not locked, and what it has become: a row that is allocated to the lab and
-- keeps its identifier, its domain, its names, its failures and the instant of its creation.
pub record IsRented (locked : ProjectRow → Bool) (domain : String) (lab : LabInstanceId)
    (old q : ProjectRow) : Type 0 where
  pub was_free : old.state ≡ ProjectState.free
  pub in_domain : old.ki_domain_id ≡ domain
  pub not_locked : locked old ≡ false
  pub state : q.state ≡ ProjectState.allocated
  pub lab_set : q.allocated_to_lab_id ≡ record { uuid = lab; valid = true }
  pub same_id : q.id ≡ old.id
  pub same_ki_id : q.ki_project_id ≡ old.ki_project_id
  pub same_domain : q.ki_domain_id ≡ old.ki_domain_id
  pub same_name : q.name ≡ old.name
  pub same_failures : q.cleanup_failures ≡ old.cleanup_failures
  pub same_creation : q.created_at ≡ old.created_at

-- The project shows the row.
pub record Shows (p : Project) (q : ProjectRow) : Type 0 where
  pub id : p.id ≡ q.id
  pub ki_id : p.ki_project_id ≡ q.ki_project_id
  pub domain : p.ki_domain_id ≡ q.ki_domain_id
  pub name : p.name ≡ q.name
  pub state : p.state ≡ q.state
  pub failures : p.cleanup_failures ≡ q.cleanup_failures

-- What a call of AllocateOneFree leaves.
abbrev pub Rented :
    World
    → (ProjectRow → Bool)
    → String
    → LabInstanceId
    → Database
    → Database × Answer Project
    → Type 0
Rented w locked domain lab db (db', gives p) =
    ((old : ProjectRow) × (q : ProjectRow) × IsRowOf old db.projects
      × All (IsNoOlder locked domain old) db.projects
      × IsRented locked domain lab old q
      × (find_project p.id db'.projects ≡ some q)
      × Shows p q)
    × (p.allocated_to_lab_id ≡ some lab)
    × ((id : ℕ) → id ≢ p.id → find_project id db'.projects ≡ find_project id db.projects)
Rented w locked domain lab db (db', fails e) =
    (db' ≡ db)
    × (w.refuses "AllocateOneFreeProject" db ≡ none → All (IsTaken locked domain) db.projects)

taken-IsRented :
    (w : World) (db : Database) (locked : ProjectRow → Bool) (domain : String) (lab : LabInstanceId)
    (r : ProjectRow)
    → is_candidate locked domain r ≡ true
    → IsRented locked domain lab r (taken w db lab r)
taken-IsRented w db locked domain lab r fit = ground (arith, fit, eq_iff r.ki_domain_id domain)

-- A project that is given for a lab shows a row that was free, in the domain asked for and not locked, of all such rows
-- one that had not changed its state for the longest time, and that is now
-- allocated to the lab; the project has the lab too, and no other project changes. An error changes nothing,
-- and unless the server refused the query each free project of the domain was locked.
pub allocate_one_free-Rented :
    (w : World) (locked : ProjectRow → Bool) (domain : String) (lab : LabInstanceId) (db : Database)
    → Rented w locked domain lab db (allocate_one_free w locked domain lab db)
unfolding allocate_one_free take_candidate project_from_row
allocate_one_free-Rented w locked domain lab db =
    elim (Option-cases (w.refuses "AllocateOneFreeProject" db)) [
      | inr (x, e) ↦
          let res : allocate_one_free w locked domain lab db
              ≡ (db, fails (Err.wrapped "pgxrepo: allocate free project" x)) =
            ground (arith, e) in
          rw res (refl, λ k. cc)
      | inl fine ↦ elim (Option-cases (candidate locked domain db.projects)) [
        | inl e ↦
            let res : allocate_one_free w locked domain lab db
                ≡ (db, fails (Err.sentinel Sentinel.pool_empty)) =
              ground (arith, fine, e) in
            rw res (
              refl,
              λ k.
                  All-weaken (λ r. is_candidate locked domain r ≡ false) (IsTaken locked domain)
                    db.projects (not_candidate locked domain)
                    (candidate-none locked domain db.projects e),
            )
        | inr (r, e) ↦
            let fit = candidate-is_candidate locked domain db.projects e in
            let there =
              candidate-of locked domain db.projects (λ s. IsRowOf s db.projects) e
                (All-kept (λ s. IsRowOf s db.projects) (is_candidate locked domain) db.projects
                  (All-IsRowOf db.projects)) in
            let q = taken w db lab r in
            let res : allocate_one_free w locked domain lab db ≡ (
              record db { projects = replace_project q db.projects },
              gives (project_from_row q),
            ) =
              ground (arith, fine, e) in
            rw res (
              (
                r,
                q,
                there,
                candidate-oldest locked domain db.projects e,
                taken-IsRented w db locked domain lab r fit,
                find-replace_own q r db.projects there refl,
                record {
                  id = refl;
                  ki_id = refl;
                  domain = refl;
                  name = refl;
                  state = refl;
                  failures = refl;
                },
              ),
              refl,
              λ id n. find-replace_other q id db.projects n,
            )
      ]
    ]

-- Rows of an identifier are allocated.
abbrev IsHeld : ℕ → ProjectRow → Type 0
IsHeld id r = r.id ≡ id → r.state ≡ ProjectState.allocated

replace-IsHeld :
    (q : ProjectRow) (rows : List ProjectRow)
    → q.state ≡ ProjectState.allocated
    → All (IsHeld q.id) (replace_project q rows)
replace-IsHeld q [] h = tt
replace-IsHeld q (r ∷ rows) h = elim (Bool-cases (r.id == q.id)) [
  | inl e ↦ rw e ((λ k. h), replace-IsHeld q rows h)
  | inr e ↦ rw e ((λ k. absurd (ground (arith, e, k))), replace-IsHeld q rows h)
]

IsHeld-after :
    (w : World) (locked : ProjectRow → Bool) (domain : String) (lab : LabInstanceId)
    (db db' : Database) {p : Project}
    → allocate_one_free w locked domain lab db ≡ (db', gives p)
    → All (IsHeld p.id) db'.projects
unfolding allocate_one_free take_candidate project_from_row
IsHeld-after w locked domain lab db db' {p} h =
    elim (Option-cases (w.refuses "AllocateOneFreeProject" db)) [
      | inr (x, e) ↦ absurd (ground (arith, h, e))
      | inl fine ↦ elim (Option-cases (candidate locked domain db.projects)) [
        | inl e ↦ absurd (ground (arith, h, fine, e))
        | inr (r, e) ↦
            let q = taken w db lab r in
            let rows : db'.projects ≡ replace_project q db.projects = ground (arith, h, fine, e) in
            let id : p.id ≡ q.id = ground (arith, h, fine, e) in
            rw (rows, id) (replace-IsHeld q db.projects refl)
      ]
    ]

-- Two projects that are given one after the other differ, whatever their labs and domains are.
pub allocate_twice :
    (w : World) (locked locked' : ProjectRow → Bool) (domain domain' : String)
    (lab lab' : LabInstanceId) (db db' : Database) {p q : Project} {db'' : Database}
    → allocate_one_free w locked domain lab db ≡ (db', gives p)
    → allocate_one_free w locked' domain' lab' db' ≡ (db'', gives q)
    → q.id ≢ p.id
unfolding allocate_one_free take_candidate project_from_row
allocate_twice w locked locked' domain domain' lab lab' db db' {p} {q} h k same =
    elim (Option-cases (candidate locked' domain' db'.projects)) [
      | inl e ↦ ground (arith, k, e)
      | inr (r, e) ↦
          let free = candidate-is_candidate locked' domain' db'.projects e in
          let held = candidate-of locked' domain' db'.projects (IsHeld p.id) e (
            All-kept (IsHeld p.id) (is_candidate locked' domain') db'.projects
              (IsHeld-after w locked domain lab db db' h)) in
          let id : r.id ≡ p.id = ground (arith, k, e, same) in
          let state = held id in ground (arith, free, state)
    ]
