-- ===== src/Storage/Projects/Choosing.antt =====
-- internal/adapters/storage/pgxrepo/pool.go, AllocateOneFree: which row the query chooses.
use cloud_lab_gateway.Common.{
  ◌≡◌, refl, inl, inr, Bool, true, false, Bool-cases, none, some, List, [], ◌∷◌, String, All,
  eq_iff, arith,
}
use cloud_lab_gateway.Common.Int.{◌≤ℤ◌}
use cloud_lab_gateway.Pool.{ProjectState}
use cloud_lab_gateway.Storage.Rows.{ProjectRow}
use cloud_lab_gateway.Storage.Sorting.{
  order_by, where_true, limit_to, All-limit_to, All-order_by, All-where_true, where_true_none,
  limit_one-order_by, order_by-least, All-of_where_true,
}
use cloud_lab_gateway.Storage.Projects.{is_candidate, oldest_first, first_row, candidate}

pub All-kept :
    (P : ProjectRow → Type 0) (p : ProjectRow → Bool) (rows : List ProjectRow)
    → All P rows
    → All P (where_true p rows)
All-kept P p [] h = tt
All-kept P p (r ∷ rows) h = elim (Bool-cases (p r)) [
  | inl e ↦ rw e (h.0, All-kept P p rows h.1)
  | inr e ↦ rw e (All-kept P p rows h.1)
]

first_row-All :
    (P : ProjectRow → Type 0) (rows : List ProjectRow) {r : ProjectRow}
    → first_row rows ≡ some r
    → All P rows
    → P r
first_row-All P [] h a = cc
first_row-All P (s ∷ rows) {r} h a = let e : s ≡ r = ground (arith, h) in rw (← e) a.0

first_row-none : (rows : List ProjectRow) → first_row rows ≡ none → rows ≡ []
first_row-none [] h = refl
first_row-none (r ∷ rows) h = cc

module _ (locked : ProjectRow → Bool) (domain : String) (rows : List ProjectRow) where
  -- What holds of every row that qualifies holds of the candidate.
  pub candidate-of :
      (P : ProjectRow → Type 0) {r : ProjectRow}
      → candidate locked domain rows ≡ some r
      → All P (where_true (is_candidate locked domain) rows)
      → P r
  unfolding candidate
  candidate-of P {r} h a =
      let chosen = where_true (is_candidate locked domain) rows in
      let sorted = order_by oldest_first chosen in
      first_row-All P (limit_to 1 sorted) h
        (All-limit_to P 1 sorted (All-order_by P oldest_first chosen a))

  pub candidate-is_candidate :
      {r : ProjectRow} → candidate locked domain rows ≡ some r → is_candidate locked domain r ≡ true
  candidate-is_candidate {r} h =
      candidate-of (λ q. is_candidate locked domain q ≡ true) h
        (All-where_true (is_candidate locked domain) rows)

  pub candidate-none :
      candidate locked domain rows ≡ none → All (λ r. is_candidate locked domain r ≡ false) rows
  unfolding candidate
  candidate-none h =
      let chosen = where_true (is_candidate locked domain) rows in
      let empty : limit_to 1 (order_by oldest_first chosen) ≡ [] = first_row-none _ h in
      where_true_none (is_candidate locked domain) rows
        (limit_one-order_by oldest_first chosen empty)

pub All-weaken :
    (P Q : ProjectRow → Type 0) (rows : List ProjectRow)
    → ((r : ProjectRow) → P r → Q r)
    → All P rows
    → All Q rows
All-weaken P Q [] f h = tt
All-weaken P Q (r ∷ rows) f h = (f r h.0, All-weaken P Q rows f h.1)

-- A row that is free, in the domain and not locked has not been in its state for longer than the first.
abbrev pub IsNoOlder : (ProjectRow → Bool) → String → ProjectRow → ProjectRow → Type 0
IsNoOlder locked domain old s =
    (s.state ≡ ProjectState.free) × (s.ki_domain_id ≡ domain) × (locked s ≡ false)
    → old.last_state_change_at.time ≤ℤ s.last_state_change_at.time

-- The row is locked, if it is free and in the domain.
abbrev pub IsTaken : (ProjectRow → Bool) → String → ProjectRow → Type 0
IsTaken locked domain r = r.state ≡ ProjectState.free → r.ki_domain_id ≡ domain → locked r ≡ true

pub not_candidate :
    (locked : ProjectRow → Bool) (domain : String) (r : ProjectRow)
    → is_candidate locked domain r ≡ false
    → IsTaken locked domain r
not_candidate locked domain r h s d = ground (arith, h, s, d, eq_iff r.ki_domain_id domain)

first_of_one :
    (rows : List ProjectRow) {r : ProjectRow}
    → first_row (limit_to 1 rows) ≡ some r
    → (more : List ProjectRow) × (rows ≡ r ∷ more)
first_of_one [] h = cc
first_of_one (s ∷ rows) h = (rows, ground (arith, h))

pub candidate-oldest :
    (locked : ProjectRow → Bool) (domain : String) (rows : List ProjectRow) {r : ProjectRow}
    → candidate locked domain rows ≡ some r
    → All (IsNoOlder locked domain r) rows
unfolding candidate
candidate-oldest locked domain rows {r} h =
    let Before : ProjectRow → ProjectRow → Type 0 =
      λ a b. a.last_state_change_at.time ≤ℤ b.last_state_change_at.time in
    let chosen = where_true (is_candidate locked domain) rows in
    let (more, e) = first_of_one (order_by oldest_first chosen) h in
    let least =
      order_by-least oldest_first Before (λ a. ground arith) (λ a b c p q. ground (arith, p, q))
        (λ a b p. ground (arith, p)) (λ a b p. ground (arith, p)) chosen e in
    All-weaken (λ s. is_candidate locked domain s ≡ true → Before r s) (IsNoOlder locked domain r)
      rows (λ s f k. f (ground (arith, k, eq_iff s.ki_domain_id domain)))
      (All-of_where_true (is_candidate locked domain) (Before r) rows least)
