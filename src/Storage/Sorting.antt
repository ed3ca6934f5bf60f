-- ===== src/Storage/Sorting.antt =====
-- `ORDER BY` and `LIMIT` of a query.
use mathlib.Core.Path.{subst}
use cloud_lab_gateway.Common.{
  ◌≢◌, ℕ, zero, suc, ◌≤◌, ◌≡◌, refl, sym, inl, inr, Bool, true, false, Bool-cases, List, [], ◌∷◌,
  length, All, if◌then◌else◌, arith,
}

module _ {A : Type 0} where
  -- `before a b` says that `a` does not come after `b`.
  abbrev pub insert_by : (A → A → Bool) → A → List A → List A
  insert_by before a [] = a ∷ []
  insert_by before a (b ∷ bs) =
      let rest = insert_by before a bs in if before a b then a ∷ b ∷ bs else b ∷ rest

  abbrev pub order_by : (A → A → Bool) → List A → List A
  order_by before [] = []
  order_by before (a ∷ xs) = insert_by before a (order_by before xs)

  abbrev pub where_true : (A → Bool) → List A → List A
  where_true p [] = []
  where_true p (a ∷ xs) = let rest = where_true p xs in if p a then a ∷ rest else rest

  abbrev pub limit_to : ℕ → List A → List A
  limit_to n [] = []
  limit_to zero (a ∷ xs) = []
  limit_to (suc n) (a ∷ xs) = a ∷ limit_to n xs

  pub length-limit_to : (n : ℕ) (xs : List A) → length (limit_to n xs) ≤ n
  length-limit_to n [] = omega arith
  length-limit_to zero (a ∷ xs) = omega arith
  length-limit_to (suc n) (a ∷ xs) = omega (arith, length-limit_to n xs)

  module _ (P : A → Type 0) where
    pub All-limit_to : (n : ℕ) (xs : List A) → All P xs → All P (limit_to n xs)
    All-limit_to n [] h = tt
    All-limit_to zero (a ∷ xs) h = tt
    All-limit_to (suc n) (a ∷ xs) h = (h.0, All-limit_to n xs h.1)

    All-insert_by :
        (before : A → A → Bool) (a : A) (xs : List A)
        → P a
        → All P xs
        → All P (insert_by before a xs)
    All-insert_by before a [] p h = (p, tt)
    All-insert_by before a (b ∷ bs) p h = elim (Bool-cases (before a b)) [
      | inl e ↦ rw e (p, h)
      | inr e ↦ rw e (h.0, All-insert_by before a bs p h.1)
    ]

    pub All-order_by : (before : A → A → Bool) (xs : List A) → All P xs → All P (order_by before xs)
    All-order_by before [] h = tt
    All-order_by before (a ∷ xs) h =
        All-insert_by before a (order_by before xs) h.0 (All-order_by before xs h.1)

  pub All-where_true : (p : A → Bool) (xs : List A) → All (λ a. p a ≡ true) (where_true p xs)
  All-where_true p [] = tt
  All-where_true p (a ∷ xs) = elim (Bool-cases (p a)) [
    | inl e ↦ rw e (e, All-where_true p xs)
    | inr e ↦ rw e (All-where_true p xs)
  ]

  pub where_true_none :
      (p : A → Bool) (xs : List A) → where_true p xs ≡ [] → All (λ a. p a ≡ false) xs
  where_true_none p [] h = tt
  where_true_none p (a ∷ xs) h = elim (Bool-cases (p a)) [
    | inl e ↦ ground (arith, e, h)
    | inr e ↦ (e, where_true_none p xs (ground (arith, e, h)))
  ]

  limit_one-insert_by :
      (before : A → A → Bool) (a : A) (xs : List A) → limit_to 1 (insert_by before a xs) ≢ []
  limit_one-insert_by before a [] = ground arith
  limit_one-insert_by before a (b ∷ bs) = ground arith

  pub limit_one-order_by :
      (before : A → A → Bool) (xs : List A) → limit_to 1 (order_by before xs) ≡ [] → xs ≡ []
  limit_one-order_by before [] h = refl
  limit_one-order_by before (a ∷ xs) h =
      absurd (limit_one-insert_by before a (order_by before xs) h)

  -- An order that the test decides: the first element of a sorted list comes before all.
  module _ (before : A → A → Bool) (R : A → A → Type 0) (self : (a : A) → R a a)
      (trans : (a b c : A) → R a b → R b c → R a c)
      (yes_before : (a b : A) → before a b ≡ true → R a b)
      (not_before : (a b : A) → before a b ≡ false → R b a) where
    abbrev IsLed : List A → Type 0
    IsLed [] = Unit
    IsLed (a ∷ xs) = All (R a) xs

    All-after : (a b : A) (xs : List A) → R a b → All (R b) xs → All (R a) xs
    All-after a b [] r h = tt
    All-after a b (x ∷ xs) r h = (trans a b x r h.0, All-after a b xs r h.1)

    insert_by-IsLed : (a : A) (xs : List A) → IsLed xs → IsLed (insert_by before a xs)
    insert_by-IsLed a [] h = tt
    insert_by-IsLed a (b ∷ bs) h = elim (Bool-cases (before a b)) [
      | inl e ↦ rw e (yes_before a b e, All-after a b bs (yes_before a b e) h)
      | inr e ↦ rw e (All-insert_by (R b) before a bs (not_before a b e) h)
    ]

    order_by-IsLed : (xs : List A) → IsLed (order_by before xs)
    order_by-IsLed [] = tt
    order_by-IsLed (a ∷ xs) = insert_by-IsLed a (order_by before xs) (order_by-IsLed xs)

    All-of_insert_by :
        (P : A → Type 0) (a : A) (xs : List A) → All P (insert_by before a xs) → P a × All P xs
    All-of_insert_by P a [] h = h
    All-of_insert_by P a (b ∷ bs) h = elim (Bool-cases (before a b)) [
      | inl e ↦ subst (λ c. All P (if c then a ∷ b ∷ bs else b ∷ insert_by before a bs)) e h
      | inr e ↦
          let g : P b × All P (insert_by before a bs) =
            subst (λ c. All P (if c then a ∷ b ∷ bs else b ∷ insert_by before a bs)) e h in
          let rest = All-of_insert_by P a bs g.1 in (rest.0, (g.0, rest.1))
    ]

    All-of_order_by : (P : A → Type 0) (xs : List A) → All P (order_by before xs) → All P xs
    All-of_order_by P [] h = tt
    All-of_order_by P (a ∷ xs) h =
        let g = All-of_insert_by P a (order_by before xs) h in (g.0, All-of_order_by P xs g.1)

    -- The first element of the sorted list comes before all that were sorted.
    pub order_by-least :
        (xs : List A) {a : A} {more : List A} → order_by before xs ≡ a ∷ more → All (R a) xs
    order_by-least xs {a} {more} e =
        let led : All (R a) more = subst IsLed e (order_by-IsLed xs) in
        let all : All (R a) (a ∷ more) = (self a, led) in
        All-of_order_by (R a) xs (subst (All (R a)) (sym e) all)

  pub All-of_where_true :
      (p : A → Bool) (P : A → Type 0) (xs : List A)
      → All P (where_true p xs)
      → All (λ a. p a ≡ true → P a) xs
  All-of_where_true p P [] h = tt
  All-of_where_true p P (a ∷ xs) h = elim (Bool-cases (p a)) [
    | inl e ↦
        let g : P a × All P (where_true p xs) =
          subst (λ c. All P (if c then a ∷ where_true p xs else where_true p xs)) e h in
        (λ k. g.0, All-of_where_true p P xs g.1)
    | inr e ↦
        let g : All P (where_true p xs) =
          subst (λ c. All P (if c then a ∷ where_true p xs else where_true p xs)) e h in
        ((λ k. absurd (ground (arith, e, k))), All-of_where_true p P xs g)
  ]
