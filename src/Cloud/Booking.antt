-- ===== src/Cloud/Booking.antt =====
-- internal/adapters/cloud/inmem/provider.go: what is booked of one resource
-- is what the servers hold of it.
use cloud_lab_gateway.Common.{
  ℕ, ◌+◌, ◌^◌, ◌≤◌, ◌<◌, ◌≡◌, refl, inl, inr, true, none, some, List, [], ◌∷◌, arith, Bool-cases,
  ap,
}
use cloud_lab_gateway.Common.Int.{
  ℤ, pos, ◌+ℤ◌, ◌-ℤ◌, ◌≤ℤ◌, pos_part, neg_part, wrap64, wrap64-of_range, int_laws, eq_of_parts,
  parts_apart,
}
use cloud_lab_gateway.Common.Maps.{get, delete, IsUnique, delete-of_none}
use cloud_lab_gateway.Shared.Quantities.{ResourceRequest}
use cloud_lab_gateway.Cloud.{handle_keys, same_handle, Handle, same_handle_iff, Server, fits_one}

module _ (f : ResourceRequest → ℤ) where
  -- What the servers hold of one resource.
  abbrev pub held : List (Handle × Server) → ℤ
  held [] = pos 0
  held ((_, s) ∷ m) = f s.resources +ℤ held m

  abbrev pub AreHeld : List (Handle × Server) → Type 0
  AreHeld [] = Unit
  AreHeld ((_, s) ∷ m) = (pos 0 ≤ℤ f s.resources) × AreHeld m

  held_nonneg : (m : List (Handle × Server)) → AreHeld m → pos 0 ≤ℤ held m
  held_nonneg [] h = omega arith
  held_nonneg ((_, s) ∷ m) h = omega (int_laws, held_nonneg m h.1)

  held-delete :
      (id : Handle) (m : List (Handle × Server)) {s : Server}
      → IsUnique m
      → get id m ≡ some s
      → f s.resources +ℤ held (delete id m) ≡ held m
  held-delete id [] u h = cc
  held-delete id ((j, t) ∷ m) {s} u h = elim (Bool-cases (same_handle j id)) [
    | inl e ↦
        let same : j ≡ id = (same_handle_iff j id).0 e in
        let found : t ≡ s = ground (arith, e) in
        let gone : delete id m ≡ m = delete-of_none id m (rw same at u.0) in
        ground (arith, e, found, gone)
    | inr e ↦
        let there : get id m ≡ some s = ground (arith, e) in
        let ih = held-delete id m u.1 there in
        let rest : held ((j, t) ∷ delete id m) ≡ held (delete id ((j, t) ∷ m)) =
          ground (arith, e) in
        rw (← rest) (eq_of_parts _ _ (omega (int_laws, ap pos_part ih, ap neg_part ih)))
  ]

  AreHeld-delete : (id : Handle) (m : List (Handle × Server)) → AreHeld m → AreHeld (delete id m)
  AreHeld-delete id [] h = tt
  AreHeld-delete id ((j, t) ∷ m) h = ground (arith, AreHeld-delete id m)

AreHeld_get :
    (f : ResourceRequest → ℤ) (id : Handle) (m : List (Handle × Server)) {s : Server}
    → get id m ≡ some s
    → AreHeld f m
    → pos 0 ≤ℤ f s.resources
AreHeld_get f id [] g h = cc
AreHeld_get f id ((j, t) ∷ m) {s} g h = elim (Bool-cases (same_handle j id)) [
  | inl e ↦ let found : t ≡ s = ground (arith, e) in rw (← found) h.0
  | inr e ↦ AreHeld_get f id m {s = s} (ground (arith, e)) h.1
]

-- The keys were made by the provider, none later than the counter.
abbrev pub AreMade : ℕ → List (Handle × Server) → Type 0
AreMade n [] = Unit
AreMade n ((Handle.srv k, _) ∷ m) = (k ≤ n) × AreMade n m
AreMade n ((_, _) ∷ m) = ⊥

pub AreMade-mono : (n k : ℕ) (m : List (Handle × Server)) → n ≤ k → AreMade n m → AreMade k m
AreMade-mono n k [] h a = tt
AreMade-mono n k ((Handle.srv i, _) ∷ m) h a = (omega arith, AreMade-mono n k m h a.1)
AreMade-mono n k ((Handle.net i, _) ∷ m) h a = a
AreMade-mono n k ((Handle.other i, _) ∷ m) h a = a

pub AreMade-delete :
    (n : ℕ) (id : Handle) (m : List (Handle × Server)) → AreMade n m → AreMade n (delete id m)
AreMade-delete n id [] a = tt
AreMade-delete n id ((Handle.srv i, _) ∷ m) a = ground (arith, AreMade-delete n id m)
AreMade-delete n id ((Handle.net i, _) ∷ m) a = elim a [ ]
AreMade-delete n id ((Handle.other i, _) ∷ m) a = elim a [ ]

pub get_fresh :
    (n : ℕ) (m : List (Handle × Server)) → AreMade n m → get (Handle.srv (n + 1)) m ≡ none
get_fresh n [] a = refl
get_fresh n ((Handle.srv i, _) ∷ m) a = ground (arith, get_fresh n m)
get_fresh n ((Handle.net i, _) ∷ m) a = elim a [ ]
get_fresh n ((Handle.other i, _) ∷ m) a = elim a [ ]

-- One resource of a provider: what is booked is what the servers hold, and no more than there is.
pub record IsBooked (f : ResourceRequest → ℤ) (used total : ℤ) (m : List (Handle × Server))
    : Type 0 where
  pub sum : used ≡ held f m
  pub within : used ≤ℤ total
  pub held_each : AreHeld f m
  pub roomy : pos_part total < 2 ^ 62

pub grow-IsBooked :
    (f : ResourceRequest → ℤ) (used total : ℤ) (id : Handle) (s : Server)
    (m : List (Handle × Server))
    → IsBooked f used total m
    → pos 0 ≤ℤ f s.resources
    → pos_part (f s.resources) < 2 ^ 62
    → fits_one used (f s.resources) total ≡ true
    → IsBooked f (wrap64 (used +ℤ f s.resources)) total ((id, s) ∷ m)
grow-IsBooked f used total id s m b n small fit =
    let r = f s.resources in
    let floor = held_nonneg f m b.held_each in
    let up = ap pos_part b.sum in
    let down = ap neg_part b.sum in
    let whole : wrap64 (used +ℤ r) ≡ used +ℤ r =
      wrap64-of_range (used +ℤ r)
        (omega (
          int_laws,
          floor,
          up,
          down,
          parts_apart used,
          parts_apart r,
          parts_apart (used +ℤ r),
          parts_apart total,
        ))
        (omega
          (int_laws, floor, up, down, parts_apart used, parts_apart r, parts_apart (used +ℤ r))) in
    let fit' : fits_one used r total ≡ true = fit in
    rw whole (record {
      sum = eq_of_parts _ _ (omega (int_laws, up, down));
      within = ground (arith, whole, fit);
      held_each = (n, b.held_each);
      roomy = b.roomy;
    })

pub shrink-IsBooked :
    (f : ResourceRequest → ℤ) (used total : ℤ) (id : Handle) {s : Server}
    (m : List (Handle × Server))
    → IsUnique m
    → get id m ≡ some s
    → IsBooked f used total m
    → IsBooked f (wrap64 (used -ℤ f s.resources)) total (delete id m)
shrink-IsBooked f used total id {s} m u g b =
    let r = f s.resources in
    let split = held-delete f id m u g in
    let floor = held_nonneg f (delete id m) (AreHeld-delete f id m b.held_each) in
    let up = ap pos_part b.sum in
    let down = ap neg_part b.sum in
    let su = ap pos_part split in
    let sd = ap neg_part split in
    let least = AreHeld_get f id m g b.held_each in
    let whole : wrap64 (used -ℤ r) ≡ used -ℤ r =
      wrap64-of_range (used -ℤ r)
        (omega (
          int_laws,
          floor,
          up,
          down,
          su,
          sd,
          least,
          b.within,
          b.roomy,
          parts_apart used,
          parts_apart r,
          parts_apart (used -ℤ r),
          parts_apart total,
        ))
        (omega (
          int_laws,
          floor,
          up,
          down,
          su,
          sd,
          least,
          parts_apart used,
          parts_apart r,
          parts_apart (used -ℤ r),
        )) in
    rw whole (record {
      sum = eq_of_parts _ _ (omega (int_laws, up, down, su, sd));
      within = omega (int_laws, b.within, up, down, su, sd, least);
      held_each = AreHeld-delete f id m b.held_each;
      roomy = b.roomy;
    })
