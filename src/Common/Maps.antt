-- ===== src/Common/Maps.antt =====
-- Go maps as association lists whose keys differ, over keys with a Boolean equality.
use Prim.Native.Nat.{ℕ}
use Prim.Native.String.{String}
use text.Mathlib.TextEquality.{eq_iff}
use mathlib.Core.Path.{◌≡◌, refl}
use mathlib.Core.Logic.{◌↔◌}
use mathlib.Core.Bool.{Bool, true}
use mathlib.Core.Option.{Option, none, some}
use mathlib.Core.List.{List, [], ◌∷◌}
use native.Mathlib.Omega.{arith}
use cloud_lab_gateway.Common.Tests.{◌==◌ as nat_eq, str_eq, ==_iff, if◌then◌else◌}

pub record Eq (K : Type 0) : Type 0 where
  pub beq : K → K → Bool
  pub beq_iff : (a b : K) → (beq a b ≡ true) ↔ (a ≡ b)

instance abbrev pub nat_keys : Eq ℕ
nat_keys = record { beq = nat_eq; beq_iff = ==_iff }

instance abbrev pub text_keys : Eq String
text_keys = record { beq = str_eq; beq_iff = eq_iff }

module _ {K V : Type 0} ⦃e : Eq K⦄ where
  abbrev pub get : K → List (K × V) → Option V
  get k [] = none
  get k ((j, v) ∷ m) = if e.beq j k then some v else get k m

  abbrev pub delete : K → List (K × V) → List (K × V)
  delete k [] = []
  delete k ((j, v) ∷ m) = let rest = delete k m in if e.beq j k then rest else (j, v) ∷ rest

  abbrev pub put : K → V → List (K × V) → List (K × V)
  put k v m = (k, v) ∷ delete k m

  -- The keys differ.
  abbrev pub IsUnique : List (K × V) → Type 0
  IsUnique [] = Unit
  IsUnique ((j, v) ∷ m) = (get j m ≡ none) × IsUnique m

  pub get-delete_self : (k : K) (m : List (K × V)) → get k (delete k m) ≡ none
  get-delete_self k [] = refl
  get-delete_self k ((j, v) ∷ m) = ground (arith, get-delete_self k m)

  pub get-delete :
      (k i : K) (m : List (K × V)) → get i (delete k m) ≡ (if e.beq k i then none else get i m)
  get-delete k i [] = ground arith
  get-delete k i ((j, v) ∷ m) =
      ground (arith, get-delete k i m, e.beq_iff j k, e.beq_iff j i, e.beq_iff k i)

  pub delete-of_none : (k : K) (m : List (K × V)) → get k m ≡ none → delete k m ≡ m
  delete-of_none k [] h = refl
  delete-of_none k ((j, v) ∷ m) h = ground (arith, delete-of_none k m)

  pub delete-delete : (k : K) (m : List (K × V)) → delete k (delete k m) ≡ delete k m
  delete-delete k m = delete-of_none k (delete k m) (get-delete_self k m)

  pub delete-IsUnique : (k : K) (m : List (K × V)) → IsUnique m → IsUnique (delete k m)
  delete-IsUnique k [] h = tt
  delete-IsUnique k ((j, v) ∷ m) h = ground (arith, delete-IsUnique k m, get-delete k j m)

  pub put-IsUnique : (k : K) (v : V) (m : List (K × V)) → IsUnique m → IsUnique (put k v m)
  put-IsUnique k v m h = (get-delete_self k m, delete-IsUnique k m h)

  pub get-put_self : (k : K) (v : V) (m : List (K × V)) → get k (put k v m) ≡ some v
  get-put_self k v m = ground (arith, e.beq_iff k k)
