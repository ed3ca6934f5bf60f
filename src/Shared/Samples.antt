-- ===== src/Shared/Samples.antt =====
-- The integers, cut off at zero, in the place of float64: for tests.
use cloud_lab_gateway.Common.{ℕ, ◌*◌, ◌/◌, ltb}
use cloud_lab_gateway.Common.Int.{ℤ}
use cloud_lab_gateway.Shared.Quantities.{Float64}

-- The number nearest to zero for a negative one.
abbrev floor_of : ℤ → ℕ
floor_of (ℤ.pos n) = n
floor_of (ℤ.negsuc _) = 0

abbrev pub whole : Float64
whole = record { F = ℕ; of_int = floor_of; mul = ◌*◌; div = ◌/◌; lt = ltb }
