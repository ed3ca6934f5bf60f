-- ===== src/Common/Text.antt =====
-- Text that the program formats: concatenation and decimal numbers.
use Prim.Native.Nat.{ℕ, zero, suc, ◌+◌, ◌/◌, ◌%◌}
use Prim.Native.String
use Prim.Native.String.{String}
use cloud_lab_gateway.Common.Tests.{ltb, if◌then◌else◌}

infixr 65 ◌⧺◌
abbrev pub ◌⧺◌ : String → String → String
s ⧺ t = String.◌++◌ s t

digit : ℕ → String
digit zero = "0"
digit (suc zero) = "1"
digit (suc (suc zero)) = "2"
digit (suc (suc (suc zero))) = "3"
digit (suc (suc (suc (suc zero)))) = "4"
digit (suc (suc (suc (suc (suc zero))))) = "5"
digit (suc (suc (suc (suc (suc (suc zero)))))) = "6"
digit (suc (suc (suc (suc (suc (suc (suc zero))))))) = "7"
digit (suc (suc (suc (suc (suc (suc (suc (suc zero)))))))) = "8"
digit _ = "9"

-- The fuel is the number itself plus one, more than it has digits.
digits : ℕ → ℕ → String
unfolding digit
digits zero n = ""
digits (suc f) n =
    let rest = digits f (n / 10) in if ltb n 10 then digit n else rest ⧺ digit (n % 10)

-- `%d` of a number that is not negative
unfoldable pub decimal : ℕ → String
unfolding digits
decimal n = digits (n + 1) n
