-- ===== src/Shared.antt =====
-- internal/domain/shared: identifiers, errors, and the outcome of a fallible call.
pub mod Errors
pub mod Codes
pub mod Quantities
pub mod Samples
mod Tests
pub use Errors.{Sentinel, Err}
unfoldable pub use Errors.{error_text}
use cloud_lab_gateway.Common.{ℕ, ℤ, ◌≡◌, refl, ◌⊎◌, inl, inr, Option, none, some}

-- ids.go: the strongly typed UUIDs, as numbers.
abbrev pub UserId : Type 0
UserId = ℕ

abbrev pub CourseId : Type 0
CourseId = ℕ

abbrev pub ProjectId : Type 0
ProjectId = ℕ

abbrev pub LabInstanceId : Type 0
LabInstanceId = ℕ

abbrev pub LabTemplateId : Type 0
LabTemplateId = ℕ

abbrev pub CheckTemplateId : Type 0
CheckTemplateId = ℕ

abbrev pub CheckRunId : Type 0
CheckRunId = ℕ

abbrev pub SecretId : Type 0
SecretId = ℕ

-- Instants and durations of package time, in nanoseconds.
abbrev pub Time : Type 0
Time = ℤ

-- What a Go function with an error result does: it returns a value, returns an error, or panics.
pub data Outcome {ℓ} (A : Type ℓ) : Type ℓ where
  ok : A → Outcome A
  err : Err → Outcome A
  panic : Outcome A

pub Outcome-cases {ℓ} :
    {A : Type ℓ} (r : Outcome A) → ((a : A) × (r ≡ ok a)) ⊎ ((e : Err) × (r ≡ err e)) ⊎ (r ≡ panic)
Outcome-cases (ok a) = inl (a, refl)
Outcome-cases (err e) = inr (inl (e, refl))
Outcome-cases panic = inr (inr refl)

abbrev pub error_of {ℓ} : {A : Type ℓ} → Outcome A → Option Err
error_of (ok _) = none
error_of (err e) = some e
error_of panic = none
