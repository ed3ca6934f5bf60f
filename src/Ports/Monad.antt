-- ===== src/Ports/Monad.antt =====
-- A use case: what it does to the history of calls, and how it ends. internal/adapters/storage/
-- pgxrepo/uow.go runs a function inside a transaction.
use cloud_lab_gateway.Common.{Bool, true, false, Option, none, some, ◌∷◌, String}
use cloud_lab_gateway.Shared.{Time, Err, Outcome, ok, err, panic}
use cloud_lab_gateway.Ports.Calls.{Call, Trace}
use cloud_lab_gateway.Ports.Answers.{Answer, gives, fails, Env}

abbrev pub Action {ℓ} : Type ℓ → Type ℓ
Action A = Trace → Outcome A × Trace

abbrev pub pure {ℓ} : {A : Type ℓ} → A → Action A
pure a tr = (ok a, tr)

abbrev pub throw {ℓ} : {A : Type ℓ} → Err → Action A
throw e tr = (err e, tr)

infixl 5 ◌>>=◌ ◌>>◌
abbrev pub ◌>>=◌ {ℓ κ} : {A : Type ℓ} {B : Type κ} → Action A → (A → Action B) → Action B
◌>>=◌ m f tr =
    let (r, tr') = m tr in elim r [ ok a ↦ f a tr' | err e ↦ (err e, tr') | panic ↦ (panic, tr') ]

abbrev pub ◌>>◌ {ℓ κ} : {A : Type ℓ} {B : Type κ} → Action A → Action B → Action B
m >> k = m >>= λ _. k

-- The error result of a pure function.
abbrev pub lift : Option Err → Action (Unit {0})
lift none = pure tt
lift (some e) = throw e

abbrev pub when : Bool → Action (Unit {0}) → Action (Unit {0})
when true m = m
when false m = pure tt

abbrev outcome {ℓ} : {A : Type ℓ} → Answer A → Outcome A
outcome (gives a) = ok a
outcome (fails e) = err e

abbrev pub answered {ℓ} : {A : Type ℓ} → Answer A → Action A
answered a tr = (outcome a, tr)

abbrev failure {ℓ} : {A : Type ℓ} → Answer A → Option Err
failure (gives _) = none
failure (fails e) = some e

abbrev pub perform {ℓ} : {A : Type ℓ} → Call → (Trace → Answer A) → Action A
perform c answer tr = let a = answer tr in (outcome a, record { call = c; error = failure a } ∷ tr)

abbrev pub read_clock : Env → Action Time
read_clock env tr = (ok (env.now tr), record { call = Call.clock_now; error = none } ∷ tr)

-- `if err != nil { … }` in place of a return: the error as a value.
pub data Handled {ℓ} (A : Type ℓ) : Type ℓ where
  value : A → Handled A
  failed : Err → Handled A

abbrev pub attempt {ℓ} : {A : Type ℓ} → Action A → Action (Handled A)
attempt m tr =
    let (r, tr') = m tr in
    elim r [ ok a ↦ (ok (value a), tr') | err e ↦ (ok (failed e), tr') | panic ↦ (panic, tr') ]

-- `fmt.Errorf("…: %w", err)`
abbrev pub wrap {ℓ} : {A : Type ℓ} → String → Action A → Action A
wrap msg m tr =
    let (r, tr') = m tr in
    elim r [ ok a ↦ (ok a, tr') | err e ↦ (err (Err.wrapped msg e), tr') | panic ↦ (panic, tr') ]

abbrev rolled_back : Trace → Trace
rolled_back tr = record { call = Call.tx_rollback; error = none } ∷ tr

-- `UoW.WithTx`: commits if the function returns no error, and rolls back otherwise.
unfoldable pub with_tx {ℓ} : {A : Type ℓ} → Env → Action A → Action A
with_tx env body = do
  perform Call.tx_begin env.tx_begin
  λ tr.
      let (r, tr') = body tr in
      elim r [
        | ok a ↦ (perform Call.tx_commit env.tx_commit >> pure a) tr'
        | err e ↦ (err e, rolled_back tr')
        | panic ↦ (panic, rolled_back tr')
      ]
