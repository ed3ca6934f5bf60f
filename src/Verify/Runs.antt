-- ===== src/Verify/Runs.antt =====
-- internal/domain/verify/run.go: the life of a run, from queued to one of four ends.
use cloud_lab_gateway.Common.{
  ◌≡◌, refl, ◌↔◌, true, false, Option, none, List, [], ◌∷◌, String, arith,
}
use cloud_lab_gateway.Shared.{Time, Err}
use cloud_lab_gateway.Verify.{RunState, CheckRun, StepResult, is_terminal, start, finish}

pub data RunOp : Type 0 where
  begin : Time → RunOp
  conclude : RunState → String → List StepResult → String → Time → RunOp

unfoldable pub apply : CheckRun → RunOp → CheckRun × Option Err
unfolding start finish
apply r (RunOp.begin now) = start r now
apply r (RunOp.conclude final summary steps stdout now) = finish r final summary steps stdout now

unfoldable pub run : CheckRun → List RunOp → CheckRun
unfolding apply
run r [] = r
run r (op ∷ ops) = run (apply r op).0 ops

-- The times that a run carries tell its state: it was started exactly when it is no longer queued,
-- and it was finished exactly when its state is terminal.
pub record IsTimed (r : CheckRun) : Type 0 where
  pub begun : (r.started_at ≡ none) ↔ (r.state ≡ RunState.queued)
  pub ended : (r.finished_at ≡ none) ↔ (is_terminal r.state ≡ false)

apply-IsTimed : (r : CheckRun) (op : RunOp) → IsTimed r → IsTimed (apply r op).0
unfolding apply
apply-IsTimed r (RunOp.begin now) h = ground arith
apply-IsTimed r op h = ground arith

-- Through any calls, accepted or refused, a run whose times are in step with its state keeps them
-- in step with it.
pub run-IsTimed : (r : CheckRun) (ops : List RunOp) → IsTimed r → IsTimed (run r ops)
unfolding run
run-IsTimed r [] h = h
run-IsTimed r (op ∷ ops) h = run-IsTimed (apply r op).0 ops (apply-IsTimed r op h)

apply_ended : (r : CheckRun) (op : RunOp) → is_terminal r.state ≡ true → (apply r op).0 ≡ r
unfolding apply
apply_ended r (RunOp.begin now) h = ground arith
apply_ended r op h = ground arith

-- A run that has ended keeps its state, summary, steps, output and times through any calls.
pub ended_absorbs : (r : CheckRun) (ops : List RunOp) → is_terminal r.state ≡ true → run r ops ≡ r
unfolding run
ended_absorbs r [] h = refl
ended_absorbs r (op ∷ ops) h = rw (apply_ended r op h) (ended_absorbs r ops h)
