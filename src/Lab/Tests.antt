-- ===== src/Lab/Tests.antt =====
-- internal/domain/lab: the life of one lab as a test.
use cloud_lab_gateway.Common.{◌≡◌, some, List, [], ◌∷◌, true}
use cloud_lab_gateway.Common.Int.{pos}
use cloud_lab_gateway.Lab.{LabState, LabInstance, is_terminal, new}
use cloud_lab_gateway.Lab.Ops.{LabOp, apply, run}
use cloud_lab_gateway.Lab.Machine.{◌⟶*◌, terminal_reachable, replay, run-replay}
use cloud_lab_gateway.Lab.Timers.{born, called, IsConsistent, Lives-IsConsistent}

abbrev sample : LabInstance
unfolding new
sample = new 1 2 3 4 (pos 0)

abbrev calls : List LabOp
calls =
    LabOp.move LabState.pending_project "quota_ok" (pos 1)
    ∷ LabOp.assign 5 (pos 2)
    ∷ LabOp.extend (pos 9) (pos 3)
    ∷ LabOp.deployed (pos 9) (pos 4)
    ∷ LabOp.freeze_until 7 "break" (pos 20) (pos 5)
    ∷ []

run-replay_example :
    replay LabState.pending_quota (run (new 1 2 3 4 (pos 0)) calls).pending_events
    ≡ some (run (new 1 2 3 4 (pos 0)) calls).state
run-replay_example = run-replay 1 2 3 4 (pos 0) calls

abbrev quota_ok : LabOp
quota_ok = LabOp.move LabState.pending_project "quota_ok" (pos 1)

Lives-IsConsistent_example :
    IsConsistent (apply (apply (new 1 2 3 4 (pos 0)) quota_ok).0 (LabOp.assign 5 (pos 2))).0
Lives-IsConsistent_example =
    Lives-IsConsistent
      (called (called (born 1 2 3 4 (pos 0)) quota_ok tt) (LabOp.assign 5 (pos 2)) tt)

terminal_reachable_example : (t : LabState) × (LabState.frozen ⟶* t) × (is_terminal t ≡ true)
terminal_reachable_example = terminal_reachable LabState.frozen
