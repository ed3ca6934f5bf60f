-- ===== src/Pool/Ops.antt =====
-- internal/domain/pool/project.go: one call of a method as a value, and sequences of calls.
use cloud_lab_gateway.Common.{List, [], ◌∷◌, String}
use cloud_lab_gateway.Shared.{LabInstanceId, Time, Outcome, ok}
use cloud_lab_gateway.Pool.{
  Project, allocate_to, release, mark_clean, record_cleanup_failure, quarantine_now, manual_resolve,
  allocated_lab_for_state,
}

-- `store_and_load` saves the project and loads it again: its events are flushed, and the column of
-- its lab is null outside the states `allocated` and `cleaning`.
pub data ProjectOp : Type 0 where
  allocate : LabInstanceId → Time → ProjectOp
  release_at clean_at resolve_at : Time → ProjectOp
  fail_cleanup quarantine_at : String → Time → ProjectOp
  store_and_load : ProjectOp

unfoldable pub apply : Project → ProjectOp → Project × Outcome (Unit {0})
unfolding allocate_to release mark_clean record_cleanup_failure quarantine_now manual_resolve
    allocated_lab_for_state
apply p (ProjectOp.allocate lab now) = allocate_to p lab now
apply p (ProjectOp.release_at now) = release p now
apply p (ProjectOp.clean_at now) = mark_clean p now
apply p (ProjectOp.resolve_at now) = manual_resolve p now
apply p (ProjectOp.fail_cleanup reason now) = record_cleanup_failure p reason now
apply p (ProjectOp.quarantine_at reason now) = quarantine_now p reason now
apply p ProjectOp.store_and_load =
    (record p { allocated_to_lab_id = allocated_lab_for_state p; pending_events = [] }, ok tt)

unfoldable pub run : Project → List ProjectOp → Project
unfolding apply
run p [] = p
run p (op ∷ ops) = run (apply p op).0 ops
