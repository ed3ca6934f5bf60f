-- ===== src/Lab/Ops.antt =====
-- internal/domain/lab/instance.go: one call of a method as a value, and sequences of calls.
use cloud_lab_gateway.Common.{Option, List, [], ◌∷◌, String}
use cloud_lab_gateway.Shared.{UserId, ProjectId, Time, Err}
use cloud_lab_gateway.Lab.{
  LabState, LabInstance, transition, freeze, unfreeze, extend_cleanup, mark_ready, assign_project,
}

pub data LabOp : Type 0 where
  move : LabState → String → Time → LabOp
  freeze_until : UserId → String → Time → Time → LabOp
  unfreeze_at : Time → Time → LabOp
  extend : Time → Time → LabOp
  deployed : Time → Time → LabOp
  assign : ProjectId → Time → LabOp

unfoldable pub apply : LabInstance → LabOp → LabInstance × Option Err
unfolding transition freeze unfreeze extend_cleanup mark_ready assign_project
apply l (LabOp.move to reason now) = transition l to reason now
apply l (LabOp.freeze_until by reason until now) = freeze l by reason until now
apply l (LabOp.unfreeze_at cleanup now) = unfreeze l cleanup now
apply l (LabOp.extend cleanup now) = extend_cleanup l cleanup now
apply l (LabOp.deployed cleanup now) = mark_ready l cleanup now
apply l (LabOp.assign project now) = assign_project l project now

-- A lab after a sequence of calls; a call that fails is followed by the next.
unfoldable pub run : LabInstance → List LabOp → LabInstance
unfolding apply
run l [] = l
run l (op ∷ ops) = run (apply l op).0 ops
