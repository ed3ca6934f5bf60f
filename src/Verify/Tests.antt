-- ===== src/Verify/Tests.antt =====
-- internal/domain/verify/run.go: one run of a check as a test.
use cloud_lab_gateway.Common.{none, some, List, [], ◌∷◌, arith}
use cloud_lab_gateway.Common.Int.{pos}
use cloud_lab_gateway.Verify.{RunState, CheckRun}
use cloud_lab_gateway.Verify.Runs.{RunOp, IsTimed, run, run-IsTimed}

abbrev sample : CheckRun
sample = record {
  id = 1;
  lab_instance_id = 1;
  check_template_id = 1;
  triggered_by = none;
  state = RunState.queued;
  started_at = none;
  finished_at = none;
  summary = "";
  ansible_stdout = "";
  steps = [];
}

abbrev passed : CheckRun
passed = record sample {
  state = RunState.passed;
  started_at = some (pos 1);
  finished_at = some (pos 2);
}

sample-IsTimed : IsTimed sample
sample-IsTimed = ground arith

abbrev calls : List RunOp
calls = RunOp.begin (pos 3) ∷ RunOp.conclude RunState.failed "boom" [] "" (pos 4) ∷ []

run-IsTimed_example : IsTimed (run sample calls)
run-IsTimed_example = run-IsTimed sample calls sample-IsTimed
