-- ===== src/Deploy/Compensation.antt =====
-- internal/app/deploy/saga.go, fail, and the teardown of internal/app/cleanup/saga.go that is to
-- undo what a failed deploy has created.
use cloud_lab_gateway.Common.{◌≡◌, ◌≢◌, String, ◌⧺◌, List, [], ◌∷◌, arith}
use cloud_lab_gateway.Shared.{Err, error_text, Outcome, ok, err, panic}
use cloud_lab_gateway.Lab.{LabState, LabInstance, no_resources, can_transition, transition}
use cloud_lab_gateway.Ports.{Env, Call, Trace}
use cloud_lab_gateway.Ports.Traces.{called, stored_labs}
use cloud_lab_gateway.Saving.{Holds, save_lab_lem}
use cloud_lab_gateway.Cleanup.Stages.{Last}
use cloud_lab_gateway.Cleanup.Idle.{IsIdle, no_resources-IsIdle}
use cloud_lab_gateway.Deploy.{fail}

abbrev IsBare : LabInstance → Type 0
IsBare l = (l.state ≡ LabState.failed) × (l.ki_resources ≡ no_resources)

fail_keeps :
    (env : Env) (lab : LabInstance) (step : String) (cause : Err) (tr : Trace)
    → lab.state ≡ LabState.deploying
    → lab.ki_resources ≡ no_resources
    → let (r, tr') = fail env lab step cause tr in
      (r ≢ panic) × Holds (λ _. Last IsBare (stored_labs tr')) r
unfolding fail can_transition
fail_keeps env lab step cause tr s n =
    let reason = "deploy failed at " ⧺ step ⧺ ": " ⧺ error_text cause in
    let failed = (transition lab LabState.failed reason (env.now tr)).0 in
    let saved = save_lab_lem env failed (called Call.clock_now tr) in
    (ground (arith, saved), ground (arith, saved))

Holds-IsIdle :
    (r : Outcome (Unit {0})) (ls : List LabInstance)
    → Holds (λ _. Last IsBare ls) r
    → Holds (λ _. Last (λ l. (l.state ≡ LabState.failed) × IsIdle l) ls) r
Holds-IsIdle (ok _) (l ∷ ls) h = (h.0, no_resources-IsIdle l h.1)
Holds-IsIdle (ok _) [] h = h
Holds-IsIdle (err _) ls h = tt
Holds-IsIdle panic ls h = tt

-- Where a lab in the state `deploying` names no resource, the compensation of its deploy does not panic, and where it
-- returns no error the lab stored last is in the state `failed` and no teardown of it makes a call or returns an
-- error, whatever the deploy has created.
pub fail_forgets :
    (env : Env) (lab : LabInstance) (step : String) (cause : Err) (tr : Trace)
    → lab.state ≡ LabState.deploying
    → lab.ki_resources ≡ no_resources
    → let (r, tr') = fail env lab step cause tr in
      (r ≢ panic)
      × Holds (λ _. Last (λ l. (l.state ≡ LabState.failed) × IsIdle l) (stored_labs tr')) r
fail_forgets env lab step cause tr s n =
    let (r, tr') = fail env lab step cause tr in
    let (no_panic, kept) = fail_keeps env lab step cause tr s n in
    (no_panic, Holds-IsIdle r (stored_labs tr') kept)
