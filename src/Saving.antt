-- ===== src/Saving.antt =====
-- internal/app: the saves that the use cases share, each in a transaction of its own
-- (saveLab of cleanup/saga.go, deploy/saga.go and lab/ops.go, saveProject of cleanup/saga.go).
use cloud_lab_gateway.Common.{◌≡◌, ◌≢◌, Option, none, some, List, ◌∷◌, arith}
use cloud_lab_gateway.Shared.{Err, Outcome, ok, err, panic}
use cloud_lab_gateway.Lab
use cloud_lab_gateway.Lab.{LabInstance}
use cloud_lab_gateway.Pool
use cloud_lab_gateway.Pool.{Project}
use cloud_lab_gateway.Ports.{Env, Call, Trace, Action, pure, throw, perform, ◌>>◌, with_tx}
use cloud_lab_gateway.Ports.Traces.{
  stored_labs, stored_projects, deleted_servers, deleted_keypairs, deleted_networks,
}

-- The save flushes the events of the aggregate.
unfoldable pub save_lab : Env → LabInstance → Action LabInstance
unfolding with_tx Lab.pull_events
save_lab env l = do
  with_tx env (perform (Call.lab_save l) (env.lab_save l))
  pure (Lab.pull_events l).0

unfoldable pub save_project : Env → Project → Action Project
unfolding with_tx Pool.pull_events
save_project env p = do
  with_tx env (perform (Call.pool_save p) (env.pool_save p))
  pure (Pool.pull_events p).0

-- The pair that a method returns, as the value or the error of a call.
abbrev pub moved_lab : LabInstance × Option Err → Action LabInstance
moved_lab (l, none) = pure l
moved_lab (l, some e) = throw e

abbrev pub moved_project : Project × Outcome (Unit {0}) → Action Project
moved_project (p, ok _) = pure p
moved_project (p, err e) = throw e
moved_project (p, panic) = λ tr. (panic, tr)

-- Neither history shows a resource deleted that the other does not.
pub record SameCloud (tr tr' : Trace) : Type 0 where
  pub servers : deleted_servers tr' ≡ deleted_servers tr
  pub keypairs : deleted_keypairs tr' ≡ deleted_keypairs tr
  pub networks : deleted_networks tr' ≡ deleted_networks tr

-- What holds of the value where there is one.
abbrev pub Holds {ℓ} : {A : Type ℓ} → (A → Type 0) → Outcome A → Type 0
Holds P (ok a) = P a
Holds P (err _) = Unit
Holds P panic = Unit

abbrev pub stored_if {ℓ} : {A : Type ℓ} → Outcome A → A → List A → List A
stored_if (ok _) a l = a ∷ l
stored_if _ a l = l

-- A save stores the lab if it returns no error, and nothing if it does.
pub save_lab_lem :
    (env : Env) (l : LabInstance) (tr : Trace)
    → let (r, tr') = save_lab env l tr in
      (r ≢ panic)
      × Holds (λ l'. l' ≡ record l { pending_events = List.[] }) r
      × (stored_labs tr' ≡ stored_if r l (stored_labs tr))
      × (stored_projects tr' ≡ stored_projects tr)
      × SameCloud tr tr'
unfolding save_lab
save_lab_lem env l tr = (ground arith, ground arith, ground arith, ground arith, ground arith)

-- So does a save of a project.
pub save_project_lem :
    (env : Env) (p : Project) (tr : Trace)
    → let (r, tr') = save_project env p tr in
      (r ≢ panic)
      × Holds (λ p'. p' ≡ record p { pending_events = List.[] }) r
      × (stored_projects tr' ≡ stored_if r p (stored_projects tr))
      × (stored_labs tr' ≡ stored_labs tr)
      × SameCloud tr tr'
unfolding save_project
save_project_lem env p tr = (ground arith, ground arith, ground arith, ground arith, ground arith)
