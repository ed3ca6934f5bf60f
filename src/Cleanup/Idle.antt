-- ===== src/Cleanup/Idle.antt =====
-- internal/app/cleanup/saga.go, teardown: a lab that names no resources.
use cloud_lab_gateway.Common.{◌≡◌, refl, Option, none, some}
use cloud_lab_gateway.Shared.{ProjectId, ok}
use cloud_lab_gateway.Lab.{LabInstance, no_resources}
use cloud_lab_gateway.Ports.{Env, Trace}
use cloud_lab_gateway.Cleanup.{
  delete_servers, delete_keypair, delete_network, teardown_in, teardown,
}

-- The teardown of the lab makes no call and returns no error.
abbrev pub IsIdle : LabInstance → Type 0
IsIdle lab = (env : Env) (tr : Trace) → teardown env lab tr ≡ (ok tt, tr)

idle_in :
    (lab : LabInstance) (p : Option ProjectId) (env : Env) (tr : Trace)
    → lab.ki_resources ≡ no_resources
    → teardown_in env lab p tr ≡ (ok tt, tr)
unfolding teardown_in delete_servers delete_keypair delete_network
idle_in lab none env tr h = refl
idle_in lab (some p) env tr h = rw h

pub no_resources-IsIdle : (lab : LabInstance) → lab.ki_resources ≡ no_resources → IsIdle lab
unfolding teardown
no_resources-IsIdle lab h env tr = idle_in lab lab.project_id env tr h
