-- ===== src/Creation/Tests.antt =====
-- internal/app/lab/create.go: a student asks for a lab while the cluster has room.
use cloud_lab_gateway.Common.{[]}
use cloud_lab_gateway.Common.Int.{pos}
use cloud_lab_gateway.Lab.{LabState}
use cloud_lab_gateway.Ports.{Env}
use cloud_lab_gateway.Ports.Samples.{quiet_env, quiet_lab, quiet_project}
use cloud_lab_gateway.Shared.Samples.{whole}
use cloud_lab_gateway.Creation.{CreateInput, Settings, create_lab}
use cloud_lab_gateway.Creation.Outcomes.{Stored, create_lab-Stored}

abbrev env : Env
env = quiet_env (quiet_lab LabState.ready) quiet_project

abbrev asked : CreateInput
asked = record { student_user_id = 2; course_id = 3; lab_template_id = 4; request_id = "r" }

abbrev cfg : Settings whole (λ _. "0s")
cfg = record { quota_threshold_pct = 0; quota_max_age = pos 0 }

create_lab-Stored_example :
    let (r, tr') = create_lab whole (λ _. "0s") env cfg asked [] in
    Stored env asked (env.now []) r [] tr'
create_lab-Stored_example = create_lab-Stored whole (λ _. "0s") env cfg asked []
