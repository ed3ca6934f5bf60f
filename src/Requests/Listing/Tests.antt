-- ===== src/Requests/Listing/Tests.antt =====
-- internal/app/lab/ops.go, ListLabs: a student asks for the labs that are ready.
use cloud_lab_gateway.Common.{◌≡◌, refl, true, none, some, [], ◌∷◌}
use cloud_lab_gateway.Lab.{LabState}
use cloud_lab_gateway.Identity
use cloud_lab_gateway.Identity.{Role, can}
use cloud_lab_gateway.Ports.{Env, LabListFilter}
use cloud_lab_gateway.Ports.Samples.{quiet_env, quiet_lab, quiet_project}
use cloud_lab_gateway.Requests.{Actor, subject_of, resource_of}
use cloud_lab_gateway.Requests.Listing.{list_labs, list_as, ask, base_filter, list_labs-readable}

abbrev env : Env
env = quiet_env (quiet_lab LabState.ready) quiet_project

abbrev owner : Actor
owner = record { user_id = 2; role = Role.student; course_roles = [] }

abbrev own_labs : LabListFilter
own_labs = record (base_filter none (LabState.ready ∷ [])) { student_user_id = some 2 }

list_labs-readable_example :
    (own_labs.states ≡ LabState.ready ∷ [])
    × (own_labs.limit ≡ 200)
    × (can (subject_of owner) Identity.Action.lab_read (resource_of (quiet_lab LabState.ready))
        ≡ none)
unfolding list_labs list_as ask
list_labs-readable_example =
    list_labs-readable env true owner none (LabState.ready ∷ []) [] (quiet_lab LabState.ready) refl
      (record { student = refl; course = tt; courses = tt })
