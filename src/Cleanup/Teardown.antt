-- ===== src/Cleanup/Teardown.antt =====
-- internal/app/cleanup/saga.go, teardown: what the cloud has deleted after it.
use cloud_lab_gateway.Common.{
  ◌≡◌, ◌≢◌, refl, Bool, true, false, Option, none, some, List, [], ◌∷◌, String, str_eq, arith,
}
use cloud_lab_gateway.Shared.{ProjectId, ok, panic}
use cloud_lab_gateway.Lab.{LabInstance}
use cloud_lab_gateway.Ports.{Env, Call, Trace}
use cloud_lab_gateway.Ports.Traces.{
  called, labs_under, projects_under, deleted_servers, deleted_keypairs, deleted_networks,
}
use cloud_lab_gateway.Cleanup.{delete_servers, delete_keypair, delete_network, teardown_in}

-- `xs` pushed on a list one after the other
abbrev pub pushed : List String → List String → List String
pushed [] l = l
pushed (x ∷ xs) l = pushed xs (x ∷ l)

-- A name is pushed unless it is empty.
abbrev pub pushed_name : String → List String → List String
pushed_name x l = elim (str_eq x "") [ true ↦ l | false ↦ x ∷ l ]

delete_servers_writes :
    (env : Env) (project : String) (ss : List String) (b : Bool) (tr : Trace)
    → let tr' = (delete_servers env project ss tr).1 in
      (labs_under b tr' ≡ labs_under b tr)
      × (projects_under b tr' ≡ projects_under b tr)
      × (deleted_keypairs tr' ≡ deleted_keypairs tr)
      × (deleted_networks tr' ≡ deleted_networks tr)
unfolding delete_servers
delete_servers_writes env project [] b tr = (refl, refl, refl, refl)
delete_servers_writes env project (s ∷ ss) b tr =
    ground
      (arith, delete_servers_writes env project ss b (called (Call.delete_server project s) tr))

delete_servers_deletes :
    (env : Env) (project : String) (ss : List String) (tr : Trace)
    → let (r, tr') = delete_servers env project ss tr in
      (r ≢ panic) × (r ≡ ok tt → deleted_servers tr' ≡ pushed ss (deleted_servers tr))
unfolding delete_servers
delete_servers_deletes env project [] tr = (λ h. cc, λ h. refl)
delete_servers_deletes env project (s ∷ ss) tr =
    let ih = delete_servers_deletes env project ss (called (Call.delete_server project s) tr) in
    (ground (arith, ih), ground (arith, ih))

pub teardown_in_writes :
    (env : Env) (lab : LabInstance) (p : Option ProjectId) (b : Bool) (tr : Trace)
    → let (r, tr') = teardown_in env lab p tr in
      (r ≢ panic)
      × (labs_under b tr' ≡ labs_under b tr)
      × (projects_under b tr' ≡ projects_under b tr)
unfolding teardown_in delete_keypair delete_network
teardown_in_writes env lab none b tr = ((λ h. cc), refl, refl)
teardown_in_writes env lab (some p) b tr =
    let project = env.uuid_text p in
    ground (
      arith,
      delete_servers_writes env project lab.ki_resources.server_ids b tr,
      delete_servers_deletes env project lab.ki_resources.server_ids tr,
    )

-- The resources that a lab names are gone from the cloud of a history that follows another.
pub record IsTornDown (lab : LabInstance) (tr tr' : Trace) : Type 0 where
  pub servers : deleted_servers tr' ≡ pushed lab.ki_resources.server_ids (deleted_servers tr)
  pub keypairs :
      deleted_keypairs tr' ≡ pushed_name lab.ki_resources.keypair_name (deleted_keypairs tr)
  pub networks :
      deleted_networks tr' ≡ pushed_name lab.ki_resources.network_id (deleted_networks tr)

pub teardown_in_deletes :
    (env : Env) (lab : LabInstance) (p : ProjectId) (tr : Trace)
    → let (r, tr') = teardown_in env lab (some p) tr in r ≡ ok tt → IsTornDown lab tr tr'
unfolding teardown_in delete_keypair delete_network
teardown_in_deletes env lab p tr h =
    let project = env.uuid_text p in
    ground (
      arith,
      delete_servers_writes env project lab.ki_resources.server_ids false tr,
      delete_servers_deletes env project lab.ki_resources.server_ids tr,
    )
