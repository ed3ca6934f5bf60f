-- ===== src/Ports/Traces.antt =====
-- What is read off a history of calls: the records that the storage holds after it, where a write
-- counts once its transaction has committed, and the resources that the cloud has deleted.
use cloud_lab_gateway.Common.{Bool, true, false, Option, none, some, List, [], ◌∷◌, String}
use cloud_lab_gateway.Shared.{Err}
use cloud_lab_gateway.Lab.{LabInstance}
use cloud_lab_gateway.Pool.{Project}
use cloud_lab_gateway.Verify.{CheckRun}
use cloud_lab_gateway.Ports.Calls.{Call, Trace}

abbrev pub succeeded : Option Err → Bool
succeeded none = true
succeeded (some _) = false

abbrev pub both : Bool → Bool → Bool
both true b = b
both false b = false

abbrev pub add_if {ℓ} : {A : Type ℓ} → Bool → A → List A → List A
add_if true a l = a ∷ l
add_if false a l = l

-- Whether a write that stands before the call has been committed, given whether one after it was.
abbrev pub commits : Call → Option Err → Bool → Bool
commits Call.tx_commit e b = succeeded e
commits Call.tx_rollback e b = false
commits Call.tx_begin e b = false
commits _ e b = b

abbrev lab_of : Call → Bool → List LabInstance → List LabInstance
lab_of (Call.lab_save l) b ls = add_if b l ls
lab_of (Call.lab_create l) b ls = add_if b l ls
lab_of _ b ls = ls

abbrev project_of : Call → Bool → List Project → List Project
project_of (Call.pool_save p) b ps = add_if b p ps
project_of _ b ps = ps

abbrev pub labs_under : Bool → Trace → List LabInstance
labs_under b [] = []
labs_under b (e ∷ tr) =
    lab_of e.call (both b (succeeded e.error)) (labs_under (commits e.call e.error b) tr)

abbrev pub projects_under : Bool → Trace → List Project
projects_under b [] = []
projects_under b (e ∷ tr) =
    project_of e.call (both b (succeeded e.error)) (projects_under (commits e.call e.error b) tr)

abbrev run_of : Call → Bool → List CheckRun → List CheckRun
run_of (Call.runs_save r) b rs = add_if b r rs
run_of (Call.runs_create r) b rs = add_if b r rs
run_of _ b rs = rs

abbrev pub runs_under : Bool → Trace → List CheckRun
runs_under b [] = []
runs_under b (e ∷ tr) =
    run_of e.call (both b (succeeded e.error)) (runs_under (commits e.call e.error b) tr)

-- The runs of checks written and committed, the last one first.
abbrev pub stored_runs : Trace → List CheckRun
stored_runs tr = runs_under false tr

-- The labs and the projects written and committed, the last one first.
abbrev pub stored_labs : Trace → List LabInstance
stored_labs tr = labs_under false tr

abbrev pub stored_projects : Trace → List Project
stored_projects tr = projects_under false tr

abbrev server_of : Call → Bool → List String → List String
server_of (Call.delete_server _ s) b ss = add_if b s ss
server_of _ b ss = ss

-- The servers that the cloud has deleted, the last one first.
abbrev pub deleted_servers : Trace → List String
deleted_servers [] = []
deleted_servers (e ∷ tr) = server_of e.call (succeeded e.error) (deleted_servers tr)

abbrev keypair_of : Call → Bool → List String → List String
keypair_of (Call.delete_keypair _ k) b ks = add_if b k ks
keypair_of _ b ks = ks

abbrev pub deleted_keypairs : Trace → List String
deleted_keypairs [] = []
deleted_keypairs (e ∷ tr) = keypair_of e.call (succeeded e.error) (deleted_keypairs tr)

abbrev network_of : Call → Bool → List String → List String
network_of (Call.delete_network _ n) b ns = add_if b n ns
network_of _ b ns = ns

abbrev pub deleted_networks : Trace → List String
deleted_networks [] = []
deleted_networks (e ∷ tr) = network_of e.call (succeeded e.error) (deleted_networks tr)

-- The history after a call that returned no error.
abbrev pub called : Call → Trace → Trace
called c tr = record { call = c; error = none } ∷ tr
