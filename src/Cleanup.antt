-- ===== src/Cleanup.antt =====
-- internal/app/cleanup/saga.go: the saga that tears a lab down and returns its project to the pool.
pub mod Teardown
pub mod Stages
pub mod Projects
pub mod Ending
pub mod Run
pub mod Idle
mod Tests
use cloud_lab_gateway.Common.{
  Bool, true, false, not, ◌&&◌, Option, none, some, List, [], ◌∷◌, String, ◌⧺◌, str_eq,
  if◌then◌else◌,
}
use cloud_lab_gateway.Shared.{
  LabInstanceId, ProjectId, SecretId, Time, Err, error_text, Outcome, ok, err, panic,
}
use cloud_lab_gateway.Lab
use cloud_lab_gateway.Lab.{LabState, LabInstance, transition, can_transition}
use cloud_lab_gateway.Pool
use cloud_lab_gateway.Pool.{Project, ProjectState, release, mark_clean, record_cleanup_failure}
use cloud_lab_gateway.Ports.{
  Env, Answer, gives, fails, Call, Payload, Task, Action, Handled, value, failed, pure, throw,
  answered, perform, read_clock, attempt, wrap, ◌>>=◌, ◌>>◌,
}
use cloud_lab_gateway.Saving.{save_lab, save_project, moved_lab, moved_project}

pub delete_servers : Env → String → List String → Action (Unit {0})
delete_servers env project [] = pure tt
delete_servers env project (s ∷ ss) =
    wrap ("delete server " ⧺ s)
      (perform (Call.delete_server project s) (env.delete_server project s))
    >> delete_servers env project ss

pub delete_keypair : Env → String → String → Action (Unit {0})
delete_keypair env project k =
    if str_eq k ""
    then pure tt
    else wrap ("delete keypair " ⧺ k)
        (perform (Call.delete_keypair project k) (env.delete_keypair project k))

pub delete_network : Env → String → String → Action (Unit {0})
delete_network env project n =
    if str_eq n ""
    then pure tt
    else wrap ("delete network " ⧺ n)
        (perform (Call.delete_network project n) (env.delete_network project n))

-- Servers, then the keypair, then the network.
pub teardown_in : Env → LabInstance → Option ProjectId → Action (Unit {0})
teardown_in env lab none = pure tt
teardown_in env lab (some p) = do
  let project = env.uuid_text p
  let res = lab.ki_resources
  delete_servers env project res.server_ids
  delete_keypair env project res.keypair_name
  delete_network env project res.network_id

pub teardown : Env → LabInstance → Action (Unit {0})
unfolding teardown_in
teardown env lab = teardown_in env lab lab.project_id

pub finish_lab : Env → LabInstance → String → Time → Action (Unit {0})
unfolding transition
finish_lab env lab reason now = do
  l ← wrap "cleanup: transition to done" (moved_lab (transition lab LabState.done reason now))
  save_lab env l
  pure tt

-- Moves the lab into `cleaning`; `none` where there is nothing to clean.
pub enter_cleaning : Env → LabInstance → Time → Action (Option LabInstance)
unfolding transition
enter_cleaning env lab now =
    if Lab.same_state lab.state LabState.done
    then pure none
    else if Lab.same_state lab.state LabState.cleaning
    then pure (some lab)
    else if not (can_transition lab.state LabState.cleaning)
    then pure none
    else (do
      l ←
          wrap "cleanup: transition to cleaning"
            (moved_lab (transition lab LabState.cleaning "cleanup" now))
      l' ← save_lab env l
      pure (some l'))

-- Moves a loaded project to `cleaning` if it is still allocated.
pub release_allocated : Env → Project → Time → Action Project
unfolding release
release_allocated env p now =
    if Pool.same_state p.state ProjectState.allocated
    then (do
      q ← wrap "cleanup: release project" (moved_project (release p now))
      save_project env q)
    else pure p

pub load_project : Env → Option ProjectId → Time → Action (Option Project)
load_project env none now = pure none
load_project env (some id) now = do
  p ← wrap "cleanup: load project" (perform (Call.pool_get id) (env.pool_get id))
  q ← release_allocated env p now
  pure (some q)

abbrev pub is_cleaning : Project → Bool
is_cleaning p = Pool.same_state p.state ProjectState.cleaning

-- The error of `RecordCleanupFailure` is logged, and the project goes on as it came.
pub count_failure : Env → LabInstance → Project → Err → Time → Action (Unit {0})
unfolding record_cleanup_failure
count_failure env lab p e now = do
  q ← save_project env (record_cleanup_failure p (error_text e) now).0
  if Pool.same_state q.state ProjectState.quarantine
      then finish_lab env lab "cleanup_failed_quarantined" now
      else throw e

pub after_failure : Env → LabInstance → Option Project → Err → Time → Action (Unit {0})
after_failure env lab none e now = throw e
after_failure env lab (some p) e now =
    if is_cleaning p then count_failure env lab p e now else throw e

pub free_project : Env → Option Project → Time → Action (Unit {0})
unfolding mark_clean
free_project env none now = pure tt
free_project env (some p) now =
    if is_cleaning p
    then (do
      q ← wrap "cleanup: mark project clean" (moved_project (mark_clean p now))
      save_project env q
      pure tt)
    else pure tt

-- A failure to delete the key is logged.
pub drop_key : Env → Option SecretId → Action (Unit {0})
drop_key env none = pure tt
drop_key env (some s) = do attempt (perform (Call.secrets_delete s) (env.secrets_delete s)); pure tt

pub after_success : Env → LabInstance → Option Project → Time → Action (Unit {0})
after_success env lab project now = do
  free_project env project now
  drop_key env lab.checker_ssh_key_secret_id
  finish_lab env lab "cleanup_complete" now

-- The outcome of the teardown decides how the saga goes on.
pub settle : Env → LabInstance → Option Project → Time → Handled (Unit {0}) → Action (Unit {0})
settle env lab project now (value _) = after_success env lab project now
settle env lab project now (failed e) = after_failure env lab project e now

pub clean : Env → Option LabInstance → Time → Action (Unit {0})
clean env none now = pure tt
clean env (some lab) now = do
  project ← load_project env lab.project_id now
  torn ← attempt (teardown env lab)
  settle env lab project now torn

pub run : Env → LabInstanceId → Action (Unit {0})
run env id = do
  now ← read_clock env
  lab ← wrap "cleanup: load lab" (perform (Call.lab_get id) (env.lab_get id))
  entered ← enter_cleaning env lab now
  clean env entered now

-- json.Unmarshal of a task's body into a TaskPayload, and the identifier in it
pub lab_id_in : Payload → Answer String
lab_id_in (Payload.lab_body s) = gives s
lab_id_in (Payload.run_body _) = gives ""
lab_id_in Payload.no_body = fails (Err.external "unexpected end of JSON input")
lab_id_in (Payload.malformed e) = fails e

pub handle_task : Env → Task → Action (Unit {0})
unfolding lab_id_in
handle_task env t = do
  text ← wrap "cleanup: bad task payload" (answered (lab_id_in t.payload))
  id ← wrap ("cleanup: bad lab id \"" ⧺ text ⧺ "\"") (answered (env.uuid_parse text))
  run env id
