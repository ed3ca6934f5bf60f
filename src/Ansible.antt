-- ===== src/Ansible.antt =====
-- internal/adapters/checker/ansible/parse.go and runner.go: a playbook is run, and its output is read.
pub mod Reading
pub mod Running
mod Tests
use cloud_lab_gateway.Common.{
  ℕ, Bool, true, false, not, ◌&&◌, ◌||◌, Option, none, some, List, [], ◌∷◌, ◌++◌, String, ◌⧺◌,
  str_eq, if◌then◌else◌,
}
use cloud_lab_gateway.Common.Int.{ℤ, pos, ◌+ℤ◌, wrap64, ltb_ℤ}
use cloud_lab_gateway.Shared.{Err}
use cloud_lab_gateway.Verify.{RunState, StepStatus, StepResult}
use cloud_lab_gateway.Ports.{Answer, gives, fails, CheckRequest, CheckResult, AnsibleStats}

-- A value of any JSON type: a text, an array or object with its encoding, or another one.
pub data Message : Type 0 where
  text nested : String → Message
  other : Message

pub record CallbackHostResult : Type 0 where
  pub changed : Bool
  pub failed : Bool
  pub unreachable : Bool
  pub skipped : Bool
  pub msg : Message
  pub stdout : Message
  pub stderr : Message

pub record CallbackStatsByHost : Type 0 where
  pub ok : ℤ
  pub changed : ℤ
  pub failures : ℤ
  pub failed : ℤ
  pub unreachable : ℤ
  pub skipped : ℤ

-- The maps by host are lists in the order that the iteration takes.
pub record CallbackTask : Type 0 where
  pub name : String
  pub hosts : List (String × CallbackHostResult)

pub record CallbackOutput : Type 0 where
  pub plays : List (List CallbackTask)
  pub stats : List (String × CallbackStatsByHost)

abbrev pub first_host_result : List (String × CallbackHostResult) → Option CallbackHostResult
first_host_result [] = none
first_host_result ((_, r) ∷ _) = some r

abbrev pub step_status : CallbackHostResult → StepStatus
step_status r =
    if r.unreachable
    then StepStatus.unreachable
    else if r.failed
    then StepStatus.failed
    else if r.skipped
    then StepStatus.skipped
    else if r.changed
    then StepStatus.changed
    else StepStatus.ok

abbrev pub message_of : List Message → String
message_of [] = ""
message_of (Message.text s ∷ more) = let rest = message_of more in if str_eq s "" then rest else s
message_of (Message.nested s ∷ more) = s
message_of (Message.other ∷ more) = message_of more

abbrev pub result_message : CallbackHostResult → String
result_message r = message_of (r.msg ∷ r.stderr ∷ r.stdout ∷ [])

abbrev pub zero_stats : AnsibleStats
zero_stats = record {
  ok = pos 0;
  changed = pos 0;
  failed = pos 0;
  unreachable = pos 0;
  skipped = pos 0;
}

abbrev pub add_stats : AnsibleStats → CallbackStatsByHost → AnsibleStats
add_stats a s = record {
  ok = wrap64 (a.ok +ℤ s.ok);
  changed = wrap64 (a.changed +ℤ s.changed);
  failed = wrap64 (a.failed +ℤ wrap64 (s.failures +ℤ s.failed));
  unreachable = wrap64 (a.unreachable +ℤ s.unreachable);
  skipped = wrap64 (a.skipped +ℤ s.skipped);
}

-- The loop of sumStats, from what it has summed.
unfoldable pub sum_stats : AnsibleStats → List (String × CallbackStatsByHost) → AnsibleStats
sum_stats a [] = a
sum_stats a ((_, s) ∷ more) = sum_stats (add_stats a s) more

abbrev pub is_bad : StepStatus → Bool
is_bad StepStatus.failed = true
is_bad StepStatus.unreachable = true
is_bad _ = false

abbrev pub step_of : String → CallbackHostResult → StepResult
step_of name r = record {
  task_name = if str_eq name "" then "unnamed task" else name;
  status = step_status r;
  message = result_message r;
}

abbrev pub add_step : CheckResult → StepResult → CheckResult
add_step res s = record res {
  state = if is_bad s.status then some RunState.failed else res.state;
  steps = res.steps ++ s ∷ [];
}

abbrev pub read_host : CheckResult → String → Option CallbackHostResult → CheckResult
read_host res name none = res
read_host res name (some r) = add_step res (step_of name r)

unfoldable pub read_tasks : CheckResult → List CallbackTask → CheckResult
read_tasks res [] = res
read_tasks res (t ∷ ts) = read_tasks (read_host res t.name (first_host_result t.hosts)) ts

unfoldable pub read_plays : CheckResult → List (List CallbackTask) → CheckResult
unfolding read_tasks
read_plays res [] = res
read_plays res (p ∷ ps) = read_plays (read_tasks res p) ps

abbrev pub no_result : RunState → String → CheckResult
no_result s stdout = record { state = some s; steps = []; stats = zero_stats; stdout = stdout }

abbrev pub with_stats : CheckResult → AnsibleStats → CheckResult
with_stats res st = record res {
  stats = st;
  state =
      if ltb_ℤ (pos 0) st.failed || ltb_ℤ (pos 0) st.unreachable
      then some RunState.failed
      else res.state;
}

unfoldable pub read_output : String → CallbackOutput → CheckResult
unfolding read_plays sum_stats
read_output stdout out =
    with_stats (read_plays (no_result RunState.passed stdout) out.plays)
      (sum_stats zero_stats out.stats)

abbrev decoded : String → Answer CallbackOutput → CheckResult × Option Err
decoded stdout (fails e) = (no_result RunState.errored stdout, some e)
decoded stdout (gives out) = (read_output stdout out, none)

-- `decode` is json.Unmarshal.
unfoldable pub parse_callback : (String → Answer CallbackOutput) → String → CheckResult × Option Err
unfolding read_output
parse_callback decode stdout =
    if str_eq stdout ""
    then (no_result RunState.errored "", some (Err.external "ansible: empty json callback output"))
    else decoded stdout (decode stdout)

-- How a process ended, and whether the context had passed its deadline by then.
pub record Execution : Type 0 where
  pub run_err : Option Err
  pub timed_out : Bool
  pub stdout : String
  pub stderr : String

-- What the operating system answers; `exec` takes the command, its arguments and the limit of time in seconds.
pub record Machine : Type 0 where
  pub temp_dir : Answer String
  pub write_file : String → String → Answer (Unit {0})
  pub key_text : List ℕ → String
  pub encode_vars : List (String × String) → Answer String
  pub exec : String → List String → Option ℤ → Execution
  pub decode : String → Answer CallbackOutput

abbrev pub command : String → String
command c = if str_eq c "" then "ansible-playbook" else c

abbrev pub time_limit : ℤ → Option ℤ
time_limit s = if ltb_ℤ (pos 0) s then some s else none

abbrev pub arguments : CheckRequest → String → String → List String
arguments req inventory_path vars =
    "-i" ∷ inventory_path ∷ req.playbook_path ∷ "--extra-vars" ∷ vars
    ∷ "--ssh-extra-args=-o StrictHostKeyChecking=accept-new -o ConnectTimeout=10" ∷ []

abbrev pub inventory : CheckRequest → String → String
inventory req key_path =
    "[target]\n" ⧺ req.target_host ⧺ " ansible_user=" ⧺ req.ssh_user
    ⧺ " ansible_ssh_private_key_file=" ⧺ key_path ⧺ "\n"

abbrev pub is_passed : Option RunState → Bool
is_passed (some RunState.passed) = true
is_passed _ = false

-- What follows the parsing. The text of the standard error behind a wrapped error is left out.
unfoldable pub judge : Execution → CheckResult × Option Err → CheckResult × Option Err
judge x (res, some e) = elim x.run_err [
  | some r ↦ (no_result RunState.errored x.stdout, some (Err.wrapped "ansible: run failed" r))
  | none ↦
      (no_result RunState.errored x.stdout, some (Err.wrapped "ansible: parse json callback" e))
]
judge x (res, none) = elim x.run_err [
  | some r ↦
      if is_passed res.state
      then (
        record res { state = some RunState.errored },
        some (Err.wrapped "ansible: run failed without failed tasks" r),
      )
      else (res, none)
  | none ↦ (res, none)
]

unfoldable pub report : (String → Answer CallbackOutput) → Execution → CheckResult × Option Err
unfolding judge parse_callback
report decode x =
    if x.timed_out
    then (no_result RunState.timeout x.stdout, none)
    else judge x (parse_callback decode x.stdout)

abbrev pub stopped : String → Err → CheckResult × Option Err
stopped msg e = (no_result RunState.errored "", some (Err.wrapped msg e))

-- filepath.Join of two parts
abbrev join_path : String → String → String
join_path dir name = dir ⧺ "/" ⧺ name

-- The steps of Run after the check of the request, each with the error that stops it.
unfoldable pub run_in : Machine → String → CheckRequest → Answer String → CheckResult × Option Err
unfolding report
run_in m cmd req (fails e) = stopped "ansible: create temp dir" e
run_in m cmd req (gives dir) =
    let key_path = join_path dir "key" in
    let inventory_path = join_path dir "inventory.ini" in
    elim (m.write_file key_path (m.key_text req.ssh_private_key)) [
      | fails e ↦ stopped "ansible: write ssh key" e
      | gives _ ↦ elim (m.write_file inventory_path (inventory req key_path)) [
        | fails e ↦ stopped "ansible: write inventory" e
        | gives _ ↦ elim (m.encode_vars req.extra_vars) [
          | fails e ↦ stopped "ansible: encode extra vars" e
          | gives vars ↦ report m.decode (
              m.exec (command cmd) (arguments req inventory_path vars)
                (time_limit req.timeout_seconds))
        ]
      ]
    ]

unfoldable pub run : Machine → String → CheckRequest → CheckResult × Option Err
unfolding run_in
run m cmd req =
    if str_eq req.playbook_path "" || str_eq req.target_host "" || str_eq req.ssh_user ""
    then (
      no_result RunState.errored "",
      some (Err.external "ansible: playbook path, target host and ssh user are required"),
    )
    else run_in m cmd req m.temp_dir
