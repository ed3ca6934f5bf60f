-- ===== src/Ansible/Reading.antt =====
-- internal/adapters/checker/ansible/parse.go, parseCallback: the steps and the state that are read.
use cloud_lab_gateway.Common.{
  ◌≡◌, refl, sym, ◌∙◌, Bool, true, false, ◌||◌, Option, none, some, List, [], ◌∷◌, ◌++◌, String,
  arith, ap, ++_assoc, ++_nil, ++_assoc, ++_nil,
}
use cloud_lab_gateway.Common.Int.{pos, ltb_ℤ}
use cloud_lab_gateway.Verify.{RunState, StepResult}
use cloud_lab_gateway.Ports.{CheckResult, AnsibleStats}
use cloud_lab_gateway.Ansible.{
  CallbackTask, CallbackHostResult, CallbackOutput, first_host_result, is_bad, step_of, read_host,
  read_tasks, read_plays, read_output, zero_stats, sum_stats,
}

-- The step of a task, if some host has a result of it.
abbrev pub step_at : String → Option CallbackHostResult → List StepResult
step_at name none = []
step_at name (some r) = step_of name r ∷ []

abbrev pub steps_of_tasks : List CallbackTask → List StepResult
steps_of_tasks [] = []
steps_of_tasks (t ∷ ts) = step_at t.name (first_host_result t.hosts) ++ steps_of_tasks ts

abbrev pub steps_of_plays : List (List CallbackTask) → List StepResult
steps_of_plays [] = []
steps_of_plays (p ∷ ps) = steps_of_tasks p ++ steps_of_plays ps

abbrev pub has_bad : List StepResult → Bool
has_bad [] = false
has_bad (s ∷ ss) = is_bad s.status || has_bad ss

-- What is counted over all hosts speaks of a failure.
abbrev pub counts_bad : AnsibleStats → Bool
counts_bad st = ltb_ℤ (pos 0) st.failed || ltb_ℤ (pos 0) st.unreachable

-- The state after steps, given the one before.
abbrev pub state_after : Bool → Option RunState → Option RunState
state_after true s = some RunState.failed
state_after false s = s

has_bad-++ : (a b : List StepResult) → has_bad (a ++ b) ≡ (has_bad a || has_bad b)
has_bad-++ [] b = ground arith
has_bad-++ (s ∷ a) b = ground (arith, has_bad-++ a b)

record HasRead (res : CheckResult) (ss : List StepResult) (new : CheckResult) : Type 0 where
  steps : new.steps ≡ res.steps ++ ss
  state : new.state ≡ state_after (has_bad ss) res.state
  stdout : new.stdout ≡ res.stdout

read_host-HasRead :
    (res : CheckResult) (name : String) (r : Option CallbackHostResult)
    → HasRead res (step_at name r) (read_host res name r)
read_host-HasRead res name none = record {
  steps = sym (++_nil res.steps);
  state = refl;
  stdout = refl;
}
read_host-HasRead res name (some r) = record { steps = refl; state = ground arith; stdout = refl }

HasRead-then :
    {a b c : CheckResult} (ss ts : List StepResult)
    → HasRead a ss b
    → HasRead b ts c
    → HasRead a (ss ++ ts) c
HasRead-then {a} ss ts h k = record {
  steps = k.steps ∙ ap (λ l. l ++ ts) h.steps ∙ ++_assoc a.steps ss ts;
  state = ground (arith, k.state, h.state, has_bad-++ ss ts);
  stdout = k.stdout ∙ h.stdout;
}

read_tasks-HasRead :
    (res : CheckResult) (ts : List CallbackTask)
    → HasRead res (steps_of_tasks ts) (read_tasks res ts)
unfolding read_tasks
read_tasks-HasRead res [] = read_host-HasRead res "" none
read_tasks-HasRead res (t ∷ ts) =
    let r = first_host_result t.hosts in
    HasRead-then (step_at t.name r) (steps_of_tasks ts) (read_host-HasRead res t.name r)
      (read_tasks-HasRead (read_host res t.name r) ts)

read_plays-HasRead :
    (res : CheckResult) (ps : List (List CallbackTask))
    → HasRead res (steps_of_plays ps) (read_plays res ps)
unfolding read_plays
read_plays-HasRead res [] = read_host-HasRead res "" none
read_plays-HasRead res (p ∷ ps) =
    HasRead-then (steps_of_tasks p) (steps_of_plays ps) (read_tasks-HasRead res p)
      (read_plays-HasRead (read_tasks res p) ps)

abbrev pub verdict : Bool → RunState
verdict true = RunState.failed
verdict false = RunState.passed

pub record IsRead (stdout : String) (out : CallbackOutput) (res : CheckResult) : Type 0 where
  pub steps : res.steps ≡ steps_of_plays out.plays
  pub state :
      res.state
      ≡ some (
          verdict
            (has_bad (steps_of_plays out.plays) || counts_bad (sum_stats zero_stats out.stats)))
  pub kept : res.stdout ≡ stdout

-- The result that is read from an output has the steps of the tasks of its plays, in order, less the tasks that no
-- host has a result of. It is failed if a step failed or could not reach its host, or if the counts over all hosts
-- have a failure or a host that was not reached, and it is passed otherwise. It keeps the text of the output.
pub read_output-IsRead :
    (stdout : String) (out : CallbackOutput) → IsRead stdout out (read_output stdout out)
unfolding read_output
read_output-IsRead stdout out =
    let h =
      read_plays-HasRead
        (record { state = some RunState.passed; steps = []; stats = zero_stats; stdout = stdout })
        out.plays in
    record { steps = h.steps; state = ground (arith, h.state); kept = h.stdout }
