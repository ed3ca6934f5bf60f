-- ===== src/Ansible/Running.antt =====
-- internal/adapters/checker/ansible/runner.go, Run: what the result of a run means.
use cloud_lab_gateway.Common.{
  ◌≡◌, refl, ◌⧺◌, ◌||◌, Bool, not, true, false, Bool-cases, inl, inr, Option, Option-cases, none,
  some, String, arith, str_eq,
}
use cloud_lab_gateway.Shared.{Err}
use cloud_lab_gateway.Verify.{RunState}
use cloud_lab_gateway.Ports.{Answer, Answer-cases, gives, fails, CheckRequest, CheckResult}
use cloud_lab_gateway.Ansible.{
  CallbackOutput, Execution, Machine, sum_stats, zero_stats, no_result, judge, parse_callback,
  read_output, report, run_in, run, stopped, command, arguments, inventory, time_limit,
}
use cloud_lab_gateway.Ansible.Reading.{steps_of_plays, has_bad, counts_bad, read_output-IsRead}

-- Whether the state comes without an error: a run that ended on its own or at the limit of time.
abbrev pub has_verdict : Option RunState → Bool
has_verdict (some RunState.passed) = true
has_verdict (some RunState.failed) = true
has_verdict (some RunState.timeout) = true
has_verdict _ = false

abbrev pub is_errored : Option RunState → Bool
is_errored (some RunState.errored) = true
is_errored _ = false

abbrev pub is_clean : Option Err → Bool
is_clean none = true
is_clean (some _) = false

-- The process ended well and in time, and its output has the steps, none of them bad, and no bad count.
pub record IsGood (decode : String → Answer CallbackOutput) (x : Execution) (res : CheckResult)
    : Type 0 where
  pub out : CallbackOutput
  pub ended : x.run_err ≡ none
  pub in_time : x.timed_out ≡ false
  pub output : decode x.stdout ≡ gives out
  pub steps : res.steps ≡ steps_of_plays out.plays
  pub no_bad : has_bad res.steps ≡ false
  pub none_counted : counts_bad (sum_stats zero_stats out.stats) ≡ false

-- An error comes with the state of an error and with no other; a run that passed has the evidence.
pub record IsReported (Good : CheckResult → Type 0) (r : CheckResult × Option Err) : Type 0 where
  pub verdict : has_verdict r.0.state ≡ is_clean r.1
  pub error : is_errored r.0.state ≡ not (is_clean r.1)
  pub good : r.0.state ≡ some RunState.passed → Good r.0

judge-read :
    (decode : String → Answer CallbackOutput) (x : Execution) (out : CallbackOutput)
    → x.timed_out ≡ false
    → decode x.stdout ≡ gives out
    → IsReported (IsGood decode x) (judge x (read_output x.stdout out, none))
unfolding judge
judge-read decode x out t e =
    let h = read_output-IsRead x.stdout out in
    elim (Option-cases x.run_err) [
      | inl n ↦
          let step : judge x (read_output x.stdout out, none) ≡ (read_output x.stdout out, none) =
            ground (arith, n) in
          rw step (record {
            verdict = ground (arith, h.state);
            error = ground (arith, h.state);
            good = λ p. record {
              out = out;
              ended = n;
              in_time = t;
              output = e;
              steps = h.steps;
              no_bad = ground (arith, h.state, h.steps, p);
              none_counted = ground (arith, h.state, p);
            };
          })
      | inr (f, n) ↦ record {
        verdict = ground (arith, n, h.state);
        error = ground (arith, n, h.state);
        good = λ p. absurd (ground (arith, n, h.state, p));
      }
    ]

judge-unread :
    (decode : String → Answer CallbackOutput) (x : Execution) (res : CheckResult) (e : Err)
    → IsReported (IsGood decode x) (judge x (res, some e))
unfolding judge
judge-unread decode x res e = elim (Option-cases x.run_err) [
  | inl n ↦ record {
    verdict = ground (arith, n);
    error = ground (arith, n);
    good = λ p. absurd (ground (arith, n, p));
  }
  | inr (f, n) ↦ record {
    verdict = ground (arith, n);
    error = ground (arith, n);
    good = λ p. absurd (ground (arith, n, p));
  }
]

report-IsReported :
    (decode : String → Answer CallbackOutput) (x : Execution)
    → IsReported (IsGood decode x) (report decode x)
unfolding report parse_callback
report-IsReported decode x = elim (Bool-cases x.timed_out) [
  | inl t ↦ rw t (record { verdict = refl; error = refl; good = λ p. absurd (ground (arith, p)) })
  | inr t ↦ elim (Bool-cases (str_eq x.stdout "")) [
    | inl s ↦
        let empty = Err.external "ansible: empty json callback output" in
        let step : report decode x ≡ judge x (no_result RunState.errored "", some empty) =
          ground (arith, t, s) in
        rw step (judge-unread decode x (no_result RunState.errored "") empty)
    | inr s ↦ elim (Answer-cases (decode x.stdout)) [
      | inr (f, e) ↦
          let step : report decode x ≡ judge x (no_result RunState.errored x.stdout, some f) =
            ground (arith, t, s, e) in
          rw step (judge-unread decode x (no_result RunState.errored x.stdout) f)
      | inl (out, e) ↦
          let step : report decode x ≡ judge x (read_output x.stdout out, none) =
            ground (arith, t, s, e) in
          rw step (judge-read decode x out t e)
    ]
  ]
]

-- The run of the request that the evidence speaks of.
pub record IsRun (m : Machine) (cmd : String) (req : CheckRequest) (res : CheckResult)
    : Type 0 where
  pub inventory_path : String
  pub vars : String
  pub encoded : m.encode_vars req.extra_vars ≡ gives vars
  pub good :
      IsGood m.decode
        (m.exec (command cmd) (arguments req inventory_path vars) (time_limit req.timeout_seconds))
        res

stopped-IsReported :
    (Good : CheckResult → Type 0) (msg : String) (e : Err) → IsReported Good (stopped msg e)
stopped-IsReported Good msg e = record {
  verdict = refl;
  error = refl;
  good = λ p. absurd (ground (arith, p));
}

run_in-IsReported :
    (m : Machine) (cmd : String) (req : CheckRequest) (dir : Answer String)
    → IsReported (IsRun m cmd req) (run_in m cmd req dir)
unfolding run_in
run_in-IsReported m cmd req (fails e) = stopped-IsReported _ _ e
run_in-IsReported m cmd req (gives dir) =
    let here = run_in m cmd req (gives dir) in
    let key_path = dir ⧺ "/" ⧺ "key" in
    let inventory_path = dir ⧺ "/" ⧺ "inventory.ini" in
    elim (Answer-cases (m.write_file key_path (m.key_text req.ssh_private_key))) [
      | inr (f, k) ↦
          let step : here ≡ stopped "ansible: write ssh key" f = ground (arith, k) in
          rw step (stopped-IsReported _ _ f)
      | inl (_, k) ↦ elim (Answer-cases (m.write_file inventory_path (inventory req key_path))) [
        | inr (f, i) ↦
            let step : here ≡ stopped "ansible: write inventory" f = ground (arith, k, i) in
            rw step (stopped-IsReported _ _ f)
        | inl (_, i) ↦ elim (Answer-cases (m.encode_vars req.extra_vars)) [
          | inr (f, v) ↦
              let step : here ≡ stopped "ansible: encode extra vars" f = ground (arith, k, i, v) in
              rw step (stopped-IsReported _ _ f)
          | inl (vars, v) ↦
              let x =
                m.exec (command cmd) (arguments req inventory_path vars)
                  (time_limit req.timeout_seconds) in
              let h = report-IsReported m.decode x in
              let step : here ≡ report m.decode x = ground (arith, k, i, v) in
              rw step (record {
                verdict = h.verdict;
                error = h.error;
                good = λ p. record {
                  inventory_path = inventory_path;
                  vars = vars;
                  encoded = v;
                  good = h.good p;
                };
              })
        ]
      ]
    ]

-- Whatever the machine answers, the result of a run is passed, failed or out of time if it comes without an error,
-- and it is the one of an error if it comes with one. Where it is passed, the playbook of the request was run with
-- the encoded variables, it ended well and in time, and its output has no step and no count that is bad.
pub run-IsReported :
    (m : Machine) (cmd : String) (req : CheckRequest) → IsReported (IsRun m cmd req) (run m cmd req)
unfolding run
run-IsReported m cmd req =
    elim (Bool-cases
      (str_eq req.playbook_path "" || str_eq req.target_host "" || str_eq req.ssh_user "")) [
        | inl e ↦
            rw e (record { verdict = refl; error = refl; good = λ p. absurd (ground (arith, p)) })
        | inr e ↦ rw e (run_in-IsReported m cmd req m.temp_dir)
      ]
