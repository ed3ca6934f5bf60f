-- ===== src/Ansible/Tests.antt =====
-- internal/adapters/checker/ansible: a playbook with one task that a host has a result of.
use cloud_lab_gateway.Common.{false, none, [], ◌∷◌}
use cloud_lab_gateway.Common.Int.{pos}
use cloud_lab_gateway.Ports.{gives, CheckRequest}
use cloud_lab_gateway.Ansible.{
  Message, CallbackHostResult, CallbackStatsByHost, CallbackOutput, Machine, read_output, run,
}
use cloud_lab_gateway.Ansible.Reading.{IsRead, read_output-IsRead}
use cloud_lab_gateway.Ansible.Running.{IsReported, IsRun, run-IsReported}

abbrev fine : CallbackHostResult
fine = record {
  changed = false;
  failed = false;
  unreachable = false;
  skipped = false;
  msg = Message.other;
  stdout = Message.text "done";
  stderr = Message.text "";
}

abbrev counts : CallbackStatsByHost
counts = record {
  ok = pos 1;
  changed = pos 0;
  failures = pos 0;
  failed = pos 0;
  unreachable = pos 0;
  skipped = pos 0;
}

abbrev output : CallbackOutput
output = record {
  plays =
      (record { name = "ping"; hosts = ("target", fine) ∷ [] }
        ∷ record { name = ""; hosts = [] }
        ∷ [])
      ∷ [];
  stats = ("target", counts) ∷ [];
}

read_output-IsRead_example : IsRead "{}" output (read_output "{}" output)
read_output-IsRead_example = read_output-IsRead "{}" output

abbrev machine : Machine
machine = record {
  temp_dir = gives "/tmp/clg";
  write_file = λ _ _. gives tt;
  key_text = λ _. "key";
  encode_vars = λ _. gives "{}";
  exec = λ _ _ _. record { run_err = none; timed_out = false; stdout = "{}"; stderr = "" };
  decode = λ _. gives output;
}

abbrev request : CheckRequest
request = record {
  playbook_path = "ping.yml";
  target_host = "10.0.0.5";
  ssh_user = "ubuntu";
  ssh_private_key = [];
  extra_vars = [];
  timeout_seconds = pos 60;
}

run-IsReported_example : IsReported (IsRun machine "" request) (run machine "" request)
run-IsReported_example = run-IsReported machine "" request
