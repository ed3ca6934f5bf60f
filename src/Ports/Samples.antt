-- ===== src/Ports/Samples.antt =====
-- A quiet environment for tests: every call behind the ports is answered, and the cloud, the storage
-- and the clock are always in the same state.
use cloud_lab_gateway.Common.{none, some, [], ◌∷◌}
use cloud_lab_gateway.Common.Int.{pos}
use cloud_lab_gateway.Shared.Quantities.{QuotaSnapshot, Capacity}
use cloud_lab_gateway.Lab.{LabState, LabInstance}
use cloud_lab_gateway.Pool.{Project, ProjectState}
use cloud_lab_gateway.Verify.{RunState, CheckRun}
use cloud_lab_gateway.Ports.Calls.{
  Keypair, DeployStep, StepBytes, CheckTemplate, Course, AnsibleStats,
}
use cloud_lab_gateway.Ports.Answers.{Env, gives}

abbrev pub quiet_capacity : Capacity
quiet_capacity = record { used = pos 10; total = pos 100; unit = "unit" }

abbrev pub quiet_snapshot : QuotaSnapshot
quiet_snapshot = record {
  vcpus = quiet_capacity;
  ram = quiet_capacity;
  disk = quiet_capacity;
  fetched_at = pos 0;
}

abbrev pub quiet_run : CheckRun
quiet_run = record {
  id = 1;
  lab_instance_id = 1;
  check_template_id = 1;
  triggered_by = none;
  state = RunState.queued;
  started_at = none;
  finished_at = none;
  summary = "";
  ansible_stdout = "";
  steps = [];
}

abbrev quiet_step : DeployStep
quiet_step = record {
  lab_id = 1;
  step_name = "create_keypair";
  status = "pending";
  attempt = 0;
  last_error = "";
  result = StepBytes.empty;
  started_at = none;
  finished_at = none;
}

abbrev quiet_keypair : Keypair
quiet_keypair = record { name = "k1"; public_key = ""; private_key = []; fingerprint = "" }

abbrev quiet_template : CheckTemplate
quiet_template = record {
  id = 1;
  slug = "check";
  name = "check";
  playbook_path = "check.yml";
  timeout_seconds = pos 60;
}

abbrev quiet_course : Course
quiet_course = record { id = 1; external_id = "7"; name = "course"; ki_domain_id = "domain" }

-- A lab that names a server, a keypair and a network, and the project it rents.
abbrev pub quiet_lab : LabState → LabInstance
quiet_lab s = record {
  id = 1;
  student_user_id = 2;
  course_id = 3;
  lab_template_id = 4;
  project_id = some 5;
  state = s;
  state_reason = "";
  ki_resources = record {
    server_ids = "s1" ∷ [];
    network_id = "n1";
    floating_ips = "ip1" ∷ [];
    keypair_name = "k1";
  };
  cleanup_at = some (pos 40);
  unfreeze_at = none;
  frozen_by_user_id = none;
  frozen_reason = "";
  student_ssh_key_secret_id = some 6;
  checker_ssh_key_secret_id = some 6;
  created_at = pos 0;
  updated_at = pos 0;
  pending_events = [];
}

abbrev pub quiet_project : Project
quiet_project = record {
  id = 5;
  ki_project_id = "p5";
  ki_domain_id = "domain";
  name = "pool-5";
  state = ProjectState.allocated;
  allocated_to_lab_id = some 1;
  cleanup_failures = 0;
  last_state_change_at = pos 0;
  created_at = pos 0;
  pending_events = [];
}

abbrev no_stats : AnsibleStats
no_stats = record {
  ok = pos 0;
  changed = pos 0;
  failed = pos 0;
  unreachable = pos 0;
  skipped = pos 0;
}

-- The storage always reads this lab and this project.
abbrev pub quiet_env : LabInstance → Project → Env
quiet_env lab project = record {
  now = λ _. pos 50;
  fresh_id = λ _. 1;
  uuid_text = λ _. "u1";
  uuid_parse = λ _. gives 1;
  tx_begin = λ _. gives tt;
  tx_commit = λ _. gives tt;
  lab_get = λ _ _. gives lab;
  lab_find_active = λ _ _ _. gives none;
  lab_list = λ _ _. gives (lab ∷ []);
  lab_create = λ _ _. gives tt;
  lab_save = λ _ _. gives tt;
  pool_get = λ _ _. gives project;
  pool_allocate = λ _ _ _. gives project;
  pool_save = λ _ _. gives tt;
  pool_list = λ _ _ _. gives (project ∷ []);
  settings_list = λ _ _ _. gives [];
  settings_put = λ _ _. gives tt;
  audit_query = λ _ _. gives [];
  quota_snapshot = λ _. gives quiet_snapshot;
  quota_write = λ _ _. gives tt;
  steps_get = λ _ _ _. gives quiet_step;
  steps_save = λ _ _. gives tt;
  steps_list = λ _ _. gives [];
  courses_get = λ _ _. gives quiet_course;
  runs_get = λ _ _. gives quiet_run;
  runs_create = λ _ _. gives tt;
  runs_save = λ _ _. gives tt;
  runs_list = λ _ _ _. gives [];
  templates_get = λ _ _. gives quiet_template;
  quota_read = λ _. gives (quiet_snapshot, pos 0);
  audit_append = λ _ _. gives tt;
  audit_append_in_tx = λ _ _. gives tt;
  enqueue = λ _ _. gives tt;
  enqueue_at = λ _ _ _. gives tt;
  secrets_put = λ _ _ _ _. gives 1;
  secrets_get = λ _ _ _ _. gives [];
  secrets_delete = λ _ _. gives tt;
  runner_run = λ _ _. (record { state = none; steps = []; stats = no_stats; stdout = "" }, none);
  create_keypair = λ _ _ _. gives quiet_keypair;
  delete_keypair = λ _ _ _. gives tt;
  create_network = λ _ _ _. gives "n1";
  delete_network = λ _ _ _. gives tt;
  boot_server = λ _ _ _. gives "s1";
  wait_for_active = λ _ _ _. gives tt;
  allocate_floating_ip = λ _ _ _. gives "ip1";
  delete_server = λ _ _ _. gives tt;
}
