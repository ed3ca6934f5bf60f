-- ===== src/Storage/Samples.antt =====
-- A quiet server and two labs for tests.
use cloud_lab_gateway.Common.{none, [], ◌∷◌, true, false}
use cloud_lab_gateway.Common.Int.{pos}
use cloud_lab_gateway.Lab.{LabState, LabInstance, no_resources}
use cloud_lab_gateway.Ports.Samples.{quiet_lab}
use cloud_lab_gateway.Pool.{ProjectState}
use cloud_lab_gateway.Storage.Columns.{Json}
use cloud_lab_gateway.Storage.Rows.{LabRow, ProjectRow, OutboxRow, Database, World}

-- Instants are kept whole, and nothing is refused.
abbrev pub quiet_world : World
quiet_world = record {
  refuses = λ q db. none;
  now = λ db. pos 90;
  kept = λ t. t;
  uuid_text = λ n. "u";
  rfc3339 = λ t. "t";
  fresh_id = λ db. 77;
}

abbrev pub lab_row : LabState → LabRow
lab_row s = record {
  id = 1;
  student_user_id = 2;
  course_id = 3;
  lab_template_id = 4;
  project_id = record { uuid = 0; valid = false };
  state = s;
  state_reason = "";
  ki_resources = Json.object [];
  cleanup_at = record { time = pos 40; valid = true };
  unfreeze_at = record { time = pos 0; valid = false };
  frozen_by_user_id = record { uuid = 0; valid = false };
  frozen_reason = none;
  student_ssh_key_secret_id = record { uuid = 0; valid = false };
  checker_ssh_key_secret_id = record { uuid = 0; valid = false };
  created_at = record { time = pos 10; valid = true };
  updated_at = record { time = pos 20; valid = true };
}

abbrev pub project_row : ProjectRow
project_row = record {
  id = 5;
  ki_project_id = "k5";
  ki_domain_id = "domain";
  name = "pool-5";
  state = ProjectState.free;
  allocated_to_lab_id = record { uuid = 0; valid = false };
  cleanup_failures = 0;
  last_state_change_at = record { time = pos 10; valid = true };
  created_at = record { time = pos 5; valid = true };
}

abbrev pub outbox_row : OutboxRow
outbox_row = record {
  id = 1;
  topic = "lab.created";
  payload = Json.object [];
  occurred_at = record { time = pos 10; valid = true };
  published_at = none;
  attempts = 0;
}

abbrev pub no_rows : Database
no_rows = record { labs = []; projects = []; outbox = []; audit_events = []; next_outbox_id = 1 }

-- A ready lab, two free projects and one event that waits.
abbrev pub some_rows : Database
some_rows = record {
  labs = lab_row LabState.ready ∷ [];
  projects = project_row ∷ record project_row { id = 6; ki_project_id = "k6" } ∷ [];
  outbox = outbox_row ∷ [];
  audit_events = [];
  next_outbox_id = 2;
}

-- A lab, and the one that the row of `some_rows` reads as.
abbrev pub lab : LabInstance
lab = record (quiet_lab LabState.ready) { created_at = pos 10; updated_at = pos 60 }

abbrev pub before : LabInstance
before = record lab {
  project_id = none;
  ki_resources = no_resources;
  student_ssh_key_secret_id = none;
  checker_ssh_key_secret_id = none;
  updated_at = pos 20;
}
