-- ===== src/Storage/Labs/Listing/Tests.antt =====
-- internal/adapters/storage/pgxrepo/lab.go: lists of labs over a small database as tests.
use cloud_lab_gateway.Common.{◌≡◌, ◌≤◌, some, [], ◌∷◌, All, length, arith}
use cloud_lab_gateway.Common.Int.{pos}
use cloud_lab_gateway.Lab.{LabState}
use cloud_lab_gateway.Ports.{gives}
use cloud_lab_gateway.Storage.Rows.{is_active}
use cloud_lab_gateway.Storage.Samples.{quiet_world, before, some_rows}
use cloud_lab_gateway.Storage.Labs.{lab_from_row}
use cloud_lab_gateway.Storage.Columns.{ki_resources_from_json}
use cloud_lab_gateway.Storage.Labs.Listing.{
  first_lab, list_limit_int32, labs_from_rows, overdue_rows, find_active_by_student_and_course,
  list_pending_cleanup,
}
use cloud_lab_gateway.Storage.Labs.Listing.Answers.{IsDueBy, list_pending_cleanup-IsDueBy}

listed : list_pending_cleanup quiet_world (pos 50) 10 some_rows ≡ gives (before ∷ [])
unfolding list_pending_cleanup list_limit_int32 labs_from_rows overdue_rows lab_from_row
    ki_resources_from_json
listed = ground arith

found : find_active_by_student_and_course quiet_world 2 3 some_rows ≡ gives (some before)
unfolding find_active_by_student_and_course first_lab lab_from_row ki_resources_from_json is_active
found = ground arith

list_pending_cleanup-IsDueBy_example :
    All (λ l. (l.state ≡ LabState.ready) × IsDueBy (pos 50) l.cleanup_at) (before ∷ [])
    × (length (before ∷ []) ≤ 10)
list_pending_cleanup-IsDueBy_example =
    list_pending_cleanup-IsDueBy quiet_world (pos 50) 10 some_rows {ls = before ∷ []} listed
