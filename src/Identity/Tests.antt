-- ===== src/Identity/Tests.antt =====
-- internal/domain/identity/policy.go: a teacher who owns a lab of the course, as a test.
use cloud_lab_gateway.Common.{◌≡◌, ◌⊎◌, ◌↔◌, none, [], ◌∷◌}
use cloud_lab_gateway.Identity.{Role, CourseRole, Action, Resource, Subject, forbidden, can}
use cloud_lab_gateway.Identity.Rules.{IsAllowed, can_iff}

abbrev teacher : Subject
teacher = record {
  user_id = 2;
  role = Role.teacher;
  course_roles = (3, CourseRole.course_teacher) ∷ [];
}

abbrev own_lab : Resource
own_lab = Resource.lab_resource (record { lab_id = 1; owner_id = 2; course_id = 3 })

can_iff_example :
    let a = Action.lab_ssh_key in
    ((can teacher a own_lab ≡ none) ⊎ (can teacher a own_lab ≡ forbidden))
    × ((can teacher a own_lab ≡ none) ↔ IsAllowed teacher a own_lab)
can_iff_example = can_iff teacher Action.lab_ssh_key own_lab
