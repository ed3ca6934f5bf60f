-- ===== src/Identity/Rules.antt =====
-- internal/domain/identity/policy.go: the policy decides the rules of access. They are those of the code: the
-- settings are open to teachers, which docs/SECURITY.md keeps to administrators, and the audit log is not, though
-- QueryAudit of internal/app/admin/admin.go, which does not ask the policy, opens it to them.
use cloud_lab_gateway.Common.{◌≡◌, ◌≢◌, ◌⊎◌, inl, inr, ◌↔◌, true, false, none, arith}
use cloud_lab_gateway.Identity.{
  Role, Action, LabResource, Resource, Subject, forbidden, teaches, can,
}

-- The actions on labs, with what besides ownership or teaching each asks for.
pub data OnLab : Action → Type 0 where
  creates : OnLab Action.lab_create
  reads : OnLab Action.lab_read
  freezes : OnLab Action.lab_freeze
  unfreezes : OnLab Action.lab_unfreeze
  extends : OnLab Action.lab_extend
  deletes : OnLab Action.lab_delete
  gets_key : OnLab Action.lab_ssh_key
  checks : OnLab Action.check_run

-- Who may do what: the rules of access, without the order in which the code tests them.
pub data IsAllowed (s : Subject) : Action → Resource → Type 0 where
  admin_on_lab :
      {a : Action} (l : LabResource)
      → s.role ≡ Role.admin
      → OnLab a
      → IsAllowed s a (Resource.lab_resource l)
  teacher_on_lab :
      {a : Action} (l : LabResource)
      → teaches s.course_roles l.course_id ≡ true
      → OnLab a
      → a ≢ Action.lab_ssh_key
      → IsAllowed s a (Resource.lab_resource l)
  owner_on_lab :
      {a : Action} (l : LabResource)
      → teaches s.course_roles l.course_id ≡ false
      → l.owner_id ≡ s.user_id
      → OnLab a
      → a ≢ Action.lab_unfreeze
      → a ≢ Action.lab_extend
      → IsAllowed s a (Resource.lab_resource l)
  admin_pool : (r : Resource) → s.role ≡ Role.admin → IsAllowed s Action.admin_pool r
  admin_audit : (r : Resource) → s.role ≡ Role.admin → IsAllowed s Action.admin_audit r
  admin_quota : (r : Resource) → s.role ≡ Role.admin → IsAllowed s Action.admin_quota r
  admin_setting : (r : Resource) → s.role ≢ Role.student → IsAllowed s Action.admin_setting r

-- The policy answers with no error or with `forbidden`.
can_answers :
    (s : Subject) (a : Action) (r : Resource) → (can s a r ≡ none) ⊎ (can s a r ≡ forbidden)
unfolding can
can_answers s Action.admin_pool (Resource.lab_resource l) = ground arith
can_answers s a (Resource.lab_resource l) = ground arith
can_answers s a r = ground arith

sound : {s : Subject} {a : Action} {r : Resource} → IsAllowed s a r → can s a r ≡ none
unfolding can
sound (admin_on_lab l h creates) = ground arith
sound (admin_on_lab l h on) = ground arith
sound (teacher_on_lab l h creates n) = ground arith
sound (teacher_on_lab l h on n) = ground arith
sound (owner_on_lab l t h creates n m) = ground arith
sound (owner_on_lab l t h on n m) = ground arith
sound (admin_pool r h) = ground arith
sound (admin_audit r h) = ground arith
sound (admin_quota r h) = ground arith
sound (admin_setting r h) = ground arith

-- What a granted action on a lab tells of the subject.
abbrev Granted : Subject → Action → LabResource → Type 0
Granted s a l =
    (s.role ≡ Role.admin)
    ⊎ ((teaches s.course_roles l.course_id ≡ true) × (a ≢ Action.lab_ssh_key))
    ⊎ ((teaches s.course_roles l.course_id ≡ false)
        × (l.owner_id ≡ s.user_id)
        × (a ≢ Action.lab_unfreeze)
        × (a ≢ Action.lab_extend))

granted :
    {a : Action} (s : Subject) (l : LabResource)
    → OnLab a
    → can s a (Resource.lab_resource l) ≡ none
    → Granted s a l
unfolding can
granted s l creates h = ground arith
granted s l on h = ground arith

complete_lab :
    {a : Action} (s : Subject) (l : LabResource)
    → OnLab a
    → can s a (Resource.lab_resource l) ≡ none
    → IsAllowed s a (Resource.lab_resource l)
complete_lab s l on h = elim (granted s l on h) [
  | inl adm ↦ admin_on_lab l adm on
  | inr (inl (t, k)) ↦ teacher_on_lab l t on k
  | inr (inr (t, o, u, e)) ↦ owner_on_lab l t o on u e
]

complete : (s : Subject) (a : Action) (r : Resource) → can s a r ≡ none → IsAllowed s a r
unfolding can
complete s Action.admin_pool r h = admin_pool r (ground arith)
complete s Action.admin_audit r h = admin_audit r (ground arith)
complete s Action.admin_quota r h = admin_quota r (ground arith)
complete s Action.admin_setting r h = admin_setting r (ground arith)
complete s (Action.unknown t) r h = cc
complete s Action.lab_create (Resource.lab_resource l) h = complete_lab s l creates h
complete s Action.lab_read (Resource.lab_resource l) h = complete_lab s l reads h
complete s Action.lab_freeze (Resource.lab_resource l) h = complete_lab s l freezes h
complete s Action.lab_unfreeze (Resource.lab_resource l) h = complete_lab s l unfreezes h
complete s Action.lab_extend (Resource.lab_resource l) h = complete_lab s l extends h
complete s Action.lab_delete (Resource.lab_resource l) h = complete_lab s l deletes h
complete s Action.lab_ssh_key (Resource.lab_resource l) h = complete_lab s l gets_key h
complete s Action.check_run (Resource.lab_resource l) h = complete_lab s l checks h
complete s a r h = ground arith

-- The policy answers with no error or with `forbidden`, and with no error exactly when a rule of
-- access allows the action: any action on a lab to an administrator; any but the download of the
-- key to a teacher of its course; any but unfreezing and extending to its owner who does not teach
-- the course; the pool, the quota and the audit log to administrators; the settings to
-- administrators and, other than docs/SECURITY.md says, teachers.
pub can_iff :
    (s : Subject) (a : Action) (r : Resource)
    → ((can s a r ≡ none) ⊎ (can s a r ≡ forbidden)) × ((can s a r ≡ none) ↔ IsAllowed s a r)
can_iff s a r = (can_answers s a r, (complete s a r, sound))
