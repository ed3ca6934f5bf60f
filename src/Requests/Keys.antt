-- ===== src/Requests/Keys.antt =====
-- internal/app/lab/ops.go, GetLabSSHKey: who gets the private key of a lab.
use cloud_lab_gateway.Common.{◌≡◌, ◌↔◌, true, Option-cases, some, List, arith, ℕ, inl, inr}
use cloud_lab_gateway.Shared.{LabInstanceId, SecretId, ok}
use cloud_lab_gateway.Lab.{LabInstance}
use cloud_lab_gateway.Ports.{Env, Trace, gives}
use cloud_lab_gateway.Requests.{Actor, Deps, load_lab, read_key, get_lab_ssh_key}
use cloud_lab_gateway.Requests.Handling.{seen}

-- The secret store holds the key under a secret that the lab names, for the kind and the lab that
-- the key was stored with.
pub record IsKept (env : Env) (lab : LabInstance) (tr : Trace) (key : List ℕ) : Type 0 where
  pub secret : SecretId
  pub named : lab.student_ssh_key_secret_id ≡ some secret
  pub held : env.secrets_get secret "ssh_private_key" (env.uuid_text lab.id) tr ≡ gives key

-- A request for the key of a lab returns a key exactly when the actor owns the lab, whatever the
-- actor's role, a secret store is wired, and that store holds the key.
pub get_lab_ssh_key-ok_iff :
    (env : Env) (d : Deps) (actor : Actor) (id : LabInstanceId) (tr : Trace) {lab : LabInstance}
    → env.lab_get id tr ≡ gives lab
    → (key : List ℕ)
    → ((get_lab_ssh_key env d actor id tr).0 ≡ ok key) ↔ (
        (lab.student_user_id ≡ actor.user_id)
        × (d.has_secrets ≡ true)
        × IsKept env lab (seen id tr) key)
unfolding get_lab_ssh_key load_lab read_key
get_lab_ssh_key-ok_iff env d actor id tr {lab} loaded key =
    elim (Option-cases lab.student_ssh_key_secret_id) [
      | inl e ↦ (
        λ h. absurd (ground (arith, loaded, e)),
        λ (o, s, k). absurd (ground (arith, e, k.named)),
      )
      | inr (s, e) ↦ (
        λ h. (
          ground (arith, loaded, e),
          ground (arith, loaded, e),
          record { secret = s; named = e; held = ground (arith, loaded, e) },
        ),
        λ (o, w, k). ground (arith, loaded, e, k.named, k.held),
      )
    ]
