-- ===== src/Cloud/Servers.antt =====
-- internal/adapters/cloud/inmem/provider.go: servers are booted and deleted at most once.
use cloud_lab_gateway.Common.{
  ◌+◌, ◌≡◌, inl, inr, Option-cases, none, String, eq_iff, arith, ap, sym, ◌∙◌,
}
use cloud_lab_gateway.Common.Maps.{get, delete-of_none, get-delete_self}
use cloud_lab_gateway.Shared.{Time}
use cloud_lab_gateway.Ports.{gives, ServerSpec}
use cloud_lab_gateway.Cloud.Accounting.{
  IsAccounted, boot_server-IsAccounted, delete_server-IsAccounted,
}
use cloud_lab_gateway.Cloud.Booking.{get_fresh, held}
use cloud_lab_gateway.Cloud.{
  handle_keys, same_handle_iff, Handle, Provider, boot_server, add_server, reuse_server,
  delete_server, remove_server, find_server,
}

-- Booting the same server of a project again gives the same identifier and changes nothing.
pub boot_server_again :
    (p : Provider) (project : String) (spec : ServerSpec) (now later : Time) {id : Handle}
    → (boot_server p project spec now).1 ≡ gives id
    → boot_server (boot_server p project spec now).0 project spec later
      ≡ ((boot_server p project spec now).0, gives id)
unfolding boot_server reuse_server add_server
boot_server_again p project spec now later h =
    elim (Option-cases (find_server project spec.name p.servers)) [
      | inl e ↦ ground (arith, h, e, eq_iff project project, eq_iff spec.name spec.name)
      | inr (id, e) ↦ ground (arith, h, e)
    ]

-- Deleting a server again changes nothing, and once it is deleted no server has its identifier.
pub delete_server_again :
    (p : Provider) (id : Handle)
    → (delete_server p id).1 ≡ gives tt
    → (delete_server (delete_server p id).0 id ≡ ((delete_server p id).0, gives tt))
      × (get id (delete_server p id).0.servers ≡ none)
unfolding delete_server remove_server
delete_server_again p id h = elim (Option-cases (get id p.servers)) [
  | inl e ↦ (ground (arith, e), ground (arith, e))
  | inr (s, e) ↦
      let gone = get-delete_self id p.servers in (ground (arith, e, gone), ground (arith, e, gone))
]

boot-delete-servers :
    (p : Provider) (project : String) (spec : ServerSpec) (now : Time) {id : Handle}
    → IsAccounted p
    → find_server project spec.name p.servers ≡ none
    → p.faults.delete_server_err ≡ none
    → (boot_server p project spec now).1 ≡ gives id
    → (delete_server (boot_server p project spec now).0 id).0.servers ≡ p.servers
unfolding boot_server reuse_server add_server delete_server remove_server
boot-delete-servers p project spec now {id} h new fine done =
    let fresh = Handle.srv (p.seq + 1) in
    let gone = delete-of_none fresh p.servers (get_fresh p.seq p.servers h.made) in
    ground (arith, done, new, fine, gone, same_handle_iff fresh fresh)

-- Two providers with the same servers have booked the same.
used_of_servers :
    (p q : Provider) → IsAccounted p → IsAccounted q → q.servers ≡ p.servers → q.used ≡ p.used
used_of_servers p q h k e =
    let c : q.used.vcpus ≡ p.used.vcpus =
      k.vcpus.sum ∙ ap (held (λ r. r.vcpus)) e ∙ sym h.vcpus.sum in
    let r : q.used.ram_mb ≡ p.used.ram_mb =
      k.ram.sum ∙ ap (held (λ r. r.ram_mb)) e ∙ sym h.ram.sum in
    let d : q.used.disk_gb ≡ p.used.disk_gb =
      k.disk.sum ∙ ap (held (λ r. r.disk_gb)) e ∙ sym h.disk.sum in
    ground (arith, c, r, d)

-- Booting a server that the project did not have and deleting it again leaves the servers, and what is
-- booked as used of each resource, as they were.
pub boot-delete :
    (p : Provider) (project : String) (spec : ServerSpec) (now : Time) {id : Handle}
    → IsAccounted p
    → find_server project spec.name p.servers ≡ none
    → p.faults.delete_server_err ≡ none
    → (boot_server p project spec now).1 ≡ gives id
    → let q = (delete_server (boot_server p project spec now).0 id).0 in
      (q.servers ≡ p.servers) × (q.used ≡ p.used)
boot-delete p project spec now {id} h new fine done =
    let mid = (boot_server p project spec now).0 in
    let q = (delete_server mid id).0 in
    let back = boot-delete-servers p project spec now {id = id} h new fine done in
    let after = delete_server-IsAccounted mid id (boot_server-IsAccounted p project spec now h) in
    (back, used_of_servers p q h after back)
