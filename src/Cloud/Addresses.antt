-- ===== src/Cloud/Addresses.antt =====
-- internal/adapters/cloud/inmem/provider.go, AllocateFloatingIP: the addresses of servers.
use cloud_lab_gateway.Common.{ℕ, ◌+◌, ◌%◌, ◌≡◌, ◌≢◌, inl, inr, Option-cases, none, some, arith}
use cloud_lab_gateway.Common.Maps.{get, delete, nat_keys}
use cloud_lab_gateway.Ports.{gives}
use cloud_lab_gateway.Cloud.{
  handle_keys, same_handle_iff, Handle, Server, Provider, allocate_floating_ip, address_of,
  reuse_address, find_address,
}

-- The address that the next new allocation gives.
abbrev pub next_address : Provider → ℕ
next_address p = (p.seq + 1) % 253 + 1

-- A server that has an address gets the same one again, and nothing changes.
pub allocate_again :
    (p : Provider) (id : Handle) {ip : ℕ}
    → (allocate_floating_ip p id).1 ≡ gives ip
    → allocate_floating_ip (allocate_floating_ip p id).0 id
      ≡ ((allocate_floating_ip p id).0, gives ip)
unfolding allocate_floating_ip address_of reuse_address
allocate_again p id h = elim (Option-cases (find_address id p.floating)) [
  | inl e ↦ ground (arith, h, e, same_handle_iff id id)
  | inr (ip, e) ↦ ground (arith, h, e)
]

-- The addresses repeat after 253 steps of the counter, and a new one is not looked up: where the next
-- address is the only one of another server, allocating one for a server that has none succeeds and
-- takes the address from that other server.
pub allocate_steals :
    (p : Provider) (a b : Handle) {s : Server}
    → p.faults.allocate_floating_ip_err ≡ none
    → get b p.servers ≡ some s
    → find_address b p.floating ≡ none
    → find_address a p.floating ≡ some (next_address p)
    → find_address a (delete (next_address p) p.floating) ≡ none
    → let (q, r) = allocate_floating_ip p b in
      (r ≡ gives (next_address p))
      × (find_address b q.floating ≡ some (next_address p))
      × (find_address a q.floating ≡ none)
unfolding allocate_floating_ip address_of reuse_address
allocate_steals p a b fine there bare has only =
    let apart : b ≢ a = λ e. cc in ground (arith, same_handle_iff b b, same_handle_iff b a)
