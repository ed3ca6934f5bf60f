-- ===== src/Cloud/Accounting.antt =====
-- internal/adapters/cloud/inmem/provider.go: what is booked as used, over any calls.
use cloud_lab_gateway.Common.{
  ◌+◌, ◌^◌, ◌≤◌, ◌<◌, ◌≡◌, inl, inr, Bool, true, Option, Option-cases, some, List, [], ◌∷◌, String,
  arith, Bool-cases, ◌&&◌,
}
use cloud_lab_gateway.Common.Int.{pos, ◌≤ℤ◌, pos_part}
use cloud_lab_gateway.Common.Maps.{get, IsUnique, delete-of_none, delete-IsUnique}
use cloud_lab_gateway.Shared.{Time, Err}
use cloud_lab_gateway.Ports.{Answer, Keypair, ServerSpec, NetworkSpec}
use cloud_lab_gateway.Cloud.{
  handle_keys, Capacity, Faults, Handle, Server, Provider, new_provider, is_empty, is_zero,
  create_keypair, delete_keypair, reuse_keypair, add_keypair, boot_server, add_server,
  wait_for_active, allocate_floating_ip, address_of, reuse_address, delete_server, remove_server,
  create_network, reuse_network, delete_network, request_from_flavor, fits_one, fits, server_of,
}
use cloud_lab_gateway.Cloud.Flavors.{request_from_flavor-IsModest}
use cloud_lab_gateway.Cloud.Booking.{
  IsBooked, AreMade, AreMade-mono, AreMade-delete, get_fresh, grow-IsBooked, shrink-IsBooked,
}

-- One call of the provider; what it reads of the world is given.
pub data CloudOp : Type 0 where
  make_keypair : String → String → Answer Keypair → CloudOp
  drop_keypair : String → String → CloudOp
  boot : String → ServerSpec → Time → CloudOp
  wait : Handle → Time → Option Err → CloudOp
  allocate drop_server drop_network : Handle → CloudOp
  make_network : String → NetworkSpec → CloudOp

unfoldable pub apply : Provider → CloudOp → Provider
apply p (CloudOp.make_keypair project name made) = (create_keypair p project name made).0
apply p (CloudOp.drop_keypair project name) = (delete_keypair p project name).0
apply p (CloudOp.boot project spec now) = (boot_server p project spec now).0
apply p (CloudOp.wait id now interrupted) = (wait_for_active p id now interrupted).0
apply p (CloudOp.allocate id) = (allocate_floating_ip p id).0
apply p (CloudOp.drop_server id) = (delete_server p id).0
apply p (CloudOp.make_network project spec) = (create_network p project spec).0
apply p (CloudOp.drop_network id) = (delete_network p id).0

unfoldable pub run : Provider → List CloudOp → Provider
unfolding apply
run p [] = p
run p (op ∷ ops) = run (apply p op) ops

pub record IsAccounted (p : Provider) : Type 0 where
  pub unique : IsUnique p.servers
  pub made : AreMade p.seq p.servers
  pub vcpus : IsBooked (λ r. r.vcpus) p.used.vcpus p.capacity.vcpus p.servers
  pub ram : IsBooked (λ r. r.ram_mb) p.used.ram_mb p.capacity.ram_mb p.servers
  pub disk : IsBooked (λ r. r.disk_gb) p.used.disk_gb p.capacity.disk_gb p.servers

all_three : (a b c : Bool) → (a && b && c) ≡ true → (a ≡ true) × (b ≡ true) × (c ≡ true)
all_three a b c h = ground arith

add_server-IsAccounted :
    (p : Provider) (project : String) (spec : ServerSpec) (now : Time)
    → IsAccounted p
    → IsAccounted (add_server p project spec now).0
unfolding add_server
add_server-IsAccounted p project spec now h =
    let s = server_of p project spec now in
    let id = Handle.srv (p.seq + 1) in
    let m = request_from_flavor-IsModest spec.flavor_ref in
    let gone = delete-of_none id p.servers (get_fresh p.seq p.servers h.made) in
    elim (Bool-cases (fits p.used (request_from_flavor spec.flavor_ref) p.capacity)) [
      | inl fit ↦
          let asked = request_from_flavor spec.flavor_ref in
          let three : (fits_one p.used.vcpus asked.vcpus p.capacity.vcpus ≡ true)
              × (fits_one p.used.ram_mb asked.ram_mb p.capacity.ram_mb ≡ true)
              × (fits_one p.used.disk_gb asked.disk_gb p.capacity.disk_gb ≡ true) =
            all_three _ _ _ fit in
          rw (fit, gone)
            (record {
              unique = (get_fresh p.seq p.servers h.made, h.unique);
              made = (omega arith, AreMade-mono p.seq (p.seq + 1) p.servers (omega arith) h.made);
              vcpus =
                  grow-IsBooked (λ q. q.vcpus) _ _ id s p.servers h.vcpus m.vcpus.0 m.vcpus.1
                    three.0;
              ram = grow-IsBooked (λ q. q.ram_mb) _ _ id s p.servers h.ram m.ram.0 m.ram.1 three.1;
              disk =
                  grow-IsBooked (λ q. q.disk_gb) _ _ id s p.servers h.disk m.disk.0 m.disk.1
                    three.2;
            })
      | inr full ↦ rw full h
    ]

remove_server-IsAccounted :
    (p : Provider) (id : Handle) {s : Server}
    → get id p.servers ≡ some s
    → IsAccounted p
    → IsAccounted (remove_server p id (some s)).0
unfolding remove_server
remove_server-IsAccounted p id {s} found h = record {
  unique = delete-IsUnique id p.servers h.unique;
  made = AreMade-delete p.seq id p.servers h.made;
  vcpus = shrink-IsBooked (λ r. r.vcpus) _ _ id p.servers h.unique found h.vcpus;
  ram = shrink-IsBooked (λ r. r.ram_mb) _ _ id p.servers h.unique found h.ram;
  disk = shrink-IsBooked (λ r. r.disk_gb) _ _ id p.servers h.unique found h.disk;
}

pub boot_server-IsAccounted :
    (p : Provider) (project : String) (spec : ServerSpec) (now : Time)
    → IsAccounted p
    → IsAccounted (boot_server p project spec now).0
unfolding boot_server
boot_server-IsAccounted p project spec now h =
    ground (arith, h, add_server-IsAccounted p project spec now h)

pub delete_server-IsAccounted :
    (p : Provider) (id : Handle) → IsAccounted p → IsAccounted (delete_server p id).0
unfolding delete_server
delete_server-IsAccounted p id h = elim (Option-cases (get id p.servers)) [
  | inl e ↦ ground (arith, e, h)
  | inr (s, e) ↦ ground (arith, e, h, remove_server-IsAccounted p id e h)
]

-- A call that books nothing leaves the servers and what is booked, and counts at most upwards.
record IsAside (p q : Provider) : Type 0 where
  servers : q.servers ≡ p.servers
  used : q.used ≡ p.used
  capacity : q.capacity ≡ p.capacity
  later : p.seq ≤ q.seq

IsAccounted-aside : (p q : Provider) → IsAside p q → IsAccounted p → IsAccounted q
IsAccounted-aside p q a h = record {
  unique = rw a.servers h.unique;
  made = rw a.servers (AreMade-mono p.seq q.seq p.servers a.later h.made);
  vcpus = rw (a.servers, a.used, a.capacity) h.vcpus;
  ram = rw (a.servers, a.used, a.capacity) h.ram;
  disk = rw (a.servers, a.used, a.capacity) h.disk;
}

pub apply-IsAccounted : (p : Provider) (op : CloudOp) → IsAccounted p → IsAccounted (apply p op)
unfolding apply create_keypair reuse_keypair add_keypair delete_keypair wait_for_active
    allocate_floating_ip address_of reuse_address create_network reuse_network delete_network
apply-IsAccounted p (CloudOp.boot project spec now) h = boot_server-IsAccounted p project spec now h
apply-IsAccounted p (CloudOp.drop_server id) h = delete_server-IsAccounted p id h
apply-IsAccounted p op h = IsAccounted-aside p (apply p op) (ground arith) h

run_from : (p : Provider) (ops : List CloudOp) → IsAccounted p → IsAccounted (run p ops)
unfolding run
run_from p [] h = h
run_from p (op ∷ ops) h = run_from (apply p op) ops (apply-IsAccounted p op h)

-- A capacity that is not negative and leaves room in an int64.
pub record IsRoomy (c : Capacity) : Type 0 where
  pub vcpus : (pos 0 ≤ℤ c.vcpus) × (pos_part c.vcpus < 2 ^ 62)
  pub ram : (pos 0 ≤ℤ c.ram_mb) × (pos_part c.ram_mb < 2 ^ 62)
  pub disk : (pos 0 ≤ℤ c.disk_gb) × (pos_part c.disk_gb < 2 ^ 62)

-- After any calls on a new provider, whatever faults are set, what is booked as used of each resource
-- is the sum of what the servers hold and is within the capacity, as long as the capacity is not
-- negative and below 2 ^ 62; and the identifiers of the servers differ.
pub run-IsAccounted :
    (c : Capacity) (faults : Faults) (ops : List CloudOp)
    → IsRoomy c
    → IsAccounted (run (new_provider c faults) ops)
unfolding new_provider is_empty is_zero
run-IsAccounted c faults ops room = run_from (new_provider c faults) ops (ground arith)
