-- ===== src/Cloud.antt =====
-- internal/adapters/cloud/inmem/provider.go: the cloud in memory. A method that mutates the provider
-- returns it beside the answer. Its types stand in Cloud/Defs.
mod Defs
pub mod Booking
pub mod Flavors
pub mod Accounting
pub mod Servers
pub mod Addresses
mod Tests
pub use Defs.*
use cloud_lab_gateway.Common.{
  ℕ, ◌+◌, ◌%◌, ◌≡◌, ◌↔◌, Bool, true, false, not, ◌&&◌, Option, none, some, List, [], ◌∷◌, String,
  ◌⧺◌, ◌==◌, str_eq, eq_iff, if◌then◌else◌, arith,
}
use cloud_lab_gateway.Common.Int.{ℤ, pos, ◌+ℤ◌, ◌-ℤ◌, wrap64, ltb_ℤ}
use cloud_lab_gateway.Common.Maps.{Eq, get, delete, put, text_keys, nat_keys}
use cloud_lab_gateway.Shared.{Time, Err}
use cloud_lab_gateway.Shared.Quantities.{ResourceRequest, QuotaSnapshot}
use cloud_lab_gateway.Ports.{Answer, gives, fails, Keypair, ServerSpec, NetworkSpec}

is_zero : ℤ → Bool
is_zero (ℤ.pos n) = n == 0
is_zero (ℤ.negsuc n) = false

is_empty : Capacity → Bool
unfolding is_zero
is_empty c = is_zero c.vcpus && is_zero c.ram_mb && is_zero c.disk_gb

pub new_provider : Capacity → Faults → Provider
unfolding is_empty
new_provider c faults = record {
  capacity = if is_empty c then default_capacity else c;
  used = record { vcpus = pos 0; ram_mb = pos 0; disk_gb = pos 0 };
  servers = [];
  keypairs = [];
  networks = [];
  floating = [];
  faults = faults;
  seq = 0;
}

pub get_quota_snapshot : Provider → Time → Provider × Answer QuotaSnapshot
get_quota_snapshot p now = unless p.faults.get_quota_snapshot_err p (
  p,
  gives (record {
    vcpus = record { used = p.used.vcpus; total = p.capacity.vcpus; unit = "vcpu" };
    ram = record { used = p.used.ram_mb; total = p.capacity.ram_mb; unit = "MB" };
    disk = record { used = p.used.disk_gb; total = p.capacity.disk_gb; unit = "GB" };
    fetched_at = now;
  }),
)

abbrev pub key_of : String → String → String
key_of project name = project ⧺ "/" ⧺ name

-- The key that package ed25519 generates, in its texts, is given.
add_keypair : Provider → String → String → Answer Keypair → Provider × Answer Keypair
add_keypair p project name (fails e) = (p, fails (Err.wrapped "generate keypair" e))
add_keypair p project name (gives made) =
    let kp = record made { name = name } in
    (record p { keypairs = put (key_of project name) kp p.keypairs }, gives kp)

reuse_keypair :
    Provider → String → String → Answer Keypair → Option Keypair → Provider × Answer Keypair
unfolding add_keypair
reuse_keypair p project name made (some kp) = (p, gives kp)
reuse_keypair p project name made none = add_keypair p project name made

pub create_keypair : Provider → String → String → Answer Keypair → Provider × Answer Keypair
unfolding reuse_keypair
create_keypair p project name made =
    unless p.faults.create_keypair_err p
      (reuse_keypair p project name made (get (key_of project name) p.keypairs))

pub delete_keypair : Provider → String → String → Provider × Answer (Unit {0})
delete_keypair p project name =
    unless p.faults.delete_keypair_err p
      (record p { keypairs = delete (key_of project name) p.keypairs }, gives tt)

abbrev pub request : ℕ → ℕ → ℕ → ResourceRequest
request c r d = record { vcpus = pos c; ram_mb = pos r; disk_gb = pos d }

unfoldable pub request_from_flavor : String → ResourceRequest
request_from_flavor f =
    if str_eq f "m1.tiny"
    then request 1 512 1
    else if str_eq f "start"
    then request 1 1024 10
    else if str_eq f "m1.small"
    then request 1 2048 20
    else if str_eq f "small"
    then request 1 2048 20
    else if str_eq f "m1.medium"
    then request 2 4096 40
    else if str_eq f "medium"
    then request 2 4096 40
    else if str_eq f "m1.large"
    then request 4 8192 80
    else if str_eq f "large"
    then request 4 8192 80
    else request 1 2048 20

-- `used + req <= capacity` in int64
abbrev pub fits_one : ℤ → ℤ → ℤ → Bool
fits_one used req total = not (ltb_ℤ total (wrap64 (used +ℤ req)))

abbrev pub fits : Capacity → ResourceRequest → Capacity → Bool
fits used req c =
    fits_one used.vcpus req.vcpus c.vcpus
    && fits_one used.ram_mb req.ram_mb c.ram_mb
    && fits_one used.disk_gb req.disk_gb c.disk_gb

abbrev pub grow : Capacity → ResourceRequest → Capacity
grow used req = record {
  vcpus = wrap64 (used.vcpus +ℤ req.vcpus);
  ram_mb = wrap64 (used.ram_mb +ℤ req.ram_mb);
  disk_gb = wrap64 (used.disk_gb +ℤ req.disk_gb);
}

abbrev pub shrink : Capacity → ResourceRequest → Capacity
shrink used req = record {
  vcpus = wrap64 (used.vcpus -ℤ req.vcpus);
  ram_mb = wrap64 (used.ram_mb -ℤ req.ram_mb);
  disk_gb = wrap64 (used.disk_gb -ℤ req.disk_gb);
}

-- The server of a project by its name. Where more than one has it, Go takes any; the first is taken.
abbrev pub find_server : String → String → List (Handle × Server) → Option Handle
find_server project name [] = none
find_server project name ((id, s) ∷ m) =
    if str_eq s.project_id project && str_eq s.name name
    then some id
    else find_server project name m

abbrev pub server_of : Provider → String → ServerSpec → Time → Server
server_of p project spec now = record {
  project_id = project;
  name = spec.name;
  image_ref = spec.image_ref;
  flavor_ref = spec.flavor_ref;
  network_id = spec.network_id;
  keypair_name = spec.keypair_name;
  metadata = spec.metadata;
  booted_at = now +ℤ p.faults.boot_latency;
  resources = request_from_flavor spec.flavor_ref;
}

add_server : Provider → String → ServerSpec → Time → Provider × Answer Handle
add_server p project spec now =
    let req = request_from_flavor spec.flavor_ref in
    if not (fits p.used req p.capacity)
    then (p, fails (Err.external "inmem: cluster capacity exhausted"))
    else (
      record p {
        seq = p.seq + 1;
        servers = put (Handle.srv (p.seq + 1)) (server_of p project spec now) p.servers;
        used = grow p.used req;
      },
      gives (Handle.srv (p.seq + 1)),
    )

reuse_server : Provider → String → ServerSpec → Time → Option Handle → Provider × Answer Handle
unfolding add_server
reuse_server p project spec now (some id) = (p, gives id)
reuse_server p project spec now none = add_server p project spec now

pub boot_server : Provider → String → ServerSpec → Time → Provider × Answer Handle
unfolding reuse_server
boot_server p project spec now =
    unless p.faults.boot_server_err p
      (reuse_server p project spec now (find_server project spec.name p.servers))

-- `interrupted` is the error of a context that ends before the wait does.
wait_until : Time → Time → Option Err → Answer (Unit {0})
wait_until booted now interrupted =
    if ltb_ℤ now booted then elim interrupted [ none ↦ gives tt | some e ↦ fails e ] else gives tt

wait_server : Option Server → Time → Option Err → Answer (Unit {0})
unfolding wait_until
wait_server none now interrupted = fails (Err.external "inmem: server not found")
wait_server (some s) now interrupted = wait_until s.booted_at now interrupted

pub wait_for_active : Provider → Handle → Time → Option Err → Provider × Answer (Unit {0})
unfolding wait_server
wait_for_active p id now interrupted =
    unless p.faults.wait_for_active_err p (p, wait_server (get id p.servers) now interrupted)

-- The address of a server. A server has at most one.
abbrev pub find_address : Handle → List (ℕ × Handle) → Option ℕ
find_address id [] = none
find_address id ((ip, sid) ∷ m) = if same_handle sid id then some ip else find_address id m

reuse_address : Provider → Handle → Option ℕ → Provider × Answer ℕ
reuse_address p id (some ip) = (p, gives ip)
reuse_address p id none =
    let ip = (p.seq + 1) % 253 + 1 in
    (record p { seq = p.seq + 1; floating = put ip id p.floating }, gives ip)

address_of : Provider → Handle → Option Server → Provider × Answer ℕ
unfolding reuse_address
address_of p id none = (p, fails (Err.external "inmem: server not found"))
address_of p id (some _) = reuse_address p id (find_address id p.floating)

pub allocate_floating_ip : Provider → Handle → Provider × Answer ℕ
unfolding address_of
allocate_floating_ip p id =
    unless p.faults.allocate_floating_ip_err p (address_of p id (get id p.servers))

abbrev pub without_server : Handle → List (ℕ × Handle) → List (ℕ × Handle)
without_server id [] = []
without_server id ((ip, sid) ∷ m) =
    let rest = without_server id m in if same_handle sid id then rest else (ip, sid) ∷ rest

remove_server : Provider → Handle → Option Server → Provider × Answer (Unit {0})
remove_server p id none = (p, gives tt)
remove_server p id (some s) = (
  record p {
    used = shrink p.used s.resources;
    servers = delete id p.servers;
    floating = without_server id p.floating;
  },
  gives tt,
)

pub delete_server : Provider → Handle → Provider × Answer (Unit {0})
unfolding remove_server
delete_server p id = unless p.faults.delete_server_err p (remove_server p id (get id p.servers))

abbrev pub find_network : String → String → List (Handle × Network) → Option Handle
find_network project name [] = none
find_network project name ((id, n) ∷ m) =
    if str_eq n.project_id project && str_eq n.name name
    then some id
    else find_network project name m

reuse_network : Provider → String → NetworkSpec → Option Handle → Provider × Answer Handle
reuse_network p project spec (some id) = (p, gives id)
reuse_network p project spec none =
    let n : Network = record { project_id = project; name = spec.name; cidr = spec.cidr } in
    (
      record p { seq = p.seq + 1; networks = put (Handle.net (p.seq + 1)) n p.networks },
      gives (Handle.net (p.seq + 1)),
    )

pub create_network : Provider → String → NetworkSpec → Provider × Answer Handle
unfolding reuse_network
create_network p project spec =
    unless p.faults.create_network_err p
      (reuse_network p project spec (find_network project spec.name p.networks))

pub delete_network : Provider → Handle → Provider × Answer (Unit {0})
delete_network p id =
    unless p.faults.delete_network_err p (record p { networks = delete id p.networks }, gives tt)
