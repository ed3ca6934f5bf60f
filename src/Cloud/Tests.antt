-- ===== src/Cloud/Tests.antt =====
-- internal/adapters/cloud/inmem/provider.go: servers, addresses and a full cluster as tests.
use cloud_lab_gateway.Common.{◌≡◌, refl, none, some, [], ◌∷◌, List, arith}
use cloud_lab_gateway.Common.Int.{pos}
use cloud_lab_gateway.Ports.{gives, ServerSpec}
use cloud_lab_gateway.Cloud.{
  default_capacity, Faults, Handle, Server, Provider, new_provider, request, allocate_floating_ip,
  find_address, handle_keys,
}
use cloud_lab_gateway.Cloud.Accounting.{CloudOp, run, IsRoomy, IsAccounted, run-IsAccounted}
use cloud_lab_gateway.Cloud.Addresses.{allocate_steals}

abbrev no_faults : Faults
no_faults = record {
  get_quota_snapshot_err = none;
  create_keypair_err = none;
  delete_keypair_err = none;
  boot_server_err = none;
  wait_for_active_err = none;
  allocate_floating_ip_err = none;
  delete_server_err = none;
  create_network_err = none;
  delete_network_err = none;
  boot_latency = pos 0;
}

abbrev spec : ServerSpec
spec = record {
  name = "L-NFS";
  image_ref = "ubuntu";
  flavor_ref = "m1.small";
  network_id = "net-000001";
  keypair_name = "k1";
  metadata = [];
  user_data = "";
}

abbrev fresh : Provider
fresh = record {
  capacity = default_capacity;
  used = record { vcpus = pos 0; ram_mb = pos 0; disk_gb = pos 0 };
  servers = [];
  keypairs = [];
  networks = [];
  floating = [];
  faults = no_faults;
  seq = 0;
}

default_capacity-IsRoomy : IsRoomy default_capacity
default_capacity-IsRoomy = ground arith

abbrev calls : List CloudOp
calls =
    CloudOp.boot "p1" spec (pos 0)
    ∷ CloudOp.allocate (Handle.srv 1)
    ∷ CloudOp.drop_server (Handle.srv 1)
    ∷ []

run-IsAccounted_example : IsAccounted (run (new_provider default_capacity no_faults) calls)
run-IsAccounted_example = run-IsAccounted default_capacity no_faults calls default_capacity-IsRoomy

abbrev held_server : Server
held_server = record {
  project_id = "p1";
  name = "L-NFS";
  image_ref = "ubuntu";
  flavor_ref = "m1.small";
  network_id = "net-000001";
  keypair_name = "k1";
  metadata = [];
  booted_at = pos 0;
  resources = request 1 2048 20;
}

-- One server with the address that the counter comes to again.
abbrev busy : Provider
busy = record fresh {
  used = record { vcpus = pos 2; ram_mb = pos 4096; disk_gb = pos 40 };
  servers =
      (Handle.srv 255, record held_server { name = "L-Prod" }) ∷ (Handle.srv 1, held_server) ∷ [];
  floating = (3, Handle.srv 1) ∷ [];
  seq = 254;
}

fresh-IsAccounted : IsAccounted fresh
unfolding run new_provider
fresh-IsAccounted = run-IsAccounted default_capacity no_faults [] default_capacity-IsRoomy

allocate_steals_example :
    let (q, r) = allocate_floating_ip busy (Handle.srv 255) in
    (r ≡ gives 3)
    × (find_address (Handle.srv 255) q.floating ≡ some 3)
    × (find_address (Handle.srv 1) q.floating ≡ none)
allocate_steals_example =
    allocate_steals busy (Handle.srv 1) (Handle.srv 255) refl refl refl refl refl
