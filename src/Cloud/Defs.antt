-- ===== src/Cloud/Defs.antt =====
-- internal/adapters/cloud/inmem/provider.go: the state of the cloud in memory. An identifier is the
-- number in it: `srv n` is the text srv-%06d, `net n` is net-%06d, and `other` is any text that the
-- provider has not made. An address is its last byte.
use cloud_lab_gateway.Common.{
  ℕ, ◌≡◌, ◌↔◌, Bool, true, false, Option, none, some, List, String, ◌==◌, str_eq, eq_iff, arith,
}
use cloud_lab_gateway.Common.Int.{ℤ, pos}
use cloud_lab_gateway.Common.Maps.{Eq, text_keys, nat_keys}
use cloud_lab_gateway.Shared.{Time, Err}
use cloud_lab_gateway.Shared.Quantities.{ResourceRequest}
use cloud_lab_gateway.Ports.{Answer, fails, Keypair}

pub record Capacity : Type 0 where
  pub vcpus : ℤ
  pub ram_mb : ℤ
  pub disk_gb : ℤ

abbrev pub default_capacity : Capacity
default_capacity = record { vcpus = pos 100; ram_mb = pos 262144; disk_gb = pos 4096 }

pub record Faults : Type 0 where
  pub get_quota_snapshot_err : Option Err
  pub create_keypair_err : Option Err
  pub delete_keypair_err : Option Err
  pub boot_server_err : Option Err
  pub wait_for_active_err : Option Err
  pub allocate_floating_ip_err : Option Err
  pub delete_server_err : Option Err
  pub create_network_err : Option Err
  pub delete_network_err : Option Err
  pub boot_latency : ℤ

pub data Handle : Type 0 where
  srv net : ℕ → Handle
  other : String → Handle

abbrev pub same_handle : Handle → Handle → Bool
same_handle (Handle.srv a) (Handle.srv b) = a == b
same_handle (Handle.net a) (Handle.net b) = a == b
same_handle (Handle.other s) (Handle.other t) = str_eq s t
same_handle _ _ = false

pub same_handle_iff : (a b : Handle) → (same_handle a b ≡ true) ↔ (a ≡ b)
same_handle_iff (Handle.srv a) (Handle.srv b) = ground arith
same_handle_iff (Handle.other s) (Handle.other t) = ground (arith, eq_iff s t)
same_handle_iff (Handle.net a) (Handle.net b) = ground arith
same_handle_iff a b = ground arith

instance abbrev pub handle_keys : Eq Handle
handle_keys = record { beq = same_handle; beq_iff = same_handle_iff }

pub record Server : Type 0 where
  pub project_id : String
  pub name : String
  pub image_ref : String
  pub flavor_ref : String
  pub network_id : String
  pub keypair_name : String
  pub metadata : List (String × String)
  pub booted_at : Time
  pub resources : ResourceRequest

pub record Network : Type 0 where
  pub project_id : String
  pub name : String
  pub cidr : String

pub record Provider : Type 0 where
  pub capacity : Capacity
  pub used : Capacity
  pub servers : List (Handle × Server)
  -- by the project's identifier, a slash and the name
  pub keypairs : List (String × Keypair)
  pub networks : List (Handle × Network)
  pub floating : List (ℕ × Handle)
  pub faults : Faults
  pub seq : ℕ

-- A fault that is set is returned before any work.
abbrev pub unless {ℓ} :
    {A : Type ℓ} → Option Err → Provider → Provider × Answer A → Provider × Answer A
unless none p work = work
unless (some e) p work = (p, fails e)
