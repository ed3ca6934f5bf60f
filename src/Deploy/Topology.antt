-- ===== src/Deploy/Topology.antt =====
-- internal/app/deploy/topology.go and deps.go: what a lab template deploys, and the settings of the
-- saga.
use cloud_lab_gateway.Common.{ℕ, zero, suc, Bool, List, [], ◌∷◌, String, ◌⧺◌, if◌then◌else◌}
use cloud_lab_gateway.Common.Int.{ℤ, pos, ltb_ℤ}
use cloud_lab_gateway.Shared.{LabTemplateId}
use cloud_lab_gateway.Lab.{LabInstance}
use cloud_lab_gateway.Ports.{Env}

pub record VmSpec : Type 0 where
  pub name : String
  pub image : String
  pub flavor : String
  pub ip : String
  pub role : String

pub record Topology : Type 0 where
  pub network_cidr : String
  pub vms : List VmSpec

-- The one stand, whatever the template.
pub topology_for : LabTemplateId → Topology
topology_for _ = record {
  network_cidr = "10.0.0.0/24";
  vms =
      record {
        name = "L-MS";
        image = "LAB2_TMP_L-MS";
        flavor = "small";
        ip = "10.0.0.10";
        role = "Кибер Бэкап — сервер управления";
      }
      ∷ record {
        name = "L-NFS";
        image = "LAB2_TMP_L-NFS";
        flavor = "start";
        ip = "10.0.0.70";
        role = "файловый сервер, хранилище ВМ";
      }
      ∷ record {
        name = "L-PGSQL";
        image = "LAB2_TMP_L-PGSQL";
        flavor = "start";
        ip = "10.0.0.55";
        role = "сервер БД PostgreSQL";
      }
      ∷ record {
        name = "W-DC";
        image = "LAB2_TMP_W-DC";
        flavor = "medium";
        ip = "10.0.0.5";
        role = "контроллер домена, DNS, SMB";
      }
      ∷ record {
        name = "V-HYPERV";
        image = "LAB2_TMP_V-HYPERV";
        flavor = "large";
        ip = "10.0.0.65";
        role = "гипервизор Microsoft Hyper-V";
      }
      ∷ [];
}

pub keypair_name : Env → LabInstance → String
keypair_name env l = "lab-" ⧺ env.uuid_text l.id ⧺ "-key"

pub network_name : Env → LabInstance → String
network_name env l = "lab-" ⧺ env.uuid_text l.id ⧺ "-net"

pub server_name : Env → LabInstance → String → String
server_name env l vm = "lab-" ⧺ env.uuid_text l.id ⧺ "-" ⧺ vm

-- `has_checks` tells whether a check runner is wired.
pub record Config : Type 0 where
  pub has_checks : Bool
  pub cleanup_after : ℤ
  pub max_attempts : ℤ

abbrev attempts_of : ℤ → ℕ
attempts_of (ℤ.pos zero) = 3
attempts_of (ℤ.pos (suc n)) = suc n
attempts_of (ℤ.negsuc _) = 3

unfoldable pub max_attempts : Config → ℕ
max_attempts c = attempts_of c.max_attempts

-- two hours by default
unfoldable pub cleanup_after : Config → ℤ
cleanup_after c = if ltb_ℤ (pos 0) c.cleanup_after then c.cleanup_after else pos 7200000000000
