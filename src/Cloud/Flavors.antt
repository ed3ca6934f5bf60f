-- ===== src/Cloud/Flavors.antt =====
-- internal/adapters/cloud/inmem/provider.go, requestFromFlavor: what a flavor asks for.
use cloud_lab_gateway.Common.{ℕ, if◌then◌else◌, str_eq, ◌^◌, ◌<◌, Bool, true, false, String, arith}
use cloud_lab_gateway.Common.Int.{pos, ◌≤ℤ◌, pos_part}
use cloud_lab_gateway.Shared.Quantities.{ResourceRequest}
use cloud_lab_gateway.Cloud.{request, request_from_flavor}

-- An amount that is not negative and leaves room in an int64.
pub record IsModest (r : ResourceRequest) : Type 0 where
  pub vcpus : (pos 0 ≤ℤ r.vcpus) × (pos_part r.vcpus < 2 ^ 62)
  pub ram : (pos 0 ≤ℤ r.ram_mb) × (pos_part r.ram_mb < 2 ^ 62)
  pub disk : (pos 0 ≤ℤ r.disk_gb) × (pos_part r.disk_gb < 2 ^ 62)

request-IsModest : (c r d : ℕ) → c < 2 ^ 62 → r < 2 ^ 62 → d < 2 ^ 62 → IsModest (request c r d)
request-IsModest c r d hc hr hd = record {
  vcpus = (ground arith, hc);
  ram = (ground arith, hr);
  disk = (ground arith, hd);
}

IsModest-if :
    (b : Bool) (x y : ResourceRequest) → IsModest x → IsModest y → IsModest (if b then x else y)
IsModest-if true x y h k = h
IsModest-if false x y h k = k

pub request_from_flavor-IsModest : (flavor : String) → IsModest (request_from_flavor flavor)
unfolding request_from_flavor
request_from_flavor-IsModest f =
    let small = request-IsModest 1 2048 20 (omega arith) (omega arith) (omega arith) in
    let medium = request-IsModest 2 4096 40 (omega arith) (omega arith) (omega arith) in
    let large = request-IsModest 4 8192 80 (omega arith) (omega arith) (omega arith) in
    IsModest-if (str_eq f "m1.tiny") _ _
      (request-IsModest 1 512 1 (omega arith) (omega arith) (omega arith))
      (IsModest-if (str_eq f "start") _ _
        (request-IsModest 1 1024 10 (omega arith) (omega arith) (omega arith))
        (IsModest-if (str_eq f "m1.small") _ _ small (
          IsModest-if (str_eq f "small") _ _ small (
            IsModest-if (str_eq f "m1.medium") _ _ medium (
              IsModest-if (str_eq f "medium") _ _ medium (
                IsModest-if (str_eq f "m1.large") _ _ large
                  (IsModest-if (str_eq f "large") _ _ large small)))))))
