-- ===== src/Shared/Quantities.antt =====
-- internal/domain/shared/vo.go: resource requests and the utilization of the cluster. Percentages
-- are float64: their type and operations are a parameter, `Float64`.
use cloud_lab_gateway.Common.{Bool, false, ◌==◌, String, if◌then◌else◌}
use cloud_lab_gateway.Common.Int.{ℤ, pos, ◌+ℤ◌, wrap64}
use cloud_lab_gateway.Shared.{Time}

-- Go's float64 without its not-a-number values: conversion of an int64, arithmetic, and `<`.
pub record Float64 : Type 1 where
  pub F : Type 0
  pub of_int : ℤ → F
  pub mul : F → F → F
  pub div : F → F → F
  pub lt : F → F → Bool

-- Go's int and int64 both have 64 bits.
pub record ResourceRequest : Type 0 where
  pub vcpus : ℤ
  pub ram_mb : ℤ
  pub disk_gb : ℤ

unfoldable pub add : ResourceRequest → ResourceRequest → ResourceRequest
add r o = record {
  vcpus = wrap64 (r.vcpus +ℤ o.vcpus);
  ram_mb = wrap64 (r.ram_mb +ℤ o.ram_mb);
  disk_gb = wrap64 (r.disk_gb +ℤ o.disk_gb);
}

pub record Capacity : Type 0 where
  pub used : ℤ
  pub total : ℤ
  pub unit : String

pub record QuotaSnapshot : Type 0 where
  pub vcpus : Capacity
  pub ram : Capacity
  pub disk : Capacity
  pub fetched_at : Time

abbrev pub is_zero : ℤ → Bool
is_zero (ℤ.pos n) = n == 0
is_zero (ℤ.negsuc n) = false

unfoldable pub predict_after : QuotaSnapshot → ResourceRequest → QuotaSnapshot
predict_after q req = record q {
  vcpus = record q.vcpus { used = wrap64 (q.vcpus.used +ℤ req.vcpus) };
  ram = record q.ram { used = wrap64 (q.ram.used +ℤ req.ram_mb) };
  disk = record q.disk { used = wrap64 (q.disk.used +ℤ req.disk_gb) };
}

module _ (float : Float64) where
  open float use {F, of_int, mul, div, lt}

  unfoldable pub utilization_pct : Capacity → F
  utilization_pct c =
      if is_zero c.total
      then of_int (pos 0)
      else div (mul (of_int c.used) (of_int (pos 100))) (of_int c.total)

  abbrev pub larger : F → F → F
  larger v m = if lt m v then v else m

  unfoldable pub max_utilization_pct : QuotaSnapshot → F
  max_utilization_pct q =
      let m = utilization_pct q.vcpus in
      let m' = larger (utilization_pct q.ram) m in larger (utilization_pct q.disk) m'
