-- ===== src/Quota/Tests.antt =====
-- internal/domain/quota/guard.go: the guard over the integers, cut off at zero, in the place of float64.
use native.Mathlib.Nat.{div-zero, le-div_iff_mul-le, div-mul-le_self}
use cloud_lab_gateway.Common.{zero, ◌≡◌, ◌↔◌, refl, ℕ, suc, ◌/◌, ◌≤◌, true, arith}
use cloud_lab_gateway.Common.Int.{pos, wrap64, ◌+ℤ◌}
use cloud_lab_gateway.Shared.Quantities.{
  ResourceRequest, predict_after, utilization_pct, max_utilization_pct,
}
use cloud_lab_gateway.Shared.Samples.{whole}
use cloud_lab_gateway.Ports.Samples.{quiet_snapshot}
use cloud_lab_gateway.Quota.{evaluate, effective_threshold}
use cloud_lab_gateway.Quota.Guard.{
  IsOrdered, IsMonotone, IsBelow, IsCounted, evaluate-allowed_iff, evaluate_monotone,
}

whole-IsOrdered : IsOrdered whole
whole-IsOrdered = record {
  lt_trans = λ a b c h k. ground arith;
  lt_split = λ a b c h. ground arith;
}

div_mono : (a b n : ℕ) → a ≤ b → a / n ≤ b / n
div_mono a b zero h = rw (div-zero a, div-zero b) (omega arith)
div_mono a b (suc k) h = omega (
  arith,
  (le-div_iff_mul-le {k = suc k} {x = a / suc k} {y = b} (omega arith)).1
      (omega (arith, div-mul-le_self a (suc k))),
)

whole-IsMonotone : IsMonotone whole
whole-IsMonotone = record {
  of_int_mono = λ a b h. ground arith;
  mul_mono = λ a b h. ground arith;
  div_mono = λ a b n h. ground (arith, div_mono a b n);
}

abbrev small : ResourceRequest
small = record { vcpus = pos 2; ram_mb = pos 3; disk_gb = pos 0 }

abbrev big : ResourceRequest
big = record { vcpus = pos 2; ram_mb = pos 5; disk_gb = pos 1 }

counts : IsCounted quiet_snapshot small big
counts = ground arith

evaluate-allowed_iff_example :
    ((evaluate whole quiet_snapshot big 0).allowed ≡ true)
    ↔ IsBelow whole (predict_after quiet_snapshot big) (effective_threshold whole 0)
evaluate-allowed_iff_example = evaluate-allowed_iff whole whole-IsOrdered quiet_snapshot big 0

evaluate_monotone_example : (evaluate whole quiet_snapshot small 90).allowed ≡ true
unfolding evaluate predict_after max_utilization_pct utilization_pct wrap64 ◌+ℤ◌
evaluate_monotone_example =
    evaluate_monotone whole whole-IsOrdered whole-IsMonotone quiet_snapshot small big 90 counts refl
