-- ===== src/Quota.antt =====
-- internal/domain/quota/guard.go: whether a deploy would push the cluster above the threshold.
pub mod Guard
mod Tests
use cloud_lab_gateway.Common.{Bool, true, false, not, String, if◌then◌else◌}
use cloud_lab_gateway.Common.Int.{pos}
use cloud_lab_gateway.Shared.Quantities.{
  Float64, ResourceRequest, QuotaSnapshot, predict_after, max_utilization_pct,
}

module _ (float : Float64) where
  open float use {F, of_int, lt}

  pub record Decision : Type 0 where
    pub allowed : Bool
    pub reason : String
    pub snapshot : QuotaSnapshot
    pub predicted_pct : F
    pub threshold_pct : F

  abbrev pub default_threshold_pct : F
  default_threshold_pct = of_int (pos 90)

  -- `if t <= 0 { t = DefaultThresholdPct }`
  abbrev pub effective_threshold : F → F
  effective_threshold t = if not (lt (of_int (pos 0)) t) then default_threshold_pct else t

  unfoldable pub evaluate : QuotaSnapshot → ResourceRequest → F → Decision
  evaluate snap req threshold =
      let t = effective_threshold threshold in
      let pct = max_utilization_pct float (predict_after snap req) in
      if lt t pct
      then record {
        allowed = false;
        reason = "predicted utilization exceeds threshold";
        snapshot = snap;
        predicted_pct = pct;
        threshold_pct = t;
      }
      else record {
        allowed = true;
        reason = "";
        snapshot = snap;
        predicted_pct = pct;
        threshold_pct = t;
      }
