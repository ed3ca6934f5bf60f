-- ===== src/Quota/Guard.antt =====
-- internal/domain/quota/guard.go: what a decision of the guard means, over any float64 whose `<`
-- is a strict order and whose conversion, product and quotient are monotone, as IEEE 754 rounding
-- is.
use cloud_lab_gateway.Common.{String, ◌+◌, ◌≡◌, ◌↔◌, true, false, arith, ℕ, ◌<◌, ◌^◌, ◌⊎◌}
use cloud_lab_gateway.Common.Int.{
  ℤ, pos, pos_part, ◌+ℤ◌, ◌≤ℤ◌, wrap64, wrap64-of_range, +ℤ_nonneg, int_laws,
}
use cloud_lab_gateway.Shared.Quantities.{
  Float64, ResourceRequest, QuotaSnapshot, predict_after, utilization_pct, max_utilization_pct,
  larger,
}
use cloud_lab_gateway.Quota.{effective_threshold, evaluate}

pub record IsOrdered (float : Float64) : Type 0 where
  pub lt_trans : (a b c : float.F) → float.lt a b ≡ true → float.lt b c ≡ true → float.lt a c ≡ true
  pub lt_split :
      (a b c : float.F) → float.lt a c ≡ true → (float.lt a b ≡ true) ⊎ (float.lt b c ≡ true)

-- No result is below that of a smaller operand.
pub record IsMonotone (float : Float64) : Type 0 where
  pub of_int_mono : (a b : ℤ) → a ≤ℤ b → float.lt (float.of_int b) (float.of_int a) ≡ false
  pub mul_mono :
      (a b : float.F)
      → float.lt b a ≡ false
      → float.lt (float.mul b (float.of_int (pos 100))) (float.mul a (float.of_int (pos 100)))
        ≡ false
  pub div_mono :
      (a b : float.F) (n : ℕ)
      → float.lt b a ≡ false
      → float.lt (float.div b (float.of_int (pos n))) (float.div a (float.of_int (pos n))) ≡ false

-- The utilization of each resource after the request.
abbrev pub IsBelow : (float : Float64) → QuotaSnapshot → Float64.F float → Type 0
IsBelow float q t =
    (Float64.lt float t (utilization_pct float q.vcpus) ≡ false)
    × (Float64.lt float t (utilization_pct float q.ram) ≡ false)
    × (Float64.lt float t (utilization_pct float q.disk) ≡ false)

module _ (float : Float64) (laws : IsOrdered float) where
  open float use {F, lt}

  larger_iff :
      (t v m : F) → (lt t (larger float v m) ≡ false) ↔ ((lt t v ≡ false) × (lt t m ≡ false))
  larger_iff t v m =
      (λ h. ground (arith, laws.lt_trans t m v, laws.lt_split t m v), λ h. ground arith)

  max-IsBelow :
      (q : QuotaSnapshot) (t : F) → (lt t (max_utilization_pct float q) ≡ false) ↔ IsBelow float q t
  unfolding max_utilization_pct
  max-IsBelow q t =
      let c = utilization_pct float q.vcpus in
      let r = utilization_pct float q.ram in
      let d = utilization_pct float q.disk in
      let inner = larger_iff t r c in
      let outer = larger_iff t d (larger float r c) in
      (
        λ h. let (disk, rest) = outer.0 h in let (ram, cpu) = inner.0 rest in (cpu, ram, disk),
        λ h. outer.1 (h.2, inner.1 (h.1, h.0)),
      )

  allowed_iff :
      (snap : QuotaSnapshot) (req : ResourceRequest) (threshold : F)
      → ((evaluate float snap req threshold).allowed ≡ true) ↔ (
          lt
            (effective_threshold float threshold)
            (max_utilization_pct float (predict_after snap req))
          ≡ false)
  unfolding evaluate
  allowed_iff snap req threshold = (λ h. ground arith, λ h. ground arith)

  -- The guard allows a request exactly when none of the three resources would be used above the
  -- threshold, which is 90 percent where the one given is not positive.
  pub evaluate-allowed_iff :
      (snap : QuotaSnapshot) (req : ResourceRequest) (threshold : F)
      → ((evaluate float snap req threshold).allowed ≡ true)
        ↔ IsBelow float (predict_after snap req) (effective_threshold float threshold)
  evaluate-allowed_iff snap req threshold =
      let t = effective_threshold float threshold in
      let a = allowed_iff snap req threshold in
      let b = max-IsBelow (predict_after snap req) t in (λ h. b.0 (a.0 h), λ h. a.1 (b.1 h))

-- A snapshot and two requests, the first no larger than the second, whose counts are not negative
-- and whose sums fit an int64.
pub record IsCounted (snap : QuotaSnapshot) (small big : ResourceRequest) : Type 0 where
  pub totals : (pos 0 ≤ℤ snap.vcpus.total) × (pos 0 ≤ℤ snap.ram.total) × (pos 0 ≤ℤ snap.disk.total)
  pub used : (pos 0 ≤ℤ snap.vcpus.used) × (pos 0 ≤ℤ snap.ram.used) × (pos 0 ≤ℤ snap.disk.used)
  pub asked : (pos 0 ≤ℤ small.vcpus) × (pos 0 ≤ℤ small.ram_mb) × (pos 0 ≤ℤ small.disk_gb)
  pub ordered :
      (small.vcpus ≤ℤ big.vcpus) × (small.ram_mb ≤ℤ big.ram_mb) × (small.disk_gb ≤ℤ big.disk_gb)
  pub fits :
      (pos_part snap.vcpus.used + pos_part big.vcpus < 2 ^ 63)
      × (pos_part snap.ram.used + pos_part big.ram_mb < 2 ^ 63)
      × (pos_part snap.disk.used + pos_part big.disk_gb < 2 ^ 63)

wrapped_mono :
    (u a b : ℤ)
    → pos 0 ≤ℤ u
    → pos 0 ≤ℤ a
    → a ≤ℤ b
    → pos_part u + pos_part b < 2 ^ 63
    → wrap64 (u +ℤ a) ≤ℤ wrap64 (u +ℤ b)
wrapped_mono u a b hu ha hab h =
    let na = +ℤ_nonneg u a hu ha in
    let nb = +ℤ_nonneg u b hu (omega arith) in
    rw
      (
        wrap64-of_range (u +ℤ a) (omega (int_laws, na)) (omega (int_laws, na)),
        wrap64-of_range (u +ℤ b) (omega (int_laws, nb)) (omega (int_laws, nb)),
      )
      (omega (int_laws, na, nb))

module _ (float : Float64) (laws : IsOrdered float) (mono : IsMonotone float) where
  open float use {F, lt}

  utilization_mono :
      (used used' total : ℤ) (unit : String) (t : F)
      → used ≤ℤ used'
      → pos 0 ≤ℤ total
      → lt t (utilization_pct float (record { used = used'; total = total; unit = unit })) ≡ false
      → lt t (utilization_pct float (record { used = used; total = total; unit = unit })) ≡ false
  unfolding utilization_pct
  utilization_mono used used' (pos n) unit t h p below = ground (
    arith,
    mono.div_mono (float.mul (float.of_int used) (float.of_int (pos 100)))
        (float.mul (float.of_int used') (float.of_int (pos 100))) n
        (mono.mul_mono (float.of_int used) (float.of_int used') (mono.of_int_mono used used' h)),
    laws.lt_split t (utilization_pct float (record { used = used'; total = pos n; unit = unit }))
        (utilization_pct float (record { used = used; total = pos n; unit = unit })),
  )
  utilization_mono used used' (ℤ.negsuc n) unit t h p below = absurd (omega arith)

  -- Where the guard allows a request, it allows every request that asks for no more of any
  -- resource, as long as the counts are not negative and the sums fit an int64.
  pub evaluate_monotone :
      (snap : QuotaSnapshot) (small big : ResourceRequest) (threshold : F)
      → IsCounted snap small big
      → (evaluate float snap big threshold).allowed ≡ true
      → (evaluate float snap small threshold).allowed ≡ true
  unfolding predict_after
  evaluate_monotone snap small big threshold c h =
      let t = effective_threshold float threshold in
      let (cpu, ram, disk) = (evaluate-allowed_iff float laws snap big threshold).0 h in
      (evaluate-allowed_iff float laws snap small threshold).1 (
        utilization_mono _ _ snap.vcpus.total snap.vcpus.unit t
            (wrapped_mono snap.vcpus.used small.vcpus big.vcpus c.used.0 c.asked.0 c.ordered.0
              c.fits.0)
            c.totals.0 cpu,
        utilization_mono _ _ snap.ram.total snap.ram.unit t
            (wrapped_mono snap.ram.used small.ram_mb big.ram_mb c.used.1 c.asked.1 c.ordered.1
              c.fits.1)
            c.totals.1 ram,
        utilization_mono _ _ snap.disk.total snap.disk.unit t
            (wrapped_mono snap.disk.used small.disk_gb big.disk_gb c.used.2 c.asked.2 c.ordered.2
              c.fits.2)
            c.totals.2 disk,
      )
