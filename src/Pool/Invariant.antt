-- ===== src/Pool/Invariant.antt =====
-- internal/domain/pool/project.go: what holds of a project between two calls.
use cloud_lab_gateway.Common.{
  ℕ, zero, suc, ◌+◌, ◌≤◌, ◌<◌, ◌≡◌, ◌≢◌, refl, none, List, [], ◌∷◌, String, arith, ltb,
  if◌then◌else◌,
}
use Prim.Native.Nat.{min}
use native.Mathlib.Nat.{add-zero}
use cloud_lab_gateway.Shared.{Time, err, panic, Err}
use cloud_lab_gateway.Pool.{Project, ProjectState, max_cleanup_failures, record_cleanup_failure}
use cloud_lab_gateway.Pool.Ops.{ProjectOp, apply, run}

pub record IsSound (p : Project) : Type 0 where
  pub rented : p.state ≡ ProjectState.allocated → p.allocated_to_lab_id ≢ none
  pub vacant : p.state ≡ ProjectState.free → p.allocated_to_lab_id ≡ none
  pub counted : p.cleanup_failures ≤ max_cleanup_failures
  pub retried : p.state ≡ ProjectState.cleaning → p.cleanup_failures < max_cleanup_failures
  pub fresh : p.state ≡ ProjectState.free → p.cleanup_failures ≡ 0
  pub kept : p.state ≡ ProjectState.allocated → p.cleanup_failures ≡ 0

-- Every call keeps a sound project sound, and does not panic on one.
pub apply-IsSound :
    (p : Project) (op : ProjectOp) → IsSound p → IsSound (apply p op).0 × ((apply p op).1 ≢ panic)
unfolding apply
apply-IsSound p (ProjectOp.allocate lab now) h = (ground arith, ground arith)
apply-IsSound p op h = (ground arith, ground arith)

-- A call that returns an error leaves the project as it was.
pub refused_unchanged :
    (p : Project) (op : ProjectOp) {e : Err} → (apply p op).1 ≡ err e → (apply p op).0 ≡ p
unfolding apply
refused_unchanged p (ProjectOp.allocate lab now) h = ground arith
refused_unchanged p op h = ground arith

pub run-IsSound : (p : Project) (ops : List ProjectOp) → IsSound p → IsSound (run p ops)
unfolding run
run-IsSound p [] h = h
run-IsSound p (op ∷ ops) h = run-IsSound (apply p op).0 ops (apply-IsSound p op h).0

-- `n` failed cleanups in a row
abbrev pub fail_times : ℕ → Project → String → Time → Project
fail_times zero p reason now = p
fail_times (suc n) p reason now = fail_times n (record_cleanup_failure p reason now).0 reason now

quarantined_stays :
    (n : ℕ) (p : Project) (reason : String) (now : Time)
    → p.state ≡ ProjectState.quarantine
    → fail_times n p reason now ≡ p
unfolding record_cleanup_failure
quarantined_stays zero p reason now s = refl
quarantined_stays (suc n) p reason now s =
    let q = (record_cleanup_failure p reason now).0 in
    let same : q ≡ p = ground arith in rw same (quarantined_stays n p reason now s)

abbrev FailsTo : Project → ℕ → Type 0
FailsTo p n =
    (p.state
      ≡ (if ltb n max_cleanup_failures then ProjectState.cleaning else ProjectState.quarantine))
    × (p.cleanup_failures ≡ min n max_cleanup_failures)

fail_times-from :
    (n k : ℕ) (p : Project) (reason : String) (now : Time)
    → p.state ≡ ProjectState.cleaning
    → p.cleanup_failures ≡ k
    → k < max_cleanup_failures
    → FailsTo (fail_times n p reason now) (n + k)
unfolding record_cleanup_failure
fail_times-from zero k p reason now s c h = ground arith
fail_times-from (suc n) k p reason now s c h = ground (
  arith,
  fail_times-from n (k + 1) (record_cleanup_failure p reason now).0 reason now,
  quarantined_stays n (record_cleanup_failure p reason now).0 reason now,
)

-- A project in cleaning with no failures is, after `n` failed cleanups in a row, in cleaning if
-- `n` is below three and quarantined otherwise; its counter is `n`, and three from then on.
pub fail_times_quarantines :
    (n : ℕ) (p : Project) (reason : String) (now : Time)
    → p.state ≡ ProjectState.cleaning
    → p.cleanup_failures ≡ 0
    → ((fail_times n p reason now).state
        ≡ (if ltb n max_cleanup_failures then ProjectState.cleaning else ProjectState.quarantine))
      × ((fail_times n p reason now).cleanup_failures ≡ min n max_cleanup_failures)
fail_times_quarantines n p reason now s c =
    rw (add-zero n) at (fail_times-from n 0 p reason now s c (omega arith))
