-- ===== src/Cleanup/Run.antt =====
-- internal/app/cleanup/saga.go, Run: how the saga ends, whatever the calls behind the ports answer.
use cloud_lab_gateway.Common.{◌<◌, ◌≡◌, ◌≢◌, refl, none, some, List, [], ◌∷◌, arith, inl, inr}
use cloud_lab_gateway.Shared.{LabInstanceId, Outcome-cases, ok}
use cloud_lab_gateway.Lab.{LabState, LabInstance, can_transition}
use cloud_lab_gateway.Ports.{Env, Call, Trace, gives}
use cloud_lab_gateway.Ports.Traces.{called, stored_labs, stored_projects}
use cloud_lab_gateway.Cleanup.{enter_cleaning, clean, run}
use cloud_lab_gateway.Cleanup.Teardown.{IsTornDown}
use cloud_lab_gateway.Cleanup.Stages.{
  SameLab, IsCleanable, walk, frees, Last, enter_cleaning_lem, enter_cleaning_walks,
}
use cloud_lab_gateway.Cleanup.Projects.{Finished}
use cloud_lab_gateway.Cleanup.Ending.{clean-Finished, clean-walks, clean-frees_of}

-- The history once the clock and the lab have been read.
abbrev pub opened : LabInstanceId → Trace → Trace
opened id tr = called (Call.lab_get id) (called Call.clock_now tr)

Finished_of_SameLab :
    (lab l : LabInstance) (ls : List LabInstance)
    → SameLab lab l
    → Last (λ m. SameLab l m × (m.state ≡ LabState.done)) ls
    → Last (λ m. SameLab lab m × (m.state ≡ LabState.done)) ls
Finished_of_SameLab lab l [] same h = h
Finished_of_SameLab lab l (m ∷ ms) same h = ground arith

module _ (env : Env) (id : LabInstanceId) (tr : Trace) {lab : LabInstance}
    (loaded : env.lab_get id (called Call.clock_now tr) ≡ gives lab) where
  -- The saga on a lab that is pending, deploying, checking, done or rejected returns no error and
  -- makes no call but the two that read the clock and the lab.
  pub run_skips : ¬ (IsCleanable lab.state) → run env id tr ≡ (ok tt, opened id tr)
  unfolding run enter_cleaning clean can_transition
  run_skips n = ground (arith, loaded)

  -- Where the saga returns no error on a lab that is ready, frozen, failed or in cleaning, the lab
  -- stored last is that lab, with its project and resources, in the state `done`.
  pub run-Finished :
      IsCleanable lab.state → (run env id tr).0 ≡ ok tt → Finished lab (run env id tr).1
  unfolding run
  run-Finished able h =
      let (r, mid) = enter_cleaning env lab (env.now tr) (opened id tr) in
      let entered = enter_cleaning_lem env lab (env.now tr) (opened id tr) in
      elim (Outcome-cases r) [
        | inl (none, e) ↦ absurd (ground (arith, e, entered))
        | inl (some l, e) ↦ ground (
          arith,
          loaded,
          e,
          entered,
          λ (c : l.state ≡ LabState.cleaning). clean-Finished env l (env.now tr) c mid,
          Finished_of_SameLab lab l (stored_labs (clean env (some l) (env.now tr) mid).1),
        )
        | inr (inl (x, e)) ↦ absurd (ground (arith, loaded, e))
        | inr (inr e) ↦ absurd (ground (arith, loaded, e))
      ]

  -- The saga stores labs by edges of the table of transitions only: where the labs stored before it
  -- lead from a state, edge by edge, to the one that the lab is read in, those stored after it still
  -- lead from that state to some state, edge by edge.
  pub run-walks :
      (s : LabState)
      → walk s (stored_labs tr) ≡ some lab.state
      → walk s (stored_labs (run env id tr).1) ≢ none
  unfolding run
  run-walks s h =
      let (r, mid) = enter_cleaning env lab (env.now tr) (opened id tr) in
      let entered = enter_cleaning_lem env lab (env.now tr) (opened id tr) in
      let walked = enter_cleaning_walks s env lab (env.now tr) (opened id tr) h in
      elim (Outcome-cases r) [
        | inl (none, e) ↦ unfold clean in ground (arith, loaded, e, walked)
        | inl (some l, e) ↦ ground (
          arith,
          loaded,
          e,
          walked,
          entered,
          λ (c : l.state ≡ LabState.cleaning). clean-walks env l (env.now tr) c s mid,
        )
        | inr (inl (x, e)) ↦ ground (arith, loaded, e, walked)
        | inr (inr e) ↦ ground (arith, loaded, e, walked)
      ]

  -- Where the saga stores a free project more than there were, in that run it has deleted all
  -- servers of the lab, its keypair and its network, as far as it names any.
  pub run-frees-IsTornDown :
      frees (stored_projects tr) < frees (stored_projects (run env id tr).1)
      → IsTornDown lab tr (run env id tr).1
  unfolding run
  run-frees-IsTornDown more =
      let (r, mid) = enter_cleaning env lab (env.now tr) (opened id tr) in
      let entered = enter_cleaning_lem env lab (env.now tr) (opened id tr) in
      elim (Outcome-cases r) [
        | inl (none, e) ↦ unfold clean in absurd (ground (arith, loaded, e, entered))
        | inl (some l, e) ↦ ground (
          arith,
          loaded,
          e,
          entered,
          λ (c : l.state ≡ LabState.cleaning).
              clean-frees_of env l (env.now tr) c l.project_id mid refl,
        )
        | inr (inl (x, e)) ↦ absurd (ground (arith, loaded, e, entered))
        | inr (inr e) ↦ absurd (ground (arith, loaded, e, entered))
      ]
