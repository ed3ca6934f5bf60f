-- ===== src/Creation/Outcomes.antt =====
-- internal/app/lab/create.go, CreateLab: what is stored, whatever the ports answer.
use cloud_lab_gateway.Common.{
  ◌≡◌, ◌≢◌, ◌⊎◌, inl, inr, true, false, Option, none, some, List, [], ◌∷◌, String, arith,
}
use cloud_lab_gateway.Common.Int.{ℤ}
use cloud_lab_gateway.Shared.{Time, Err, Sentinel, Outcome, Outcome-cases, ok, err, panic}
use cloud_lab_gateway.Shared.Quantities.{Float64}
use cloud_lab_gateway.Lab.{LabState, LabInstance, can_transition, transition}
use cloud_lab_gateway.Pool.{Project}
use cloud_lab_gateway.Ports.{
  Env, Call, Trace, Course, Answer-cases, Handled, value, failed, with_tx,
}
use cloud_lab_gateway.Ports.Traces.{
  called, labs_under, projects_under, stored_labs, stored_projects,
}
use cloud_lab_gateway.Saving.{Holds}
use cloud_lab_gateway.Creation.{
  CreateInput, settle_allocation, reject, assign, append_audit, rent, persist, place, allocate,
  fresh_lab, admit, hand_off, blocked, stale, decide, create_lab, Settings, found_active,
  refuse_active,
}

-- The lab was asked for by the input, and is in the state.
pub record IsAskedFor (input : CreateInput) (state : LabState) (l : LabInstance) : Type 0 where
  pub student : l.student_user_id ≡ input.student_user_id
  pub course : l.course_id ≡ input.course_id
  pub template : l.lab_template_id ≡ input.lab_template_id
  pub reached : l.state ≡ state

-- Two labs were added to those stored: one lab as it was created, then in its final state.
abbrev pub Added : CreateInput → LabState → List LabInstance → List LabInstance → Type 0
Added input state old (a ∷ b ∷ rest) =
    (rest ≡ old)
    × IsAskedFor input state a
    × IsAskedFor input LabState.pending_project b
    × (a.id ≡ b.id)
Added input state old _ = ⊥

-- One lab was added.
abbrev AddedOne :
    CreateInput → LabState → LabInstance → List LabInstance → List LabInstance → Type 0
AddedOne input state inst old (a ∷ rest) =
    (rest ≡ old) × IsAskedFor input state a × (a.id ≡ inst.id)
AddedOne input state inst old [] = ⊥

Added-of_one :
    (input : CreateInput) (state : LabState) (inst : LabInstance) (old new : List LabInstance)
    → IsAskedFor input LabState.pending_project inst
    → AddedOne input state (record inst { pending_events = [] }) (inst ∷ old) new
    → Added input state old new
Added-of_one input state inst old [] h one = one
Added-of_one input state inst old (a ∷ []) h one = ground arith
Added-of_one input state inst old (a ∷ b ∷ rest) h one = ground arith

-- One project was added to those stored, and the lab rents it.
abbrev pub Rented : LabInstance → List Project → List Project → Type 0
Rented l old (p ∷ rest) = (rest ≡ old) × (l.project_id ≡ some p.id)
Rented l old [] = ⊥

module _ (env : Env) (input : CreateInput) (now : Time) where
  -- What a transaction that commits has written.
  abbrev Settled : LabInstance → Trace → Trace → Option LabInstance → Type 0
  Settled inst tr tr' none =
      AddedOne input LabState.rejected inst (labs_under true tr) (labs_under true tr')
      × (projects_under true tr' ≡ projects_under true tr)
  Settled inst tr tr' (some l) =
      AddedOne input LabState.deploying inst (labs_under true tr) (labs_under true tr')
      × Rented l (projects_under true tr) (projects_under true tr')
      × IsAskedFor input LabState.deploying l

  -- A transaction that is rolled back has written nothing.
  abbrev Undone : Trace → Trace → Type 0
  Undone tr tr' =
      (labs_under false tr' ≡ labs_under false tr)
      × (projects_under false tr' ≡ projects_under false tr)

  reject_lem :
      (inst : LabInstance) (tr : Trace)
      → IsAskedFor input LabState.pending_project inst
      → let (r, tr') = reject env input now inst tr in
        (r ≢ panic) × Holds (Settled inst tr tr') r × Undone tr tr'
  unfolding reject can_transition
  reject_lem inst tr h = (ground arith, ground arith, ground arith)

  assign_lem :
      (inst : LabInstance) (p : Project) (tr : Trace)
      → IsAskedFor input LabState.pending_project inst
      → let (r, tr') = assign env now inst p tr in
        (r ≢ panic) × Holds (Settled inst tr tr') r × Undone tr tr'
  unfolding assign can_transition
  assign_lem inst p tr h = (ground arith, ground arith, ground arith)

  settle_lem :
      (inst : LabInstance) (o : Handled Project) (tr : Trace)
      → IsAskedFor input LabState.pending_project inst
      → let (r, tr') = settle_allocation env input now inst o tr in
        (r ≢ panic) × Holds (Settled inst tr tr') r × Undone tr tr'
  unfolding settle_allocation
  settle_lem inst (value p) tr h = assign_lem inst p tr h
  settle_lem inst (failed e) tr h = let rejected = reject_lem inst tr h in ground (arith, rejected)

  -- What the transaction as a whole has written where it commits.
  abbrev Placed : Trace → Trace → Option LabInstance → Type 0
  Placed tr tr' none =
      Added input LabState.rejected (labs_under true tr) (labs_under true tr')
      × (projects_under true tr' ≡ projects_under true tr)
  Placed tr tr' (some l) =
      Added input LabState.deploying (labs_under true tr) (labs_under true tr')
      × Rented l (projects_under true tr) (projects_under true tr')
      × IsAskedFor input LabState.deploying l

  rent_lem :
      (course : Course) (inst : LabInstance) (tr : Trace)
      → IsAskedFor input LabState.pending_project inst
      → let (r, tr') = rent env input now course inst tr in
        (r ≢ panic) × Holds (Settled inst tr tr') r × Undone tr tr'
  unfolding rent
  rent_lem course inst tr h =
      let call = Call.pool_allocate course.ki_domain_id inst.id in
      elim (Answer-cases (env.pool_allocate course.ki_domain_id inst.id tr)) [
        | inl (p, e) ↦
            let s = settle_lem inst (value p) (called call tr) h in
            (ground (arith, e, s), ground (arith, e, s), ground (arith, e, s))
        | inr (x, e) ↦
            let s = settle_lem inst (failed x) (record { call = call; error = some x } ∷ tr) h in
            (ground (arith, e, s), ground (arith, e, s), ground (arith, e, s))
      ]

  persist_lem :
      (course : Course) (inst : LabInstance) (tr : Trace)
      → IsAskedFor input LabState.pending_project inst
      → let (r, tr') = persist env input now course inst tr in
        (r ≢ panic) × Holds (Placed tr tr') r × Undone tr tr'
  unfolding persist
  persist_lem course inst tr h =
      let made = called (Call.lab_create inst) tr in
      let s = rent_lem course (record inst { pending_events = [] }) made (ground arith) in
      let (o, done) = rent env input now course (record inst { pending_events = [] }) made in
      let two = λ (state : LabState).
        Added-of_one input state inst (labs_under true tr) (labs_under true done) h in
      elim (Answer-cases (env.lab_create inst tr)) [
        | inl (x, e) ↦ elim (Outcome-cases o) [
          | inl (none, e') ↦ (
            ground (arith, s),
            ground (arith, s, e, e', two LabState.rejected),
            ground (arith, s),
          )
          | inl (some l, e') ↦ (
            ground (arith, s),
            ground (arith, s, e, e', two LabState.deploying),
            ground (arith, s),
          )
          | inr (inl (y, e')) ↦ (ground (arith, s), ground (arith, s, e, e'), ground (arith, s))
          | inr (inr e') ↦ absurd (s.0 e')
        ]
        | inr (x, e) ↦ (ground (arith, s), ground (arith, e), ground (arith, s))
      ]

  place_lem :
      (course : Course) (tr : Trace)
      → let (r, tr') = place env input now course tr in
        (r ≢ panic) × Holds (Placed tr tr') r × Undone tr tr'
  unfolding place can_transition fresh_lab
  place_lem course tr =
      persist_lem course
        (transition (fresh_lab env input now tr) LabState.pending_project "quota_ok" now).0 tr
        (ground arith)

  allocate_lem :
      (tr : Trace)
      → let (r, tr') = allocate env input now tr in
        (r ≢ panic) × Holds (Placed tr tr') r × Undone tr tr'
  unfolding allocate found_active refuse_active
  allocate_lem tr = elim (Answer-cases (env.courses_get input.course_id tr)) [
    | inl (course, e) ↦
        let loaded = called (Call.courses_get input.course_id) tr in
        let call = Call.lab_find_active input.student_user_id input.course_id in
        elim (Answer-cases (env.lab_find_active input.student_user_id input.course_id loaded)) [
          | inl (a, e') ↦
              let p = place_lem course (called call loaded) in
              (ground (arith, e, e', p), ground (arith, e, e', p), ground (arith, e, e', p))
          | inr (x, e') ↦
              let p = place_lem course (record { call = call; error = some x } ∷ loaded) in
              (ground (arith, e, e', p), ground (arith, e, e', p), ground (arith, e, e', p))
        ]
    | inr (x, e) ↦ (ground (arith, e), ground (arith, e), ground (arith, e))
  ]

  -- What a call of `CreateLab` has stored: all or nothing.
  abbrev pub Stored : Outcome LabInstance → Trace → Trace → Type 0
  Stored (ok l) tr tr' =
      Added input LabState.deploying (stored_labs tr) (stored_labs tr')
      × Rented l (stored_projects tr) (stored_projects tr')
      × IsAskedFor input LabState.deploying l
  Stored (err e) tr tr' =
      (stored_projects tr' ≡ stored_projects tr)
      × ((stored_labs tr' ≡ stored_labs tr)
          ⊎ ((e ≡ Err.sentinel Sentinel.pool_empty)
              × Added input LabState.rejected (stored_labs tr) (stored_labs tr')))
  Stored panic tr tr' = ⊥

  admit_lem : (tr : Trace) → let (r, tr') = admit env input now tr in Stored r tr tr'
  unfolding admit hand_off with_tx
  admit_lem tr =
      let begun = called Call.tx_begin tr in
      let (o, done) = allocate env input now begun in
      let a = allocate_lem begun in
      elim (Outcome-cases o) [
        | inl (none, e) ↦ ground (arith, e, a)
        | inl (some l, e) ↦ ground (arith, e, a)
        | inr (inl (x, e)) ↦ ground (arith, e, a)
        | inr (inr e) ↦ ground (arith, e, a)
      ]

module _ (float : Float64) (duration_text : ℤ → String) where
  -- `CreateLab` stores all or nothing and does not panic. Where it returns a lab, one lab of the input
  -- was stored in `pending_project` and then in `deploying`, and one project, which the lab rents. Where it returns an error, no project was stored, and no lab either, or, where the error is
  -- that the pool is empty, one lab of the input in `pending_project` and then in `rejected`.
  pub create_lab-Stored :
      (env : Env) (cfg : Settings float duration_text) (input : CreateInput) (tr : Trace)
      → let (r, tr') = create_lab float duration_text env cfg input tr in
        Stored env input (env.now tr) r tr tr'
  unfolding create_lab decide append_audit stale blocked
  create_lab-Stored env cfg input tr =
      ground (
        arith,
        admit_lem env input (env.now tr) (called Call.quota_read (called Call.clock_now tr)),
      )
