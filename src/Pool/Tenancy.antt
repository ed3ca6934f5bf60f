-- ===== src/Pool/Tenancy.antt =====
-- internal/domain/pool: a project has at most one tenant at a time, told from its events.
use cloud_lab_gateway.Common.{
  ◌≡◌, inl, inr, Option-cases, ◌+◌, Option, none, some, List, [], ◌∷◌, ◌++◌, ◌==◌, arith,
  if◌then◌else◌,
}
use cloud_lab_gateway.Shared.{LabInstanceId}
use cloud_lab_gateway.Pool.{Project, ProjectState, ProjectEvent}
use cloud_lab_gateway.Pool.Ops.{ProjectOp, apply, run}

-- Reads the events in order from a tenant: `none` if a lab is given a project that has a tenant,
-- or if a lab that is not the tenant gives it back.
abbrev pub tenancy : Option LabInstanceId → List ProjectEvent → Option (Option LabInstanceId)
tenancy t [] = some t
tenancy none (ProjectEvent.allocated _ lab ∷ evs) = tenancy (some lab) evs
tenancy (some _) (ProjectEvent.allocated _ _ ∷ evs) = none
tenancy none (ProjectEvent.releasing _ _ ∷ evs) = none
tenancy (some t) (ProjectEvent.releasing _ lab ∷ evs) =
    let rest = tenancy (some t) evs in if t == lab then rest else none
tenancy t (ProjectEvent.freed _ ∷ evs) = tenancy none evs
tenancy t (ProjectEvent.quarantined _ _ _ ∷ evs) = tenancy t evs

tenancy-snoc :
    (t : Option LabInstanceId) (evs : List ProjectEvent) (ev : ProjectEvent)
    (u : Option LabInstanceId)
    → tenancy t evs ≡ some u
    → tenancy t (evs ++ ev ∷ []) ≡ tenancy u (ev ∷ [])
tenancy-snoc t [] ev u h = let e : t ≡ u = cc in rw e
tenancy-snoc none (ProjectEvent.allocated _ lab ∷ evs) ev u h = tenancy-snoc (some lab) evs ev u h
tenancy-snoc (some _) (ProjectEvent.allocated _ _ ∷ evs) ev u h = cc
tenancy-snoc none (ProjectEvent.releasing _ _ ∷ evs) ev u h = cc
tenancy-snoc (some t) (ProjectEvent.releasing _ lab ∷ evs) ev u h =
    ground (arith, tenancy-snoc (some t) evs ev u)
tenancy-snoc t (ProjectEvent.freed _ ∷ evs) ev u h = tenancy-snoc none evs ev u h
tenancy-snoc t (ProjectEvent.quarantined _ _ _ ∷ evs) ev u h = tenancy-snoc t evs ev u h

-- The tenant that a project's fields name, and the state's share of it.
record IsLet (p : Project) : Type 0 where
  told : tenancy none p.pending_events ≡ some p.allocated_to_lab_id
  held : p.state ≡ ProjectState.free → p.allocated_to_lab_id ≡ none

-- A call that is made on the aggregate in memory.
abbrev pub IsMethod : ProjectOp → Type 0
IsMethod ProjectOp.store_and_load = ⊥
IsMethod _ = Unit

abbrev pub AreMethods : List ProjectOp → Type 0
AreMethods [] = Unit
AreMethods (op ∷ ops) = IsMethod op × AreMethods ops

logged :
    (p : Project) (ev : ProjectEvent)
    → IsLet p
    → tenancy none (p.pending_events ++ ev ∷ []) ≡ tenancy p.allocated_to_lab_id (ev ∷ [])
logged p ev h = tenancy-snoc none p.pending_events ev p.allocated_to_lab_id h.told

apply-IsLet : (p : Project) (op : ProjectOp) → IsMethod op → IsLet p → IsLet (apply p op).0
unfolding apply
apply-IsLet p (ProjectOp.allocate lab now) m h =
    ground (arith, logged p (ProjectEvent.allocated p.id lab) h)
apply-IsLet p (ProjectOp.release_at now) m h = elim (Option-cases p.allocated_to_lab_id) [
  | inl vacant ↦ ground arith
  | inr (lab, e) ↦ ground (arith, logged p (ProjectEvent.releasing p.id lab) h)
]
apply-IsLet p (ProjectOp.clean_at now) m h = ground (arith, logged p (ProjectEvent.freed p.id) h)
apply-IsLet p (ProjectOp.resolve_at now) m h = ground arith
apply-IsLet p (ProjectOp.fail_cleanup reason now) m h =
    ground (arith, logged p (ProjectEvent.quarantined p.id reason (p.cleanup_failures + 1)) h)
apply-IsLet p (ProjectOp.quarantine_at reason now) m h =
    ground (arith, logged p (ProjectEvent.quarantined p.id reason p.cleanup_failures) h)
apply-IsLet p ProjectOp.store_and_load m h = elim m [ ]

run-IsLet : (p : Project) (ops : List ProjectOp) → AreMethods ops → IsLet p → IsLet (run p ops)
unfolding run
run-IsLet p [] m h = h
run-IsLet p (op ∷ ops) m h = run-IsLet (apply p op).0 ops m.1 (apply-IsLet p op m.0 h)

-- Through any sequence of method calls, accepted or refused, on a free project that has no tenant
-- and no events yet, the events tell that a lab is given the project only when it has no tenant
-- and that only the tenant gives it back; the tenant they end with is the lab the project names.
pub run-tenancy :
    (p : Project) (ops : List ProjectOp)
    → AreMethods ops
    → p.state ≡ ProjectState.free
    → p.allocated_to_lab_id ≡ none
    → p.pending_events ≡ []
    → tenancy none (run p ops).pending_events ≡ some (run p ops).allocated_to_lab_id
run-tenancy p ops m s a e = (run-IsLet p ops m (record { told = ground arith; held = λ _. a })).told
