-- ===== src/Outbox/Forwarding.antt =====
-- internal/app/outbox/publisher.go, Tick: what is accepted by the bus is what is marked.
use cloud_lab_gateway.Common.{
  ℕ, ◌≤◌, ◌≡◌, ◌≢◌, refl, sym, ap, ◌∙◌, inl, inr, true, false, Option, Option-cases, none, some,
  List, [], ◌∷◌, ◌++◌, String, arith,
}
use mathlib.Core.List.{append-nil}
use cloud_lab_gateway.Shared.{Time, Err}
use cloud_lab_gateway.Ports.{gives}
use cloud_lab_gateway.Storage.Columns.{Json}
use cloud_lab_gateway.Storage.Rows.{OutboxRow, World}
use cloud_lab_gateway.Storage.Outbox.{Row, fetch, mark, bump, mark_published, bump_attempts, among}
use cloud_lab_gateway.Outbox.{
  State, Bus, Publisher, bumped, accept, publish_rows, finish, tick_rows, tick,
}

-- Some of the rows, in their order.
pub data Picks : List Row → List Row → Type 0 where
  done : Picks [] []
  take : {r : Row} {sent rows : List Row} → Picks sent rows → Picks (r ∷ sent) (r ∷ rows)
  skip : {r : Row} {sent rows : List Row} → Picks sent rows → Picks sent (r ∷ rows)

Picks-none : (rows : List Row) → Picks [] rows
Picks-none [] = Picks.done
Picks-none (r ∷ rows) = Picks.skip (Picks-none rows)

abbrev pub ids_of : List Row → List ℕ
ids_of [] = []
ids_of (r ∷ rows) = r.id ∷ ids_of rows

abbrev pub messages : List Row → List (String × Json)
messages [] = []
messages (r ∷ rows) = (r.topic, r.payload) ∷ messages rows

-- The rows are the same, up to their attempts.
abbrev pub Same : List OutboxRow → List OutboxRow → Type 0
Same [] [] = Unit
Same (r ∷ rs) (q ∷ qs) =
    (q.id ≡ r.id)
    × (q.topic ≡ r.topic)
    × (q.payload ≡ r.payload)
    × (q.occurred_at ≡ r.occurred_at)
    × (r.attempts ≤ q.attempts)
    × (q.published_at ≡ r.published_at)
    × Same rs qs
Same _ _ = ⊥

Same-refl : (rs : List OutboxRow) → Same rs rs
Same-refl [] = tt
Same-refl (r ∷ rs) = (refl, refl, refl, refl, omega arith, refl, Same-refl rs)

Same-trans : (a b c : List OutboxRow) → Same a b → Same b c → Same a c
Same-trans [] [] [] h k = tt
Same-trans (r ∷ rs) (q ∷ qs) (p ∷ ps) h k = ground (arith, h, k, Same-trans rs qs ps)
Same-trans a b c h k = ground (arith, h, k)

Same-bump : (id : ℕ) (rs : List OutboxRow) → Same rs (bump id rs)
Same-bump id [] = tt
Same-bump id (r ∷ rs) = ground (arith, Same-bump id rs)

bumped-Same : (w : World) (r : Row) (s : State) → Same s.db.outbox (bumped w r s).db.outbox
unfolding bumped bump_attempts
bumped-Same w r s = ground (arith, Same-bump r.id s.db.outbox, Same-refl s.db.outbox)

bumped-accepted : (w : World) (r : Row) (s : State) → (bumped w r s).accepted ≡ s.accepted
unfolding bumped
bumped-accepted w r s = refl

append_one : {A : Type 0} (xs : List A) (x : A) (ys : List A) → (xs ++ x ∷ []) ++ ys ≡ xs ++ x ∷ ys
append_one [] x ys = ground arith
append_one (y ∷ xs) x ys = ground (arith, append_one xs x ys)

-- What the loop leaves: the rows that were sent are some of the rows, in order; the bus accepted their
-- messages and no others; and the table is as it was, up to the attempts.
record Looped (rows : List Row) (s s' : State) (ids : List ℕ) : Type 0 where
  sent : List Row
  picks : Picks sent rows
  same_ids : ids ≡ ids_of sent
  accepted : s'.accepted ≡ s.accepted ++ messages sent
  kept : Same s.db.outbox s'.db.outbox

nothing-Looped : (rows : List Row) (s : State) → Looped rows s s []
nothing-Looped rows s = record {
  sent = [];
  picks = Picks-none rows;
  same_ids = refl;
  accepted = sym (append-nil s.accepted);
  kept = Same-refl s.db.outbox;
}

publish_rows-Looped :
    (w : World) (b : Bus) (rows : List Row) (s : State)
    → let (s', ids) = publish_rows w b rows s in Looped rows s s' ids
unfolding publish_rows
publish_rows-Looped w b [] s = nothing-Looped [] s
publish_rows-Looped w b (r ∷ rows) s = elim (Option-cases (b.ended s)) [
  | inr (e, k) ↦
      let step : publish_rows w b (r ∷ rows) s ≡ (s, []) = ground (arith, k) in
      rw step (nothing-Looped (r ∷ rows) s)
  | inl go ↦ elim (Option-cases (b.refuses s r)) [
    | inl fine ↦
        let ih = publish_rows-Looped w b rows (accept r s) in
        let next = publish_rows w b rows (accept r s) in
        let step : publish_rows w b (r ∷ rows) s ≡ (next.0, r.id ∷ next.1) =
          ground (arith, go, fine) in
        rw step (record {
          sent = r ∷ ih.sent;
          picks = Picks.take ih.picks;
          same_ids = ap (λ l. r.id ∷ l) ih.same_ids;
          accepted = ih.accepted ∙ append_one s.accepted (r.topic, r.payload) (messages ih.sent);
          kept = ih.kept;
        })
    | inr (e, bad) ↦
        let ih = publish_rows-Looped w b rows (bumped w r s) in
        let step : publish_rows w b (r ∷ rows) s ≡ publish_rows w b rows (bumped w r s) =
          ground (arith, go, bad) in
        rw step (record {
          sent = ih.sent;
          picks = Picks.skip ih.picks;
          same_ids = ih.same_ids;
          accepted = rw (← bumped-accepted w r s) ih.accepted;
          kept = Same-trans _ _ _ (bumped-Same w r s) ih.kept;
        })
  ]
]

-- The rows after they were marked: those with the identifiers are published, and no others.
abbrev pub Marked : List ℕ → List OutboxRow → List OutboxRow → Type 0
Marked ids [] [] = Unit
Marked ids (r ∷ rs) (q ∷ qs) =
    (q.id ≡ r.id)
    × (q.topic ≡ r.topic)
    × (q.payload ≡ r.payload)
    × (q.occurred_at ≡ r.occurred_at)
    × (r.attempts ≤ q.attempts)
    × (among r.id ids ≡ true → q.published_at ≢ none)
    × (among r.id ids ≡ false → q.published_at ≡ r.published_at)
    × Marked ids rs qs
Marked ids _ _ = ⊥

mark-Marked :
    (t : Time) (ids : List ℕ) (a b : List OutboxRow) → Same a b → Marked ids a (mark t ids b)
mark-Marked t ids [] [] h = tt
mark-Marked t ids (r ∷ rs) (q ∷ qs) h = ground (arith, h, mark-Marked t ids rs qs)
mark-Marked t ids [] (q ∷ qs) h = absurd h
mark-Marked t ids (r ∷ rs) [] h = absurd h

Same-Marked : (a b : List OutboxRow) → Same a b → Marked [] a b
Same-Marked [] [] h = tt
Same-Marked (r ∷ rs) (q ∷ qs) h = ground (arith, h, Same-Marked rs qs)
Same-Marked [] (q ∷ qs) h = absurd h
Same-Marked (r ∷ rs) [] h = absurd h

-- Where the marking failed, no row was marked.
abbrev pub Settled : Option Err → List ℕ → List OutboxRow → List OutboxRow → Type 0
Settled none ids old new = Marked ids old new
Settled (some _) ids old new = Same old new

-- What a tick does with the rows that it fetched.
pub record Forwarded (rows : List Row) (s s' : State) (e : Option Err) : Type 0 where
  pub sent : List Row
  pub picks : Picks sent rows
  pub accepted : s'.accepted ≡ s.accepted ++ messages sent
  pub table : Settled e (ids_of sent) s.db.outbox s'.db.outbox

module _ (w : World) (mid : State) (id : ℕ) (ids : List ℕ) where
  abbrev marked : State
  marked = record mid {
    db = record mid.db { outbox = mark (w.kept (w.now mid.db)) (id ∷ ids) mid.db.outbox };
  }

  finish-marked :
      w.refuses "MarkOutboxPublished" mid.db ≡ none → finish w (mid, id ∷ ids) ≡ (marked, none)
  unfolding finish mark_published
  finish-marked e = ground (arith, e)

  finish-refused :
      {x : Err}
      → w.refuses "MarkOutboxPublished" mid.db ≡ some x
      → finish w (mid, id ∷ ids) ≡ (mid, some (Err.wrapped "pgxrepo: mark outbox published" x))
  unfolding finish mark_published
  finish-refused {x} e = ground (arith, e)

finish-empty : (w : World) (mid : State) → finish w (mid, []) ≡ (mid, none)
unfolding finish
finish-empty w mid = refl

finish-Forwarded :
    (w : World) (rows : List Row) (s mid : State) (ids : List ℕ)
    → Looped rows s mid ids
    → let (s', e) = finish w (mid, ids) in Forwarded rows s s' e
finish-Forwarded w rows s mid [] l = rw (finish-empty w mid) (record {
  sent = l.sent;
  picks = l.picks;
  accepted = l.accepted;
  table = rw (← l.same_ids) (Same-Marked s.db.outbox mid.db.outbox l.kept);
})
finish-Forwarded w rows s mid (id ∷ ids) l =
    elim (Option-cases (w.refuses "MarkOutboxPublished" mid.db)) [
      | inl e ↦ rw (finish-marked w mid id ids e) (record {
        sent = l.sent;
        picks = l.picks;
        accepted = l.accepted;
        table =
            rw (← l.same_ids)
              (mark-Marked (w.kept (w.now mid.db)) (id ∷ ids) s.db.outbox mid.db.outbox l.kept);
      })
      | inr (x, e) ↦
          rw (finish-refused w mid id ids {x = x} e)
            (record { sent = l.sent; picks = l.picks; accepted = l.accepted; table = l.kept })
    ]

-- A tick that fetched rows sends some of them to the bus, in the order of the rows, and the bus accepts
-- nothing else. Where the tick returns no error, exactly the rows that were sent are marked as
-- published; where it returns one, none is marked. The outbox has the same
-- rows in the same order, and nothing else of a row changes but the count of its attempts, which never falls.
pub tick-Forwarded :
    (w : World) (b : Bus) (p : Publisher) (s : State) {rows : List Row}
    → fetch w p.batch_size p.max_attempts s.db ≡ gives rows
    → let (s', e) = tick w b p s in Forwarded rows s s' e
unfolding tick tick_rows
tick-Forwarded w b p s {rows} h =
    let (mid, ids) = publish_rows w b rows s in
    rw h (finish-Forwarded w rows s mid ids (publish_rows-Looped w b rows s))
