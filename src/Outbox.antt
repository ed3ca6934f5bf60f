-- ===== src/Outbox.antt =====
-- internal/app/outbox/publisher.go over the outbox of internal/adapters/storage/pgxrepo: rows are
-- forwarded to the bus.
pub mod Forwarding
mod Tests
use cloud_lab_gateway.Common.{
  ℕ, zero, suc, ◌+◌, ◌≡◌, Bool, Option, none, some, List, [], ◌∷◌, ◌++◌, String,
}
use cloud_lab_gateway.Common.Int.{ℤ, pos, ltb_ℤ}
use cloud_lab_gateway.Common.{if◌then◌else◌}
use cloud_lab_gateway.Shared.{Err}
use cloud_lab_gateway.Ports.{Answer, gives, fails}
use cloud_lab_gateway.Storage.Columns.{Json}
use cloud_lab_gateway.Storage.Rows.{Database, World}
use cloud_lab_gateway.Storage.Outbox.{Row, fetch, mark_published, bump_attempts}

-- The database, and what the bus has accepted, in order.
pub record State : Type 0 where
  pub db : Database
  pub accepted : List (String × Json)

-- The bus, and the context that may end between two rows; both may depend on all that happened.
pub record Bus : Type 0 where
  pub refuses : State → Row → Option Err
  pub ended : State → Option Err

-- What New, and Run for values that are not positive, put for a batch and for the attempts.
pub record Publisher : Type 0 where
  pub batch_size : ℕ
  pub max_attempts : ℕ

abbrev pub or_default : ℕ → ℕ → ℕ
or_default zero d = d
or_default n d = n

abbrev pub with_defaults : Publisher → Publisher
with_defaults p = record {
  batch_size = or_default p.batch_size 100;
  max_attempts = or_default p.max_attempts 10;
}

-- A row that the bus refuses is bumped; an error of the bump is logged.
bumped : World → Row → State → State
unfolding bump_attempts
bumped w r s = record s { db = (bump_attempts w r.id s.db).0 }

abbrev pub accept : Row → State → State
accept r s = record s { accepted = s.accepted ++ (r.topic, r.payload) ∷ [] }

-- The loop over the rows, with the identifiers that were published. It stops when the context ends.
pub publish_rows : World → Bus → List Row → State → State × List ℕ
unfolding bumped
publish_rows w b [] s = (s, [])
publish_rows w b (r ∷ rs) s = elim (b.ended s) [
  | some e ↦ (s, [])
  | none ↦ elim (b.refuses s r) [
    | none ↦ let (s', ids) = publish_rows w b rs (accept r s) in (s', r.id ∷ ids)
    | some e ↦ publish_rows w b rs (bumped w r s)
  ]
]

finish : World → State × List ℕ → State × Option Err
unfolding mark_published
finish w (s, []) = (s, none)
finish w (s, id ∷ ids) = let (db, e) = mark_published w (id ∷ ids) s.db in (record s { db = db }, e)

tick_rows : World → Bus → Answer (List Row) → State → State × Option Err
unfolding publish_rows finish
tick_rows w b (fails e) s = (s, some e)
tick_rows w b (gives rows) s = finish w (publish_rows w b rows s)

pub tick : World → Bus → Publisher → State → State × Option Err
unfolding tick_rows fetch
tick w b p s = tick_rows w b (fetch w p.batch_size p.max_attempts s.db) s

-- The ticks that Run makes, one at the start and one for each tick of the clock before the context ends.
pub run : World → Bus → Publisher → ℕ → State → State
unfolding tick
run w b p zero s = (tick w b (with_defaults p) s).0
run w b p (suc n) s = run w b p n (tick w b (with_defaults p) s).0
