-- ===== src/Storage/Outbox.antt =====
-- internal/adapters/storage/pgxrepo/outbox.go over sqlcgen/outbox.sql.go: the rows of the outbox as the
-- publisher sees them.
use cloud_lab_gateway.Common.{
  ℕ, ◌+◌, Bool, true, false, ◌&&◌, ◌||◌, Option, none, some, List, [], ◌∷◌, String, if◌then◌else◌,
  ◌==◌, ltb, leb,
}
use cloud_lab_gateway.Shared.{Time, Err, Sentinel}
use cloud_lab_gateway.Ports.{Answer, gives, fails}
use cloud_lab_gateway.Storage.Columns.{Json, time_from_timestamptz}
use cloud_lab_gateway.Storage.Rows.{OutboxRow, Database, World}
use cloud_lab_gateway.Storage.Sorting.{order_by, where_true, limit_to}
use cloud_lab_gateway.Storage.Labs.Listing.{list_limit_int32}

-- outbox.Row
pub record Row : Type 0 where
  pub id : ℕ
  pub topic : String
  pub payload : Json
  pub occurred_at : Time
  pub attempts : ℕ

pub row_of : OutboxRow → Row
row_of r = record {
  id = r.id;
  topic = r.topic;
  payload = r.payload;
  occurred_at = time_from_timestamptz r.occurred_at;
  attempts = r.attempts;
}

abbrev pub rows_of : List OutboxRow → List Row
rows_of [] = []
rows_of (r ∷ rs) = row_of r ∷ rows_of rs

abbrev pub is_unpublished : Option Time → Bool
is_unpublished none = true
is_unpublished (some _) = false

-- `published_at IS NULL AND attempts < $1`
abbrev pub is_waiting : ℕ → OutboxRow → Bool
is_waiting max_attempts r = is_unpublished r.published_at && ltb r.attempts max_attempts

abbrev pub lower_id_first : OutboxRow → OutboxRow → Bool
lower_id_first r s = leb r.id s.id

abbrev pub fetched : ℕ → ℕ → Database → List OutboxRow
fetched limit max_attempts db =
    limit_to limit (order_by lower_id_first (where_true (is_waiting max_attempts) db.outbox))

abbrev both : Answer ℕ → Answer ℕ → (ℕ → ℕ → Answer (List Row)) → Answer (List Row)
both (gives a) (gives b) f = f a b
both (fails e) _ f = fails e
both _ (fails e) f = fails e

unfoldable pub fetch : World → ℕ → ℕ → Database → Answer (List Row)
unfolding row_of list_limit_int32
fetch w limit max_attempts db =
    both (list_limit_int32 limit) (list_limit_int32 max_attempts) (λ n m.
      if n == 0 || m == 0 then gives [] else elim (w.refuses "FetchOutbox" db) [
        | none ↦ gives (rows_of (fetched n m db))
        | some e ↦ fails (Err.wrapped "pgxrepo: fetch outbox" e)
      ])

abbrev pub among : ℕ → List ℕ → Bool
among n [] = false
among n (m ∷ ms) = n == m || among n ms

-- `WHERE id = ANY(ids)`
abbrev pub mark : Time → List ℕ → List OutboxRow → List OutboxRow
mark t ids [] = []
mark t ids (r ∷ rs) =
    let rest = mark t ids rs in
    (if among r.id ids then record r { published_at = some t } else r) ∷ rest

unfoldable pub mark_published : World → List ℕ → Database → Database × Option Err
mark_published w [] db = (db, none)
mark_published w (id ∷ ids) db = elim (w.refuses "MarkOutboxPublished" db) [
  | none ↦ (record db { outbox = mark (w.kept (w.now db)) (id ∷ ids) db.outbox }, none)
  | some e ↦ (db, some (Err.wrapped "pgxrepo: mark outbox published" e))
]

abbrev pub bump : ℕ → List OutboxRow → List OutboxRow
bump id [] = []
bump id (r ∷ rs) =
    let rest = bump id rs in
    (if r.id == id then record r { attempts = r.attempts + 1 } else r) ∷ rest

-- Identifiers are not negative, and zero is refused.
unfoldable pub bump_attempts : World → ℕ → Database → Database × Option Err
bump_attempts w id db =
    if id == 0
    then (db, some (Err.sentinel Sentinel.invalid_input))
    else elim (w.refuses "BumpOutboxAttempts" db) [
      | none ↦ (record db { outbox = bump id db.outbox }, none)
      | some e ↦ (db, some (Err.wrapped "pgxrepo: bump outbox attempts" e))
    ]
