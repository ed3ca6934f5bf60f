-- ===== src/Outbox/Tests.antt =====
-- internal/app/outbox/publisher.go: one event that waits as a test.
use cloud_lab_gateway.Common.{◌≡◌, none, [], ◌∷◌, arith}
use cloud_lab_gateway.Common.Int.{pos}
use cloud_lab_gateway.Ports.{gives}
use cloud_lab_gateway.Storage.Columns.{Json}
use cloud_lab_gateway.Storage.Samples.{quiet_world, some_rows}
use cloud_lab_gateway.Storage.Outbox.{Row, fetch}
use cloud_lab_gateway.Outbox.{State, Bus, Publisher, tick}
use cloud_lab_gateway.Outbox.Forwarding.{Forwarded, tick-Forwarded}

abbrev state : State
state = record { db = some_rows; accepted = [] }

abbrev bus : Bus
bus = record { refuses = λ s r. none; ended = λ s. none }

abbrev publisher : Publisher
publisher = record { batch_size = 100; max_attempts = 10 }

abbrev row : Row
row = record {
  id = 1;
  topic = "lab.created";
  payload = Json.object [];
  occurred_at = pos 10;
  attempts = 0;
}

waiting : fetch quiet_world 100 10 some_rows ≡ gives (row ∷ [])
unfolding fetch
waiting = ground arith

tick-Forwarded_example :
    let (s, e) = tick quiet_world bus publisher state in Forwarded (row ∷ []) state s e
tick-Forwarded_example = tick-Forwarded quiet_world bus publisher state {rows = row ∷ []} waiting
