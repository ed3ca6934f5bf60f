-- ===== src/Sse/Tests.antt =====
-- internal/adapters/sse/broker.go: two clients as tests.
use cloud_lab_gateway.Common.{◌≡◌, refl, [], ◌∷◌}
use cloud_lab_gateway.Common.Maps.{get, nat_keys}
use cloud_lab_gateway.Storage.Columns.{Json}
use cloud_lab_gateway.Sse.{Broker, SseEvent, new_broker, add, drop, publish}
use cloud_lab_gateway.Sse.Audiences.{Agrees, Step, Reaches, Reaches-Agrees, publish-private}

abbrev event : SseEvent
event = record { id = ""; type = "quota.snapshot"; body = Json.object [] }

abbrev one : Broker
one = add new_broker 1 ("user:a" ∷ "all" ∷ [])

abbrev two : Broker
two = add one 2 ("user:b" ∷ [])

to_two : Reaches new_broker two
unfolding add
to_two =
    Reaches.then_step
      (Reaches.then_step Reaches.here (Step.subscribes 1 ("user:a" ∷ "all" ∷ []) refl))
      (Step.subscribes 2 ("user:b" ∷ []) refl)

Reaches-Agrees_example : Agrees (drop (publish two "all" event) 1)
Reaches-Agrees_example =
    Reaches-Agrees
      (Reaches.then_step (Reaches.then_step to_two (Step.publishes "all" event)) (Step.drops 1))

two-Agrees : Agrees two
two-Agrees = Reaches-Agrees to_two

publish-private_example : get 2 (publish two "user:a" event).made ≡ get 2 two.made
unfolding add
publish-private_example = publish-private two "user:a" event 2 two-Agrees refl
