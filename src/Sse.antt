-- ===== src/Sse.antt =====
-- internal/adapters/sse/broker.go: events are fanned out to the clients that are connected. A client is a
-- number. Each stretch that holds the mutex, and each send or receive on a channel, can be one step.
pub mod Audiences
mod Tests
use cloud_lab_gateway.Common.{
  ℕ, ◌+◌, ◌≡◌, Bool, true, false, not, ◌&&◌, ◌||◌, Option, none, some, List, [], ◌∷◌, ◌++◌, String,
  ◌⧺◌, if◌then◌else◌, ◌==◌, str_eq, ltb, length,
}
use cloud_lab_gateway.Common.Maps.{get, put, delete, nat_keys, text_keys}
use cloud_lab_gateway.Shared.{LabInstanceId, UserId, Err, Sentinel}
use cloud_lab_gateway.Ports.{Answer, gives, fails}
use cloud_lab_gateway.Storage.Columns.{Value, Json}

abbrev pub audience_all : String
audience_all = "all"

abbrev pub client_buffer_size : ℕ
client_buffer_size = 32

pub record SseEvent : Type 0 where
  pub id : String
  pub type : String
  pub body : Json

-- `events` is what the buffered channel holds; `done` says that the other channel is closed.
pub record Client : Type 0 where
  pub events : List SseEvent
  pub done : Bool
  pub audiences : List String

-- All clients that were made, those that are registered, and the sets by audience.
pub record Broker : Type 0 where
  pub made : List (ℕ × Client)
  pub clients : List ℕ
  pub by_aud : List (String × List ℕ)

abbrev pub new_broker : Broker
new_broker = record { made = []; clients = []; by_aud = [] }

abbrev pub is_in : ℕ → List ℕ → Bool
is_in c [] = false
is_in c (d ∷ ds) = d == c || is_in c ds

abbrev pub without : ℕ → List ℕ → List ℕ
without c [] = []
without c (d ∷ ds) = let rest = without c ds in if d == c then rest else d ∷ rest

abbrev pub or_empty : Option (List ℕ) → List ℕ
or_empty none = []
or_empty (some l) = l

-- `b.byAud[audience]`, where a missing set is empty
abbrev pub members : String → List (String × List ℕ) → List ℕ
members a m = or_empty (get a m)

unfoldable pub join : String → ℕ → List (String × List ℕ) → List (String × List ℕ)
join a c m = put a (c ∷ without c (members a m)) m

abbrev put_or_delete : String → List ℕ → List (String × List ℕ) → List (String × List ℕ)
put_or_delete a [] m = delete a m
put_or_delete a (c ∷ cs) m = put a (c ∷ cs) m

unfoldable pub leave : String → ℕ → List (String × List ℕ) → List (String × List ℕ)
leave a c m = put_or_delete a (without c (members a m)) m

unfoldable pub join_all : List String → ℕ → List (String × List ℕ) → List (String × List ℕ)
unfolding join
join_all [] c m = m
join_all (a ∷ more) c m = join_all more c (join a c m)

unfoldable pub leave_all : List String → ℕ → List (String × List ℕ) → List (String × List ℕ)
unfolding leave
leave_all [] c m = m
leave_all (a ∷ more) c m = leave_all more c (leave a c m)

-- The client of Subscribe, under a number that is new.
pub add : Broker → ℕ → List String → Broker
add b c audiences = record b {
  made = put c (record { events = []; done = false; audiences = audiences }) b.made;
  clients = c ∷ without c b.clients;
  by_aud = join_all audiences c b.by_aud;
}

pub drop_made : Broker → ℕ → Option Client → Broker
drop_made b c none = b
drop_made b c (some client) = record b {
  made = put c (record client { done = true }) b.made;
  clients = without c b.clients;
  by_aud = leave_all client.audiences c b.by_aud;
}

pub drop : Broker → ℕ → Broker
unfolding drop_made
drop b c = if not (is_in c b.clients) then b else drop_made b c (get c b.made)

-- `select { case c.events <- event: default: b.drop(c) }`
pub offer_made : Broker → SseEvent → ℕ → Option Client → Broker
unfolding drop
offer_made b event c none = b
offer_made b event c (some client) =
    if ltb (length client.events) client_buffer_size
    then record b { made = put c (record client { events = client.events ++ event ∷ [] }) b.made }
    else drop b c

pub offer : Broker → SseEvent → ℕ → Broker
unfolding offer_made
offer b event c = offer_made b event c (get c b.made)

pub offer_all : Broker → SseEvent → List ℕ → Broker
unfolding offer
offer_all b event [] = b
offer_all b event (c ∷ cs) = offer_all (offer b event c) event cs

pub publish : Broker → String → SseEvent → Broker
unfolding offer_all
publish b audience event = offer_all b event (members audience b.by_aud)

-- `case event, ok := <-c.events` of Subscribe: the oldest event leaves the buffer.
pub receive_made : Broker → ℕ → Option Client → Broker
receive_made b c none = b
receive_made b c (some client) = elim client.events [
  | [] ↦ b
  | event ∷ more ↦ record b { made = put c (record client { events = more }) b.made }
]

pub receive : Broker → ℕ → Broker
unfolding receive_made
receive b c = receive_made b c (get c b.made)

-- Values of the payload, where JSON numbers keep their text.
abbrev pub string_of : Option Value → String
string_of (some (Value.text s)) = s
string_of _ = ""

abbrev pub string_field : List (String × Value) → String → String
string_field raw key = string_of (get key raw)

unfoldable pub first_string : List (String × Value) → List String → String
first_string raw [] = ""
first_string raw (key ∷ keys) =
    let rest = first_string raw keys in
    if str_eq (string_field raw key) "" then rest else string_field raw key

-- uuid.Parse, and ResolveLabOwner where a resolver is wired.
pub record Resolver : Type 0 where
  pub parse : String → Answer LabInstanceId
  pub owner : Option (LabInstanceId → Answer UserId)
  pub uuid_text : ℕ → String

pub lab_id_from : Resolver → List (String × Value) → Answer LabInstanceId
lab_id_from z raw =
    let id = first_string raw ("lab_id" ∷ "labId" ∷ []) in
    if str_eq id "" then fails (Err.sentinel Sentinel.invalid_input) else z.parse id

abbrev of_user : Resolver → Answer UserId → Answer String
of_user z (gives u) = gives ("user:" ⧺ z.uuid_text u)
of_user z (fails e) = fails e

pub lab_audience : Resolver → LabInstanceId → Answer String
lab_audience z lab = elim z.owner [
  | none ↦ fails (Err.sentinel Sentinel.invalid_input)
  | some owner ↦ of_user z (owner lab)
]

abbrev projected : String → List (String × Value) → Answer String → Answer (SseEvent × String)
projected topic fields (fails e) = fails e
projected topic fields (gives audience) =
    gives (record { id = ""; type = topic; body = Json.object fields }, audience)

-- An event of a lab, with the fields that follow its type and its lab.
project_lab :
    Resolver → String → List (String × Value) → Answer LabInstanceId → Answer (SseEvent × String)
unfolding lab_audience
project_lab z topic fields (fails e) = fails e
project_lab z topic fields (gives lab) =
    projected topic (("type", Value.text topic) ∷ ("labId", Value.text (z.uuid_text lab)) ∷ fields)
      (lab_audience z lab)

state_of : List (String × Value) → String
state_of raw =
    if str_eq (string_field raw "state") "" then string_field raw "to" else string_field raw "state"

-- `numbers` gives the fields of a quota snapshot, which are float64.
pub project :
    Resolver
    → (List (String × Value) → List (String × Value))
    → String
    → List (String × Value)
    → Answer (SseEvent × String)
unfolding project_lab lab_id_from state_of
project z numbers topic raw =
    if str_eq topic "lab.state_changed"
    then project_lab z topic
        (("state", Value.text (state_of raw))
          ∷ ("reason", Value.text (string_field raw "reason"))
          ∷ [])
        (lab_id_from z raw)
    else if str_eq topic "lab.deploy_progress"
    then project_lab z topic
        (("step", Value.text (first_string raw ("step" ∷ "step_name" ∷ [])))
          ∷ ("status", Value.text (string_field raw "status"))
          ∷ [])
        (lab_id_from z raw)
    else if str_eq topic "check.state_changed"
    then project_lab z topic
        (("checkId", Value.text (first_string raw ("check_id" ∷ "checkRunId" ∷ [])))
          ∷ ("state", Value.text (string_field raw "state"))
          ∷ [])
        (lab_id_from z raw)
    else if str_eq topic "quota.snapshot"
    then projected topic (("type", Value.text topic) ∷ numbers raw) (gives audience_all)
    else fails (Err.external ("unsupported topic " ⧺ topic))

abbrev published : Broker → Answer (SseEvent × String) → Broker
published b (fails e) = b
published b (gives (event, audience)) = publish b audience event

-- The payload is what json.Unmarshal made of it; an error is logged.
pub handle_message :
    Resolver
    → (List (String × Value) → List (String × Value))
    → Broker
    → String
    → Answer (List (String × Value))
    → Broker
unfolding project publish
handle_message z numbers b topic (fails e) = b
handle_message z numbers b topic (gives raw) = published b (project z numbers topic raw)
