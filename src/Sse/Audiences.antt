-- ===== src/Sse/Audiences.antt =====
-- internal/adapters/sse/broker.go, add, drop and Publish: the sets by audience agree with the clients.
use cloud_lab_gateway.Common.{
  ℕ, ltb, length, ◌++◌, ◌≡◌, refl, ◌∙◌, inl, inr, Bool, true, false, not, ◌&&◌, ◌||◌, Bool-cases,
  Option, Option-cases, none, some, List, [], ◌∷◌, String, ◌==◌, ==_iff, str_eq, eq_iff, arith,
}
use cloud_lab_gateway.Common.Maps.{get, put, nat_keys, text_keys, get-delete}
use cloud_lab_gateway.Sse.{
  client_buffer_size, Client, Broker, SseEvent, is_in, without, members, join, leave, join_all,
  leave_all, add, drop_made, drop, offer_made, offer, offer_all, publish, new_broker, receive_made,
  receive,
}

abbrev pub is_named : String → List String → Bool
is_named a [] = false
is_named a (b ∷ bs) = str_eq b a || is_named a bs

is_in-without : (c d : ℕ) (l : List ℕ) → is_in d (without c l) ≡ (is_in d l && not (c == d))
is_in-without c d [] = ground arith
is_in-without c d (e ∷ l) = ground (arith, is_in-without c d l)

members-join :
    (a b : String) (c d : ℕ) (m : List (String × List ℕ))
    → is_in d (members b (join a c m)) ≡ (is_in d (members b m) || (str_eq a b && c == d))
unfolding join
members-join a b c d m =
    ground (arith, get-delete a b m, is_in-without c d (members a m), eq_iff a b)

members-leave :
    (a b : String) (c d : ℕ) (m : List (String × List ℕ))
    → is_in d (members b (leave a c m)) ≡ (is_in d (members b m) && not (str_eq a b && c == d))
unfolding leave
members-leave a b c d m =
    ground (arith, get-delete a b m, is_in-without c d (members a m), eq_iff a b)

members-join_all :
    (l : List String) (b : String) (c d : ℕ) (m : List (String × List ℕ))
    → is_in d (members b (join_all l c m)) ≡ (is_in d (members b m) || (is_named b l && c == d))
unfolding join_all
members-join_all [] b c d m = ground arith
members-join_all (a ∷ l) b c d m =
    ground (arith, members-join_all l b c d (join a c m), members-join a b c d m)

members-leave_all :
    (l : List String) (b : String) (c d : ℕ) (m : List (String × List ℕ))
    → is_in d (members b (leave_all l c m))
      ≡ (is_in d (members b m) && not (is_named b l && c == d))
unfolding leave_all
members-leave_all [] b c d m = ground arith
members-leave_all (a ∷ l) b c d m =
    ground (arith, members-leave_all l b c d (leave a c m), members-leave a b c d m)

abbrev pub audiences_of : Option Client → List String
audiences_of none = []
audiences_of (some c) = c.audiences

abbrev pub is_closed : Option Client → Bool
is_closed none = true
is_closed (some c) = c.done

-- The sets by audience hold the registered clients under their audiences and no others; and a registered
-- client is not closed, so that no channel is closed twice.
pub record Agrees (b : Broker) : Type 0 where
  pub sets :
      (a : String) (c : ℕ)
      → is_in c (members a b.by_aud)
        ≡ (is_in c b.clients && is_named a (audiences_of (get c b.made)))
  pub open_ones : (c : ℕ) → is_in c b.clients ≡ true → is_closed (get c b.made) ≡ false

add-Agrees :
    (b : Broker) (c : ℕ) (audiences : List String)
    → get c b.made ≡ none
    → Agrees b
    → Agrees (add b c audiences)
unfolding add
add-Agrees b c audiences new h = record {
  sets = λ a d. ground (
    arith,
    new,
    h.sets a d,
    h.open_ones d,
    members-join_all audiences a c d b.by_aud,
    is_in-without c d b.clients,
    get-delete c d b.made,
    ==_iff c d,
  );
  open_ones = λ d.
      ground
        (arith, new, h.open_ones d, is_in-without c d b.clients, get-delete c d b.made, ==_iff c d);
}

drop-Agrees : (b : Broker) (c : ℕ) → Agrees b → Agrees (drop b c)
unfolding drop drop_made
drop-Agrees b c h = elim (Bool-cases (is_in c b.clients)) [
  | inr e ↦ rw e h
  | inl e ↦ elim (Option-cases (get c b.made)) [
    | inl n ↦ absurd (ground (arith, n, e, h.open_ones c e))
    | inr (k, n) ↦
        let step : drop b c ≡ drop_made b c (some k) = ground (arith, e, n) in
        rw step (record {
          sets = λ a d. ground (
            arith,
            n,
            h.sets a d,
            members-leave_all k.audiences a c d b.by_aud,
            is_in-without c d b.clients,
            get-delete c d b.made,
            ==_iff c d,
          );
          open_ones = λ d. ground (
            arith,
            n,
            h.open_ones d,
            is_in-without c d b.clients,
            get-delete c d b.made,
            ==_iff c d,
          );
        })
  ]
]

offer-Agrees : (b : Broker) (event : SseEvent) (c : ℕ) → Agrees b → Agrees (offer b event c)
unfolding offer offer_made
offer-Agrees b event c h = elim (Option-cases (get c b.made)) [
  | inl n ↦ rw n h
  | inr (k, n) ↦ elim (Bool-cases (ltb (length k.events) client_buffer_size)) [
    | inr full ↦
        let step : offer b event c ≡ drop b c = ground (arith, n, full) in
        rw step (drop-Agrees b c h)
    | inl room ↦
        let kept = record b {
          made = put c (record k { events = k.events ++ event ∷ [] }) b.made;
        } in
        let step : offer b event c ≡ kept = ground (arith, n, room) in
        rw step (record {
          sets = λ a d. ground (arith, n, h.sets a d, get-delete c d b.made, ==_iff c d);
          open_ones = λ d. ground (arith, n, h.open_ones d, get-delete c d b.made, ==_iff c d);
        })
  ]
]

offer_all-Agrees :
    (b : Broker) (event : SseEvent) (cs : List ℕ) → Agrees b → Agrees (offer_all b event cs)
unfolding offer_all
offer_all-Agrees b event [] h = h
offer_all-Agrees b event (c ∷ cs) h =
    offer_all-Agrees (offer b event c) event cs (offer-Agrees b event c h)

receive-Agrees : (b : Broker) (c : ℕ) → Agrees b → Agrees (receive b c)
unfolding receive receive_made
receive-Agrees b c h = record {
  sets = λ a d. ground (arith, h.sets a d, get-delete c d b.made, ==_iff c d);
  open_ones = λ d. ground (arith, h.open_ones d, get-delete c d b.made, ==_iff c d);
}

-- One step of the broker. A client that subscribes is new. Publish takes the clients of an audience with the
-- mutex and offers the event to each without it, so other steps come between its offers.
pub data Step : Broker → Broker → Type 0 where
  subscribes :
      {b : Broker} (c : ℕ) (audiences : List String)
      → get c b.made ≡ none
      → Step b (add b c audiences)
  drops : {b : Broker} (c : ℕ) → Step b (drop b c)
  offers : {b : Broker} (event : SseEvent) (c : ℕ) → Step b (offer b event c)
  receives : {b : Broker} (c : ℕ) → Step b (receive b c)
  publishes :
      {b : Broker} (audience : String) (event : SseEvent) → Step b (publish b audience event)

pub data Reaches : Broker → Broker → Type 0 where
  here : {b : Broker} → Reaches b b
  then_step : {a b c : Broker} → Reaches a b → Step b c → Reaches a c

Step-Agrees : {b b' : Broker} → Step b b' → Agrees b → Agrees b'
unfolding publish
Step-Agrees (Step.subscribes c audiences new) h = add-Agrees _ c audiences new h
Step-Agrees (Step.drops c) h = drop-Agrees _ c h
Step-Agrees (Step.offers event c) h = offer-Agrees _ event c h
Step-Agrees (Step.receives c) h = receive-Agrees _ c h
Step-Agrees (Step.publishes {b} audience event) h =
    offer_all-Agrees b event (members audience b.by_aud) h

Agrees-Reaches : {b b' : Broker} → Reaches b b' → Agrees b → Agrees b'
Agrees-Reaches Reaches.here h = h
Agrees-Reaches (Reaches.then_step r s) h = Step-Agrees s (Agrees-Reaches r h)

new_broker-Agrees : Agrees new_broker
new_broker-Agrees = record { sets = λ a c. ground arith; open_ones = λ c. ground arith }

-- Whatever clients subscribe, receive, are dropped and are published to since the broker is made, in any order
-- and with other steps between the offers of one Publish, the sets by audience hold exactly the registered
-- clients under their audiences, and no registered client is closed.
pub Reaches-Agrees : {b : Broker} → Reaches new_broker b → Agrees b
Reaches-Agrees r = Agrees-Reaches r new_broker-Agrees

drop-other : (b : Broker) (c d : ℕ) → (c == d) ≡ false → get d (drop b c).made ≡ get d b.made
unfolding drop drop_made
drop-other b c d n = ground (arith, n, get-delete c d b.made)

offer-other :
    (b : Broker) (event : SseEvent) (c d : ℕ)
    → (c == d) ≡ false
    → get d (offer b event c).made ≡ get d b.made
unfolding offer offer_made
offer-other b event c d n = ground (arith, n, get-delete c d b.made, drop-other b c d n)

offer_all-other :
    (b : Broker) (event : SseEvent) (cs : List ℕ) (d : ℕ)
    → is_in d cs ≡ false
    → get d (offer_all b event cs).made ≡ get d b.made
unfolding offer_all
offer_all-other b event [] d n = refl
offer_all-other b event (c ∷ cs) d n =
    let first : (c == d) ≡ false = ground (arith, n) in
    let rest : is_in d cs ≡ false = ground (arith, n) in
    offer_all-other (offer b event c) event cs d rest ∙ offer-other b event c d first

-- An event that is published to an audience is given to no client that did not ask for the audience: such a
-- client, its buffer included, is left as it was.
pub publish-private :
    (b : Broker) (audience : String) (event : SseEvent) (c : ℕ)
    → Agrees b
    → is_named audience (audiences_of (get c b.made)) ≡ false
    → get c (publish b audience event).made ≡ get c b.made
unfolding publish
publish-private b audience event c h stranger =
    let out : is_in c (members audience b.by_aud) ≡ false =
      ground (arith, h.sets audience c, stranger) in
    offer_all-other b event (members audience b.by_aud) c out
