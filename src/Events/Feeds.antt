-- ===== src/Events/Feeds.antt =====
-- What the ring holds, and what a subscriber sees of it.
use cubby.Base.{
  ℕ, zero, suc, ◌+◌, ◌-◌, ◌⊎◌, ◌∙◌, ◌≤◌, ◌<◌, ◌≡◌, refl, sym, ap, inl, inr, none, List, [], ◌∷◌,
  ◌++◌, append-nil, ◌==◌, ==_sound, if◌then◌else◌, filter, length, drop, arith, length-append,
  length-drop, drop-length, Bool-cases,
}
use cubby.Events.Shown.{shown, newest, shown-append, drop_under, shown-drop, drop_nothing, drop_add}
use cubby.Events.{
  Event, BusSignal, event, clear, Inner, fetch_add, pop_front, record_event, clear_ring, is_after,
  subscribe, received, receive, Broadcast, channel_capacity,
}

-- What happens on a bus. The stamp of an event stands apart from its recording, since `emit` takes
-- the lock after it has drawn the id: other threads may act between the two.
pub data Action : Type 0 where
  draw_id : Action
  record_it : Event → Action
  clear_it : Action

abbrev pub act : Action → Inner → Inner
act draw_id bus = fetch_add bus
act (record_it e) bus = record_event e bus
act clear_it bus = clear_ring bus

abbrev pub run : List Action → Inner → Inner
run [] bus = bus
run (a ∷ actions) bus = run actions (act a bus)

pop_front-drop : (n : ℕ) (xs : List Event) → pop_front (drop n xs) ≡ drop (suc n) xs
pop_front-drop zero [] = refl
pop_front-drop zero (x ∷ xs) = refl
pop_front-drop (suc n) [] = refl
pop_front-drop (suc n) (x ∷ xs) = pop_front-drop n xs

-- Recording an event moves the window of the newest by one.
newest-record :
    (capacity : ℕ) (events : List Event) (e : Event)
    → 1 ≤ capacity
    → (if length (newest capacity events) == capacity
          then pop_front (newest capacity events)
          else newest capacity events)
        ++ e ∷ []
      ≡ newest capacity (events ++ e ∷ [])
newest-record capacity events e h =
    let l = length-drop (length events - capacity) events in
    let m = length-append events (e ∷ []) in
    elim (Bool-cases (length (newest capacity events) == capacity)) [
      | inl full ↦
          let same = ==_sound (length (newest capacity events)) capacity full in
          let long : capacity ≤ length events = omega arith in
          let step : length (events ++ e ∷ []) - capacity ≡ suc (length events - capacity) =
            omega arith in
          rw (full, pop_front-drop (length events - capacity) events, step)
            (sym (drop_under (suc (length events - capacity)) events (e ∷ []) (omega arith)))
      | inr room ↦
          let short : length events < capacity = ground (arith, l) in
          let none_old : length events - capacity ≡ 0 = omega arith in
          let none_new : length (events ++ e ∷ []) - capacity ≡ 0 = omega arith in
          rw (room, none_old, none_new) refl
    ]

-- The ring of a bus mirrors what a consumer with the same start shows, as far as it has room.
pub record Mirrors (start : List Event) (position : ℕ) (bus : Inner) : Type 0 where
  pub room : 1 ≤ bus.capacity
  pub since : position ≤ length bus.sent
  pub mirror : bus.ring ≡ newest bus.capacity (shown start (received position bus))

act-Mirrors :
    (start : List Event) (position : ℕ) (a : Action) (bus : Inner)
    → Mirrors start position bus
    → Mirrors start position (act a bus)
unfolding record_event clear_ring
act-Mirrors start position draw_id bus m = record {
  room = m.room;
  since = m.since;
  mirror = m.mirror;
}
act-Mirrors start position (record_it e) bus m = record {
  room = m.room;
  since = omega (arith, length-append bus.sent (event e ∷ []), m.since);
  mirror =
      rw
        (
          drop_under position bus.sent (event e ∷ []) m.since,
          shown-append start (received position bus) (event e ∷ []),
        )
        (rw m.mirror (newest-record bus.capacity (shown start (received position bus)) e m.room));
}
act-Mirrors start position clear_it bus m = record {
  room = m.room;
  since = omega (arith, length-append bus.sent (clear ∷ []), m.since);
  mirror =
      rw
        (
          drop_under position bus.sent (clear ∷ []) m.since,
          shown-append start (received position bus) (clear ∷ []),
        )
        (sym (drop_nothing (0 - bus.capacity)));
}

run-Mirrors :
    (start : List Event) (position : ℕ) (actions : List Action) (bus : Inner)
    → Mirrors start position bus
    → Mirrors start position (run actions bus)
run-Mirrors start position [] bus m = m
run-Mirrors start position (a ∷ actions) bus m =
    run-Mirrors start position actions (act a bus) (act-Mirrors start position a bus m)

filter_all : (events : List Event) → filter (is_after none) events ≡ events
filter_all [] = refl
filter_all (e ∷ events) = ap (λ r. e ∷ r) (filter_all events)

drop_whole : (signals : List BusSignal) → drop (length signals) signals ≡ []
drop_whole signals = rw (append-nil signals) at (drop-length signals [])

newest_all : (n : ℕ) (events : List Event) → length events ≤ n → newest n events ≡ events
newest_all n events h = let none_old : length events - n ≡ 0 = omega arith in rw none_old refl

run-capacity : (actions : List Action) (bus : Inner) → (run actions bus).capacity ≡ bus.capacity
unfolding record_event clear_ring
run-capacity [] bus = refl
run-capacity (draw_id ∷ actions) bus = run-capacity actions (fetch_add bus)
run-capacity (record_it e ∷ actions) bus = run-capacity actions (record_event e bus)
run-capacity (clear_it ∷ actions) bus = run-capacity actions (clear_ring bus)

-- A receiver that lost signals still has as many as the channel keeps.
lost-enough :
    (missed position : ℕ) (bus : Inner)
    → missed ≤ length bus.sent - channel_capacity - position
    → bus.capacity ≤ channel_capacity
    → (missed ≡ 0) ⊎ (bus.capacity ≤ length (drop missed (received position bus)))
lost-enough missed position bus keeps fits = elim (Bool-cases (missed == 0)) [
  | inl e ↦ inl (==_sound missed 0 e)
  | inr e ↦
      let a = length-drop position bus.sent in
      let b = length-drop missed (received position bus) in inr (ground (arith, a, b))
]

-- Nothing slips between the backlog of a subscriber without a `Last-Event-ID` and its live feed: whatever
-- other threads do after it, in any order of their draws of ids, records and clears, the backlog with the
-- signals that its receiver then reads applied to it shows the ring at that time, up to the capacity. The
-- signals sent since are those that it is told to have lost, none unless it is more than the channel's 1024
-- behind, and those that it reads. The capacity is one of 1 to 1024, as the program's 1000 is, and the ring
-- is within it.
pub subscribe-no_gap :
    (broadcast : Broadcast) (bus : Inner) (actions : List Action)
    → 1 ≤ bus.capacity
    → bus.capacity ≤ channel_capacity
    → length bus.ring ≤ bus.capacity
    → let later = run actions bus in
      let (backlog, position) = subscribe none bus in
      let (missed, signals) = receive broadcast position later in
      (later.ring ≡ newest later.capacity (shown backlog signals))
      × (length later.sent ≡ position + missed + length signals)
      × (missed ≤ length later.sent - position - 1024)
unfolding subscribe receive
subscribe-no_gap broadcast bus actions room fits within =
    let later = run actions bus in
    let position = length bus.sent in
    let backlog = filter (is_after none) bus.ring in
    let m = run-Mirrors backlog position actions bus record {
      room = room;
      since = omega arith;
      mirror =
          rw (filter_all bus.ring, drop_whole bus.sent)
            (sym (newest_all bus.capacity bus.ring within));
    } in
    let missed = (receive broadcast position later).0 in
    let keeps = broadcast.keeps channel_capacity position later.sent in
    let goes_on = broadcast.goes_on channel_capacity position later.sent in
    let enough = lost-enough missed position later keeps (rw (run-capacity actions bus) fits) in
    let parts = goes_on ∙ drop_add position missed later.sent in
    (
      m.mirror
          ∙ shown-drop later.capacity missed backlog (received position later) enough
          ∙ ap (λ s. newest later.capacity (shown backlog s)) (sym parts),
      omega (arith, ap length goes_on, length-drop (position + missed) later.sent, m.since, keeps),
      omega (arith, keeps),
    )
