-- ===== src/Events/Tests.antt =====
-- The theorems of the event bus at a bus that holds two events.
use cubby.Base.{refl, drop, ◌+◌, ◌-◌, ◌≤◌, ◌≡◌, none, List, [], ◌∷◌, codes, length, arith}
use cubby.Events.{EventDraft, anonymous, stamp, with_capacity, subscribe, receive, Broadcast}
use cubby.Events.Shown.{shown, newest}
use cubby.Events.Feeds.{Action, draw_id, record_it, run, subscribe-no_gap}

abbrev draft : EventDraft
draft = record {
  method = codes "GET";
  op = none;
  bucket = none;
  key = none;
  status = 200;
  duration_ms = 1;
  bytes_in = 0;
  bytes_out = 0;
  auth = anonymous;
  error_code = none;
  note = none;
}

abbrev actions : List Action
actions =
    draw_id
    ∷ record_it (stamp 1 0 draft)
    ∷ draw_id
    ∷ record_it (stamp 2 0 draft)
    ∷ record_it (stamp 3 0 draft)
    ∷ []

-- A channel that keeps as much as its capacity and no more.
abbrev exact : Broadcast
exact = record {
  read_all = λ capacity position sent. (
    length sent - capacity - position,
    drop (position + (length sent - capacity - position)) sent,
  );
  keeps = λ capacity position sent. omega arith;
  goes_on = λ capacity position sent. refl;
}

subscribe-no_gap_example :
    let later = run actions (with_capacity 2) in
    let (backlog, position) = subscribe none (with_capacity 2) in
    let (missed, signals) = receive exact position later in
    (later.ring ≡ newest later.capacity (shown backlog signals))
    × (length later.sent ≡ position + missed + length signals)
    × (missed ≤ length later.sent - position - 1024)
subscribe-no_gap_example =
    subscribe-no_gap exact (with_capacity 2) actions (omega arith) (omega arith) (omega arith)
