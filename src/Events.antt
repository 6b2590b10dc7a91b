-- ===== src/Events.antt =====
-- src/events.rs: the bus of captured requests: a ring for replay and a channel for live subscribers.
pub mod Shown
pub mod Feeds
pub mod Tests
use cubby.Base.{
  ℕ, zero, suc, ◌+◌, ◌-◌, ◌%◌, ◌^◌, ◌≤◌, ◌≡◌, Bool, true, false, not, ◌&&◌, ◌||◌, Option, none,
  some, List, [], ◌∷◌, ◌++◌, Text, ltb, ◌==◌, if◌then◌else◌, filter, length, drop,
}

pub data Auth : Type 0 where
  header presigned anonymous : Auth

pub record EventDraft : Type 0 where
  pub method : Text
  pub op : Option Text
  pub bucket : Option Text
  pub key : Option Text
  pub status : ℕ
  pub duration_ms : ℕ
  pub bytes_in : ℕ
  pub bytes_out : ℕ
  pub auth : Auth
  pub error_code : Option Text
  pub note : Option Text

pub record Event : Type 0 where
  pub id : ℕ
  pub ts : ℕ
  pub method : Text
  pub op : Option Text
  pub bucket : Option Text
  pub key : Option Text
  pub status : ℕ
  pub duration_ms : ℕ
  pub bytes_in : ℕ
  pub bytes_out : ℕ
  pub auth : Auth
  pub error_code : Option Text
  pub note : Option Text

pub data BusSignal : Type 0 where
  event : Event → BusSignal
  clear : BusSignal

-- `Inner`: the channel is the list of all that was sent on it, so that a receiver is the position
-- from which it reads. What the channel still keeps of it is the matter of `Broadcast`.
pub record Inner : Type 0 where
  pub sent : List BusSignal
  pub ring : List Event
  pub next_id : ℕ
  pub capacity : ℕ

abbrev pub ring_capacity : ℕ
ring_capacity = 1000

abbrev pub channel_capacity : ℕ
channel_capacity = 1024

abbrev pub with_capacity : ℕ → Inner
with_capacity capacity = record { sent = []; ring = []; next_id = 1; capacity = capacity }

abbrev pub new : Inner
new = with_capacity ring_capacity

-- The two parts of `emit`: the stamp, outside the lock, and what is done under the lock.
abbrev pub stamp : ℕ → ℕ → EventDraft → Event
stamp id ts draft = record {
  id = id;
  ts = ts;
  method = draft.method;
  op = draft.op;
  bucket = draft.bucket;
  key = draft.key;
  status = draft.status;
  duration_ms = draft.duration_ms;
  bytes_in = draft.bytes_in;
  bytes_out = draft.bytes_out;
  auth = draft.auth;
  error_code = draft.error_code;
  note = draft.note;
}

-- `self.inner.next_id.fetch_add(1, …)`, with what a `u64` wraps to.
abbrev pub fetch_add : Inner → Inner
fetch_add bus = record bus { next_id = (bus.next_id + 1) % 2 ^ 64 }

abbrev pub pop_front : List Event → List Event
pop_front [] = []
pop_front (e ∷ ring) = ring

unfoldable pub record_event : Event → Inner → Inner
record_event ev bus = record bus {
  ring = (if length bus.ring == bus.capacity then pop_front bus.ring else bus.ring) ++ ev ∷ [];
  sent = bus.sent ++ event ev ∷ [];
}

unfoldable pub emit : ℕ → EventDraft → Inner → Event × Inner
unfolding record_event
emit now draft bus = let ev = stamp bus.next_id now draft in (ev, record_event ev (fetch_add bus))

unfoldable pub clear_ring : Inner → Inner
clear_ring bus = record bus { ring = []; sent = bus.sent ++ clear ∷ [] }

-- `after.is_none_or(|a| e.id > a)`
abbrev pub is_after : Option ℕ → Event → Bool
is_after none e = true
is_after (some a) e = ltb a e.id

-- The backlog, and the receiver as its position.
unfoldable pub subscribe : Option ℕ → Inner → List Event × ℕ
subscribe after bus = (filter (is_after after) bus.ring, length bus.sent)

-- What a receiver at a position is sent.
abbrev pub received : ℕ → Inner → List BusSignal
received position bus = drop position bus.sent

-- The channel of the crate tokio, `sync::broadcast`: what it documents of a receiver at a position of all
-- that was sent, which reads to the end. It keeps at least the newest signals up to its capacity; a
-- receiver that is further behind is told how many it lost, `RecvError::Lagged`, and goes on at the
-- oldest that is kept.
pub record Broadcast : Type 0 where
  pub read_all : ℕ → ℕ → List BusSignal → ℕ × List BusSignal
  pub keeps :
      (capacity position : ℕ) (sent : List BusSignal)
      → (read_all capacity position sent).0 ≤ length sent - capacity - position
  pub goes_on :
      (capacity position : ℕ) (sent : List BusSignal)
      → (read_all capacity position sent).1
        ≡ drop (position + (read_all capacity position sent).0) sent

-- The channel is made with `channel_capacity`.
unfoldable pub receive : Broadcast → ℕ → Inner → ℕ × List BusSignal
receive broadcast position bus = broadcast.read_all channel_capacity position bus.sent
