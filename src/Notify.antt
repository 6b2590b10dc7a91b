-- ===== src/Notify.antt =====
-- src/notify.rs: the events of object mutations, which webhook destinations they match, the check of a
-- destination and the delivery to the matching ones.
pub mod Matching
pub mod Delivery
pub mod Tests
use cubby.Base.{
  ℕ, zero, suc, ◌+◌, ◌%◌, ◌^◌, ◌≡◌, Bool, true, false, not, ◌&&◌, ◌||◌, Option, none, some, List,
  [], ◌∷◌, ◌++◌, Text, codes, text_eq, starts_with, ends_with, if◌then◌else◌, any, find, is_empty,
  max, ◌==◌,
}
use cubby.Db.{Db, NotificationRow, list_bucket_notifications}
use cubby.Events.{Event, EventDraft, Inner, Auth, anonymous, emit}

pub data EventKind : Type 0 where
  put copy complete_multipart_upload delete : EventKind

abbrev pub event_name : EventKind → Text
event_name put = codes "ObjectCreated:Put"
event_name copy = codes "ObjectCreated:Copy"
event_name complete_multipart_upload = codes "ObjectCreated:CompleteMultipartUpload"
event_name delete = codes "ObjectRemoved:Delete"

abbrev pub qualified_name : EventKind → Text
qualified_name put = codes "s3:ObjectCreated:Put"
qualified_name copy = codes "s3:ObjectCreated:Copy"
qualified_name complete_multipart_upload = codes "s3:ObjectCreated:CompleteMultipartUpload"
qualified_name delete = codes "s3:ObjectRemoved:Delete"

abbrev pub is_created : EventKind → Bool
is_created delete = false
is_created put = true
is_created copy = true
is_created complete_multipart_upload = true

abbrev pub family : EventKind → Text
family kind = if is_created kind then codes "s3:ObjectCreated:*" else codes "s3:ObjectRemoved:*"

abbrev pub detail_type : EventKind → Text
detail_type kind = if is_created kind then codes "Object Created" else codes "Object Deleted"

abbrev pub reason : EventKind → Text
reason put = codes "PutObject"
reason copy = codes "CopyObject"
reason complete_multipart_upload = codes "CompleteMultipartUpload"
reason delete = codes "DeleteObject"

pub record ObjectEvent : Type 0 where
  pub bucket : Text
  pub key : Text
  pub kind : EventKind
  pub size : Option ℕ
  pub etag : Option Text

abbrev pub created : Text → Text → EventKind → ℕ → Text → ObjectEvent
created bucket key kind size etag = record {
  bucket = bucket;
  key = key;
  kind = kind;
  size = some size;
  etag = some etag;
}

abbrev pub removed : Text → Text → ObjectEvent
removed bucket key = record { bucket = bucket; key = key; kind = delete; size = none; etag = none }

abbrev pub known_events : List Text
known_events =
    codes "s3:ObjectCreated:*"
    ∷ codes "s3:ObjectCreated:Put"
    ∷ codes "s3:ObjectCreated:Copy"
    ∷ codes "s3:ObjectCreated:CompleteMultipartUpload"
    ∷ codes "s3:ObjectRemoved:*"
    ∷ codes "s3:ObjectRemoved:Delete"
    ∷ []

abbrev pub formats : List Text
formats = codes "s3-notification" ∷ codes "eventbridge" ∷ []

unfoldable pub event_subscribed : List Text → EventKind → Bool
event_subscribed events kind =
    any (λ e. text_eq e (qualified_name kind) || text_eq e (family kind)) events

-- `Option::is_none_or`
abbrev pub is_none_or : (Text → Bool) → Option Text → Bool
is_none_or f none = true
is_none_or f (some a) = f a

unfoldable pub key_passes_filters : Text → Option Text → Option Text → Bool
key_passes_filters key prefix suffix =
    is_none_or (λ p. starts_with key p) prefix && is_none_or (λ s. ends_with key s) suffix

unfoldable pub destination_matches : List Text → Option Text → Option Text → ObjectEvent → Bool
unfolding event_subscribed key_passes_filters
destination_matches events prefix suffix event =
    event_subscribed events event.kind && key_passes_filters event.key prefix suffix

abbrev pub contains : List Text → Text → Bool
contains texts t = any (λ s. text_eq s t) texts

-- The messages of `validate_destination`, with what they name; `none` is `Ok(())`. A timeout of no
-- positive number is 0 here.
pub data BadDestination : Type 0 where
  bad_url : Text → BadDestination
  no_events : BadDestination
  unknown_event : Text → BadDestination
  bad_format : Text → BadDestination
  bad_timeout : ℕ → BadDestination

abbrev pub or_unknown : Option Text → Option BadDestination → Option BadDestination
or_unknown (some bad) rest = some (unknown_event bad)
or_unknown none rest = rest

unfoldable pub validate_destination : Text → List Text → Text → ℕ → Option BadDestination
validate_destination url events format timeout_ms =
    if not (starts_with url (codes "http://"))
    then some (bad_url url)
    else if is_empty events
    then some no_events
    else or_unknown (find (λ e. not (contains known_events e)) events) (
        if not (contains formats format)
        then some (bad_format format)
        else if timeout_ms == 0
        then some (bad_timeout timeout_ms)
        else none)

pub data Outcome : Type 0 where
  status : ℕ → Outcome
  timeout : Outcome
  error : Text → Outcome

abbrev pub status_code : Outcome → ℕ
status_code (status code) = code
status_code timeout = 0
status_code (error e) = 0

-- What the notifier keeps: the number of the next delivery, and the bus. The network is what `post`
-- answers for a destination, with the time that it took; the clock is what `now` reads; `decimal` is
-- how a `u16` is printed.
pub record Notifier : Type 0 where
  pub seq : ℕ
  pub bus : Inner

pub record Outside : Type 0 where
  pub post : NotificationRow → ℕ → ObjectEvent → Outcome
  pub duration : NotificationRow → ℕ → ℕ
  pub now : ℕ → ℕ
  pub decimal : ℕ → Text

abbrev pub draft_of : ObjectEvent → ℕ → ℕ → Text → EventDraft
draft_of event code duration_ms line = record {
  method = codes "POST";
  op = some (codes "Webhook");
  bucket = some event.bucket;
  key = some event.key;
  status = code;
  duration_ms = duration_ms;
  bytes_in = 0;
  bytes_out = 0;
  auth = anonymous;
  error_code = none;
  note = some line;
}

module _ (outside : Outside) where
  abbrev pub label : Outcome → Text
  label (status code) = outside.decimal code
  label timeout = codes "timeout"
  label (error e) = codes "error: " ++ e

  -- The line of the log on a delivery.
  abbrev pub note_of : Text → Outcome → Text
  note_of url outcome = codes "→ webhook " ++ url ++ codes " " ++ label outcome

  -- One POST, numbered, and its line on the bus. The payload is a function of the row, the number and
  -- the event, so `post` takes these.
  unfoldable pub deliver_one : NotificationRow → ObjectEvent → Notifier → Notifier
  unfolding emit
  deliver_one row event n =
      let outcome = outside.post row n.seq event in
      let line = note_of row.draft.url outcome in
      let draft = draft_of event (status_code outcome) (outside.duration row n.seq) line in
      record { seq = (n.seq + 1) % 2 ^ 64; bus = (emit (outside.now n.bus.next_id) draft n.bus).1 }

  abbrev pub row_matches : ObjectEvent → NotificationRow → Bool
  row_matches event row =
      destination_matches row.draft.events row.draft.prefix row.draft.suffix event

  -- The loop over the bucket's rows.
  unfoldable pub deliver_rows : List NotificationRow → ObjectEvent → Notifier → Notifier
  unfolding deliver_one destination_matches
  deliver_rows [] event n = n
  deliver_rows (row ∷ rows) event n =
      let rest = deliver_rows rows event in
      if row_matches event row then rest (deliver_one row event n) else rest n

  -- `fails`: the read of the rows gives an error of SQLite, or its task is lost.
  unfoldable pub deliver_all : Bool → Db → ObjectEvent → Notifier → Notifier
  unfolding deliver_rows list_bucket_notifications
  deliver_all fails db event n =
      if fails then n else deliver_rows (list_bucket_notifications event.bucket db) event n
