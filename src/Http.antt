-- ===== src/Http.antt =====
-- src/http.rs: where a request goes, the CORS preflight, the CORS headers of an answer, and the event
-- that each request leaves on the bus. The printed line is left out.
pub mod Preflight
pub mod Answers
pub mod Routing
pub mod Headers
pub mod Verdicts
pub mod Decided
pub mod Browser
pub mod Recording
pub mod Tests
use cubby.Base.{
  ℕ, zero, suc, ◌+◌, ◌-◌, ◌*◌, ◌^◌, ◌≡◌, Bool, true, false, not, ◌&&◌, ◌||◌, Option, none, some,
  List, [], ◌∷◌, ◌++◌, Text, codes, text_eq, starts_with, strip_prefix, leb, ltb, ◌==◌,
  if◌then◌else◌, map, filter, any, find, is_empty, is_some, unwrap_or, length,
}
use cubby.Base.Str.{split, split_once, join, trim, trim_start, to_ascii_lowercase}
use cubby.Utf8.{as_bytes}
use cubby.Keypath.{PercentEncoding, ◌>>=◌}
use cubby.Listing.Tokens.{from_utf8}
use cubby.Multipart.{Digests}
use cubby.Cors.{CorsRule, PreflightGrant, ActualGrant, match_preflight, match_actual}
use cubby.Events.{Auth, anonymous, EventDraft, Inner, emit}
use cubby.Db.{Db, get_bucket_cors}
use cubby.Store.CorsConfig.{RulesJson}

-- The crate http: what `HeaderValue::from_str` and `to_str` take, and what a builder's `header` takes.
pub record HeaderRules : Type 0 where
  pub is_visible : Text → Bool
  pub is_value : Text → Bool

-- A header is asked for by its lowercase name.
pub record HttpRequest : Type 0 where
  pub method : Text
  pub path : Text
  pub query : Option Text
  pub headers : Text → Option Text

-- A body is `none` if it fails while it is read.
pub record HttpResponse : Type 0 where
  pub status : ℕ
  pub headers : List (Text × Text)
  pub body : Option Text

-- `db_fails` says whether a read of the database fails.
pub record AppState : Type 0 where
  pub db : Db
  pub db_fails : Bool
  pub events : Inner

-- `HeaderMap::get`, `insert` and `append`.
abbrev value_of : Option (Text × Text) → Option Text
value_of none = none
value_of (some (name, value)) = some value

unfoldable pub get_header : Text → List (Text × Text) → Option Text
get_header name headers = value_of (find (λ h. text_eq h.0 name) headers)

unfoldable pub insert_header : Text → Text → List (Text × Text) → List (Text × Text)
insert_header name value headers =
    filter (λ h. not (text_eq h.0 name)) headers ++ (name, value) ∷ []

-- `str::find` of a text: what stands before it and behind it.
abbrev cut_at : ℕ → Option Text → Option (Text × Text) → Option (Text × Text)
cut_at c (some behind) later = some ([], behind)
cut_at c none none = none
cut_at c none (some (before, behind)) = some (c ∷ before, behind)

unfoldable pub cut : Text → Text → Option (Text × Text)
unfolding strip_prefix
cut needle [] = if is_empty needle then some ([], []) else none
cut needle (c ∷ s) = cut_at c (strip_prefix (c ∷ s) needle) (cut needle s)

-- `parse_error_code`: the text of the first `<Code>` element.
unfoldable pub parse_error_code : Text → Option Text
unfolding from_utf8 cut
parse_error_code xml = do
  text ← from_utf8 xml
  opened ← cut (codes "<Code>") text
  closed ← cut (codes "</Code>") opened.1
  some closed.0

-- `str::parse::<u64>`
abbrev is_digit : ℕ → Bool
is_digit c = leb b'0' c && leb c b'9'

abbrev digits_from : ℕ → Text → Option ℕ
digits_from n [] = if ltb n (2 ^ 64) then some n else none
digits_from n (c ∷ s) =
    let rest = digits_from (n * 10 + (c - b'0')) s in if is_digit c then rest else none

abbrev pub parse_u64 : Text → Option ℕ
parse_u64 [] = none
parse_u64 (c ∷ []) = if c == b'+' then none else digits_from 0 (c ∷ [])
parse_u64 (c ∷ d ∷ s) =
    let rest = digits_from 0 (d ∷ s) in if c == b'+' then rest else digits_from 0 (c ∷ d ∷ s)

-- `is_browser_probe`
abbrev pub is_browser_probe : Text → Bool
is_browser_probe path =
    text_eq path (codes "/favicon.ico") || starts_with path (codes "/.well-known/")

abbrev pub is_ui_path : Text → Bool
is_ui_path path =
    text_eq path (codes "/_") || text_eq path (codes "/_/") || starts_with path (codes "/_/")

-- `pair.split('=').next()`
abbrev first_piece : Text → List Text → Text
first_piece other [] = other
first_piece other (piece ∷ pieces) = piece

abbrev has_sigv4_query : Option Text → Bool
has_sigv4_query none = false
has_sigv4_query (some q) =
    any (λ pair. starts_with (first_piece pair (split b'=' pair)) (codes "X-Amz-")) (split b'&' q)

-- `preflight_refused_response`
abbrev pub preflight_refused_response : HttpResponse
preflight_refused_response = record {
  status = 403;
  headers = (codes "content-type", codes "application/xml") ∷ [];
  body = some (
      as_bytes (
        codes
          "<?xml version=\"1.0\" encoding=\"UTF-8\"?><Error><Code>AccessForbidden</Code><Message>CORSResponse: This CORS request is not allowed. This is usually because the evaluation of Origin, request method / Access-Control-Request-Method or Access-Control-Request-Headers are not whitelisted by the resource's CORS spec.</Message></Error>"));
}

abbrev pub empty_status : ℕ → HttpResponse
empty_status status = record { status = status; headers = []; body = some [] }

abbrev pub redirect_to_ui : HttpResponse
redirect_to_ui = record {
  status = 302;
  headers = (codes "location", codes "/_/") ∷ [];
  body = some [];
}

-- `maybe_preflight` falls through, answers, or panics.
pub data Handled : Type 0 where
  fallen_through : Handled
  answered : HttpResponse → Handled
  panicked : Handled

-- Where `Router::call` sends a request.
pub data Route : Type 0 where
  to_ui : Route
  to_s3 : Route
  answer : HttpResponse → Route
  dropped : Route

-- What the `s3s` service did with a request: its answer, what the access hook captured, and the
-- measures.
pub record Served : Type 0 where
  pub response : Option HttpResponse
  pub op : Option Text
  pub auth : Option Auth
  pub bytes_in : ℕ
  pub duration_ms : ℕ

-- The service: the crate s3s over the store. It changes the tables, and the notifier puts its lines on
-- the bus.
abbrev pub S3Service : Type 0
S3Service = HttpRequest → AppState → Served × AppState

module _ (pe : PercentEncoding) (json : RulesJson) (rules : HeaderRules) (digests : Digests) where
  open rules use {is_visible, is_value}

  abbrev pub visible : Option Text → Option Text
  visible none = none
  visible (some value) = if is_visible value then some value else none

  -- `headers.get(name)` with `to_str`.
  abbrev pub header_str : HttpRequest → Text → Option Text
  header_str request name = visible (request.headers name)

  -- `pct_decode`: what the lossy decoding gives is UTF-8.
  abbrev pub pct_decode : Text → Text
  pct_decode s = unwrap_or (from_utf8 (pe.utf8_lossy (pe.percent_decode (as_bytes s)))) []

  abbrev bucket_and_key : Text → Option (Text × Text) → Option Text × Option Text
  bucket_and_key trimmed none = (some (pct_decode trimmed), none)
  bucket_and_key trimmed (some (b, k)) =
      (some (pct_decode b), if is_empty k then none else some (pct_decode k))

  unfoldable pub parse_bucket_key : Text → Option Text × Option Text
  unfolding trim_start split_once from_utf8 as_bytes
  parse_bucket_key path =
      let trimmed = trim_start (λ c. c == b'/') path in
      if is_empty trimmed then (none, none) else bucket_and_key trimmed (split_once b'/' trimmed)

  unfoldable pub looks_like_browser : HttpRequest → Bool
  unfolding cut split
  looks_like_browser request =
      elim (header_str request (codes "accept")) [
        | none ↦ false
        | some a ↦ is_some (cut (codes "text/html") a)
      ]
      && not (is_some (request.headers (codes "authorization")))
      && not (has_sigv4_query request.query)

  -- The rules of a bucket; whatever fails gives none.
  abbrev pub read_rules : Bool → Option Text → List CorsRule
  read_rules true stored = []
  read_rules false none = []
  read_rules false (some stored) = unwrap_or (json.parse_rules stored) []

  abbrev pub rules_of : AppState → Text → List CorsRule
  rules_of state bucket = read_rules state.db_fails (get_bucket_cors bucket state.db)

  -- `emit_event`
  abbrev pub emit_event : ℕ → EventDraft → AppState → AppState
  emit_event now draft state = record state { events = (emit now draft state.events).1 }
