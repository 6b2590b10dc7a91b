-- ===== src/Http/Tests.antt =====
-- The theorems of the front at a bucket that lets any origin read, as one that any header value suits.
use cubby.Base.{
  ◌≡◌, ◌⊎◌, refl, true, false, Option, none, some, [], ◌∷◌, ◌++◌, Text, codes, text_eq,
  if◌then◌else◌, map,
}
use cubby.Base.Str.{split_once, trim_start}
use cubby.Events.{Event, event, new}
use cubby.Keypath.Tests.{percent_encoding}
use cubby.Listing.Tokens.{from_utf8}
use cubby.Multipart.Tests.{plain}
use cubby.Store.CorsConfig.{domain_rule_from_dto, put_bucket_cors_handler}
use cubby.Store.CorsConfig.Tests.{json, any_origin, put_rules, accepted}
use cubby.Db.{open_empty}
use cubby.Db.Table.{key_eq}
use cubby.Store.{◌>>=◌}
use cubby.Store.Tests.{setup, world}
use cubby.Utf8.{as_bytes}
use cubby.Http.{
  HeaderRules, HttpRequest, HttpResponse, AppState, Served, S3Service, get_header, answered,
  header_str, parse_bucket_key,
}
use cubby.Http.Answers.{apply_actual_cors, log_and_serve_s3}
use cubby.Http.Preflight.{parse_request_headers, maybe_preflight}
use cubby.Http.Verdicts.{AnswersBy}
use cubby.Http.Browser.{apply_actual_cors-maybe_preflight, maybe_preflight-put_bucket_cors_handler}
use cubby.Http.Recording.{status_of, code_of, body_of, sent_body, log_and_serve_s3_records}

abbrev pub any_value : HeaderRules
any_value = record { is_visible = λ v. true; is_value = λ v. true }

abbrev asked : Text → Option Text
asked name =
    if text_eq name (codes "origin")
    then some (codes "http://a")
    else if text_eq name (codes "access-control-request-method")
    then some (codes "GET")
    else none

abbrev preflight : HttpRequest
preflight = record { method = codes "OPTIONS"; path = codes "/b/k"; query = none; headers = asked }

abbrev state : AppState
state = record { db = put_rules.1.db; db_fails = false; events = new }

from_origin :
    header_str percent_encoding json any_value plain preflight (codes "origin")
    ≡ some (codes "http://a")
unfolding text_eq
from_origin = refl

by_method :
    header_str percent_encoding json any_value plain preflight
      (codes "access-control-request-method")
    ≡ some (codes "GET")
unfolding text_eq
by_method = refl

target :
    parse_bucket_key percent_encoding json any_value plain (codes "/b/k")
    ≡ (some (codes "b"), some (codes "k"))
unfolding parse_bucket_key trim_start split_once from_utf8 as_bytes
target = refl

maybe_preflight-put_bucket_cors_handler_example :
    let requested =
      parse_request_headers percent_encoding json any_value plain
        (asked (codes "access-control-request-headers")) in
    AnswersBy percent_encoding json any_value plain
      (map domain_rule_from_dto (any_origin ∷ []))
      (codes "http://a")
      (codes "GET")
      requested
      (codes "b")
      (some (codes "k"))
      state
      (maybe_preflight percent_encoding json any_value plain 0 preflight state)
maybe_preflight-put_bucket_cors_handler_example =
    maybe_preflight-put_bucket_cors_handler percent_encoding json any_value plain setup
      (any_origin ∷ []) world 0 preflight state (codes "http://a") (codes "GET") (codes "b")
      (some (codes "k")) tt accepted refl refl from_origin by_method target

abbrev granted : HttpResponse
granted = record {
  status = 204;
  headers =
      (codes "access-control-allow-origin", codes "*")
      ∷ (codes "access-control-allow-methods", codes "GET")
      ∷ (codes "access-control-max-age", 60 ∷ [])
      ∷ [];
  body = some [];
}

passed :
    (maybe_preflight percent_encoding json any_value plain 0 preflight state).0 ≡ answered granted
unfolding text_eq maybe_preflight put_bucket_cors_handler ◌>>=◌ key_eq json
passed = refl

abbrev not_found : HttpResponse
not_found = record {
  status = 404;
  headers = [];
  body = some (as_bytes (codes "<Code>NoSuchKey</Code>"));
}

apply_actual_cors-maybe_preflight_example :
    let actual =
      apply_actual_cors percent_encoding json any_value plain not_found state
        (some (codes "b"))
        (some (codes "http://a"))
        (codes "GET") in
    (allowed : Text) × (get_header (codes "access-control-allow-origin") actual.headers
      ≡ some allowed)
    × ((allowed ≡ codes "*") ⊎ (allowed ≡ codes "http://a"))
    × (actual.status ≡ 404)
    × (actual.body ≡ not_found.body)
apply_actual_cors-maybe_preflight_example =
    apply_actual_cors-maybe_preflight percent_encoding json any_value plain 0 preflight state state
      (codes "http://a") (codes "GET") (codes "b") (some (codes "k")) granted not_found refl
      from_origin by_method target passed refl refl

abbrev served : Served
served = record {
  response = some not_found;
  op = some (codes "GetObject");
  auth = none;
  bytes_in = 0;
  duration_ms = 1;
}

-- A service that drops the bucket's configuration before it answers.
abbrev call : S3Service
call request before = (served, record before { db = open_empty })

log_and_serve_s3_records_example :
    let out = log_and_serve_s3 percent_encoding json any_value plain call 0 preflight state in
    (ev : Event) × (out.1.events.sent ≡ [] ++ event ev ∷ [])
    × (ev.id ≡ 1)
    × (ev.method ≡ codes "OPTIONS")
    × ((ev.bucket, ev.key) ≡ parse_bucket_key percent_encoding json any_value plain (codes "/b/k"))
    × (ev.status ≡ 404)
    × (ev.error_code ≡ code_of (some not_found))
    × (status_of out.0 ≡ some 404)
    × (sent_body out.0 ≡ body_of (some not_found))
    × (out.1.db ≡ open_empty)
log_and_serve_s3_records_example =
    log_and_serve_s3_records percent_encoding json any_value plain call 0 preflight state
