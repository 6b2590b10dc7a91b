-- ===== src/Http/Preflight.antt =====
-- src/http.rs: the CORS preflight, answered before the signature is checked.
use cubby.Base.{
  ℕ, zero, suc, ◌+◌, ◌-◌, ◌*◌, ◌^◌, ◌≡◌, Bool, true, false, not, ◌&&◌, ◌||◌, Option, none, some,
  List, [], ◌∷◌, ◌++◌, Text, codes, text_eq, starts_with, strip_prefix, leb, ltb, ◌==◌,
  if◌then◌else◌, map, filter, any, find, is_empty, is_some, unwrap_or, length,
}
use cubby.Base.Str.{split, split_once, join, trim, trim_start, to_ascii_lowercase}
use cubby.Keypath.{PercentEncoding}
use cubby.Multipart.{Digests}
use cubby.Cors.{PreflightGrant, match_preflight}
use cubby.Events.{anonymous, EventDraft, emit}
use cubby.Db.{get_bucket_cors}
use cubby.Store.CorsConfig.{RulesJson}
use cubby.Http.{
  HeaderRules, HttpRequest, HttpResponse, AppState, preflight_refused_response, Handled,
  fallen_through, answered, panicked, header_str, parse_bucket_key, rules_of, emit_event,
}

module _ (pe : PercentEncoding) (json : RulesJson) (rules : HeaderRules) (digests : Digests) where
  open rules use {is_visible, is_value}

  abbrev header_names : Text → List Text
  header_names s =
      filter (λ h. not (is_empty h)) (map (λ h. to_ascii_lowercase (trim h)) (split b',' s))

  unfoldable pub parse_request_headers : Option Text → List Text
  unfolding split trim_start cubby.Base.Str.trim_end to_ascii_lowercase
  parse_request_headers none = []
  parse_request_headers (some value) = if is_visible value then header_names value else []

  -- A header of the builder that is left out where there is nothing to say.
  abbrev list_header : Text → List Text → List (Text × Text)
  list_header name [] = []
  list_header name (h ∷ hs) = (name, join (codes ", ") (h ∷ hs)) ∷ []

  abbrev max_age_header : Option ℕ → List (Text × Text)
  max_age_header none = []
  max_age_header (some n) = (codes "access-control-max-age", digests.decimal n) ∷ []

  abbrev pub vary_header : Bool → List (Text × Text)
  vary_header true = (codes "vary", codes "Origin") ∷ []
  vary_header false = []

  abbrev pub granted_headers : PreflightGrant → List (Text × Text)
  granted_headers g =
      (codes "access-control-allow-origin", g.allow_origin)
        ∷ (codes "access-control-allow-methods", join (codes ", ") g.allow_methods)
        ∷ list_header (codes "access-control-allow-headers") g.allow_headers
      ++ max_age_header g.max_age_seconds
      ++ list_header (codes "access-control-expose-headers") g.expose_headers
      ++ vary_header g.vary_origin

  -- `none` is the panic of the builder on a value that is none of a header.
  unfoldable pub preflight_grant_response : PreflightGrant → Option HttpResponse
  unfolding join
  preflight_grant_response g =
      if any (λ h. not (is_value h.1)) (granted_headers g)
      then none
      else some record { status = 204; headers = granted_headers g; body = some [] }

  abbrev preflight_draft : Text → Text → Text → Option Text → ℕ → Text → EventDraft
  preflight_draft origin method bucket key status verdict = record {
    method = codes "OPTIONS";
    op = some (codes "Preflight");
    bucket = some bucket;
    key = key;
    status = status;
    duration_ms = 0;
    bytes_in = 0;
    bytes_out = 0;
    auth = anonymous;
    error_code = none;
    note =
        some
          (codes "preflight " ++ verdict ++ codes " · origin " ++ origin ++ codes " · " ++ method);
  }

  abbrev grant_or_panic :
      ℕ → Text → Text → Text → Option Text → AppState → Option HttpResponse → Handled × AppState
  grant_or_panic now origin method bucket key state none = (panicked, state)
  grant_or_panic now origin method bucket key state (some response) = (
    answered response,
    emit_event pe json rules digests now
        (preflight_draft origin method bucket key 204 (codes "allowed")) state,
  )

  abbrev pub answer_preflight :
      ℕ → Text → Text → Text → Option Text → AppState → Option PreflightGrant → Handled × AppState
  answer_preflight now origin method bucket key state none = (
    answered preflight_refused_response,
    emit_event pe json rules digests now
        (preflight_draft origin method bucket key 403 (codes "rejected")) state,
  )
  answer_preflight now origin method bucket key state (some g) =
      grant_or_panic now origin method bucket key state (preflight_grant_response g)

  abbrev preflight_for :
      ℕ
      → HttpRequest
      → AppState
      → Option Text
      → Option Text
      → Option Text × Option Text
      → Handled × AppState
  preflight_for now request state none method target = (fallen_through, state)
  preflight_for now request state (some origin) none target = (fallen_through, state)
  preflight_for now request state (some origin) (some method) (none, key) = (fallen_through, state)
  preflight_for now request state (some origin) (some method) (some bucket, key) =
      let requested =
        parse_request_headers (request.headers (codes "access-control-request-headers")) in
      answer_preflight now origin method bucket key state
        (match_preflight (rules_of pe json rules digests state bucket) origin method requested)

  unfoldable pub maybe_preflight : ℕ → HttpRequest → AppState → Handled × AppState
  unfolding parse_bucket_key parse_request_headers preflight_grant_response match_preflight
      get_bucket_cors emit
  maybe_preflight now request state =
      preflight_for now request state (header_str pe json rules digests request (codes "origin"))
        (header_str pe json rules digests request (codes "access-control-request-method"))
        (parse_bucket_key pe json rules digests request.path)
