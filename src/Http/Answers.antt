-- ===== src/Http/Answers.antt =====
-- src/http.rs: what is added to an answer of the store, and the event that it leaves.
use cubby.Base.{
  ℕ, Bool, true, false, not, ◌&&◌, Option, none, some, List, [], ◌++◌, Text, codes, leb,
  if◌then◌else◌, is_empty, unwrap_or,
}
use cubby.Base.Str.{join}
use cubby.Keypath.{PercentEncoding, ◌>>=◌}
use cubby.Multipart.{Digests}
use cubby.Cors.{ActualGrant, match_actual}
use cubby.Events.{Auth, anonymous, EventDraft, emit}
use cubby.Db.{get_bucket_cors}
use cubby.Store.CorsConfig.{RulesJson}
use cubby.Http.{
  HeaderRules, HttpRequest, HttpResponse, AppState, get_header, insert_header, parse_error_code,
  parse_u64, Served, S3Service, visible, header_str, parse_bucket_key, rules_of, emit_event,
}
use cubby.Http.Preflight.{vary_header}

module _ (pe : PercentEncoding) (json : RulesJson) (rules : HeaderRules) (digests : Digests) where
  open rules use {is_visible, is_value}

  -- `apply_actual_cors`
  abbrev pub insert_if : Bool → Text → Text → List (Text × Text) → List (Text × Text)
  insert_if true name value headers = insert_header name value headers
  insert_if false name value headers = headers

  abbrev pub actual_headers : ActualGrant → List (Text × Text) → List (Text × Text)
  actual_headers grant headers =
      let exposed = join (codes ", ") grant.expose_headers in
      insert_if (not (is_empty grant.expose_headers) && is_visible exposed)
        (codes "access-control-expose-headers") exposed
        (insert_if (is_visible grant.allow_origin) (codes "access-control-allow-origin")
          grant.allow_origin headers)
      ++ vary_header pe json rules digests grant.vary_origin

  abbrev pub with_grant : HttpResponse → Option ActualGrant → HttpResponse
  with_grant response none = response
  with_grant response (some grant) = record response {
    headers = actual_headers grant response.headers;
  }

  unfoldable pub apply_actual_cors :
      HttpResponse → AppState → Option Text → Option Text → Text → HttpResponse
  unfolding match_actual insert_header join get_bucket_cors
  apply_actual_cors response state none origin method = response
  apply_actual_cors response state (some bucket) none method = response
  apply_actual_cors response state (some bucket) (some origin) method =
      with_grant response (match_actual (rules_of pe json rules digests state bucket) origin method)

  -- The code of an answer of 400 and more, whose body is read for it.
  abbrev pub with_code : HttpResponse → HttpResponse × Option Text
  with_code response =
      if leb 400 response.status
      then elim response.body [
        | none ↦ (record response { body = some [] }, none)
        | some bytes ↦ (response, parse_error_code bytes)
      ]
      else (response, none)

  abbrev bytes_out_of : HttpResponse → ℕ
  bytes_out_of response =
      unwrap_or
        (visible pe json rules digests (get_header (codes "content-length") response.headers)
          >>= parse_u64)
        0

  abbrev pub draft_of : HttpRequest → Served → Option Text → ℕ → ℕ → Option Text → Auth → EventDraft
  draft_of request served op status bytes_out error_code auth = record {
    method = request.method;
    op = op;
    bucket = (parse_bucket_key pe json rules digests request.path).0;
    key = (parse_bucket_key pe json rules digests request.path).1;
    status = status;
    duration_ms = served.duration_ms;
    bytes_in = served.bytes_in;
    bytes_out = bytes_out;
    auth = auth;
    error_code = error_code;
    note = none;
  }

  abbrev pub log_response :
      ℕ → HttpRequest → Served → AppState → Option HttpResponse → Option HttpResponse × AppState
  log_response now request served state none = (
    none,
    emit_event pe json rules digests now (draft_of request served none 500 0 none anonymous) state,
  )
  log_response now request served state (some response) =
      let (read, error_code) = with_code response in
      (
        some (
            apply_actual_cors read state (parse_bucket_key pe json rules digests request.path).0
              (header_str pe json rules digests request (codes "origin")) request.method),
        emit_event pe json rules digests now
            (draft_of request served served.op response.status (bytes_out_of response) error_code
              (unwrap_or served.auth anonymous))
            state,
      )

  -- `s3.call`, and what is made of its answer on the state that it leaves; `none` is an error of the
  -- transport.
  unfoldable pub log_and_serve_s3 :
      S3Service → ℕ → HttpRequest → AppState → Option HttpResponse × AppState
  unfolding parse_bucket_key apply_actual_cors parse_error_code get_header emit
  log_and_serve_s3 call now request state =
      let (served, after) = call request state in
      log_response now request served after served.response
