-- ===== src/Http/Recording.antt =====
-- What a request to the store leaves on the bus, and what is changed of its answer.
use cubby.Base.{
  ℕ, ◌≡◌, refl, ap, ◌∙◌, Option, none, some, List, [], ◌∷◌, ◌++◌, Text, codes, leb, if◌then◌else◌,
  unwrap_or, Bool-cases, inl, inr,
}
use cubby.Keypath.{PercentEncoding}
use cubby.Multipart.{Digests}
use cubby.Cors.{ActualGrant, match_actual}
use cubby.Events.{Event, event, emit, record_event}
use cubby.Store.CorsConfig.{RulesJson}
use cubby.Http.{
  HeaderRules, HttpRequest, HttpResponse, AppState, Served, S3Service, parse_bucket_key,
  parse_error_code, rules_of, header_str,
}
use cubby.Http.Answers.{with_grant, apply_actual_cors, with_code, log_response, log_and_serve_s3}

abbrev pub status_of : Option HttpResponse → Option ℕ
status_of none = none
status_of (some response) = some response.status

-- The code of an error whose body could be read.
abbrev pub code_of : Option HttpResponse → Option Text
code_of none = none
code_of (some response) =
    if leb 400 response.status
    then elim response.body [ none ↦ none | some bytes ↦ parse_error_code bytes ]
    else none

-- The body of an answer; one of an error that could not be read is empty.
abbrev pub body_of : Option HttpResponse → Option (Option Text)
body_of none = none
body_of (some response) =
    if leb 400 response.status then some (some (unwrap_or response.body [])) else some response.body

abbrev pub sent_body : Option HttpResponse → Option (Option Text)
sent_body none = none
sent_body (some response) = some response.body

module _ (pe : PercentEncoding) (json : RulesJson) (rules : HeaderRules) (digests : Digests) where
  granted-body :
      (response : HttpResponse) (g : Option ActualGrant)
      → ((with_grant pe json rules digests response g).status ≡ response.status)
        × ((with_grant pe json rules digests response g).body ≡ response.body)
  granted-body response none = (refl, refl)
  granted-body response (some grant) = (refl, refl)

  cors-body :
      (response : HttpResponse) (state : AppState) (bucket origin : Option Text) (method : Text)
      → ((apply_actual_cors pe json rules digests response state bucket origin method).status
          ≡ response.status)
        × ((apply_actual_cors pe json rules digests response state bucket origin method).body
            ≡ response.body)
  unfolding apply_actual_cors
  cors-body response state none origin method = (refl, refl)
  cors-body response state (some bucket) none method = (refl, refl)
  cors-body response state (some bucket) (some origin) method =
      granted-body response
        (match_actual (rules_of pe json rules digests state bucket) origin method)

  read_body :
      (status : ℕ) (headers : List (Text × Text)) (body : Option Text)
      → let response : HttpResponse = record { status = status; headers = headers; body = body } in
        let read = with_code pe json rules digests response in
        (read.0.status ≡ status)
        × (some read.0.body ≡ body_of (some response))
        × (read.1 ≡ code_of (some response))
  read_body status headers none = elim (Bool-cases (leb 400 status)) [
    | inl e ↦ rw e (refl, refl, refl)
    | inr e ↦ rw e (refl, refl, refl)
  ]
  read_body status headers (some bytes) = elim (Bool-cases (leb 400 status)) [
    | inl e ↦ rw e (refl, refl, refl)
    | inr e ↦ rw e (refl, refl, refl)
  ]

  -- What an event and an answer are, of what the store did.
  record Logged (now : ℕ) (request : HttpRequest) (response : Option HttpResponse)
      (state : AppState) (out : Option HttpResponse × AppState) : Type 0 where
    ev : Event
    sent : out.1.events.sent ≡ state.events.sent ++ event ev ∷ []
    id : ev.id ≡ state.events.next_id
    method : ev.method ≡ request.method
    target : (ev.bucket, ev.key) ≡ parse_bucket_key pe json rules digests request.path
    status : ev.status ≡ unwrap_or (status_of response) 500
    error_code : ev.error_code ≡ code_of response
    answer : status_of out.0 ≡ status_of response
    body : sent_body out.0 ≡ body_of response
    db : out.1.db ≡ state.db

  log_response-Logged :
      (now : ℕ) (request : HttpRequest) (served : Served) (state : AppState)
      (response : Option HttpResponse)
      → Logged now request response state
          (log_response pe json rules digests now request served state response)
  unfolding emit record_event
  log_response-Logged now request served state none = record {
    ev = _;
    sent = refl;
    id = refl;
    method = refl;
    target = refl;
    status = refl;
    error_code = refl;
    answer = refl;
    body = refl;
    db = refl;
  }
  log_response-Logged now request served state (some response) =
      let (status, body, code) = read_body response.status response.headers response.body in
      let read = with_code pe json rules digests response in
      let cors =
        cors-body read.0 state (parse_bucket_key pe json rules digests request.path).0
          (header_str pe json rules digests request (codes "origin")) request.method in
      record {
        ev = _;
        sent = refl;
        id = refl;
        method = refl;
        target = refl;
        status = refl;
        error_code = code;
        answer = ap some (cors.0 ∙ status);
        body = ap some cors.1 ∙ body;
        db = refl;
      }

-- Of a request to the store, whatever the store answers and does to the tables and the bus, exactly one
-- event is added to what the bus then holds: the next of that bus, with the method, the bucket and the key
-- of the request, the status that the client gets, 500 for an error of the transport, and the code in the
-- body of an error. The client gets the store's status and its body, which is empty for an error whose
-- body could not be read, and the tables are those that the store left.
pub log_and_serve_s3_records :
    (pe : PercentEncoding) (json : RulesJson) (rules : HeaderRules) (digests : Digests)
    (call : S3Service) (now : ℕ) (request : HttpRequest) (state : AppState)
    → let out = log_and_serve_s3 pe json rules digests call now request state in
      let served = (call request state).0 in
      let after = (call request state).1 in
      (ev : Event) × (out.1.events.sent ≡ after.events.sent ++ event ev ∷ [])
      × (ev.id ≡ after.events.next_id)
      × (ev.method ≡ request.method)
      × ((ev.bucket, ev.key) ≡ parse_bucket_key pe json rules digests request.path)
      × (ev.status ≡ unwrap_or (status_of served.response) 500)
      × (ev.error_code ≡ code_of served.response)
      × (status_of out.0 ≡ status_of served.response)
      × (sent_body out.0 ≡ body_of served.response)
      × (out.1.db ≡ after.db)
unfolding log_and_serve_s3
log_and_serve_s3_records pe json rules digests call now request state =
    let (served, after) = call request state in
    let l = log_response-Logged pe json rules digests now request served after served.response in
    (l.ev, l.sent, l.id, l.method, l.target, l.status, l.error_code, l.answer, l.body, l.db)
