-- ===== src/Http/Verdicts.antt =====
-- The answers to a preflight: a refusal, a grant, and the panic on a value that is none of a header.
use cubby.Base.{
  ℕ, ◌≡◌, ◌⊎◌, refl, inl, inr, Bool, true, false, not, Option, none, some, List, [], ◌∷◌, ◌++◌,
  Text, codes, text_eq, find, any, Bool-cases, Option-cases, find-holds, if◌then◌else◌,
}
use cubby.Base.Str.{join}
use cubby.Keypath.{PercentEncoding}
use cubby.Multipart.{Digests}
use cubby.Cors.{CorsRule, PreflightGrant, preflight_grant, matching_origin, allow_origin_for}
use cubby.Cors.Grants.{covers_preflight, preflight_by}
use cubby.Events.{Event, event, emit, record_event}
use cubby.Store.CorsConfig.{RulesJson}
use cubby.Http.{HeaderRules, HttpResponse, AppState, get_header, Handled, answered, panicked}
use cubby.Http.Preflight.{granted_headers, preflight_grant_response, answer_preflight}

-- One event is put on the bus, of a status and with a bucket and a key.
pub record Logs (status : ℕ) (bucket : Text) (key : Option Text) (state after : AppState)
    : Type 0 where
  pub ev : Event
  pub sent : after.events.sent ≡ state.events.sent ++ event ev ∷ []
  pub ev_status : ev.status ≡ status
  pub in_bucket : ev.bucket ≡ some bucket
  pub at_key : ev.key ≡ key
  pub db : after.db ≡ state.db

-- The answer is a 403 that lets no origin read it.
pub record IsRefused (bucket : Text) (key : Option Text) (state : AppState)
    (out : Handled × AppState) : Type 0 where
  pub response : HttpResponse
  pub refused : out.0 ≡ answered response
  pub status : response.status ≡ 403
  pub closed : get_header (codes "access-control-allow-origin") response.headers ≡ none
  pub logs : Logs 403 bucket key state out.1

-- The answer is a 204 that lets the origin, or any origin, use the methods of the rule.
pub record IsGranted (rule : CorsRule) (pattern origin bucket : Text) (key : Option Text)
    (state : AppState) (out : Handled × AppState) : Type 0 where
  pub response : HttpResponse
  pub granted : out.0 ≡ answered response
  pub status : response.status ≡ 204
  pub origins :
      get_header (codes "access-control-allow-origin") response.headers
      ≡ some (if text_eq pattern (codes "*") then codes "*" else origin)
  pub methods :
      get_header (codes "access-control-allow-methods") response.headers
      ≡ some (join (codes ", ") rule.allowed_methods)
  pub logs : Logs 204 bucket key state out.1

chosen_origin :
    (pattern origin : Text)
    → some (allow_origin_for pattern origin).0
      ≡ some (if text_eq pattern (codes "*") then codes "*" else origin)
unfolding allow_origin_for
chosen_origin pattern origin = elim (Bool-cases (text_eq pattern (codes "*"))) [
  | inl e ↦ rw e refl
  | inr e ↦ rw e refl
]

module _ (pe : PercentEncoding) (json : RulesJson) (rules : HeaderRules) (digests : Digests) where
  -- Whether the builder refuses one of the headers.
  abbrev pub is_unbuildable : PreflightGrant → Bool
  is_unbuildable grant =
      any (λ h. not (rules.is_value h.1)) (granted_headers pe json rules digests grant)

  -- What is answered by a list of rules: a refusal if none covers the request, and else what the first
  -- one that does grants, by its first entry that matches the origin.
  abbrev pub AnswersBy :
      List CorsRule
      → Text
      → Text
      → List Text
      → Text
      → Option Text
      → AppState
      → Handled × AppState
      → Type 0
  AnswersBy domain origin method requested bucket key state out =
      ((find (covers_preflight origin method requested) domain ≡ none)
        × IsRefused bucket key state out)
      ⊎ ((rule : CorsRule) × (pattern : Text) × (find (covers_preflight origin method requested)
              domain
            ≡ some rule)
          × (matching_origin rule origin ≡ some pattern)
          × (((is_unbuildable (preflight_grant rule pattern origin requested) ≡ false)
                × IsGranted rule pattern origin bucket key state out)
              ⊎ ((is_unbuildable (preflight_grant rule pattern origin requested) ≡ true)
                  × (out ≡ (panicked, state)))))

  build_or_panic :
      (now : ℕ) (rule : CorsRule) (pattern origin method bucket : Text) (key : Option Text)
      (requested : List Text) (state : AppState)
      → let grant = preflight_grant rule pattern origin requested in
        let out =
          answer_preflight pe json rules digests now origin method bucket key state (some grant) in
        ((is_unbuildable grant ≡ false) × IsGranted rule pattern origin bucket key state out)
        ⊎ ((is_unbuildable grant ≡ true) × (out ≡ (panicked, state)))
  unfolding preflight_grant_response get_header text_eq emit record_event allow_origin_for
  build_or_panic now rule pattern origin method bucket key requested state =
      let grant = preflight_grant rule pattern origin requested in
      elim (Bool-cases (is_unbuildable grant)) [
        | inl bad ↦ inr (bad, rw bad refl)
        | inr fine ↦ inl (
          fine,
          rw fine record {
            response = _;
            granted = refl;
            status = refl;
            origins = chosen_origin pattern origin;
            methods = refl;
            logs = record {
              ev = _;
              sent = refl;
              ev_status = refl;
              in_bucket = refl;
              at_key = refl;
              db = refl;
            };
          },
        )
      ]

  pub answer_preflight-AnswersBy :
      (now : ℕ) (domain : List CorsRule) (origin method bucket : Text) (key : Option Text)
      (requested : List Text) (state : AppState)
      → AnswersBy domain origin method requested bucket key state (
          answer_preflight pe json rules digests now origin method bucket key state (
            preflight_by origin requested (find (covers_preflight origin method requested) domain)))
  unfolding get_header text_eq emit record_event
  answer_preflight-AnswersBy now domain origin method bucket key requested state =
      elim (Option-cases (find (covers_preflight origin method requested) domain)) [
        | inl e ↦ inl (
          e,
          rw e record {
            response = _;
            refused = refl;
            status = refl;
            closed = refl;
            logs = record {
              ev = _;
              sent = refl;
              ev_status = refl;
              in_bucket = refl;
              at_key = refl;
              db = refl;
            };
          },
        )
        | inr (rule, e) ↦
            let covers = find-holds (covers_preflight origin method requested) domain rule e in
            elim (Option-cases (matching_origin rule origin)) [
              | inl m ↦ absurd (cc (rw m at covers))
              | inr (pattern, m) ↦ inr (
                rule,
                pattern,
                e,
                m,
                rw (e, m)
                    (build_or_panic now rule pattern origin method bucket key requested state),
              )
            ]
      ]
