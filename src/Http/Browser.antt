-- ===== src/Http/Browser.antt =====
-- What a browser gets from a bucket with CORS rules: the preflight, and the answer that it may read.
use cubby.Base.{
  ℕ, ◌≡◌, ◌⊎◌, refl, ap, ◌∙◌, inl, inr, Bool, true, false, not, ◌&&◌, Option, none, some, List,
  Text, codes, text_eq, map, is_empty, Bool-cases, arith,
}
use cubby.Base.Str.{join}
use cubby.Keypath.{PercentEncoding}
use cubby.Multipart.{Digests}
use cubby.Cors.{PreflightGrant, ActualGrant, match_preflight}
use cubby.Cors.Grants.{Echoes, match_preflight-match_actual}
use cubby.Db.{cors_key}
use cubby.Db.Table.{Sorted}
use cubby.Store.{ok, Setup, World}
use cubby.Store.CorsConfig.{RulesJson, DtoRule, domain_rule_from_dto, put_bucket_cors_handler}
use cubby.Http.{
  HeaderRules, HttpRequest, HttpResponse, AppState, get_header, Handled, answered, fallen_through,
  panicked, header_str, visible, parse_bucket_key, rules_of,
}
use cubby.Http.Answers.{insert_if, actual_headers, apply_actual_cors}
use cubby.Http.Preflight.{parse_request_headers, answer_preflight, maybe_preflight, vary_header}
use cubby.Http.Verdicts.{AnswersBy, answer_preflight-AnswersBy}
use cubby.Http.Decided.{preflight_after_put}
use cubby.Http.Headers.{get_header-append, get_header-insert_header, insert_header-other}

abbrev allow_origin : Text
allow_origin = codes "access-control-allow-origin"

exposed_other : text_eq (codes "access-control-expose-headers") allow_origin ≡ false
unfolding text_eq
exposed_other = refl

module _ (pe : PercentEncoding) (json : RulesJson) (rules : HeaderRules) (digests : Digests) where
  open rules use {is_visible}

  inserted :
      (b : Bool) (value : Text) (headers : List (Text × Text)) (a : Text)
      → get_header allow_origin headers ≡ some a
      → get_header allow_origin
          (insert_if pe json rules digests b (codes "access-control-expose-headers") value headers)
        ≡ some a
  inserted true value headers a h =
      insert_header-other allow_origin (codes "access-control-expose-headers") value headers
        exposed_other
      ∙ h
  inserted false value headers a h = h

  actual_headers-allow_origin :
      (grant : ActualGrant) (headers : List (Text × Text))
      → is_visible grant.allow_origin ≡ true
      → get_header allow_origin (actual_headers pe json rules digests grant headers)
        ≡ some grant.allow_origin
  actual_headers-allow_origin grant headers seen =
      let exposed = join (codes ", ") grant.expose_headers in
      let first : get_header allow_origin (
            insert_if pe json rules digests (is_visible grant.allow_origin) allow_origin
              grant.allow_origin headers)
          ≡ some grant.allow_origin =
        rw seen (get_header-insert_header allow_origin grant.allow_origin headers) in
      let both =
        inserted (not (is_empty grant.expose_headers) && is_visible exposed) exposed _
          grant.allow_origin first in
      get_header-append allow_origin _ (vary_header pe json rules digests grant.vary_origin)
      ∙ rw both refl

  visible_kept :
      (o : Option Text) (value : Text)
      → visible pe json rules digests o ≡ some value
      → is_visible value ≡ true
  visible_kept none value h = cc
  visible_kept (some v) value h = elim (Bool-cases (is_visible v)) [
    | inl e ↦ let same = rw e at h in let eq : v ≡ value = cc same in rw (← eq) e
    | inr e ↦ absurd (cc (rw e at h))
  ]

  echoed :
      (origin allowed : Text) (vary : Bool)
      → is_visible (codes "*") ≡ true
      → is_visible origin ≡ true
      → Echoes origin allowed vary
      → (is_visible allowed ≡ true) × ((allowed ≡ codes "*") ⊎ (allowed ≡ origin))
  unfolding Echoes
  echoed origin allowed vary star seen (inl (same, v)) = (ap is_visible same ∙ star, inl same)
  echoed origin allowed vary star seen (inr (same, v)) = (ap is_visible same ∙ seen, inr same)

  -- The status of a granted answer tells which branch it came from.
  answered_by :
      (now : ℕ) (origin method bucket : Text) (key : Option Text) (state : AppState)
      (g : Option PreflightGrant) (response : HttpResponse)
      → (answer_preflight pe json rules digests now origin method bucket key state g).0
        ≡ answered response
      → response.status ≡ 204
      → (grant : PreflightGrant) × (g ≡ some grant)
  answered_by now origin method bucket key state none response h s =
      let refused : 403 ≡ 204 = ap (λ x. status_of x) h ∙ s in absurd (omega (arith, refused))
    where
      status_of : Handled → ℕ
      status_of (answered r) = r.status
      status_of fallen_through = 0
      status_of panicked = 0
  answered_by now origin method bucket key state (some grant) response h s = (grant, refl)

-- After a preflight that was granted, the answer to the request itself, whatever the store answers it,
-- keeps its status and its body and tells the browser that it may read it: its
-- `Access-Control-Allow-Origin` is `*` or the origin of the request. The two requests name the same
-- bucket, origin and method, the rules have not changed in between, and `*` is a header value.
pub apply_actual_cors-maybe_preflight :
    (pe : PercentEncoding) (json : RulesJson) (rules : HeaderRules) (digests : Digests) (now : ℕ)
    (request : HttpRequest) (state later : AppState) (origin method bucket : Text)
    (key : Option Text) (granted response : HttpResponse)
    → rules.is_visible (codes "*") ≡ true
    → header_str pe json rules digests request (codes "origin") ≡ some origin
    → header_str pe json rules digests request (codes "access-control-request-method") ≡ some method
    → parse_bucket_key pe json rules digests request.path ≡ (some bucket, key)
    → (maybe_preflight pe json rules digests now request state).0 ≡ answered granted
    → granted.status ≡ 204
    → rules_of pe json rules digests later bucket ≡ rules_of pe json rules digests state bucket
    → let actual =
        apply_actual_cors pe json rules digests response later (some bucket) (some origin) method in
      (allowed : Text) × (get_header (codes "access-control-allow-origin") actual.headers
        ≡ some allowed)
      × ((allowed ≡ codes "*") ⊎ (allowed ≡ origin))
      × (actual.status ≡ response.status)
      × (actual.body ≡ response.body)
unfolding maybe_preflight apply_actual_cors
apply_actual_cors-maybe_preflight pe json rules digests now request state later origin method bucket
      key granted response star from by target h s same =
    let requested =
      parse_request_headers pe json rules digests
        (request.headers (codes "access-control-request-headers")) in
    let (grant, matched) =
      answered_by pe json rules digests now origin method bucket key state
        (match_preflight (rules_of pe json rules digests state bucket) origin method requested)
        granted (rw (from, by, target) at h) s in
    let (actual, e, echoes) =
      match_preflight-match_actual (rules_of pe json rules digests state bucket) origin method
        requested grant matched in
    let seen = visible_kept pe json rules digests (request.headers (codes "origin")) origin from in
    let (shown, which) =
      echoed pe json rules digests origin actual.allow_origin actual.vary_origin star seen echoes in
    (
      actual.allow_origin,
      rw (same, e)
          (actual_headers-allow_origin pe json rules digests actual response.headers shown),
      which,
      rw (same, e) refl,
      rw (same, e) refl,
    )

-- After a PutBucketCors that succeeded, a preflight for the bucket is answered by the rules that were put,
-- whatever the rules were before. If none of them covers its origin, its method and all headers that it
-- asks for, the answer is a 403 without `Access-Control-Allow-Origin`. Else the first rule that covers
-- them decides: the answer is a 204 whose `Access-Control-Allow-Origin` is `*` if the first entry of the
-- rule that matches the origin is `*`, and else the origin, with the methods of the rule, unless one of the
-- headers to set is no header value: then the handler panics and leaves the state as it was. An answer
-- adds one event to the bus, of its status and for the bucket and the key, and keeps the tables. The table
-- of the configurations was in order, and the read does not fail.
pub maybe_preflight-put_bucket_cors_handler :
    (pe : PercentEncoding) (json : RulesJson) (rules : HeaderRules) (digests : Digests)
    (setup : Setup) (dto_rules : List DtoRule) (w : World setup) (now : ℕ) (request : HttpRequest)
    (state : AppState) (origin method bucket : Text) (key : Option Text)
    → Sorted cors_key w.db.bucket_cors
    → (put_bucket_cors_handler setup json bucket dto_rules w).0 ≡ ok tt
    → state.db ≡ (put_bucket_cors_handler setup json bucket dto_rules w).1.db
    → state.db_fails ≡ false
    → header_str pe json rules digests request (codes "origin") ≡ some origin
    → header_str pe json rules digests request (codes "access-control-request-method") ≡ some method
    → parse_bucket_key pe json rules digests request.path ≡ (some bucket, key)
    → let requested =
        parse_request_headers pe json rules digests
          (request.headers (codes "access-control-request-headers")) in
      AnswersBy pe json rules digests
        (map domain_rule_from_dto dto_rules)
        origin
        method
        requested
        bucket
        key
        state
        (maybe_preflight pe json rules digests now request state)
maybe_preflight-put_bucket_cors_handler pe json rules digests setup dto_rules w now request state
      origin method bucket key sorted h db reads from by target =
    rw
      (preflight_after_put pe json rules digests setup dto_rules w now request state origin method
        bucket key sorted h db reads from by target)
      (answer_preflight-AnswersBy pe json rules digests now (map domain_rule_from_dto dto_rules)
        origin method bucket key _ state)
