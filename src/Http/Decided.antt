-- ===== src/Http/Decided.antt =====
-- What decides a preflight after the rules of its bucket were put.
use cubby.Base.{ℕ, ◌≡◌, refl, ap, ◌∙◌, Bool, false, Option, some, List, Text, codes, map, find}
use cubby.Keypath.{PercentEncoding}
use cubby.Multipart.{Digests}
use cubby.Cors.{CorsRule, match_preflight}
use cubby.Cors.Grants.{covers_preflight, preflight_by, match_preflight-first}
use cubby.Db.{get_bucket_cors, cors_key}
use cubby.Db.Table.{Sorted}
use cubby.Store.{ok, Setup, World}
use cubby.Store.CorsConfig.{RulesJson, DtoRule, domain_rule_from_dto, put_bucket_cors_handler}
use cubby.Store.CorsConfig.Stored.{put_bucket_cors_handler-stored}
use cubby.Http.{HeaderRules, HttpRequest, AppState, header_str, parse_bucket_key, read_rules}
use cubby.Http.Preflight.{parse_request_headers, answer_preflight, maybe_preflight}

module _ (pe : PercentEncoding) (json : RulesJson) (rules : HeaderRules) (digests : Digests) where
  rules_read :
      (fails : Bool) (stored : Option Text) (domain : List CorsRule)
      → fails ≡ false
      → stored ≡ some (json.print domain)
      → read_rules pe json rules digests fails stored ≡ domain
  rules_read fails stored domain f g = rw (f, g, json.parse_rules-print domain) refl

-- What the rules that were put decide.
pub preflight_after_put :
    (pe : PercentEncoding) (json : RulesJson) (rules : HeaderRules) (digests : Digests)
    (setup : Setup) (dto_rules : List DtoRule) (w : World setup) (now : ℕ) (request : HttpRequest)
    (state : AppState) (origin method bucket : Text) (key : Option Text)
    → Sorted cors_key w.db.bucket_cors
    → (put_bucket_cors_handler setup json bucket dto_rules w).0 ≡ ok tt
    → state.db ≡ (put_bucket_cors_handler setup json bucket dto_rules w).1.db
    → state.db_fails ≡ false
    → header_str pe json rules digests request (codes "origin") ≡ some origin
    → header_str pe json rules digests request (codes "access-control-request-method") ≡ some method
    → parse_bucket_key pe json rules digests request.path ≡ (some bucket, key)
    → let requested =
        parse_request_headers pe json rules digests
          (request.headers (codes "access-control-request-headers")) in
      maybe_preflight pe json rules digests now request state
      ≡ answer_preflight pe json rules digests now origin method bucket key state (
          preflight_by origin requested
            (find (covers_preflight origin method requested) (map domain_rule_from_dto dto_rules)))
unfolding maybe_preflight
preflight_after_put pe json rules digests setup dto_rules w now request state origin method bucket
      key sorted h db reads from by target =
    let domain = map domain_rule_from_dto dto_rules in
    let requested =
      parse_request_headers pe json rules digests
        (request.headers (codes "access-control-request-headers")) in
    let v = (put_bucket_cors_handler setup json bucket dto_rules w).1 in
    let (_, stored) =
      put_bucket_cors_handler-stored setup json bucket dto_rules {w = w} {v = v} sorted
        record { result = h; state = refl } in
    let read : get_bucket_cors bucket state.db ≡ some (json.print domain) =
      ap (get_bucket_cors bucket) db ∙ stored in
    let found =
      rules_read pe json rules digests state.db_fails (get_bucket_cors bucket state.db) domain reads
        read in
    rw (from, by, target)
      (ap (answer_preflight pe json rules digests now origin method bucket key state) (
        ap (λ rs. match_preflight rs origin method requested) found
        ∙ match_preflight-first domain origin method requested))
