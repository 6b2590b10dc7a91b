-- ===== src/Cors/Tests.antt =====
-- The theorems of CORS at one rule.
use cubby.Base.{◌≡◌, ◌↔◌, refl, true, none, some, [], ◌∷◌, codes, text_eq, starts_with, ends_with}
use cubby.Base.Str.{split_once, eq_ignore_ascii_case, to_ascii_lowercase}
use cubby.Cors.{
  CorsRule, PreflightGrant, origin_matches, match_preflight, validate, matching_origin,
  method_allowed, headers_allowed, allow_origin_for,
}
use cubby.Cors.Matching.{Covers, origin_matches-Covers}
use cubby.Cors.Grants.{Validity, validate-Validity}

abbrev rule : CorsRule
rule = record {
  allowed_origins = codes "h*m" ∷ [];
  allowed_methods = codes "PUT" ∷ [];
  allowed_headers = codes "x" ∷ [];
  expose_headers = [];
  max_age_seconds = some 60;
  id = none;
}

origin_matches-Covers_example :
    (origin_matches (codes "h*m") (codes "hm") ≡ true) ↔ Covers (codes "h*m") (codes "hm")
origin_matches-Covers_example = origin_matches-Covers (codes "h*m") (codes "hm")

abbrev grant : PreflightGrant
grant = record {
  allow_origin = codes "h.m";
  allow_methods = codes "PUT" ∷ [];
  allow_headers = codes "X" ∷ [];
  max_age_seconds = some 60;
  expose_headers = [];
  vary_origin = true;
}

granted : match_preflight (rule ∷ []) (codes "h.m") (codes "PUT") (codes "X" ∷ []) ≡ some grant
unfolding match_preflight matching_origin origin_matches method_allowed headers_allowed
    allow_origin_for split_once text_eq starts_with ends_with eq_ignore_ascii_case
    to_ascii_lowercase
granted = refl

validate-Validity_example : Validity (rule ∷ []) (validate (rule ∷ []))
validate-Validity_example = validate-Validity (rule ∷ [])
