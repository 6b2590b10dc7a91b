-- ===== src/Cors.antt =====
-- src/cors.rs: how a bucket's CORS rules are matched against a preflight and an actual request, and
-- how a configuration is validated.
pub mod Matching
pub mod Grants
pub mod Tests
use cubby.Base.{
  ℕ, zero, suc, ◌+◌, ◌≡◌, Bool, true, false, not, ◌&&◌, ◌||◌, Option, none, some, List, [], ◌∷◌,
  ◌++◌, Text, codes, leb, if◌then◌else◌, any, all, find, length, is_empty, text_eq, starts_with,
  ends_with,
}
use cubby.Base.Str.{split_once, join, eq_ignore_ascii_case}

pub record CorsRule : Type 0 where
  pub allowed_origins : List Text
  pub allowed_methods : List Text
  pub allowed_headers : List Text
  pub expose_headers : List Text
  pub max_age_seconds : Option ℕ
  pub id : Option Text

pub record PreflightGrant : Type 0 where
  pub allow_origin : Text
  pub allow_methods : List Text
  pub allow_headers : List Text
  pub max_age_seconds : Option ℕ
  pub expose_headers : List Text
  pub vary_origin : Bool

pub record ActualGrant : Type 0 where
  pub allow_origin : Text
  pub expose_headers : List Text
  pub vary_origin : Bool

-- The match on `pattern.split_once('*')`.
abbrev pub matches_split : Text → Text → Option (Text × Text) → Bool
matches_split pattern origin (some (prefix, suffix)) =
    leb (length prefix + length suffix) (length origin)
    && starts_with origin prefix
    && ends_with origin suffix
matches_split pattern origin none = text_eq pattern origin

unfoldable pub origin_matches : Text → Text → Bool
origin_matches pattern origin =
    if text_eq pattern (codes "*")
    then true
    else matches_split pattern origin (split_once b'*' pattern)

unfoldable pub matching_origin : CorsRule → Text → Option Text
unfolding origin_matches
matching_origin rule origin = find (λ p. origin_matches p origin) rule.allowed_origins

unfoldable pub allow_origin_for : Text → Text → Text × Bool
allow_origin_for matched_pattern origin =
    if text_eq matched_pattern (codes "*") then (codes "*", false) else (origin, true)

unfoldable pub method_allowed : CorsRule → Text → Bool
method_allowed rule method = any (λ m. text_eq m method) rule.allowed_methods

unfoldable pub headers_allowed : CorsRule → List Text → Bool
headers_allowed rule requested =
    any (λ h. text_eq h (codes "*")) rule.allowed_headers
    || all (λ req. any (λ allowed. eq_ignore_ascii_case allowed req) rule.allowed_headers) requested

abbrev pub preflight_grant : CorsRule → Text → Text → List Text → PreflightGrant
preflight_grant rule pattern origin requested_headers = record {
  allow_origin = (allow_origin_for pattern origin).0;
  allow_methods = rule.allowed_methods;
  allow_headers = requested_headers;
  max_age_seconds = rule.max_age_seconds;
  expose_headers = rule.expose_headers;
  vary_origin = (allow_origin_for pattern origin).1;
}

abbrev pub actual_grant : CorsRule → Text → Text → ActualGrant
actual_grant rule pattern origin = record {
  allow_origin = (allow_origin_for pattern origin).0;
  expose_headers = rule.expose_headers;
  vary_origin = (allow_origin_for pattern origin).1;
}

-- One pass of the loop of `match_preflight`, `none` as its `continue`.
abbrev pub preflight_of : CorsRule → Text → Text → List Text → Option Text → Option PreflightGrant
preflight_of rule origin method requested_headers none = none
preflight_of rule origin method requested_headers (some pattern) =
    if not (method_allowed rule method) || not (headers_allowed rule requested_headers)
    then none
    else some (preflight_grant rule pattern origin requested_headers)

abbrev pub actual_of : CorsRule → Text → Text → Option Text → Option ActualGrant
actual_of rule origin method none = none
actual_of rule origin method (some pattern) =
    if not (method_allowed rule method) then none else some (actual_grant rule pattern origin)

abbrev pub or_continue {ℓ} : {A : Type ℓ} → Option A → Option A → Option A
or_continue none rest = rest
or_continue (some grant) rest = some grant

unfoldable pub match_preflight : List CorsRule → Text → Text → List Text → Option PreflightGrant
unfolding matching_origin method_allowed headers_allowed allow_origin_for
match_preflight [] origin method requested_headers = none
match_preflight (rule ∷ rules) origin method requested_headers =
    or_continue (preflight_of rule origin method requested_headers (matching_origin rule origin))
      (match_preflight rules origin method requested_headers)

unfoldable pub match_actual : List CorsRule → Text → Text → Option ActualGrant
unfolding matching_origin method_allowed allow_origin_for
match_actual [] origin method = none
match_actual (rule ∷ rules) origin method =
    or_continue (actual_of rule origin method (matching_origin rule origin))
      (match_actual rules origin method)

abbrev pub s3_methods : List Text
s3_methods = codes "GET" ∷ codes "PUT" ∷ codes "POST" ∷ codes "DELETE" ∷ codes "HEAD" ∷ []

-- The messages of `validate`, with what they name; `none` is `Ok(())`.
pub data Invalid : Type 0 where
  no_rules : Invalid
  no_origin : ℕ → Invalid
  no_method : ℕ → Invalid
  unsupported_method : ℕ → Text → Invalid

abbrev pub is_s3_method : Text → Bool
is_s3_method m = any (λ s. text_eq s m) s3_methods

-- The `for` over the enumerated rules: the first failure of rule `i`, or what the rest give.
abbrev pub or_bad_method : ℕ → Option Text → Option Invalid → Option Invalid
or_bad_method i (some bad) rest = some (unsupported_method i bad)
or_bad_method i none rest = rest

unfoldable pub validate_from : ℕ → List CorsRule → Option Invalid
validate_from i [] = none
validate_from i (rule ∷ rules) =
    let rest = validate_from (i + 1) rules in
    if is_empty rule.allowed_origins
    then some (no_origin i)
    else if is_empty rule.allowed_methods
    then some (no_method i)
    else or_bad_method i (find (λ m. not (is_s3_method m)) rule.allowed_methods) rest

unfoldable pub validate : List CorsRule → Option Invalid
unfolding validate_from
validate rules = if is_empty rules then some no_rules else validate_from 0 rules
