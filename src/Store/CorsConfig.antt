-- ===== src/Store/CorsConfig.antt =====
-- src/store.rs: the CORS configuration of a bucket, set, read and removed through S3.
pub mod Stored
pub mod Tests
use cubby.Base.{
  ℕ, ◌≡◌, Bool, true, false, Option, none, some, List, [], Text, map, is_empty, unwrap_or,
  if◌then◌else◌,
}
use cubby.Cors.{CorsRule, Invalid, validate}
use cubby.Db.{bucket_exists, put_bucket_cors, get_bucket_cors, delete_bucket_cors}
use cubby.Store.{
  no_such_bucket, invalid_request, no_such_cors_configuration, Setup, Action, ◌>>=◌ as bind, return,
  fail, db_call, db_read, ensure,
}
use cubby.Store.Files.{db_try, or_internal}

-- `serde_json` on the rules: what it prints it reads back.
pub record RulesJson : Type 0 where
  pub print : List CorsRule → Text
  pub parse_rules : Text → Option (List CorsRule)
  pub parse_rules-print : (rules : List CorsRule) → parse_rules (print rules) ≡ some rules

-- `CORSRule` of s3s, as it stands in the XML.
pub record DtoRule : Type 0 where
  pub allowed_origins : List Text
  pub allowed_methods : List Text
  pub allowed_headers : Option (List Text)
  pub expose_headers : Option (List Text)
  pub max_age_seconds : Option ℕ
  pub id : Option Text

abbrev pub domain_rule_from_dto : DtoRule → CorsRule
domain_rule_from_dto r = record {
  allowed_origins = r.allowed_origins;
  allowed_methods = r.allowed_methods;
  allowed_headers = unwrap_or r.allowed_headers [];
  expose_headers = unwrap_or r.expose_headers [];
  max_age_seconds = r.max_age_seconds;
  id = r.id;
}

-- `(!l.is_empty()).then_some(l)`
abbrev pub non_empty : List Text → Option (List Text)
non_empty l = if is_empty l then none else some l

abbrev pub dto_rule_from_domain : CorsRule → DtoRule
dto_rule_from_domain r = record {
  allowed_headers = non_empty r.allowed_headers;
  allowed_methods = r.allowed_methods;
  allowed_origins = r.allowed_origins;
  expose_headers = non_empty r.expose_headers;
  id = r.id;
  max_age_seconds = r.max_age_seconds;
}

abbrev pub is_none : Option Invalid → Bool
is_none none = true
is_none (some message) = false

module _ (setup : Setup) (json : RulesJson) where
  infixl 5 ◌>>=◌ ◌>>◌
  abbrev ◌>>=◌ : {A B : Type 0} → Action setup A → (A → Action setup B) → Action setup B
  m >>= k = bind setup m k

  abbrev ◌>>◌ : {A B : Type 0} → Action setup A → Action setup B → Action setup B
  m >> k = bind setup m (λ _. k)

  unfoldable pub put_bucket_cors_handler : Text → List DtoRule → Action setup Unit
  unfolding bucket_exists validate put_bucket_cors
  put_bucket_cors_handler bucket dto_rules = do
    exists ← db_read setup (bucket_exists bucket)
    ensure setup no_such_bucket exists
    let rules = map domain_rule_from_dto dto_rules
    ensure setup invalid_request (is_none (validate rules))
    db_try setup (λ db. elim (put_bucket_cors bucket (json.print rules) db) [
      | none ↦ none
      | some later ↦ some (tt, later)
    ])

  abbrev pub or_no_cors : Option Text → Action setup Text
  or_no_cors none = fail setup no_such_cors_configuration
  or_no_cors (some stored) = return setup stored

  unfoldable pub get_bucket_cors_handler : Text → Action setup (List DtoRule)
  unfolding get_bucket_cors
  get_bucket_cors_handler bucket = do
    found ← db_read setup (get_bucket_cors bucket)
    stored ← or_no_cors found
    rules ← or_internal setup (json.parse_rules stored)
    return setup (map dto_rule_from_domain rules)

  unfoldable pub delete_bucket_cors_handler : Text → Action setup Unit
  unfolding delete_bucket_cors
  delete_bucket_cors_handler bucket = db_call setup (λ db. (tt, delete_bucket_cors bucket db))
