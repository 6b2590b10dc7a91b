-- ===== src/Cors/Grants.antt =====
-- What the matching grants: the first rule that covers the request, and what a valid configuration is.
use cubby.Base.{
  ℕ, ◌+◌, ◌≡◌, ◌≢◌, ◌⊎◌, refl, ◌∙◌, inl, inr, Bool, true, false, not, ◌&&◌, Option, none, some,
  List, [], ◌∷◌, Text, codes, if◌then◌else◌, find, is_empty, text_eq, is_some, Bool-cases,
  Option-cases, All, arith, find-none, find-holds,
}
use cubby.Cors.{
  CorsRule, PreflightGrant, ActualGrant, matching_origin, allow_origin_for, method_allowed,
  headers_allowed, preflight_grant, actual_grant, preflight_of, actual_of, or_continue,
  match_preflight, match_actual, is_s3_method, Invalid, no_rules, no_origin, no_method,
  unsupported_method, validate_from, validate,
}

-- Whether a rule covers an origin and a method, and the headers of a preflight.
abbrev pub covers_actual : Text → Text → CorsRule → Bool
covers_actual origin method rule =
    is_some (matching_origin rule origin) && method_allowed rule method

abbrev pub covers_preflight : Text → Text → List Text → CorsRule → Bool
covers_preflight origin method headers rule =
    covers_actual origin method rule && headers_allowed rule headers

-- The entry of a rule that decides what is echoed.
abbrev pub grants {ℓ} : {A : Type ℓ} → (Text → A) → Option Text → Option A
grants f none = none
grants f (some pattern) = some (f pattern)

preflight_of-covers :
    (rule : CorsRule) (origin method : Text) (headers : List Text) (m : Option Text)
    (rest : Option PreflightGrant)
    → or_continue (preflight_of rule origin method headers m) rest ≡ (
        if is_some m && method_allowed rule method && headers_allowed rule headers
        then grants (λ p. preflight_grant rule p origin headers) m
        else rest)
preflight_of-covers rule origin method headers none rest = refl
preflight_of-covers rule origin method headers (some p) rest = ground arith

actual_of-covers :
    (rule : CorsRule) (origin method : Text) (m : Option Text) (rest : Option ActualGrant)
    → or_continue (actual_of rule origin method m) rest ≡ (
        if is_some m && method_allowed rule method
        then grants (λ p. actual_grant rule p origin) m
        else rest)
actual_of-covers rule origin method none rest = refl
actual_of-covers rule origin method (some p) rest = ground arith

-- What the first rule gives.
abbrev pub preflight_by : Text → List Text → Option CorsRule → Option PreflightGrant
preflight_by origin headers none = none
preflight_by origin headers (some rule) =
    grants (λ p. preflight_grant rule p origin headers) (matching_origin rule origin)

abbrev pub actual_by : Text → Option CorsRule → Option ActualGrant
actual_by origin none = none
actual_by origin (some rule) =
    grants (λ p. actual_grant rule p origin) (matching_origin rule origin)

-- `match_preflight` grants by the first rule that covers the origin, the method and all headers, and
-- by its first entry that matches the origin; it refuses if no rule covers them.
pub match_preflight-first :
    (rules : List CorsRule) (origin method : Text) (headers : List Text)
    → match_preflight rules origin method headers
      ≡ preflight_by origin headers (find (covers_preflight origin method headers) rules)
unfolding match_preflight
match_preflight-first [] origin method headers = refl
match_preflight-first (rule ∷ rules) origin method headers =
    preflight_of-covers rule origin method headers (matching_origin rule origin) _
    ∙ (elim (Bool-cases (covers_preflight origin method headers rule)) [
      | inl e ↦ rw e refl
      | inr e ↦ rw e (match_preflight-first rules origin method headers)
    ])

-- `match_actual` grants by the first rule that covers the origin and the method.
pub match_actual-first :
    (rules : List CorsRule) (origin method : Text)
    → match_actual rules origin method ≡ actual_by origin (find (covers_actual origin method) rules)
unfolding match_actual
match_actual-first [] origin method = refl
match_actual-first (rule ∷ rules) origin method =
    actual_of-covers rule origin method (matching_origin rule origin) _
    ∙ (elim (Bool-cases (covers_actual origin method rule)) [
      | inl e ↦ rw e refl
      | inr e ↦ rw e (match_actual-first rules origin method)
    ])

-- The two forms of `Access-Control-Allow-Origin`: any origin, or this one with `Vary`.
unfoldable pub Echoes : Text → Text → Bool → Type 0
Echoes origin allowed vary =
    ((allowed ≡ codes "*") × (vary ≡ false)) ⊎ ((allowed ≡ origin) × (vary ≡ true))

allow_origin_for-Echoes :
    (pattern origin : Text)
    → Echoes origin (allow_origin_for pattern origin).0 (allow_origin_for pattern origin).1
unfolding allow_origin_for Echoes
allow_origin_for-Echoes pattern origin = elim (Bool-cases (text_eq pattern (codes "*"))) [
  | inl e ↦ rw e (inl (refl, refl))
  | inr e ↦ rw e (inr (refl, refl))
]

actual_by-granted :
    (rule : CorsRule) (origin method : Text)
    → covers_actual origin method rule ≡ true
    → (grant : ActualGrant) × (actual_by origin (some rule) ≡ some grant)
      × Echoes origin grant.allow_origin grant.vary_origin
actual_by-granted rule origin method h = elim (Option-cases (matching_origin rule origin)) [
  | inl n ↦ absurd (cc (rw n at h))
  | inr (p, e) ↦ (actual_grant rule p origin, rw e refl, allow_origin_for-Echoes p origin)
]

find-weaker :
    (origin method : Text) (headers : List Text) (rules : List CorsRule)
    → find (covers_actual origin method) rules ≡ none
    → find (covers_preflight origin method headers) rules ≡ none
find-weaker origin method headers [] h = refl
find-weaker origin method headers (rule ∷ rules) h =
    elim (Bool-cases (covers_actual origin method rule)) [
      | inl e ↦ absurd (cc (rw e at h))
      | inr e ↦ rw e (find-weaker origin method headers rules (rw e at h))
    ]

-- After a granted preflight the response to the request itself carries CORS headers too, by the same
-- or an earlier rule, and its allowed origin is `*` without `Vary` or the request's with it.
pub match_preflight-match_actual :
    (rules : List CorsRule) (origin method : Text) (headers : List Text) (grant : PreflightGrant)
    → match_preflight rules origin method headers ≡ some grant
    → (actual : ActualGrant) × (match_actual rules origin method ≡ some actual)
      × Echoes origin actual.allow_origin actual.vary_origin
match_preflight-match_actual rules origin method headers grant h =
    elim (Option-cases (find (covers_actual origin method) rules)) [
      | inl n ↦
          let none_found = find-weaker origin method headers rules n in
          absurd (cc (rw (match_preflight-first rules origin method headers, none_found) at h))
      | inr (rule, f) ↦
          let (actual, e, echoes) =
            actual_by-granted rule origin method
              (find-holds (covers_actual origin method) rules rule f) in
          (actual, match_actual-first rules origin method ∙ rw f e, echoes)
    ]

-- What a configuration has to be: at least one rule, each with an origin, a method, and methods of S3 only.
pub record IsValidRule (rule : CorsRule) : Type 0 where
  pub origins : rule.allowed_origins ≢ []
  pub methods : rule.allowed_methods ≢ []
  pub supported : All (λ m. is_s3_method m ≡ true) rule.allowed_methods

-- What a refusal says of the configuration.
pub data Blames : ℕ → List CorsRule → Invalid → Type 0 where
  origin :
      {i : ℕ} {rule : CorsRule} {rules : List CorsRule}
      → rule.allowed_origins ≡ []
      → Blames i (rule ∷ rules) (no_origin i)
  method :
      {i : ℕ} {rule : CorsRule} {rules : List CorsRule}
      → rule.allowed_methods ≡ []
      → Blames i (rule ∷ rules) (no_method i)
  unsupported :
      {i : ℕ} {rule : CorsRule} {rules : List CorsRule} (bad : Text)
      → find (λ m. not (is_s3_method m)) rule.allowed_methods ≡ some bad
      → is_s3_method bad ≡ false
      → Blames i (rule ∷ rules) (unsupported_method i bad)
  later :
      {i : ℕ} {rule : CorsRule} {rules : List CorsRule} {e : Invalid}
      → IsValidRule rule
      → Blames (i + 1) rules e
      → Blames i (rule ∷ rules) e

pub data Judged (i : ℕ) (rules : List CorsRule) : Option Invalid → Type 0 where
  valid : All IsValidRule rules → Judged i rules none
  blamed : (e : Invalid) → Blames i rules e → Judged i rules (some e)

Judged-cons :
    (i : ℕ) (rule : CorsRule) (rules : List CorsRule) (o : Option Invalid)
    → IsValidRule rule
    → Judged (i + 1) rules o
    → Judged i (rule ∷ rules) o
Judged-cons i rule rules o v (valid h) = valid (v, h)
Judged-cons i rule rules o v (blamed e b) = blamed e (later v b)

empty-nil : (xs : List Text) → is_empty xs ≡ true → xs ≡ []
empty-nil [] h = refl
empty-nil (x ∷ xs) h = cc

empty-cons : (xs : List Text) → is_empty xs ≡ false → xs ≢ []
empty-cons [] h = cc
empty-cons (x ∷ xs) h = λ e. cc

supported_each :
    (methods : List Text)
    → All (λ m. not (is_s3_method m) ≡ false) methods
    → All (λ m. is_s3_method m ≡ true) methods
supported_each [] h = tt
supported_each (m ∷ methods) (p, h) = (ground arith, supported_each methods h)

not-true : (b : Bool) → not b ≡ true → b ≡ false
not-true true h = cc
not-true false h = refl

validate_from-Judged : (i : ℕ) (rules : List CorsRule) → Judged i rules (validate_from i rules)
unfolding validate_from
validate_from-Judged i [] = valid tt
validate_from-Judged i (rule ∷ rules) = elim (Bool-cases (is_empty rule.allowed_origins)) [
  | inl e ↦ rw e (blamed _ (origin (empty-nil _ e)))
  | inr some_origin ↦ elim (Bool-cases (is_empty rule.allowed_methods)) [
    | inl e ↦ rw (some_origin, e) (blamed _ (method (empty-nil _ e)))
    | inr some_method ↦
        elim (Option-cases (find (λ m. not (is_s3_method m)) rule.allowed_methods)) [
          | inl n ↦
              rw (some_origin, some_method, n)
                (Judged-cons i rule rules _
                  record {
                    origins = empty-cons _ some_origin;
                    methods = empty-cons _ some_method;
                    supported =
                        supported_each rule.allowed_methods
                          (find-none (λ m. not (is_s3_method m)) rule.allowed_methods n);
                  }
                  (validate_from-Judged (i + 1) rules))
          | inr (bad, f) ↦
              rw (some_origin, some_method, f)
                (blamed _ (
                  unsupported bad f (
                    not-true (is_s3_method bad)
                      (find-holds (λ m. not (is_s3_method m)) rule.allowed_methods bad f))))
        ]
  ]
]

-- What `validate` is to answer: a refusal blames the lack of rules, or the first invalid rule.
pub data Validity (rules : List CorsRule) : Option Invalid → Type 0 where
  lacking : rules ≡ [] → Validity rules (some no_rules)
  judged : {o : Option Invalid} → rules ≢ [] → Judged 0 rules o → Validity rules o

-- `validate` accepts exactly the configurations of at least one rule whose rules are all valid, and
-- its refusal names the first invalid rule, by its index, and what is wrong with it.
pub validate-Validity : (rules : List CorsRule) → Validity rules (validate rules)
unfolding validate
validate-Validity [] = lacking refl
validate-Validity (rule ∷ rules) = judged (λ e. cc) (validate_from-Judged 0 (rule ∷ rules))
