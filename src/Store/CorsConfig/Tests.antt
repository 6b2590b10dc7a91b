-- ===== src/Store/CorsConfig/Tests.antt =====
-- A printer and a reader of rules that stand for serde_json: each value as numbers in front of the rest.
use cubby.Base.{ℕ, zero, suc, ◌≡◌, refl, Option, none, some, List, [], ◌∷◌, Text, length}
use cubby.Base.{codes, text_eq}
use cubby.Cors.{CorsRule, validate, validate_from}
use cubby.Db.{bucket_exists, put_bucket_cors}
use cubby.Db.Table.{key_eq}
use cubby.Store.{ok, S3Result, World, ◌>>=◌}
use cubby.Store.Tests.{setup, world}
use cubby.Store.CorsConfig.{RulesJson, DtoRule, put_bucket_cors_handler}

pub record Codec (A : Type 0) : Type 0 where
  pub print : A → Text → Text
  pub read : Text → Option (A × Text)
  pub read-print : (a : A) (rest : Text) → read (print a rest) ≡ some (a, rest)

abbrev next : {A B : Type 0} → Option (A × Text) → (A → Text → Option B) → Option B
next none k = none
next (some (a, rest)) k = k a rest

abbrev first_of : Text → Option (ℕ × Text)
first_of [] = none
first_of (n ∷ rest) = some (n, rest)

abbrev number : Codec ℕ
number = record { print = λ n rest. n ∷ rest; read = first_of; read-print = λ n rest. refl }

module _ {A : Type 0} (c : Codec A) where
  abbrev print_all : List A → Text → Text
  print_all [] rest = rest
  print_all (a ∷ l) rest = c.print a (print_all l rest)

  abbrev read_all : ℕ → Text → Option (List A × Text)
  read_all zero s = some ([], s)
  read_all (suc n) s =
      next (c.read s) λ a rest. next (read_all n rest) λ l later. some (a ∷ l, later)

  pub read_all-print_all :
      (l : List A) (rest : Text) → read_all (length l) (print_all l rest) ≡ some (l, rest)
  read_all-print_all [] rest = refl
  read_all-print_all (a ∷ l) rest =
      rw (c.read-print a (print_all l rest), read_all-print_all l rest) refl

  abbrev list_of : Codec (List A)
  list_of = record {
    print = λ l rest. length l ∷ print_all l rest;
    read = λ s. next (first_of s) read_all;
    read-print = read_all-print_all;
  }

  abbrev print_option : Option A → Text → Text
  print_option none rest = 0 ∷ rest
  print_option (some a) rest = 1 ∷ c.print a rest

  abbrev read_option : ℕ → Text → Option (Option A × Text)
  read_option zero s = some (none, s)
  read_option (suc n) s = next (c.read s) λ a rest. some (some a, rest)

  pub read_option-print_option :
      (o : Option A) (rest : Text)
      → next (first_of (print_option o rest)) read_option ≡ some (o, rest)
  read_option-print_option none rest = refl
  read_option-print_option (some a) rest = rw (c.read-print a rest) refl

  abbrev option_of : Codec (Option A)
  option_of = record {
    print = print_option;
    read = λ s. next (first_of s) read_option;
    read-print = read_option-print_option;
  }

abbrev texts : Codec (List Text)
texts = list_of (list_of number)

abbrev rule : Codec CorsRule
rule = record {
  print = λ r rest. texts.print r.allowed_origins (
      texts.print r.allowed_methods (
        texts.print r.allowed_headers (
          texts.print r.expose_headers (
            (option_of number).print r.max_age_seconds
              ((option_of (list_of number)).print r.id rest)))));
  read = λ s. next (texts.read s) λ origins s1. next (texts.read s1) λ methods s2.
      next (texts.read s2) λ headers s3. next (texts.read s3) λ exposed s4.
        next ((option_of number).read s4) λ max_age s5.
          next ((option_of (list_of number)).read s5) λ id rest. some (
            record {
              allowed_origins = origins;
              allowed_methods = methods;
              allowed_headers = headers;
              expose_headers = exposed;
              max_age_seconds = max_age;
              id = id;
            },
            rest,
          );
  read-print = λ r rest.
      rw
        (
          texts.read-print r.allowed_origins _,
          texts.read-print r.allowed_methods _,
          texts.read-print r.allowed_headers _,
          texts.read-print r.expose_headers _,
          (option_of number).read-print r.max_age_seconds _,
          (option_of (list_of number)).read-print r.id rest,
        )
        refl;
}

unfoldable pub json : RulesJson
json = record {
  print = λ rules. (list_of rule).print rules [];
  parse_rules = λ s. next ((list_of rule).read s) λ rules rest. some rules;
  parse_rules-print = λ rules. rw ((list_of rule).read-print rules []) refl;
}

abbrev pub any_origin : DtoRule
any_origin = record {
  allowed_origins = codes "*" ∷ [];
  allowed_methods = codes "GET" ∷ [];
  allowed_headers = none;
  expose_headers = none;
  max_age_seconds = some 60;
  id = none;
}

abbrev pub put_rules : S3Result (Unit {0}) × World setup
put_rules = put_bucket_cors_handler setup json (codes "b") (any_origin ∷ []) world

pub accepted : put_rules.0 ≡ ok tt
unfolding put_bucket_cors_handler bucket_exists key_eq text_eq validate validate_from
    put_bucket_cors ◌>>=◌
accepted = refl
