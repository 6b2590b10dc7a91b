-- ===== src/Store/CorsConfig/Stored.antt =====
-- What a CORS configuration that was put reads back as.
use cubby.Base.{
  ◌≡◌, refl, sym, ap, ◌∙◌, inl, inr, Bool, true, false, Option, none, some, List, [], Text, map,
  if◌then◌else◌, Bool-cases,
}
use cubby.Cors.{Invalid, validate}
use cubby.Db.{Db, CorsRow, cors_key, bucket_exists, put_bucket_cors, get_bucket_cors}
use cubby.Db.Table.{Sorted, key_eq, key_eq_refl, upsert, select_row-upsert}
use cubby.Store.{invalid_request, no_such_bucket, Setup, World}
use cubby.Store.RoundTrip.{Ends}
use cubby.Store.Files.{settled, or_internal}
use cubby.Store.Outcome.{bind_inv, db_read-ok, db_call-ok, ensure-ok}
use cubby.Store.CorsConfig.{
  RulesJson, DtoRule, domain_rule_from_dto, is_none, put_bucket_cors_handler,
}

abbrev text_of : Option CorsRow → Option Text
text_of o = elim o [ none ↦ none | some r ↦ some r.rules ]

chosen :
    (b : Bool) (row : CorsRow) (other : Option CorsRow)
    → b ≡ true
    → text_of (if b then some row else other) ≡ some row.rules
chosen true row other h = refl
chosen false row other h = cc

get_bucket_cors-put_bucket_cors :
    (bucket text : Text) (db later : Db)
    → Sorted cors_key db.bucket_cors
    → put_bucket_cors bucket text db ≡ some later
    → get_bucket_cors bucket later ≡ some text
unfolding put_bucket_cors get_bucket_cors
get_bucket_cors-put_bucket_cors bucket text db later sorted h =
    elim (Bool-cases (bucket_exists bucket db)) [
      | inr e ↦ absurd (cc (rw e at h))
      | inl e ↦
          let row : CorsRow = record { bucket = bucket; rules = text } in
          let same = rw e at h in
          let found = select_row-upsert cors_key (bucket, []) row db.bucket_cors sorted in
          let there : get_bucket_cors bucket
                record db { bucket_cors = upsert cors_key row db.bucket_cors }
              ≡ some text =
            ap text_of found
            ∙ chosen (key_eq (cors_key row) (bucket, [])) row _ (key_eq_refl (bucket, [])) in
          (ap (get_bucket_cors bucket) (injected (sym same))) ∙ there
    ]
  where
    injected : {a b : Db} → some a ≡ some b → a ≡ b
    injected h = cc h

abbrev tried : Option Db → Option (Unit {0} × Db)
tried o = elim o [ none ↦ none | some later ↦ some (tt, later) ]

tried-some :
    (setup : Setup) (o : Option Db) (db : Db)
    → (settled setup (tried o) db).0 ≡ some tt
    → (later : Db) × (o ≡ some later) × ((settled setup (tried o) db).1 ≡ later)
tried-some setup none db h = cc
tried-some setup (some later) db h = (later, refl, refl)

module _ (setup : Setup) (json : RulesJson) where
  is_none-none : (o : Option Invalid) → is_none o ≡ true → o ≡ none
  is_none-none none h = refl
  is_none-none (some e) h = cc

  or_internal-ok :
      (found : Option (Unit {0})) {u v : World setup}
      → Ends setup (or_internal setup found) u tt v
      → (found ≡ some tt) × (u ≡ v)
  or_internal-ok none e = absurd (cc e.result)
  or_internal-ok (some x) e = (refl, e.state)

  pub put_bucket_cors_handler-stored :
      (bucket : Text) (dto_rules : List DtoRule) {w v : World setup}
      → Sorted cors_key w.db.bucket_cors
      → Ends setup (put_bucket_cors_handler setup json bucket dto_rules) w tt v
      → (validate (map domain_rule_from_dto dto_rules) ≡ none)
        × (get_bucket_cors bucket v.db ≡ some (json.print (map domain_rule_from_dto dto_rules)))
  unfolding put_bucket_cors_handler
  put_bucket_cors_handler-stored bucket dto_rules {w} {v} sorted e =
      let text = json.print (map domain_rule_from_dto dto_rules) in
      let (exists, u, reading, e₁) = bind_inv setup e in
      let (_, calm) = db_read-ok setup (bucket_exists bucket) reading in
      let (_, x, ensuring, e₂) = bind_inv setup e₁ in
      let (_, s) = ensure-ok setup no_such_bucket exists ensuring in
      let (_, y, checking, e₃) = bind_inv setup e₂ in
      let (valid, t) =
        ensure-ok setup invalid_request (is_none (validate (map domain_rule_from_dto dto_rules)))
          checking in
      let (found, z, calling, settling) = bind_inv setup e₃ in
      let (q, stored, _, _) = db_call-ok setup _ calling in
      let (there, r) = or_internal-ok found settling in
      let (later, put, same) =
        tried-some setup (put_bucket_cors bucket text y.db) y.db (q ∙ there) in
      let before : y.db ≡ w.db = ap (λ a. a.db) (sym t) ∙ ap (λ a. a.db) (sym s) ∙ calm.db in
      (
        is_none-none _ valid,
        ap (get_bucket_cors bucket) (ap (λ a. a.db) (sym r) ∙ stored ∙ same)
            ∙ get_bucket_cors-put_bucket_cors bucket text y.db later (rw before sorted) put,
      )
