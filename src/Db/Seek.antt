-- ===== src/Db/Seek.antt =====
-- `list_objects_page` is the seek primitive that the listing engine assumes, over the bucket's rows
-- with the prefix; so a listing through the database is the specification's.
use cubby.Base.{
  ℕ, zero, suc, ◌<◌, ◌≡◌, refl, sym, ap, ◌∙◌, inl, inr, Bool, true, false, not, ◌&&◌, Option, none,
  some, List, [], ◌∷◌, Text, text_eq, text_eq_iff, text_eq_refl, text_ltb, text_leb, starts_with,
  if◌then◌else◌, filter, take, length, All, All-filter, Bool-cases, arith, ◌==◌,
}
use cubby.Base.Order.{ltb_le_trans, ltb_trans}
use cubby.Listing.{ListParams, ListPage, list_page, successor}
use cubby.Listing.Successor.{IsStr, in_range, successor-range}
use cubby.Listing.Seek.{Ascending, rows_from, table_fetch}
use cubby.Listing.Items.{IsListed, IsBounded}
use cubby.Listing.Paging.{IsPage, list_page-IsPage}
use cubby.Db.Table.{key_ltb, Sorted}
use cubby.Db.{Db, ObjectRow, object_key, lower_bound, below_upper, list_objects_page}

abbrev pub key_of : ObjectRow → Text
key_of row = row.key

-- The rows that a listing is about.
abbrev pub listed_rows : Text → Text → Db → List ObjectRow
listed_rows bucket prefix db =
    filter (λ r. text_eq r.bucket bucket && starts_with r.key prefix) db.objects

-- A key below the prefix is below a cursor after it, and one below a cursor not after the prefix is
-- below the prefix.
prefix_first :
    (prefix key c : Text)
    → text_ltb prefix c ≡ true
    → text_ltb key prefix ≡ true
    → text_ltb key c ≡ true
prefix_first prefix key c h k = ltb_trans key prefix c k h

cursor_first :
    (prefix key c : Text)
    → text_ltb prefix c ≡ false
    → text_ltb key c ≡ true
    → text_ltb key prefix ≡ true
cursor_first prefix key c h k = ltb_le_trans key c prefix k h

and_moves : (b a up : Bool) → (b ≡ true → a ≡ true) → (not a && up) ≡ ((not b && up) && not a)
and_moves true true true h = refl
and_moves true true false h = refl
and_moves true false up h = cc (h refl)
and_moves false true true h = refl
and_moves false true false h = refl
and_moves false false true h = refl
and_moves false false false h = refl

and_stays : (b a up : Bool) → (a ≡ true → b ≡ true) → (not b && up) ≡ ((not b && up) && not a)
and_stays true a up h = refl
and_stays false true up h = cc (h refl)
and_stays false false true h = refl
and_stays false false false h = refl

and_unit : (a : Bool) → (a && true) ≡ a
and_unit true = refl
and_unit false = refl

range-upper :
    (prefix key : Text) (u : Option Text)
    → in_range prefix u key ≡ (not (text_ltb key prefix) && below_upper u key)
range-upper prefix key none = sym (and_unit (not (text_ltb key prefix)))
range-upper prefix key (some upper) = refl

bounds-cases :
    (prefix key c : Text) (u : Option Text)
    → (text_leb (lower_bound prefix (some c)) key && below_upper u key)
      ≡ (in_range prefix u key && not (text_ltb key c))
bounds-cases prefix key c u = rw (range-upper prefix key u) (elim (Bool-cases (text_ltb prefix c)) [
  | inl e ↦ rw e (
      and_moves (text_ltb key prefix) (text_ltb key c) (below_upper u key)
        (prefix_first prefix key c e))
  | inr e ↦ rw e (
      and_stays (text_ltb key prefix) (text_ltb key c) (below_upper u key)
        (cursor_first prefix key c e))
])

-- The bounds of the scan hold of the keys with the prefix from the cursor on.
bounds-from :
    (prefix key c : Text)
    → IsStr prefix
    → IsStr key
    → (text_leb (lower_bound prefix (some c)) key && below_upper (successor prefix) key)
      ≡ (starts_with key prefix && not (text_ltb key c))
bounds-from prefix key c p k =
    rw (successor-range prefix key p k) (bounds-cases prefix key c (successor prefix))

bounds_none :
    (prefix key : Text)
    → IsStr prefix
    → IsStr key
    → (text_leb prefix key && below_upper (successor prefix) key) ≡ starts_with key prefix
bounds_none prefix key p k =
    rw (successor-range prefix key p k) (sym (range-upper prefix key (successor prefix)))

-- Filters that agree on each row, and one filter after another.
filter-agree :
    (p q : ObjectRow → Bool) (rows : List ObjectRow)
    → All (λ r. p r ≡ q r) rows
    → filter p rows ≡ filter q rows
filter-agree p q [] h = refl
filter-agree p q (r ∷ rows) (e, h) = rw (e, filter-agree p q rows h) refl

filter-filter :
    (p q : ObjectRow → Bool) (rows : List ObjectRow)
    → filter p (filter q rows) ≡ filter (λ r. q r && p r) rows
filter-filter p q [] = refl
filter-filter p q (r ∷ rows) = elim (Bool-cases (q r)) [
  | inl e ↦ rw (e, filter-filter p q rows) refl
  | inr e ↦ rw (e, filter-filter p q rows) refl
]

abbrev in_scan : Text → Text → Option Text → ObjectRow → Bool
in_scan bucket prefix from r =
    text_eq r.bucket bucket
    && text_leb (lower_bound prefix from) r.key
    && below_upper (successor prefix) r.key

and_assoc : (a b c : Bool) → (a && b && c) ≡ (a && (b && c))
and_assoc true b c = refl
and_assoc false b c = refl

agree_each :
    (P : ObjectRow → Type 0) (Q : ObjectRow → Type 0) (rows : List ObjectRow)
    → ((r : ObjectRow) → P r → Q r)
    → All P rows
    → All Q rows
agree_each P Q [] f h = tt
agree_each P Q (r ∷ rows) f (p, h) = (f r p, agree_each P Q rows f h)

-- The rows of a scan are the listed rows from the cursor on.
scan-rows :
    (bucket prefix : Text) (db : Db) (from : Option Text)
    → IsStr prefix
    → All (λ r. IsStr r.key) db.objects
    → filter (in_scan bucket prefix from) db.objects
      ≡ rows_from key_of from (listed_rows bucket prefix db)
scan-rows bucket prefix db none p strs = filter-agree _ _ db.objects (
    agree_each (λ r. IsStr r.key) _ db.objects
      (λ r k.
        and_assoc (text_eq r.bucket bucket) (text_leb (lower_bound prefix none) r.key)
          (below_upper (successor prefix) r.key)
        ∙ ap (λ b. text_eq r.bucket bucket && b) (bounds_none prefix r.key p k))
      strs)
scan-rows bucket prefix db (some c) p strs =
    filter-agree _ _ db.objects (
      agree_each (λ r. IsStr r.key) _ db.objects
        (λ r k.
          and_assoc (text_eq r.bucket bucket) (text_leb (lower_bound prefix (some c)) r.key)
            (below_upper (successor prefix) r.key)
          ∙ ap (λ b. text_eq r.bucket bucket && b) (bounds-from prefix r.key c p k)
          ∙ sym (
              and_assoc (text_eq r.bucket bucket) (starts_with r.key prefix)
                (not (text_ltb r.key c))))
        strs)
    ∙ sym (
        filter-filter (λ r. not (text_ltb r.key c))
          (λ r. text_eq r.bucket bucket && starts_with r.key prefix) db.objects)

take-limit :
    (limit : ℕ) (rows : List ObjectRow)
    → (if limit == 0 then [] else take limit rows) ≡ take limit rows
take-limit zero rows = refl
take-limit (suc n) rows = let some_room : (suc n == 0) ≡ false = ground arith in rw some_room refl

-- `list_objects_page` is the seek primitive of the listing engine over the bucket's rows with the
-- prefix: the scan between the two bounds is exactly those rows, from the cursor on.
pub list_objects_page-seeks :
    (bucket prefix : Text) (db : Db) (from : Option Text) (limit : ℕ)
    → IsStr prefix
    → All (λ r. IsStr r.key) db.objects
    → list_objects_page bucket prefix db from limit
      ≡ table_fetch key_of (listed_rows bucket prefix db) from limit
unfolding list_objects_page
list_objects_page-seeks bucket prefix db from limit p strs =
    take-limit limit _ ∙ ap (λ rows. take limit rows) (scan-rows bucket prefix db from p strs)

-- Keys of one bucket ascend in a table in the order of its primary keys.
ascending_after :
    (bucket prefix : Text) (row : ObjectRow) (rows : List ObjectRow)
    → text_eq row.bucket bucket ≡ true
    → All (λ s. key_ltb (object_key row) (object_key s) ≡ true) rows
    → All
        (λ s. text_ltb row.key s.key ≡ true)
        (filter (λ r. text_eq r.bucket bucket && starts_with r.key prefix) rows)
unfolding key_ltb
ascending_after bucket prefix row [] e h = tt
ascending_after bucket prefix row (s ∷ rows) e (less, h) =
    let rest = ascending_after bucket prefix row rows e h in
    elim (Bool-cases (text_eq s.bucket bucket)) [
      | inr other ↦ rw other rest
      | inl here ↦ elim (Bool-cases (starts_with s.key prefix)) [
        | inr out ↦ rw (here, out) rest
        | inl begins ↦
            let q =
              (text_eq_iff row.bucket bucket).0 e ∙ sym ((text_eq_iff s.bucket bucket).0 here) in
            let same : text_eq row.bucket s.bucket ≡ true = rw q (text_eq_refl s.bucket) in
            rw (here, begins) (rw same at less, rest)
      ]
    ]

pub listed_rows-Ascending :
    (bucket prefix : Text) (rows : List ObjectRow)
    → Sorted object_key rows
    → Ascending key_of (filter (λ r. text_eq r.bucket bucket && starts_with r.key prefix) rows)
listed_rows-Ascending bucket prefix [] h = tt
listed_rows-Ascending bucket prefix (row ∷ rows) (after, h) =
    let rest = listed_rows-Ascending bucket prefix rows h in
    elim (Bool-cases (text_eq row.bucket bucket)) [
      | inr other ↦ rw other rest
      | inl here ↦ elim (Bool-cases (starts_with row.key prefix)) [
        | inr out ↦ rw (here, out) rest
        | inl begins ↦ rw (here, begins) (ascending_after bucket prefix row rows here after, rest)
      ]
    ]

pub rows-IsListed :
    (bucket : Text) (params : ListParams) (rows : List ObjectRow)
    → All (λ r. IsStr r.key) rows
    → All
        (IsListed key_of params)
        (filter (λ r. text_eq r.bucket bucket && starts_with r.key params.prefix) rows)
rows-IsListed bucket params [] h = tt
rows-IsListed bucket params (row ∷ rows) (str, h) =
    let rest = rows-IsListed bucket params rows h in
    elim (Bool-cases (text_eq row.bucket bucket)) [
      | inr other ↦ rw other rest
      | inl here ↦ elim (Bool-cases (starts_with row.key params.prefix)) [
        | inr out ↦ rw (here, out) rest
        | inl begins ↦ rw (here, begins) ((str, begins), rest)
      ]
    ]

-- ListObjectsV2 through the database: the engine, run on `list_objects_page`, returns the page of the
-- specification over the bucket's rows with the prefix, when the table is in order and its keys and
-- the prefix are strings, for a page of at least one item and a delimiter that has a successor.
pub list_page-list_objects_page :
    (bucket : Text) (db : Db) (params : ListParams) (fuel : ℕ)
    → Sorted object_key db.objects
    → All (λ r. IsStr r.key) db.objects
    → IsStr params.prefix
    → IsBounded key_of params
    → params.skip_cp_le ≡ none
    → 0 < params.max_keys
    → length (listed_rows bucket params.prefix db) < fuel
    → (page : ListPage ObjectRow) × (list_page key_of params
          (list_objects_page bucket params.prefix db)
          fuel
        ≡ some page)
      × IsPage key_of (listed_rows bucket params.prefix db) params params.start_from page
list_page-list_objects_page bucket db params fuel sorted strs p bounded v2 room enough =
    let same : list_objects_page bucket params.prefix db
        ≡ table_fetch key_of (listed_rows bucket params.prefix db) =
      λ i from limit. list_objects_page-seeks bucket params.prefix db from limit p strs i in
    rw same (
      list_page-IsPage key_of (listed_rows bucket params.prefix db) params fuel
        record {
          strs = All-filter (λ r. IsStr r.key) _ db.objects strs;
          ascending = listed_rows-Ascending bucket params.prefix db.objects sorted;
        }
        (rows-IsListed bucket params db.objects strs) bounded v2 room enough)
