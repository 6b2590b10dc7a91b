-- ===== src/Listing.antt =====
-- src/listing.rs: the pure listing engine of ListObjects and ListObjectsV2, which walks the keys
-- of a bucket in order, rolls keys up at a delimiter and cuts the result into pages.
pub mod Successor
pub mod Groups
pub mod Items
pub mod Pages
pub mod Paging
pub mod Follow
pub mod Seek
pub mod Tokens
pub mod Cursors
pub mod Bounds
pub mod Resume
pub mod Batches
pub mod Tests
use mathlib.Core.List.{reverse}
use cubby.Base.{
  ℕ, zero, suc, ◌+◌, ◌-◌, ◌<◌, ◌≡◌, Bool, true, false, not, ◌&&◌, ◌||◌, Option, none, some, List,
  [], ◌∷◌, ◌++◌, Text, text_ltb, text_leb, starts_with, ltb, leb, ◌==◌, if◌then◌else◌, length,
  is_empty, take, drop, unwrap_or,
}

-- `char::from_u32`: a Unicode scalar value, which is a code point that is no surrogate.
abbrev pub from_u32 : ℕ → Option ℕ
from_u32 n = if ltb n 0xD800 || (leb 0xE000 n && ltb n 0x110000) then some n else none

-- `n` after the jump over the surrogates, as the `let` of the source.
abbrev pub past_surrogates : ℕ → ℕ
past_surrogates n = if n == 0xD800 then 0xE000 else n

unfoldable pub next_scalar : ℕ → Option ℕ
next_scalar c = from_u32 (past_surrogates (c + 1))

-- The `while let Some(last) = chars.pop()` loop, over the characters with the last one first.
pub pop_loop : Text → Option Text
pop_loop [] = none
pop_loop (last ∷ chars) = elim (next_scalar last) [
  | some next ↦ some (reverse chars ++ next ∷ [])
  | none ↦ pop_loop chars
]

unfoldable pub successor : Text → Option Text
unfolding pop_loop next_scalar
successor prefix = pop_loop (reverse prefix)

pub record ListParams : Type 0 where
  pub prefix : Text
  pub delimiter : Option Text
  pub start_from : Option Text
  pub skip_cp_le : Option Text
  pub max_keys : ℕ

pub record ListPage {ℓ} (T : Type ℓ) : Type ℓ where
  pub contents : List T
  pub common_prefixes : List Text
  pub is_truncated : Bool
  pub next_cursor : Option Text
  pub next_marker : Option Text

pub data Group : Type 0 where
  content : Group
  rolled : Text → Group

-- `str::find`: where the first occurrence of `delim` begins.
unfoldable pub find_from : Text → Text → ℕ → Option ℕ
find_from [] delim i = if starts_with [] delim then some i else none
find_from (c ∷ rest) delim i =
    if starts_with (c ∷ rest) delim then some i else find_from rest delim (i + 1)

-- The group of a key whose rest after the prefix has its first delimiter at an index.
abbrev pub group_at : Text → Text → Text → Option ℕ → Group
group_at key prefix delim none = content
group_at key prefix delim (some idx) = rolled (take (length prefix + idx + length delim) key)

-- `delimiter.filter(|d| !d.is_empty())` first: an empty delimiter is none.
unfoldable pub classify : Text → Text → Option Text → Group
unfolding find_from
classify key prefix none = content
classify key prefix (some []) = content
classify key prefix (some (d ∷ delim)) =
    group_at key prefix (d ∷ delim) (find_from (drop (length prefix) key) (d ∷ delim) 0)

-- The variables of the loop of `list_page`, `skip_below` included.
pub record LoopState {ℓ} (T : Type ℓ) : Type ℓ where
  pub contents : List T
  pub common_prefixes : List Text
  pub last_representative : Option Text
  pub cursor : Option Text
  pub skip_below : Option Text

-- How one pass of the `for` loop goes on: `return`, `break 'outer`, or to the next row.
pub data Flow {ℓ} (T : Type ℓ) : Type ℓ where
  return : ListPage T → Flow T
  break_outer : LoopState T → Flow T
  next : LoopState T → Flow T

-- A `return` or a `break 'outer` leaves out what follows it.
infixl 5 ◌>>=◌
abbrev pub ◌>>=◌ {ℓ} : {T : Type ℓ} → Flow T → (LoopState T → Flow T) → Flow T
return page >>= k = return page
break_outer w >>= k = break_outer w
next w >>= k = k w

-- `if key < sb { continue; }`
abbrev pub is_skipped : Option Text → Text → Bool
is_skipped none key = false
is_skipped (some sb) key = text_ltb key sb

-- `params.skip_cp_le.is_some_and(|m| cp <= m)`
abbrev pub is_covered : Option Text → Text → Bool
is_covered none cp = false
is_covered (some m) cp = text_leb cp m

module _ {ℓ} {T : Type ℓ} where
  abbrev pub emitted : LoopState T → ℕ
  emitted w = length w.contents + length w.common_prefixes

  -- The page at the end of `list_page`, and the page that is returned where more rows exist.
  abbrev pub last_page : LoopState T → ListPage T
  last_page w = record {
    contents = w.contents;
    common_prefixes = w.common_prefixes;
    is_truncated = false;
    next_cursor = none;
    next_marker = none;
  }

  abbrev pub truncated_page : LoopState T → ListPage T
  truncated_page w = record {
    contents = w.contents;
    common_prefixes = w.common_prefixes;
    is_truncated = true;
    next_cursor = some (unwrap_or w.cursor []);
    next_marker = w.last_representative;
  }

  -- `skip_below` is declared inside the loop: each batch begins without it.
  abbrev pub fresh : LoopState T → LoopState T
  fresh w = record w { skip_below = none }

  -- The variables before the loop.
  abbrev pub first_state : ListParams → LoopState T
  first_state params = record {
    contents = [];
    common_prefixes = [];
    last_representative = none;
    cursor = params.start_from;
    skip_below = none;
  }

  abbrev pub push_content : T → Text → LoopState T → LoopState T
  push_content row key w = record w {
    contents = w.contents ++ row ∷ [];
    last_representative = some key;
    cursor = some (key ++ 0 ∷ []);
    skip_below = none;
  }

  abbrev pub push_group : Bool → Text → Text → LoopState T → LoopState T
  push_group true cp after w = record w { cursor = some after; skip_below = some after }
  push_group false cp after w = record w {
    common_prefixes = w.common_prefixes ++ cp ∷ [];
    last_representative = some cp;
    cursor = some after;
    skip_below = some after;
  }

  -- What follows the `for` loop: a short batch was the last one.
  abbrev pub after_batch : Bool → (LoopState T → Option (ListPage T)) → Flow T → Option (ListPage T)
  after_batch short again (return page) = some page
  after_batch short again (break_outer w) = some (last_page w)
  after_batch true again (next w) = some (last_page w)
  after_batch false again (next w) = again w

  module _ (key_of : T → Text) (params : ListParams) where
    -- A row that is not skipped and finds room on the page.
    abbrev pub handle_group : T → LoopState T → Group → Flow T
    handle_group row w content = next (push_content row (key_of row) w)
    handle_group row w (rolled cp) = elim (successor cp) [
      | none ↦ break_outer w
      | some after ↦ next (push_group (is_covered params.skip_cp_le cp) cp after w)
    ]

    unfoldable pub handle_row : T → LoopState T → Flow T
    handle_row row w =
        if is_skipped w.skip_below (key_of row)
        then next w
        else if emitted w == params.max_keys
        then return (truncated_page w)
        else handle_group row (fresh w) (classify (key_of row) params.prefix params.delimiter)

    -- `for row in &batch`
    pub scan : List T → LoopState T → Flow T
    scan [] w = next w
    scan (row ∷ batch) w = handle_row row w >>= scan batch

    module _ (fetch : Option Text → ℕ → List T) where
      -- The lookahead of a full page.
      pub full_page : LoopState T → ListPage T
      full_page w = if is_empty (fetch w.cursor 1) then last_page w else truncated_page w

      -- `'outer: loop`; `none` means that the fuel ran out.
      pub outer_loop : ℕ → LoopState T → Option (ListPage T)
      outer_loop zero w = none
      outer_loop (suc fuel) w =
          let want = params.max_keys - emitted w + 1 in
          let batch = fetch w.cursor want in
          let again = outer_loop fuel in
          if emitted w == params.max_keys
          then some (full_page w)
          else if is_empty batch
          then some (last_page w)
          else after_batch (ltb (length batch) want) again (scan batch (fresh w))

      pub list_page : ℕ → Option (ListPage T)
      list_page fuel =
          if params.max_keys == 0
          then some (last_page (first_state params))
          else outer_loop fuel (first_state params)
