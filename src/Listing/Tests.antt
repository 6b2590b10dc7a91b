-- ===== src/Listing/Tests.antt =====
-- The theorems of the listing at one bucket: `a/x`, `a/y` and `b`, listed with the delimiter `/`.
use cubby.Base.{
  ◌<◌, ◌≡◌, refl, inl, true, false, none, some, List, [], ◌∷◌, Text, codes, starts_with, text_ltb,
  text_eq, length, All, arith,
}
use cubby.Listing.{
  ListParams, ListPage, successor, next_scalar, list_page, pop_loop, first_state, scan, outer_loop,
  full_page, handle_row, classify, find_from,
}
use cubby.Listing.Successor.{IsScalar, IsStr, in_range, successor-range, successor_least}
use cubby.Listing.Seek.{table_fetch}
use cubby.Listing.Items.{Item, IsListed, IsBounded, rows_of, groups_of}
use cubby.Listing.Paging.{
  IsTable, IsPage, Resumption, items_from, list_page-IsPage, list_page-Resumption,
}
use cubby.Listing.Follow.{follow, follow_complete}
use cubby.Listing.Tokens.{Base64, encode_token, decode_token, decode_token-encode_token}

abbrev keys : List Text
keys = codes "a/x" ∷ codes "a/y" ∷ codes "b" ∷ []

abbrev itself : Text → Text
itself key = key

abbrev params : ListParams
params = record {
  prefix = [];
  delimiter = some (codes "/");
  start_from = none;
  skip_cp_le = none;
  max_keys = 1;
}

strs : All IsStr keys
strs = (
  (scalar_97, (scalar_47, (scalar_120, tt))),
  ((scalar_97, (scalar_47, (scalar_121, tt))), ((scalar_98, tt), tt)),
)
  where
    scalar_97 : IsScalar 97
    scalar_97 = (omega arith, inl (omega arith))

    scalar_47 : IsScalar 47
    scalar_47 = (omega arith, inl (omega arith))

    scalar_120 : IsScalar 120
    scalar_120 = (omega arith, inl (omega arith))

    scalar_121 : IsScalar 121
    scalar_121 = (omega arith, inl (omega arith))

    scalar_98 : IsScalar 98
    scalar_98 = (omega arith, inl (omega arith))

table : IsTable itself keys
unfolding text_ltb
table = record { strs = strs; ascending = ((refl, (refl, tt)), ((refl, tt), (tt, tt))) }

listed : All (IsListed itself params) keys
unfolding starts_with
listed = ((strs.0, refl), ((strs.1.0, refl), ((strs.1.1.0, refl), tt)))

pub slash_next : successor (codes "/") ≡ some (codes "0")
unfolding successor pop_loop next_scalar
slash_next = refl

bounded : IsBounded itself params
bounded d h e = let same : codes "/" ≡ d = cc h in cc (slash_next, rw (← same) at e)

successor-range_example :
    starts_with (codes "a/x") (codes "a")
    ≡ in_range (codes "a") (successor (codes "a")) (codes "a/x")
successor-range_example =
    successor-range (codes "a") (codes "a/x") ((omega arith, inl (omega arith)), tt) strs.0

list_page-IsPage_example :
    (page : ListPage Text) × (list_page itself params (table_fetch itself keys) 4 ≡ some page)
    × IsPage itself keys params none page
list_page-IsPage_example =
    list_page-IsPage itself keys params 4 table listed bounded refl (omega arith) (omega arith)

above_slash : (r : Text) → IsStr (47 ∷ r) → text_ltb (47 ∷ r) (codes "0") ≡ true
unfolding text_ltb
above_slash r str = refl

successor_least_example :
    (u : Text) × (successor (codes "/") ≡ some u)
    × IsStr u
    × (text_ltb (codes "/a") u ≡ true)
    × (text_ltb (codes "0") u ≡ false)
successor_least_example =
    successor_least (codes "/") (codes "0") (codes "a") ((omega arith, inl (omega arith)), tt)
      ((omega arith, inl (omega arith)), tt)
      ((omega arith, inl (omega arith)), ((omega arith, inl (omega arith)), tt)) above_slash

abbrev first_page : ListPage Text
first_page = record {
  contents = [];
  common_prefixes = codes "a/" ∷ [];
  is_truncated = true;
  next_cursor = some (codes "a0");
  next_marker = some (codes "a/");
}

runs : list_page itself params (table_fetch itself keys) 4 ≡ some first_page
unfolding list_page outer_loop scan full_page handle_row classify find_from successor pop_loop
    next_scalar starts_with text_ltb text_eq
runs = refl

list_page-Resumption_example : Resumption itself keys params none first_page
list_page-Resumption_example =
    list_page-Resumption itself keys params 4 first_page table listed bounded refl (omega arith)
      (omega arith) runs refl

few : length (items_from itself keys params none) < 5
unfolding classify find_from starts_with text_eq cubby.Listing.Items.collapse
few = omega arith

follow_complete_example :
    follow itself keys params 5 4 none
    ≡ some (
      rows_of (items_from itself keys params none),
      groups_of (items_from itself keys params none),
    )
follow_complete_example =
    follow_complete itself keys params 5 4 none table listed bounded refl (omega arith)
      (omega arith) few

abbrev plain_base64 : Base64
plain_base64 = record { encode = λ bytes. bytes; decode = some; decode-encode = λ bytes. refl }

decode_token-encode_token_example :
    decode_token plain_base64 (encode_token plain_base64 (codes "a/x")) ≡ some (codes "a/x")
decode_token-encode_token_example = decode_token-encode_token plain_base64 (codes "a/x") strs.0
