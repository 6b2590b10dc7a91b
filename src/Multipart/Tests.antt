-- ===== src/Multipart/Tests.antt =====
-- The theorems of multipart at an upload of two parts.
use cubby.Base.{◌≡◌, refl, some, List, [], ◌∷◌, ◌++◌, codes, map}
use cubby.Base.Integers.{pos}
use cubby.Multipart.{RecordedPart, SubmittedPart, Digests, composite_etag, validate_complete}
use cubby.Multipart.Complete.{Distinct}
use cubby.Multipart.Verdicts.{Verdict, concat, validate_complete-Verdict, composite_etag-encoded}

abbrev recorded : List RecordedPart
recorded =
    record { part_number = 1; size = 5; etag_hex = codes "aa" }
    ∷ record { part_number = 2; size = 5; etag_hex = codes "bb" }
    ∷ []

abbrev submitted : List SubmittedPart
submitted =
    record { part_number = pos 1; etag = codes "W/\"AA\"" }
    ∷ record { part_number = pos 2; etag = codes "bb" }
    ∷ []

distinct : Distinct recorded
distinct = ((λ e. cc, tt), (tt, tt))

validate_complete-Verdict_example :
    Verdict recorded submitted (validate_complete submitted recorded)
validate_complete-Verdict_example = validate_complete-Verdict recorded submitted distinct

-- Digests whose hex is the bytes themselves.
abbrev pub plain : Digests
plain = record {
  md5 = λ s. s;
  hex_encode = λ s. s;
  hex_decode = some;
  decimal = λ n. n ∷ [];
  decode-encode = λ raw. refl;
}

composite_etag-encoded_example :
    composite_etag plain (map plain.hex_encode (codes "x" ∷ codes "y" ∷ []))
    ≡ some (
        plain.hex_encode (plain.md5 (concat (codes "x" ∷ codes "y" ∷ [])))
        ++ (codes "-" ++ plain.decimal 2))
composite_etag-encoded_example = composite_etag-encoded plain (codes "x" ∷ codes "y" ∷ [])
