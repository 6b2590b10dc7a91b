-- ===== src/Store/Uploads/Tests.antt =====
-- The theorem of the uploads at one part, completed on the disk that takes everything.
use cubby.Base.{
  arith, ◌≡◌, refl, none, some, List, [], ◌∷◌, ◌++◌, Text, codes, text_eq, length, if◌then◌else◌,
  map, starts_with, strip_prefix,
}
use cubby.Base.Str.{
  trim_end, to_ascii_uppercase, to_ascii_lowercase, split, eq_ignore_ascii_case, trim_start,
}
use cubby.Keypath.{
  key_to_relpath, push_segments, encode_segment, encode_trailing, is_illegal, encode_reserved,
  stem_of, is_reserved_stem, push, needs_separator,
}
use cubby.Base.Integers.{pos}
use cubby.Multipart.{
  RecordedPart, Completion, validate_complete, composite_etag, normalize_etag, is_out_of_order,
  select_parts, raw_digests,
}
use cubby.Notify.{complete_multipart_upload, created}
use cubby.Utf8.{as_bytes}
use cubby.Db.{
  Db, open_empty, MultipartRow, get_multipart, all_parts, bucket_exists, put_object,
  complete_multipart, delete_multipart,
}
use cubby.Db.Table.{key_eq}
use cubby.Store.{ok, ObjectOutput, World, get_object_handler, ◌>>=◌}
use cubby.Store.Files.{copy_into, synced, with_temp, rename_into}
use cubby.Store.Uploads.{
  CompletedPart, submitted_of, recorded_of, part_path, complete_multipart_upload_handler,
  finish_upload, assemble_parts, append_parts,
}
use cubby.Store.Uploads.Assembly.{joined, IsOutsideParts}
use cubby.Store.Uploads.ReadBack.{get_object_handler-complete_multipart_upload_handler}
use cubby.Store.Tests.{setup, world}

abbrev parts : List CompletedPart
parts = record { part_number = some (pos 1); e_tag = some (codes "hi") } ∷ []

abbrev upload : MultipartRow
upload = record {
  upload_id = codes "u";
  bucket = codes "b";
  key = codes "k";
  content_type = none;
  metadata = codes "{}";
  started_at = 0;
}

abbrev staged : Db
staged = record open_empty {
  buckets = record { name = codes "b"; created_at = 0 } ∷ [];
  multipart_uploads = upload ∷ [];
  multipart_parts =
      record {
        upload_id = codes "u";
        part = record { part_number = 1; size = 2; etag = codes "hi" };
      }
      ∷ [];
}

abbrev full : World setup
full = record world {
  db = staged;
  disk = λ p. if text_eq p (part_path setup (codes "u") 1) then some (codes "hi") else none;
}

abbrev composite : Text
composite = codes "hi-" ++ 1 ∷ []

outside_parts : IsOutsideParts setup (codes "u") (0 ∷ codes "assemble")
unfolding push needs_separator text_eq as_bytes starts_with
outside_parts n = ground arith

completed :
    (complete_multipart_upload_handler setup (codes "b") (codes "k") (codes "u") parts full).0
    ≡ ok composite
unfolding complete_multipart_upload_handler finish_upload assemble_parts append_parts copy_into
    synced with_temp rename_into complete_multipart delete_multipart get_multipart all_parts
    validate_complete composite_etag normalize_etag is_out_of_order select_parts raw_digests
    to_ascii_lowercase bucket_exists put_object key_eq text_eq key_to_relpath push_segments
    encode_segment encode_trailing trim_end is_illegal encode_reserved stem_of is_reserved_stem
    to_ascii_uppercase split push needs_separator starts_with as_bytes eq_ignore_ascii_case
    strip_prefix trim_start ◌>>=◌
completed = refl

calm :
    (complete_multipart_upload_handler setup
      (codes "b")
      (codes "k")
      (codes "u")
      parts
      full).1.db_faults
    ≡ []
unfolding complete_multipart_upload_handler finish_upload assemble_parts append_parts copy_into
    synced with_temp rename_into complete_multipart delete_multipart get_multipart all_parts
    validate_complete composite_etag normalize_etag is_out_of_order select_parts raw_digests
    to_ascii_lowercase bucket_exists put_object key_eq text_eq key_to_relpath push_segments
    encode_segment encode_trailing trim_end is_illegal encode_reserved stem_of is_reserved_stem
    to_ascii_uppercase split push needs_separator starts_with as_bytes eq_ignore_ascii_case
    strip_prefix trim_start ◌>>=◌
calm = refl

get_object_handler-complete_multipart_upload_handler_example :
    let v =
      (complete_multipart_upload_handler setup (codes "b") (codes "k") (codes "u") parts full).1 in
    (found : MultipartRow) × (selected : List RecordedPart) × (out : ObjectOutput) × (get_multipart
        (codes "u")
        staged
      ≡ some found)
    × (validate_complete (map submitted_of parts) (map recorded_of (all_parts (codes "u") staged))
        ≡ Completion.ok selected)
    × (get_object_handler setup (codes "b") (codes "k") none v ≡ (ok out, v))
    × (joined setup (codes "u") selected full.disk ≡ some out.body)
    × (out.content_length ≡ length out.body)
    × (out.e_tag ≡ composite)
    × (composite_etag setup.digests (map (λ p. p.etag_hex) selected) ≡ some composite)
    × (out.metadata ≡ found.metadata)
    × (get_multipart (codes "u") v.db ≡ none)
    × (all_parts (codes "u") v.db ≡ [])
    × (v.fired
        ≡ created (codes "b") (codes "k") complete_multipart_upload (length out.body) composite
          ∷ [])
get_object_handler-complete_multipart_upload_handler_example =
    get_object_handler-complete_multipart_upload_handler setup (codes "b") (codes "k") (codes "u")
      parts full composite outside_parts (λ path p. tt) tt (λ m h. refl) completed calm
