-- ===== src/Store/Copies/Tests.antt =====
-- The theorem of the copies at a copy of `k` to `l` in a bucket, on the disk that takes everything.
use cubby.Base.{◌≡◌, refl, false, none, some, [], ◌∷◌, Text, codes, text_eq, if◌then◌else◌}
use cubby.Notify.{copy, created}
use cubby.Db.{open_empty, get_object, bucket_exists, put_object, ObjectRow}
use cubby.Store.{ok, ObjectOutput, World, get_object_handler, ◌>>=◌}
use cubby.Store.Copies.{
  CopyObjectInput, bucket_key, copy_object_handler, copy_from, move_bytes, stage_file_copy,
}
use cubby.Store.Copies.ReadBack.{get_object_handler-copy_object_handler}
use cubby.Store.Files.{PlacedAt, copy_into, synced, with_temp, rename_into}
use cubby.Store.Tests.{setup, world, files}
use cubby.Utf8.{as_bytes}
use cubby.Base.{starts_with, text_eq_refl}
use cubby.Base.Str.{trim_end, to_ascii_uppercase, split}
use cubby.Db.Table.{key_eq}
use cubby.Keypath.{
  key_to_relpath, push_segments, encode_segment, encode_trailing, is_illegal, encode_reserved,
  stem_of, is_reserved_stem, push, needs_separator,
}

abbrev input : CopyObjectInput
input = record {
  bucket = codes "b";
  key = codes "l";
  copy_source = bucket_key (codes "b") (codes "k");
  metadata_directive = none;
  content_type = none;
  metadata = codes "{}";
}

abbrev src : Text
src = codes "/d/buckets/b/k"

abbrev row : ObjectRow
row = record {
  bucket = codes "b";
  key = codes "k";
  size = 2;
  etag = codes "hi";
  content_type = none;
  last_modified = 0;
  metadata = codes "{}";
}

abbrev full : World setup
full = record world {
  db = record open_empty {
    buckets = record { name = codes "b"; created_at = 0 } ∷ [];
    objects = row ∷ [];
  };
  disk = λ p. if text_eq p src then some (codes "hi") else none;
}

found : get_object (codes "b") (codes "k") full.db ≡ some row
unfolding get_object key_eq text_eq
found = refl

placed : PlacedAt setup (codes "b") (codes "k") src
unfolding key_to_relpath push_segments encode_segment encode_trailing trim_end is_illegal
    encode_reserved stem_of is_reserved_stem to_ascii_uppercase split push needs_separator
    starts_with as_bytes text_eq
placed = refl

copied : (copy_object_handler setup input full).0 ≡ ok (codes "hi", 0)
unfolding copy_object_handler copy_from move_bytes stage_file_copy copy_into synced with_temp
    rename_into get_object bucket_exists put_object key_eq text_eq key_to_relpath push_segments
    encode_segment encode_trailing trim_end is_illegal encode_reserved stem_of is_reserved_stem
    to_ascii_uppercase split push needs_separator starts_with as_bytes ◌>>=◌
copied = refl

calm : (copy_object_handler setup input full).1.db_faults ≡ []
unfolding copy_object_handler copy_from move_bytes stage_file_copy copy_into synced with_temp
    rename_into get_object bucket_exists put_object key_eq text_eq key_to_relpath push_segments
    encode_segment encode_trailing trim_end is_illegal encode_reserved stem_of is_reserved_stem
    to_ascii_uppercase split push needs_separator starts_with as_bytes ◌>>=◌
calm = refl

read_there : files.read src full.disk ≡ some (codes "hi")
read_there = rw (text_eq_refl src) refl

unlike : text_eq (0 ∷ codes "copy") src ≡ false
unfolding text_eq
unlike = refl

get_object_handler-copy_object_handler_example :
    let v = (copy_object_handler setup input full).1 in
    (out : ObjectOutput) × (get_object_handler setup (codes "b") (codes "l") none v ≡ (ok out, v))
    × (out.body ≡ codes "hi")
    × (out.e_tag ≡ codes "hi")
    × (codes "hi" ≡ codes "hi")
    × (out.content_type ≡ none)
    × (out.metadata ≡ codes "{}")
    × (out.last_modified ≡ 0)
    × (v.fired ≡ created (codes "b") (codes "l") copy 2 (codes "hi") ∷ [])
get_object_handler-copy_object_handler_example =
    get_object_handler-copy_object_handler setup (codes "b") (codes "k") input row src (codes "hi")
      full (codes "hi") 0 refl found placed unlike read_there refl (tt, tt) refl copied calm
