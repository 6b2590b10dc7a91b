-- ===== src/Store/Tests.antt =====
-- The theorems of the store over a disk that takes everything.
use cubby.Base.{
  ◌≡◌, refl, true, false, Option, none, some, [], ◌∷◌, ◌++◌, Text, codes, text_eq, text_eq_refl,
  if◌then◌else◌,
}
use cubby.Keypath.Tests.{percent_encoding}
use cubby.Multipart.Tests.{plain}
use cubby.Db.{open_empty, bucket_exists, get_object}
use cubby.Store.{FileSystem, gone, Setup, World, put_object_handler, get_object_handler, ◌>>=◌}
use cubby.Store.PutGet.{get_object_handler-put_object_handler}
use cubby.Db.Table.{key_eq}
use cubby.Base.Str.{trim_end, to_ascii_uppercase, split}
use cubby.Keypath.{
  key_to_relpath, push_segments, encode_segment, encode_trailing, is_illegal, encode_reserved,
  stem_of, is_reserved_stem, push, needs_separator,
}
use cubby.Store.{put_bytes, stream_to_temp, write_chunks, hex_md5, ObjectOutput, ok}
use cubby.Utf8.{as_bytes}
use cubby.Base.{starts_with, List}
use cubby.Store.Deletes.{fires, delete_object_handler-ok}
use cubby.Db.{delete_object}
use cubby.Store.{delete_object_handler}
use cubby.Base.{is_some, ◌&&◌}

abbrev Files : Type 0
Files = Text → Option Text

abbrev written : Text → Option Text → Files → Files
written p bytes d q = if text_eq p q then bytes else d q

abbrev appended : Option Text → Text → Option Text
appended none bytes = some bytes
appended (some old) bytes = some (old ++ bytes)

abbrev pub files : FileSystem
files = record {
  Disk = Files;
  read = λ p d. d p;
  create = λ p d. (true, written p (some []) d);
  write_all = λ p bytes d. (true, written p (appended (d p) bytes) d);
  sync_all = λ p d. (true, d);
  create_dir_all = λ p d. (true, d);
  rename = λ from to d. (true, written to (d from) d);
  remove_file = λ p d. (gone, written p none d);
  remove_dir_all = λ p d. (gone, d);
  parent = λ p. none;
  Apart = λ p q. text_eq p q ≡ false;
  Outside = λ p q. Unit;
  read-create = λ p d h. rw (text_eq_refl p) refl;
  read-write_all = λ p bytes old d h k. rw (text_eq_refl p, h) refl;
  read-sync_all = λ p q d. refl;
  read-create_dir_all = λ p q d. refl;
  read-rename = λ from to d h. rw (text_eq_refl to) refl;
  create_apart = λ p q d h. rw h refl;
  write_all_apart = λ p q bytes d h. rw h refl;
  remove_dir_all_outside = λ p q d h. refl;
}

abbrev pub setup : Setup
setup = record {
  fs = files;
  pe = percent_encoding;
  digests = plain;
  root = codes "/d";
  tmp_path = λ n ext. n ∷ ext;
  unix_now = λ n. n;
  is_metadata = λ s. true;
}

abbrev pub empty_world : World setup
empty_world = record {
  db = open_empty;
  disk = λ p. none;
  db_faults = [];
  tmp_counter = 0;
  ticks = 0;
  fired = [];
}

abbrev pub world : World setup
world = record empty_world {
  db = record open_empty { buckets = record { name = codes "b"; created_at = 0 } ∷ [] };
}

abbrev pub body : Option (List (Option Text))
body = some (some (codes "h") ∷ some (codes "i") ∷ [])

stored :
    (put_object_handler setup (codes "b") (codes "k") body none (codes "{}") world).0
    ≡ ok (codes "hi")
unfolding put_object_handler put_bytes stream_to_temp write_chunks bucket_exists key_eq text_eq
    key_to_relpath push_segments encode_segment encode_trailing trim_end is_illegal encode_reserved
    stem_of is_reserved_stem to_ascii_uppercase split push needs_separator starts_with as_bytes
    ◌>>=◌
stored = refl

calm :
    (put_object_handler setup (codes "b") (codes "k") body none (codes "{}") world).1.db_faults ≡ []
unfolding put_object_handler put_bytes stream_to_temp write_chunks bucket_exists key_eq text_eq
    key_to_relpath push_segments encode_segment encode_trailing trim_end is_illegal encode_reserved
    stem_of is_reserved_stem to_ascii_uppercase split push needs_separator starts_with as_bytes
    ◌>>=◌
calm = refl

get_object_handler-put_object_handler_example :
    let v = (put_object_handler setup (codes "b") (codes "k") body none (codes "{}") world).1 in
    (out : ObjectOutput) × (get_object_handler setup (codes "b") (codes "k") none v ≡ (ok out, v))
    × (out.body ≡ codes "hi")
    × (out.content_length ≡ 2)
    × (out.e_tag ≡ codes "hi")
    × (codes "hi" ≡ hex_md5 setup (codes "hi"))
    × (out.metadata ≡ codes "{}")
get_object_handler-put_object_handler_example =
    get_object_handler-put_object_handler setup (codes "b") (codes "k") body none (codes "{}") world
      (codes "hi") tt refl stored calm

abbrev pub kept : World setup
kept = record world {
  db = record open_empty {
    objects =
        record {
          bucket = codes "b";
          key = codes "k";
          size = 2;
          etag = codes "hi";
          content_type = none;
          last_modified = 0;
          metadata = codes "{}";
        }
        ∷ [];
  };
}

deleted : (delete_object_handler setup (codes "b") (codes "k") kept).0 ≡ ok tt
unfolding delete_object_handler delete_object get_object bucket_exists key_eq text_eq key_to_relpath
    push_segments encode_segment encode_trailing trim_end is_illegal encode_reserved stem_of
    is_reserved_stem to_ascii_uppercase split push needs_separator starts_with as_bytes ◌>>=◌
deleted = refl

delete_object_handler-ok_example :
    let v = (delete_object_handler setup (codes "b") (codes "k") kept).1 in
    ((b k : Text)
      → get_object b k v.db
        ≡ (if text_eq (codes "b") b && text_eq (codes "k") k then none else get_object b k kept.db))
    × (v.fired
        ≡ kept.fired
          ++ fires (is_some (get_object (codes "b") (codes "k") kept.db)) (codes "b") (codes "k"))
delete_object_handler-ok_example =
    delete_object_handler-ok setup (codes "b") (codes "k") kept deleted
