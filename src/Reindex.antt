-- ===== src/Reindex.antt =====
-- src/reindex.rs: the scan of `buckets/` that gives a row to every file that has none. The file system is
-- the tree that `std::fs` shows: a directory is its entries in the order of `read_dir`, with the
-- modification time of each, and `broken` where reading it fails.
pub mod Adds
pub mod Additive
pub mod Complete
pub mod Again
pub mod Tests
use cubby.Base.{
  ℕ, ◌+◌, ◌≡◌, Bool, true, false, Option, none, some, List, [], ◌∷◌, ◌++◌, Text, codes, text_eq,
  any, is_some, if◌then◌else◌, unwrap_or, length, find,
}
use cubby.Base.Str.{split, to_ascii_lowercase}
use cubby.Keypath.{PercentEncoding, relpath_to_key, push}
use cubby.Listing.Tokens.{from_utf8}
use cubby.Multipart.{Digests}
use cubby.Db.{Db, ObjectRow, bucket_exists, create_bucket, put_object, get_object}
use cubby.Store.{default_content_type}

-- `file` has the bytes that are read, or none if that fails; `unknown` has a type that cannot be told.
mutual
  pub data Node : Type 0 where
    file : Option Text → Node
    directory : Directory → Node
    symlink special unknown : Node

  pub data Directory : Type 0 where
    end broken : Directory
    entry : Text → ℕ → Node → Directory → Directory

pub record ReindexReport : Type 0 where
  pub buckets_adopted : ℕ
  pub buckets_present : ℕ
  pub objects_indexed : ℕ
  pub objects_present : ℕ
  pub objects_skipped : ℕ

abbrev pub no_counts : ReindexReport
no_counts = record {
  buckets_adopted = 0;
  buckets_present = 0;
  objects_indexed = 0;
  objects_present = 0;
  objects_skipped = 0;
}

-- The state of the scan: `faults` says of each later call of the database whether it fails.
pub record Scan : Type 0 where
  pub db : Db
  pub faults : List Bool
  pub report : ReindexReport

-- `none` is an error, with what was done until then.
abbrev pub Action : Type 0 → Type 0
Action A = Scan → Option A × Scan

abbrev pub after : {A B : Type 0} → Option A → Scan → (A → Action B) → Option B × Scan
after none s k = (none, s)
after (some a) s k = k a s

infixl 5 ◌>>=◌ ◌>>◌
unfoldable pub ◌>>=◌ : {A B : Type 0} → Action A → (A → Action B) → Action B
(m >>= k) s = after (m s).0 (m s).1 k

abbrev pub ◌>>◌ : {A B : Type 0} → Action A → Action B → Action B
m >> k = m >>= λ _. k

abbrev pub return : {A : Type 0} → A → Action A
return a s = (some a, s)

abbrev pub fail : {A : Type 0} → Action A
fail s = (none, s)

abbrev pub answered : {A : Type 0} → List Bool → A × Db → Scan → Option A × Scan
answered [] (a, db) s = (some a, record s { db = db })
answered (true ∷ faults) (a, db) s = (none, record s { faults = faults })
answered (false ∷ faults) (a, db) s = (some a, record s { db = db; faults = faults })

abbrev pub db_call : {A : Type 0} → (Db → A × Db) → Action A
db_call f s = answered s.faults (f s.db) s

abbrev pub count : (ReindexReport → ReindexReport) → Action Unit
count f s = (some tt, record s { report = f s.report })

abbrev pub skipped : ReindexReport → ReindexReport
skipped r = record r { objects_skipped = r.objects_skipped + 1 }

abbrev pub present : ReindexReport → ReindexReport
present r = record r { objects_present = r.objects_present + 1 }

abbrev pub indexed : ReindexReport → ReindexReport
indexed r = record r { objects_indexed = r.objects_indexed + 1 }

abbrev pub adopted : ReindexReport → ReindexReport
adopted r = record r { buckets_adopted = r.buckets_adopted + 1 }

abbrev pub bucket_present : ReindexReport → ReindexReport
bucket_present r = record r { buckets_present = r.buckets_present + 1 }

abbrev pub last_piece : Text → List Text → Text
last_piece piece [] = piece
last_piece piece (next ∷ more) = last_piece next more

-- The extension by `rfind('.')`, where the dot is not the first character: the text after the last dot,
-- and whether a character stands before it.
abbrev pub extension_of : List Text → Option Text
extension_of [] = none
extension_of (whole ∷ []) = none
extension_of ([] ∷ ext ∷ []) = none
extension_of ((c ∷ stem) ∷ ext ∷ []) = some ext
extension_of (stem ∷ piece ∷ other ∷ more) = some (last_piece other more)

abbrev pub content_types : List (List Text × Text)
content_types =
    (codes "txt" ∷ codes "text" ∷ codes "log" ∷ [], codes "text/plain")
    ∷ (codes "md" ∷ codes "markdown" ∷ [], codes "text/markdown")
    ∷ (codes "json" ∷ [], codes "application/json")
    ∷ (codes "html" ∷ codes "htm" ∷ [], codes "text/html")
    ∷ (codes "css" ∷ [], codes "text/css")
    ∷ (codes "js" ∷ codes "mjs" ∷ [], codes "text/javascript")
    ∷ (codes "csv" ∷ [], codes "text/csv")
    ∷ (codes "xml" ∷ [], codes "application/xml")
    ∷ (codes "yaml" ∷ codes "yml" ∷ [], codes "application/yaml")
    ∷ (codes "toml" ∷ [], codes "application/toml")
    ∷ (codes "png" ∷ [], codes "image/png")
    ∷ (codes "jpg" ∷ codes "jpeg" ∷ [], codes "image/jpeg")
    ∷ (codes "gif" ∷ [], codes "image/gif")
    ∷ (codes "svg" ∷ [], codes "image/svg+xml")
    ∷ (codes "webp" ∷ [], codes "image/webp")
    ∷ (codes "ico" ∷ [], codes "image/x-icon")
    ∷ (codes "pdf" ∷ [], codes "application/pdf")
    ∷ (codes "zip" ∷ [], codes "application/zip")
    ∷ (codes "gz" ∷ codes "gzip" ∷ [], codes "application/gzip")
    ∷ (codes "tar" ∷ [], codes "application/x-tar")
    ∷ (codes "wasm" ∷ [], codes "application/wasm")
    ∷ []

abbrev pub type_of : Option (List Text × Text) → Option Text
type_of none = none
type_of (some (extensions, content_type)) = some content_type

abbrev pub guess_extension : Option Text → Option Text
guess_extension none = none
guess_extension (some ext) = type_of (
    find (λ (extensions, t). any (λ e. text_eq e (to_ascii_lowercase ext)) extensions)
      content_types)

unfoldable pub guess_content_type : Text → Option Text
unfolding split to_ascii_lowercase
guess_content_type filename = guess_extension (extension_of (split b'.' filename))

module _ (pe : PercentEncoding) (digests : Digests) where
  -- What the lossy decoding gives is UTF-8.
  abbrev pub string_of : Text → Text
  string_of bytes = unwrap_or (from_utf8 bytes) []

  abbrev pub key_at : Text → Text
  key_at rel = string_of (relpath_to_key pe rel)

  -- `key.rsplit('/').next()`
  abbrev pub filename_of : Text → Text
  filename_of key = last_piece [] (split b'/' key)

  abbrev pub indexed_row : Text → Text → Text → ℕ → ObjectRow
  indexed_row bucket key bytes mtime = record {
    bucket = bucket;
    key = key;
    size = length bytes;
    etag = digests.hex_encode (digests.md5 bytes);
    content_type = some (unwrap_or (guess_content_type (filename_of key)) default_content_type);
    last_modified = mtime;
    metadata = codes "{}";
  }

  abbrev pub add_row : Text → Text → ℕ → Option Text → Action Unit
  add_row bucket key mtime none = fail
  add_row bucket key mtime (some bytes) = do
    db_call (λ db. (tt, put_object (indexed_row bucket key bytes mtime) db))
    count indexed

  -- A file that has a row is left alone.
  abbrev pub unless_there : Bool → Text → Text → ℕ → Option Text → Action Unit
  unless_there true bucket key mtime content = count present
  unless_there false bucket key mtime content = add_row bucket key mtime content

  unfoldable pub index_file : Text → Text → ℕ → Option Text → Action Unit
  unfolding guess_content_type from_utf8 relpath_to_key get_object put_object
  index_file bucket rel mtime content = do
    there ← db_call (λ db. (is_some (get_object bucket (key_at rel) db), db))
    unless_there there bucket (key_at rel) mtime content

  -- `dir` is the path below the root of the bucket.
  unfoldable mutual
    pub index_node : Text → Text → ℕ → Node → Action Unit
    index_node bucket rel mtime (file content) = index_file bucket rel mtime content
    index_node bucket rel mtime (directory d) = index_dir bucket rel d
    index_node bucket rel mtime symlink = count skipped
    index_node bucket rel mtime special = count skipped
    index_node bucket rel mtime unknown = fail

    pub index_dir : Text → Text → Directory → Action Unit
    index_dir bucket dir end = return tt
    index_dir bucket dir broken = fail
    index_dir bucket dir (entry name mtime node rest) =
        index_node bucket (push dir name) mtime node >> index_dir bucket dir rest

  abbrev pub bucket_of : Text → Text
  bucket_of name = string_of (pe.utf8_lossy name)

  abbrev pub adopt : Bool → Text → ℕ → Action Unit
  adopt true bucket mtime = count bucket_present
  adopt false bucket mtime = db_call (create_bucket bucket mtime) >> count adopted

  -- One bucket directory, with its time.
  unfoldable pub index_bucket : Text → ℕ → Directory → Action Unit
  unfolding bucket_exists create_bucket
  index_bucket bucket mtime d = do
    there ← db_call (λ db. (bucket_exists bucket db, db))
    adopt there bucket mtime
    index_dir bucket [] d

  -- Below `buckets/`: a directory is a bucket, and all else is skipped.
  abbrev pub visit : Text → ℕ → Node → Action Unit
  visit name mtime (file content) = count skipped
  visit name mtime (directory d) = index_bucket (bucket_of name) mtime d
  visit name mtime symlink = count skipped
  visit name mtime special = count skipped
  visit name mtime unknown = fail

  unfoldable pub visit_all : Directory → Action Unit
  visit_all end = return tt
  visit_all broken = fail
  visit_all (entry name mtime node rest) = visit name mtime node >> visit_all rest

  -- `run`, on the tables and with the counts at nothing; a `buckets/` that is not there has nothing.
  unfoldable pub run : Option Directory → List Bool → Db → Option (Unit {0}) × Scan
  run none faults db = return tt record { db = db; faults = faults; report = no_counts }
  run (some d) faults db = visit_all d record { db = db; faults = faults; report = no_counts }
