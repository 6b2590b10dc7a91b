-- ===== src/Store/Files.antt =====
-- src/store.rs: the steps on files and on the database that CopyObject and the multipart uploads share.
use cubby.Base.{ℕ, ◌≡◌, Option, none, some, Text, codes, length}
use cubby.Utf8.{as_bytes}
use cubby.Keypath.{push, key_to_relpath}
use cubby.Db.{Db}
use cubby.Store.{
  ok, path_of, internal_error, Setup, Action, ◌>>=◌, return, fail, db_call, io, or_clean, next_tmp,
  make_parent, open_file,
}

module _ (setup : Setup) where
  open setup use {fs, digests, pe}

  abbrev pub settled : {A : Type 0} → Option (A × Db) → Db → Option A × Db
  settled none db = (none, db)
  settled (some (a, later)) db = (some a, later)

  abbrev pub or_internal : {A : Type 0} → Option A → Action setup A
  or_internal none = fail setup internal_error
  or_internal (some a) = return setup a

  -- `db_call` of an operation that SQLite can refuse.
  abbrev pub db_try : {A : Type 0} → (Db → Option (A × Db)) → Action setup A
  db_try f = ◌>>=◌ setup (db_call setup (λ db. settled (f db) db)) or_internal

  -- `File::open` and `tokio::io::copy`, which answers the number of bytes.
  unfoldable pub copy_into : Text → Text → Action setup ℕ
  copy_into temp src =
      ◌>>=◌ setup (open_file setup src) (λ bytes.
        ◌>>=◌ setup (io setup (fs.write_all temp bytes)) (λ _. return setup (length bytes)))

  -- `flush`, and `sync_all` before the rename.
  unfoldable pub synced : {A : Type 0} → Text → A → Action setup A
  synced temp a = ◌>>=◌ setup (io setup (fs.sync_all temp)) (λ _. return setup a)

  -- A new temporary file, and what is done with it: an error removes it.
  unfoldable pub with_temp : {A : Type 0} → Text → (Text → Action setup A) → Action setup A
  with_temp ext fill =
      ◌>>=◌ setup (next_tmp setup ext)
        (λ temp. ◌>>=◌ setup (io setup (fs.create temp)) (λ _. or_clean setup temp (fill temp)))

  -- The parents of the final path, and the atomic rename into it.
  unfoldable pub rename_into : Text → Text → Action setup Unit
  rename_into temp final_path =
      ◌>>=◌ setup (make_parent setup temp (fs.parent final_path))
        (λ _. or_clean setup temp (io setup (fs.rename temp final_path)))

  abbrev pub multipart_dir : Text
  multipart_dir = push setup.root (codes ".multipart")

  -- The file of an object.
  abbrev pub PlacedAt : Text → Text → Text → Type 0
  PlacedAt bucket key path =
      path_of setup setup.root (as_bytes bucket) (key_to_relpath pe (as_bytes key)) ≡ ok path
