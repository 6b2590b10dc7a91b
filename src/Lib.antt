-- ===== src/Lib.antt =====
-- cubby: a single-binary object store that speaks the S3 protocol. Object bytes are files of a data
-- directory, SQLite keeps the metadata, and listings are computed from the metadata alone.
--
-- The parts and the modules that model them:
--   Base       texts, lists, orders and integers that the parts share; `str` and `Vec` methods of Rust
--   Utf8       the bytes of a text; their order is the order that SQLite's BINARY collation compares
--   Keypath    src/keypath.rs: `key_to_relpath`, `relpath_to_key` and the encoding of a segment
--   Listing    src/listing.rs: `successor`, `classify` and `list_page`, with the specification of a
--              listing by its items (Items), of a page (Paging) and of a client (Follow)
--   Multipart  src/multipart.rs: `composite_etag`, `normalize_etag`, `validate_complete`
--   Cors       src/cors.rs: `match_preflight`, `match_actual`, `validate`
--   Events     src/events.rs: `EventBus` with `emit`, `clear` and `subscribe`, and what a receiver that
--              lags behind still shows (Shown, Feeds)
--   Db         src/db.rs: the tables of the schema as sorted lists of rows, and each operation of `Db`
--   Notify     src/notify.rs: event names, matching, validation, `deliver_all` with a read that may fail
--   Store      src/store.rs: the handlers of buckets and objects, over the tables and a file system;
--              Files has the steps that handlers share, Copies CopyObject and DeleteObjects, Uploads
--              the multipart uploads, CorsConfig the CORS configurations, Listings ListObjects and
--              ListObjectsV2, and Requests all that changes state as one step
--   Reindex    src/reindex.rs: `run`, `index_dir` and `guess_content_type`, over a tree of files
--   Presign    src/presign.rs: `presigned_url` with `uri_encode`
--   Http       src/http.rs: `Router::call` up to what it hands on, `maybe_preflight`,
--              `apply_actual_cors` and `log_and_serve_s3`; Verdicts says what a preflight may be answered
-- The store calls Keypath for the path of an object, Db for the rows, Multipart for the list of parts,
-- Cors for the rules, and Notify for what it fires; the listings run Listing over
-- `Db::list_objects_page`, which Db.Seek shows to be the primitive that the engine assumes, with the
-- tokens of Listing.Tokens. Reindex goes the other way, from the files to the rows.
-- Http stands before the store: it answers preflights by the rules that PutBucketCors stored, adds the
-- headers of Cors to what the store answers, and puts an event of each request on the bus of Events.
--
-- How the code is read. A text is the list of its Unicode scalar values, or of its bytes in Keypath.
-- An error or a panic is a value. A loop is structural recursion, but for `'outer: loop` of
-- `list_page`, which recurses on fuel: one round more than there are rows is enough, since each round
-- that does not end passes a row; `run_listing` gives it a round more than the table has rows. Reading
-- the bytes of a token has a byte of fuel for every byte. Sizes, times, part numbers and timeouts are
-- natural numbers: what is negative in the source is refused or not produced there; the part numbers that a
-- client submits to CompleteMultipartUpload are signed (Base.Integers), and the `MaxAgeSeconds` of a CORS rule
-- is only passed on or printed. An SQL statement is
-- what it does to the tables: a primary key orders a table, `INSERT OR REPLACE` puts a row in its place, a
-- foreign key refuses a row, and `ON DELETE CASCADE` removes the rows of a bucket. Errors of SQLite
-- itself are a schedule of failures in Store and in Reindex, where the file system is the tree that the
-- scan reads, with an error wherever one can come.
--
-- What stands outside is a parameter with what the code relies on: the crate percent-encoding
-- (`Keypath.PercentEncoding`), md-5 and hex (`Multipart.Digests`), base64 (`Listing.Tokens.Base64`),
-- serde_json on CORS rules (`Store.CorsConfig.RulesJson`), the file system (`Store.FileSystem`), the
-- network of a delivery and the clock (`Notify.Outside`), the channel of tokio (`Events.Broadcast`), which
-- is made with the capacity of 1024 of src/events.rs, which texts the crate http takes for header values
-- (`Http.HeaderRules`), hmac and sha2 (`Presign.Hashes`), and the service of the crate s3s, which answers
-- a request and may change the tables and the bus (`Http.S3Service`).
--
-- Not modelled: src/api, src/seed.rs, the bootstrap of src/datadir.rs, the command line and the web
-- interface, which are glue or are left for later; of src/http.rs the web interface's assets and the
-- accept loop; `Db::search_objects`, the JSON payloads and the printed log line.
pub mod Base
pub mod Utf8
pub mod Keypath
pub mod Listing
pub mod Multipart
pub mod Cors
pub mod Events
pub mod Db
pub mod Notify
pub mod Store
pub mod Reindex
pub mod Http
pub mod Presign
