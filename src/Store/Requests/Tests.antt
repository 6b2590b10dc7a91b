-- ===== src/Store/Requests/Tests.antt =====
-- The theorems of the requests at a bucket that comes and goes, and at one that is not there.
use cubby.Base.{◌≡◌, refl, none, List, [], ◌∷◌, codes}
use cubby.Db.{open_empty, bucket_exists}
use cubby.Db.Integrity.{open_empty-IsWellFormed}
use cubby.Db.Preserve.{IsWellFormed}
use cubby.Store.{S3Result, no_such_bucket, put_object_handler, ◌>>=◌}
use cubby.Store.CorsConfig.Tests.{json, any_origin}
use cubby.Store.Requests.{
  Request, create_bucket, delete_bucket, put_object, delete_object, put_bucket_cors, serve,
  serve_all,
}
use cubby.Store.Requests.Failures.{serve-error}
use cubby.Store.Requests.Integrity.{serve_all-IsWellFormed}
use cubby.Store.Tests.{setup, empty_world, body}

abbrev put : Request
put = put_object (codes "b") (codes "k") body none (codes "{}")

refused : (serve setup json put empty_world).0 ≡ S3Result.err no_such_bucket
unfolding put_object_handler bucket_exists ◌>>=◌
refused = refl

serve-error_example :
    let later = (serve setup json put empty_world).1 in (later.db ≡ open_empty) × (later.fired ≡ [])
serve-error_example = serve-error setup json put empty_world no_such_bucket refl refused

abbrev requests : List Request
requests =
    create_bucket (codes "b")
    ∷ put_bucket_cors (codes "b") (any_origin ∷ [])
    ∷ put
    ∷ delete_object (codes "b") (codes "k")
    ∷ delete_bucket (codes "b")
    ∷ []

serve_all-IsWellFormed_example : IsWellFormed (serve_all setup json requests empty_world).db
serve_all-IsWellFormed_example =
    serve_all-IsWellFormed setup json requests empty_world open_empty-IsWellFormed
