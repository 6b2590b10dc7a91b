-- ===== src/Notify/Tests.antt =====
-- The theorems of notifications at one destination.
use cubby.Base.{◌≡◌, ◌↔◌, true, none, some, [], ◌∷◌, codes}
use cubby.Db.{Db, open_empty}
use cubby.Events.{with_capacity}
use cubby.Notify.{put, ObjectEvent, created, destination_matches, Outside, Notifier, timeout}
use cubby.Notify.Matching.{Subscribes, Begins, Ends, destination_matches_iff}

abbrev about : ObjectEvent
about = created (codes "b") (codes "in/k") put 3 (codes "e")

destination_matches_iff_example :
    (destination_matches (codes "s3:ObjectCreated:*" ∷ []) (some (codes "in/")) none about ≡ true)
    ↔ (Subscribes put (codes "s3:ObjectCreated:*" ∷ [])
        × Begins (codes "in/k") (some (codes "in/"))
        × Ends (codes "in/k") none)
destination_matches_iff_example =
    destination_matches_iff (codes "s3:ObjectCreated:*" ∷ []) (some (codes "in/")) none about

abbrev db : Db
db = record open_empty {
  bucket_notifications =
      record {
        id = 1;
        draft = record {
          bucket = codes "b";
          url = codes "http://h";
          events = codes "s3:ObjectCreated:*" ∷ [];
          prefix = none;
          suffix = none;
          format = codes "eventbridge";
          timeout_ms = 5000;
          created_at = 0;
        };
      }
      ∷ [];
}

-- A network on which every delivery times out.
abbrev silent : Outside
silent = record {
  post = λ row n event. timeout;
  duration = λ row n. 5000;
  now = λ n. 0;
  decimal = λ n. n ∷ [];
}

abbrev idle : Notifier
idle = record { seq = 1; bus = with_capacity 2 }
