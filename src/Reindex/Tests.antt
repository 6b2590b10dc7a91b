-- ===== src/Reindex/Tests.antt =====
-- The theorems of the scan at a tree of one bucket with two files, one of them in a directory.
use cubby.Base.{◌≡◌, refl, true, false, some, [], ◌∷◌, codes, text_eq, starts_with}
use cubby.Base.Str.{join}
use cubby.Keypath.{push}
use cubby.Keypath.Tests.{percent_encoding}
use cubby.Multipart.Tests.{plain}
use cubby.Db.Table.{key_eq}
use cubby.Store.Tests.{kept}
use cubby.Reindex.{
  Directory, file, directory, symlink, end, entry, ◌>>=◌, index_file, index_dir, index_bucket,
  visit_all, run,
}
use cubby.Reindex.Adds.{Extends, InOrder}
use cubby.Reindex.Additive.{run-Extends}
use cubby.Reindex.Complete.{AllHave, run-AllHave}
use cubby.Reindex.Again.{run_again}

abbrev tree : Directory
tree =
    entry (codes "b") 7
      (directory (
        entry (codes "k") 8 (file (some (codes "new"))) (
          entry (codes "d") 9 (directory (entry (codes "l.txt") 10 (file (some (codes "hi"))) end))
            end)))
      (entry (codes "link") 11 symlink end)

ordered : InOrder kept.db
ordered = record { objects = (tt, tt); buckets = tt }

run-Extends_example :
    Extends kept.db (run percent_encoding plain (some tree) (false ∷ true ∷ []) kept.db).1.db
    × InOrder (run percent_encoding plain (some tree) (false ∷ true ∷ []) kept.db).1.db
run-Extends_example =
    run-Extends percent_encoding plain (some tree) (false ∷ true ∷ []) kept.db ordered

ends_well : (run percent_encoding plain (some tree) [] kept.db).0 ≡ some tt
unfolding run visit_all ◌>>=◌ index_bucket index_dir index_file key_eq text_eq join starts_with push
ends_well = refl

run-AllHave_example :
    AllHave percent_encoding plain tree (run percent_encoding plain (some tree) [] kept.db).1.db
run-AllHave_example = run-AllHave percent_encoding plain tree [] kept.db ordered ends_well

run_again_example :
    let scanned = (run percent_encoding plain (some tree) [] kept.db).1.db in
    (run percent_encoding plain (some tree) (false ∷ []) scanned).1.db ≡ scanned
run_again_example = run_again percent_encoding plain tree [] (false ∷ []) kept.db ordered ends_well
