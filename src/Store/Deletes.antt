-- ===== src/Store/Deletes.antt =====
-- What a successful DeleteObject leaves and fires.
use cubby.Base.{
  ◌≡◌, refl, sym, ap, ◌∙◌, Bool, true, false, ◌&&◌, none, List, [], ◌∷◌, ◌++◌, Text, append-nil,
  if◌then◌else◌, is_some, text_eq,
}
use cubby.Notify.{ObjectEvent, removed}
use cubby.Db.{Db, get_object, delete_object}
use cubby.Db.Laws.{get_object-delete_object}
use cubby.Store.{
  ok, Setup, World, ◌>>=◌, answered, db_call, object_path, Removal, gone, not_found, other_kind,
  ignore_not_found, remove, fire_if, delete_object_handler,
}
use cubby.Store.RoundTrip.{Ends, bind-ok}

-- What a delete adds to what was fired.
abbrev pub fires : Bool → Text → Text → List ObjectEvent
fires true bucket key = removed bucket key ∷ []
fires false bucket key = []

module _ (setup : Setup) where
  open setup use {fs}

  -- The metadata and what was fired, after a step.
  record Left (db : Db) (fired : List ObjectEvent) (v : World setup) : Type 0 where
    rows : v.db ≡ db
    told : v.fired ≡ fired

  deleted_rows :
      (faults : List Bool) (b was_there : Bool) (db : Db) (u v : World setup)
      → (answered setup faults (b, db) u).0 ≡ ok was_there
      → (answered setup faults (b, db) u).1 ≡ v
      → (b ≡ was_there) × Left db u.fired v
  deleted_rows [] b was_there db u v q s =
      let same : b ≡ was_there = cc q in
      (same, record { rows = ap (λ x. x.db) (sym s); told = ap (λ x. x.fired) (sym s) })
  deleted_rows (true ∷ faults) b was_there db u v q s = cc
  deleted_rows (false ∷ faults) b was_there db u v q s =
      let same : b ≡ was_there = cc q in
      (same, record { rows = ap (λ x. x.db) (sym s); told = ap (λ x. x.fired) (sym s) })

  unlinked :
      (r : Removal) (u v : World setup)
      → (ignore_not_found setup r u).0 ≡ ok tt
      → (ignore_not_found setup r u).1 ≡ v
      → u ≡ v
  unlinked gone u v q s = s
  unlinked not_found u v q s = s
  unlinked other_kind u v q s = cc

  told_if :
      (was_there : Bool) (bucket key : Text) (u v : World setup)
      → Ends setup (fire_if setup was_there (removed bucket key)) u tt v
      → Left u.db (u.fired ++ fires was_there bucket key) v
  told_if true bucket key u v e = record {
    rows = ap (λ x. x.db) (sym e.state);
    told = ap (λ x. x.fired) (sym e.state);
  }
  told_if false bucket key u v e = record {
    rows = ap (λ x. x.db) (sym e.state);
    told = ap (λ x. x.fired) (sym e.state) ∙ sym (append-nil u.fired);
  }

  unlink-ok :
      (was_there : Bool) (bucket key path : Text) (u v : World setup)
      → Ends setup
          (◌>>=◌ setup
            (remove setup (fs.remove_file path))
            (λ _. fire_if setup was_there (removed bucket key)))
          u
          tt
          v
      → Left u.db (u.fired ++ fires was_there bucket key) v
  unlink-ok was_there bucket key path u v e =
      let (_, removing, firing) =
        bind-ok setup (remove setup (fs.remove_file path))
          (λ _. fire_if setup was_there (removed bucket key)) u tt v e in
      let same = unlinked (fs.remove_file path u.disk).0 _ _ removing.result removing.state in
      let l = told_if was_there bucket key _ v firing in
      record {
        rows = l.rows ∙ ap (λ x. x.db) (sym same);
        told = l.told ∙ ap (λ x. x.fired ++ fires was_there bucket key) (sym same);
      }

  delete-Left :
      (bucket key : Text) (w v : World setup)
      → Ends setup (delete_object_handler setup bucket key) w tt v
      → Left
          (delete_object bucket key w.db).1
          (w.fired ++ fires (delete_object bucket key w.db).0 bucket key)
          v
  unfolding delete_object_handler
  delete-Left bucket key w v e =
      let (was_there, deleting, locating) =
        bind-ok setup (db_call setup (delete_object bucket key)) _ w tt v e in
      let (same, d) =
        deleted_rows w.db_faults (delete_object bucket key w.db).0 was_there
          (delete_object bucket key w.db).1 w _ deleting.result deleting.state in
      let (path, located, unlinking) =
        bind-ok setup (object_path setup bucket key) _ _ tt v locating in
      let l = unlink-ok was_there bucket key path _ v unlinking in
      rw same record {
        rows = l.rows ∙ d.rows;
        told = l.told ∙ ap (λ x. x ++ fires was_there bucket key) d.told;
      }

-- After a DeleteObject that succeeded the object is gone and every other one is as before, and a
-- removal was fired exactly if there was an object.
pub delete_object_handler-ok :
    (setup : Setup) (bucket key : Text) (w : World setup)
    → (delete_object_handler setup bucket key w).0 ≡ ok tt
    → let v = (delete_object_handler setup bucket key w).1 in
      ((b k : Text)
        → get_object b k v.db
          ≡ (if text_eq bucket b && text_eq key k then none else get_object b k w.db))
      × (v.fired ≡ w.fired ++ fires (is_some (get_object bucket key w.db)) bucket key)
delete_object_handler-ok setup bucket key w h =
    let l =
      delete-Left setup bucket key w (delete_object_handler setup bucket key w).1
        record { result = h; state = refl } in
    (
      (λ b k. ap (λ d. get_object b k d) l.rows ∙ (get_object-delete_object bucket key b k w.db).0),
      l.told
          ∙ ap (λ t. w.fired ++ fires t bucket key)
              (get_object-delete_object bucket key bucket key w.db).1,
    )
