-- ===== src/Store/Staging.antt =====
-- What a successful streaming leaves: the temporary file with the bytes that arrived.
use cubby.Base.{◌≡◌, refl, ◌∙◌, Option, some, List, [], Text, codes, unwrap_or}
use cubby.Store.{Setup, World, ◌>>=◌, return, io, or_clean, next_tmp, write_chunks, stream_to_temp}
use cubby.Store.RoundTrip.{
  arrived, Ends, bind-ok, Kept, Kept-trans, io-ok, or_clean-ok, write_chunks-ok,
}

module _ (setup : Setup) where
  open setup use {fs}

  pub record Staged (chunks : List (Option Text)) (w : World setup) (staged : Text × Text)
      (v : World setup) : Type 0 where
    pub bytes : staged.1 ≡ arrived chunks
    pub stored : fs.read staged.0 v.disk ≡ some staged.1
    pub kept : Kept setup w v

  return-ok :
      (pair staged : Text × Text) (u v : World setup)
      → Ends setup (return setup pair) u staged v
      → (pair ≡ staged) × (u ≡ v)
  return-ok pair staged u v e = let same : pair ≡ staged = cc e.result in (same, e.state)

  sync-ok :
      (temp bytes : Text) (u : World setup) (staged : Text × Text) (v : World setup)
      → fs.read temp u.disk ≡ some bytes
      → Ends setup
          (◌>>=◌ setup (io setup (fs.sync_all temp)) (λ _. return setup (temp, bytes)))
          u
          staged
          v
      → ((temp, bytes) ≡ staged) × (fs.read temp v.disk ≡ some bytes) × Kept setup u v
  sync-ok temp bytes u staged v h e =
      let (_, synced, ended) =
        bind-ok setup (io setup (fs.sync_all temp)) (λ _. return setup (temp, bytes)) u staged v
          e in
      let (q, s) = return-ok (temp, bytes) staged _ v ended in
      let (_, disk, kept) = io-ok setup (fs.sync_all temp) u _ tt synced in
      (q, rw (← s, disk) (fs.read-sync_all temp temp u.disk ∙ h), rw (← s) kept)

  fill-ok :
      (temp : Text) (chunks : List (Option Text)) (u : World setup) (staged : Text × Text)
      (v : World setup)
      → fs.read temp u.disk ≡ some []
      → Ends setup
          (◌>>=◌ setup
            (write_chunks setup temp [] chunks)
            (λ seen. ◌>>=◌ setup (io setup (fs.sync_all temp)) (λ _. return setup (temp, seen))))
          u
          staged
          v
      → Staged chunks u staged v
  fill-ok temp chunks u staged v h e =
      let (bytes, writing, syncing) =
        bind-ok setup (write_chunks setup temp [] chunks)
          (λ seen. ◌>>=◌ setup (io setup (fs.sync_all temp)) (λ _. return setup (temp, seen))) u
          staged v e in
      let (q, reads, kept) = write_chunks-ok setup temp [] chunks u bytes _ h writing in
      let (same, stored, later) = sync-ok temp bytes _ staged v reads syncing in
      rw (← same) record { bytes = q; stored = stored; kept = Kept-trans setup u _ v kept later }

  create-ok :
      (temp : Text) (chunks : List (Option Text)) (u : World setup) (staged : Text × Text)
      (v : World setup)
      → Ends setup
          (◌>>=◌ setup (io setup (fs.create temp)) (λ _. or_clean setup temp (
            ◌>>=◌ setup (write_chunks setup temp [] chunks) (λ seen.
              ◌>>=◌ setup (io setup (fs.sync_all temp)) (λ _. return setup (temp, seen))))))
          u
          staged
          v
      → Staged chunks u staged v
  create-ok temp chunks u staged v e =
      let (_, creating, filling) =
        bind-ok setup (io setup (fs.create temp))
          (λ _. or_clean setup temp (
            ◌>>=◌ setup (write_chunks setup temp [] chunks)
              (λ seen. ◌>>=◌ setup (io setup (fs.sync_all temp)) (λ _. return setup (temp, seen)))))
          u staged v e in
      let (made, disk, kept) = io-ok setup (fs.create temp) u _ tt creating in
      let s =
        fill-ok temp chunks _ staged v (rw disk (fs.read-create temp u.disk made))
          (or_clean-ok setup temp _ _ staged v filling) in
      record { bytes = s.bytes; stored = s.stored; kept = Kept-trans setup u _ v kept s.kept }

  pub stream_to_temp-ok :
      (body : Option (List (Option Text))) (w : World setup) (staged : Text × Text)
      (v : World setup)
      → Ends setup (stream_to_temp setup body) w staged v
      → Staged (unwrap_or body []) w staged v
  unfolding stream_to_temp
  stream_to_temp-ok body w staged v e =
      let (temp, _, made) = bind-ok setup (next_tmp setup (codes "tmp")) _ w staged v e in
      let s = create-ok temp (unwrap_or body []) (next_tmp setup (codes "tmp") w).1 staged v made in
      record {
        bytes = s.bytes;
        stored = s.stored;
        kept =
            Kept-trans setup w (next_tmp setup (codes "tmp") w).1 v
              record { db = refl; faults = refl } s.kept;
      }
