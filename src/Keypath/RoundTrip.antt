-- ===== src/Keypath/RoundTrip.antt =====
-- From a key to its path and back, and that the path stays below the directory it is joined to.
use cubby.Base.{
  ◌<◌, ◌≡◌, refl, sym, ap, ap₂, ◌∙◌, inl, inr, false, not, some, List, [], ◌∷◌, ◌++◌, map,
  append_assoc, append-nil, Text, codes, starts_with, All, is_empty, List-cases, All-filter,
}
use cubby.Base.Str.{split, join}
use cubby.Base.Split.{Without, nonempty, split-All, split-All-Without, join-split}
use cubby.Keypath.{
  PercentEncoding, normal, components, push, push_segments, key_to_relpath, relpath_to_key,
  decode_piece, ◌>>=◌,
}
use cubby.Keypath.Encoding.{Encodes, decode-Encodes, Encodes-nil}
use cubby.Keypath.Segment.{IsPortable, encode_segment-Encodes}
use cubby.Keypath.Pieces.{
  pieces, relative_piece, pieces_nil, pieces-push, relative-push, IsName, not_empty, trimmed-IsName,
  Encodes-Without, components-names, normals-normal, pieces_single,
}

module _ (pe : PercentEncoding) where
  open pe use {percent_decode, utf8_lossy}

  -- The names that a path gained, one for each segment that is not empty.
  record Gained (path : Text) (segments : List Text) (out : Text) : Type 0 where
    names : List Text
    relative : starts_with out (codes "/") ≡ false
    gained : pieces out ≡ pieces path ++ names
    decoded : map percent_decode names ≡ nonempty segments
    portable : All IsPortable names
    named : All IsName names

  Gained-nil : (path : Text) → starts_with path (codes "/") ≡ false → Gained path [] path
  Gained-nil path r = record {
    names = [];
    relative = r;
    gained = sym (append-nil (pieces path));
    decoded = refl;
    portable = tt;
    named = tt;
  }

  Gained-cons :
      (path segment encoded : Text) (segments : List Text) (out : Text)
      → Encodes segment encoded
      → Without b'/' segment
      → IsPortable encoded
      → Gained (push path encoded) segments out
      → Gained path (segment ∷ segments) out
  Gained-cons path segment encoded segments out e w p g =
      let clean = Encodes-Without e w in
      let step = pieces-push path encoded clean in
      elim (List-cases encoded) [
        | inl q ↦
            let none = (Encodes-nil e).0 q in
            record {
              names = g.names;
              relative = g.relative;
              gained =
                  g.gained
                  ∙ ap (λ r. r ++ g.names) (step ∙ rw (q, pieces_nil) (append-nil (pieces path)));
              decoded = rw none g.decoded;
              portable = g.portable;
              named = g.named;
            }
        | inr q ↦ record {
          names = encoded ∷ g.names;
          relative = g.relative;
          gained =
              g.gained
              ∙ rw (step, pieces_single encoded clean q)
                  (append_assoc (pieces path) (encoded ∷ []) g.names);
          decoded =
              rw (not_empty segment (λ n. q ((Encodes-nil e).1 n)))
                (ap₂ (λ x y. x ∷ y) (decode-Encodes pe e) g.decoded);
          portable = (p, g.portable);
          named = (trimmed-IsName encoded p.trimmed q, g.named);
        }
      ]

  push_segments-Gained :
      (path : Text) (segments : List Text)
      → starts_with path (codes "/") ≡ false
      → All (All (λ b. b < 256)) segments
      → All (Without b'/') segments
      → (out : Text) × (push_segments pe path segments ≡ some out) × Gained path segments out
  unfolding push_segments
  push_segments-Gained path [] r bytes whole = (path, refl, Gained-nil path r)
  push_segments-Gained path (segment ∷ segments) r (b, bytes) (w, whole) =
      let (encoded, done, e, portable) = encode_segment-Encodes pe segment b in
      let (out, ran, g) =
        push_segments-Gained (push path encoded) segments
          (relative-push path encoded r (Encodes-Without e w)) bytes whole in
      (
        out,
        ap (λ o. o >>= λ x. push_segments pe (push path x) segments) done ∙ ran,
        Gained-cons path segment encoded segments out e w portable g,
      )

  decoded-lossy :
      (names segments : List Text)
      → map percent_decode names ≡ segments
      → All IsPortable names
      → All pe.IsUtf8 segments
      → map (decode_piece pe) names ≡ segments
  decoded-lossy [] segments h p u = h
  decoded-lossy (n ∷ names) [] h p u = cc
  decoded-lossy (n ∷ names) (s ∷ segments) h (p, ps) (u, us) =
      let name = pe.lossy-IsUtf8 n (pe.ascii-IsUtf8 n p.ascii) in
      let head : percent_decode n ≡ s = cc in
      let rest : map percent_decode names ≡ segments = cc in
      ap₂ (λ x y. x ∷ y)
        (ap (λ x. utf8_lossy (percent_decode x)) name ∙ ap utf8_lossy head ∙ pe.lossy-IsUtf8 s u)
        (decoded-lossy names segments rest ps us)

-- A key of any bytes has a path: a relative one, whose components are all portable names, so that it
-- stays below the directory that it is joined to, whatever `..` or `/` the key holds. There is one
-- component for each segment of the key that is not empty.
pub key_to_relpath-IsConfined :
    (pe : PercentEncoding) (key : Text)
    → All (λ b. b < 256) key
    → (path : Text) × (names : List Text) × (key_to_relpath pe key ≡ some path)
      × (components path ≡ map normal names)
      × All IsPortable names
      × (map pe.percent_decode names ≡ nonempty (split b'/' key))
unfolding key_to_relpath
key_to_relpath-IsConfined pe key bytes =
    let (path, ran, g) =
      push_segments-Gained pe [] (split b'/' key) (relative_piece [] tt)
        (split-All (λ b. b < 256) b'/' key bytes) (split-All-Without b'/' key) in
    let same = g.gained ∙ ap (λ r. r ++ g.names) pieces_nil in
    (
      path,
      g.names,
      ran,
      components-names path g.relative (rw same g.named) ∙ ap (λ r. map normal r) same,
      g.portable,
      g.decoded,
    )

-- The key comes back from its path, up to the empty segments: they alone are lost. The segments
-- have to be UTF-8, as those of a `&str` are.
pub relpath_to_key-key_to_relpath :
    (pe : PercentEncoding) (key : Text)
    → All (λ b. b < 256) key
    → All pe.IsUtf8 (split b'/' key)
    → (path : Text) × (key_to_relpath pe key ≡ some path)
      × (relpath_to_key pe path ≡ join (codes "/") (nonempty (split b'/' key)))
unfolding relpath_to_key
relpath_to_key-key_to_relpath pe key bytes utf8 =
    let (path, names, ran, comps, portable, decoded) = key_to_relpath-IsConfined pe key bytes in
    (
      path,
      ran,
      rw (comps, normals-normal names)
          (ap (λ r. join (codes "/") r)
            (decoded-lossy pe names _ decoded portable
              (All-filter pe.IsUtf8 (λ piece. not (is_empty piece)) (split b'/' key) utf8))),
    )

-- So a key without an empty segment comes back as it was.
pub relpath_to_key-inverse :
    (pe : PercentEncoding) (key : Text)
    → All (λ b. b < 256) key
    → All pe.IsUtf8 (split b'/' key)
    → nonempty (split b'/' key) ≡ split b'/' key
    → (path : Text) × (key_to_relpath pe key ≡ some path) × (relpath_to_key pe path ≡ key)
relpath_to_key-inverse pe key bytes utf8 whole =
    let (path, ran, back) = relpath_to_key-key_to_relpath pe key bytes utf8 in
    (path, ran, back ∙ ap (λ r. join (codes "/") r) whole ∙ join-split b'/' key)
