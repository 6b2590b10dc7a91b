-- ===== src/Listing/Resume.antt =====
-- What the loop of `list_page` keeps: a seek at the cursor finds the rows that the walk has left.
use cubby.Base.{
  ◌≡◌, refl, sym, ◌∙◌, inl, inr, Bool, true, false, none, some, List, [], ◌∷◌, ◌++◌, arith, Text,
  text_ltb, ◌==◌, Bool-cases, Option-cases, All, unwrap_or,
}
use cubby.Base.Order.{ltb_asymm, ltb_le_trans, le_trans, ltb-append, ltb-append_zero}
use cubby.Listing.{
  ListParams, Group, content, rolled, classify, LoopState, next, emitted, fresh, is_skipped,
  is_covered, push_content, push_group, handle_group, handle_row, successor,
}
use cubby.Listing.Successor.{IsStr}
use cubby.Listing.Seek.{rows_from, rows_from-below, rolled-below}

-- The cursor as the least text that a seek may return; no cursor starts at the empty text.
abbrev pub low {ℓ} : {T : Type ℓ} → LoopState T → Text
low w = unwrap_or w.cursor []

module _ {ℓ} {T : Type ℓ} (key_of : T → Text) (rows : List T) where
  -- What the loop keeps: the rows from the cursor on are those of the rest from the cursor on,
  -- and the rest lies past the cursor unless a group is being skipped.
  pub record Resumes (rest : List T) (w : LoopState T) : Type ℓ where
    pub back :
        (c : Text)
        → text_ltb c (low w) ≡ false
        → rows_from key_of (some c) rows ≡ rows_from key_of (some c) rest
    pub ahead : w.skip_below ≡ none → All (λ row. text_ltb (key_of row) (low w) ≡ false) rest
    pub skip : (sb : Text) → w.skip_below ≡ some sb → w.cursor ≡ some sb

  -- The cursor moves past a row that lay ahead of it.
  back-advance :
      (row : T) (rest : List T) (w : LoopState T) (to : Text)
      → Resumes (row ∷ rest) w
      → text_ltb (key_of row) (low w) ≡ false
      → text_ltb (key_of row) to ≡ true
      → (c : Text) → text_ltb c to ≡ false
      → rows_from key_of (some c) rows ≡ rows_from key_of (some c) rest
  back-advance row rest w to inv ahead past c h =
      let below : text_ltb (key_of row) c ≡ true = ltb_le_trans (key_of row) to c past h in
      inv.back c (le_trans (low w) (key_of row) c ahead (ltb_asymm (key_of row) c below))
      ∙ rows_from-below key_of c row rest below

  not_skipped-ahead :
      (row : T) (rest : List T) (w : LoopState T)
      → Resumes (row ∷ rest) w
      → is_skipped w.skip_below (key_of row) ≡ false
      → text_ltb (key_of row) (low w) ≡ false
  not_skipped-ahead row rest w inv h = elim (Option-cases w.skip_below) [
    | inl e ↦ (inv.ahead e).0
    | inr (sb, e) ↦ rw (inv.skip sb e) (rw e at h)
  ]

  pub later-ahead :
      (sb : Text) (row : T) (rest : List T)
      → text_ltb (key_of row) sb ≡ false
      → All (λ later. text_ltb (key_of row) (key_of later) ≡ true) rest
      → All (λ later. text_ltb (key_of later) sb ≡ false) rest
  later-ahead sb row [] ge h = tt
  later-ahead sb row (later ∷ rest) ge (p, h) = (
    le_trans sb (key_of row) (key_of later) ge (ltb_asymm (key_of row) (key_of later) p),
    later-ahead sb row rest ge h,
  )

  after_key-ahead :
      (row : T) (rest : List T)
      → All (λ later. text_ltb (key_of row) (key_of later) ≡ true) rest
      → All (λ later. text_ltb (key_of later) (key_of row ++ 0 ∷ []) ≡ false) rest
  after_key-ahead row [] h = tt
  after_key-ahead row (later ∷ rest) (p, h) =
      (ltb-append_zero (key_of row) (key_of later) p, after_key-ahead row rest h)

  module _ (params : ListParams) where
    pub skip-Resumes :
        (row : T) (rest : List T) (w : LoopState T) (sb : Text)
        → Resumes (row ∷ rest) w
        → w.skip_below ≡ some sb
        → text_ltb (key_of row) sb ≡ true
        → Resumes rest w
    skip-Resumes row rest w sb inv e lt = record {
      back = λ c h.
          inv.back c h
          ∙ rows_from-below key_of c row rest
              (ltb_le_trans (key_of row) sb c lt (rw (inv.skip sb e) at h));
      ahead = λ n. cc (e, n);
      skip = inv.skip;
    }

    content-Resumes :
        (row : T) (rest : List T) (w : LoopState T)
        → Resumes (row ∷ rest) w
        → is_skipped w.skip_below (key_of row) ≡ false
        → All (λ later. text_ltb (key_of row) (key_of later) ≡ true) rest
        → Resumes rest (push_content row (key_of row) w)
    content-Resumes row rest w inv kept later = record {
      back =
          back-advance row rest w (key_of row ++ 0 ∷ []) inv (not_skipped-ahead row rest w inv kept)
            (ltb-append (key_of row) 0);
      ahead = λ _. after_key-ahead row rest later;
      skip = λ sb h. cc h;
    }

    group-Resumes :
        (row : T) (rest : List T) (w : LoopState T) (covered : Bool) (cp after : Text)
        → Resumes (row ∷ rest) w
        → is_skipped w.skip_below (key_of row) ≡ false
        → text_ltb (key_of row) after ≡ true
        → Resumes rest (push_group covered cp after (fresh w))
    group-Resumes row rest w true cp after inv kept past = record {
      back = back-advance row rest w after inv (not_skipped-ahead row rest w inv kept) past;
      ahead = λ h. cc h;
      skip = λ sb h. h;
    }
    group-Resumes row rest w false cp after inv kept past = record {
      back = back-advance row rest w after inv (not_skipped-ahead row rest w inv kept) past;
      ahead = λ h. cc h;
      skip = λ sb h. h;
    }

    -- What a row does that is neither skipped nor held back by a full page.
    pub handle_row-room :
        (row : T) (w : LoopState T)
        → is_skipped w.skip_below (key_of row) ≡ false
        → (emitted w == params.max_keys) ≡ false
        → handle_row key_of params row w
          ≡ handle_group key_of params row
              (fresh w)
              (classify (key_of row) params.prefix params.delimiter)
    unfolding handle_row
    handle_row-room row w kept room = rw (kept, room)

    pub handled-Resumes :
        (row : T) (rest : List T) (w v : LoopState T) (g : Group)
        → Resumes (row ∷ rest) w
        → IsStr (key_of row)
        → All (λ later. text_ltb (key_of row) (key_of later) ≡ true) rest
        → is_skipped w.skip_below (key_of row) ≡ false
        → classify (key_of row) params.prefix params.delimiter ≡ g
        → handle_group key_of params row (fresh w) g ≡ next v
        → Resumes rest v
    handled-Resumes row rest w v content inv str later kept g h =
        let same : push_content row (key_of row) w ≡ v = cc h in
        rw (← same) (content-Resumes row rest w inv kept later)
    handled-Resumes row rest w v (rolled cp) inv str later kept g h =
        elim (Option-cases (successor cp)) [
          | inl e ↦ cc (rw (e, handle_group) at h)
          | inr (after, e) ↦
              let same : push_group (is_covered params.skip_cp_le cp) cp after (fresh w) ≡ v =
                cc (rw (e, handle_group) at h) in
              let past =
                rolled-below (key_of row) params.prefix params.delimiter cp after g e str in
              rw (← same)
                (group-Resumes row rest w (is_covered params.skip_cp_le cp) cp after inv kept past)
        ]

    pub step-Resumes :
        (row : T) (rest : List T) (w v : LoopState T)
        → Resumes (row ∷ rest) w
        → IsStr (key_of row)
        → All (λ later. text_ltb (key_of row) (key_of later) ≡ true) rest
        → handle_row key_of params row w ≡ next v
        → Resumes rest v
    unfolding handle_row
    step-Resumes row rest w v inv str later h =
        elim (Bool-cases (is_skipped w.skip_below (key_of row))) [
          | inl skipped ↦ elim (Option-cases w.skip_below) [
            | inl e ↦ cc (rw e at skipped)
            | inr (sb, e) ↦
                let same : w ≡ v = ground arith in
                rw (← same) (skip-Resumes row rest w sb inv e (rw e at skipped))
          ]
          | inr kept ↦ elim (Bool-cases (emitted w == params.max_keys)) [
            | inl full ↦ cc (rw (kept, full) at h)
            | inr room ↦
                handled-Resumes row rest w v (classify (key_of row) params.prefix params.delimiter)
                  inv str later kept refl (sym (handle_row-room row w kept room) ∙ h)
          ]
        ]
