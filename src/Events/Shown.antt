-- ===== src/Events/Shown.antt =====
-- What a consumer of the feed shows, and what of it depends on the newest signals only.
use cubby.Base.{
  ℕ, zero, suc, ◌+◌, ◌-◌, ◌⊎◌, ◌∙◌, ◌≤◌, ◌≡◌, refl, sym, ap, inl, inr, List, [], ◌∷◌, ◌++◌,
  append-nil, length, drop, take, take-append-drop, append_assoc, arith, length-append, take,
  take-append-drop, append_assoc, drop-length,
}
use cubby.Events.{Event, BusSignal, event, clear}

-- The events that a consumer shows after some signals, from those it began with.
abbrev pub shown : List Event → List BusSignal → List Event
shown events [] = events
shown events (event e ∷ signals) = shown (events ++ e ∷ []) signals
shown events (clear ∷ signals) = shown [] signals

-- The newest `n` of a list.
abbrev pub newest {ℓ} : {A : Type ℓ} → ℕ → List A → List A
newest n xs = drop (length xs - n) xs

pub shown-append :
    (events : List Event) (a b : List BusSignal) → shown events (a ++ b) ≡ shown (shown events a) b
shown-append events [] b = refl
shown-append events (event e ∷ a) b = shown-append (events ++ e ∷ []) a b
shown-append events (clear ∷ a) b = shown-append [] a b

pub drop_under {ℓ} :
    {A : Type ℓ} (n : ℕ) (xs ys : List A) → n ≤ length xs → drop n (xs ++ ys) ≡ drop n xs ++ ys
drop_under zero xs ys h = refl
drop_under (suc n) [] ys h = let no : ⊥ = omega arith in absurd no
drop_under (suc n) (x ∷ xs) ys h = drop_under n xs ys (omega arith)

pub drop_nothing {ℓ} : {A : Type ℓ} (n : ℕ) → ◌≡◌ {A = List A} (drop n []) []
drop_nothing zero = refl
drop_nothing (suc n) = refl

pub drop_add {ℓ} : {A : Type ℓ} (n k : ℕ) (xs : List A) → drop (n + k) xs ≡ drop k (drop n xs)
drop_add zero k xs = let none_first : 0 + k ≡ k = omega arith in rw none_first refl
drop_add (suc n) k [] = rw (drop_nothing (suc n + k), drop_nothing k) refl
drop_add (suc n) k (x ∷ xs) =
    let one_first : suc n + k ≡ suc (n + k) = omega arith in rw one_first (drop_add n k xs)

newest-suffix : (c : ℕ) (a t : List Event) → c ≤ length t → newest c (a ++ t) ≡ newest c t
newest-suffix c a t h =
    let l = length-append a t in
    let same : length (a ++ t) - c ≡ length a + (length t - c) = omega arith in
    rw (same, drop_add (length a) (length t - c) (a ++ t), drop-length a t) refl

-- Enough signals decide the newest events that are shown after them, whatever was shown before.
shown_suffix :
    (c : ℕ) (a b t : List Event) (signals : List BusSignal)
    → c ≤ length t + length signals
    → newest c (shown (a ++ t) signals) ≡ newest c (shown (b ++ t) signals)
shown_suffix c a b t [] h =
    newest-suffix c a t (omega arith) ∙ sym (newest-suffix c b t (omega arith))
shown_suffix c a b t (clear ∷ signals) h = refl
shown_suffix c a b t (event e ∷ signals) h =
    rw (append_assoc a t (e ∷ []), append_assoc b t (e ∷ []))
      (shown_suffix c a b (t ++ e ∷ []) signals (omega (arith, length-append t (e ∷ []))))

-- Signals that were lost do not show in the newest events if enough come after them.
pub shown-drop :
    (c k : ℕ) (start : List Event) (signals : List BusSignal)
    → (k ≡ 0) ⊎ (c ≤ length (drop k signals))
    → newest c (shown start signals) ≡ newest c (shown start (drop k signals))
shown-drop c k start signals (inl none_lost) = rw none_lost refl
shown-drop c k start signals (inr enough) =
    let early = shown start (take k signals) in
    let split : shown start signals ≡ shown early (drop k signals) =
      ap (shown start) (sym (take-append-drop k signals))
      ∙ shown-append start (take k signals) (drop k signals) in
    let same = shown_suffix c early start [] (drop k signals) (omega arith) in
    ap (newest c) split ∙ rw (append-nil early, append-nil start) at same
