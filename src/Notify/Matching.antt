-- ===== src/Notify/Matching.antt =====
-- Which events a destination fires for, and what a valid destination is.
use cubby.Base.{
  ℕ, ◌<◌, ◌≡◌, ◌≢◌, ◌⊎◌, ◌↔◌, refl, sym, inl, inr, Bool, true, false, ◌&&◌, ◌||◌, Option, none,
  some, List, [], ◌∷◌, ◌++◌, Text, codes, text_eq, text_eq_iff, text_eq_refl, starts_with,
  ends_with, starts_with-append, starts_with-split, ends_with-append, ends_with-split, any,
  Bool-cases, All, arith, &&_left, &&_right, Member, here, there, drop,
}
use cubby.Notify.{
  EventKind, put, copy, complete_multipart_upload, delete, event_name, qualified_name, is_created,
  family, ObjectEvent, known_events, event_subscribed, is_none_or, key_passes_filters,
  destination_matches, contains,
}

-- The list names the event itself or its family.
pub data Subscribes (kind : EventKind) (events : List Text) : Type 0 where
  by_name : Member (qualified_name kind) events → Subscribes kind events
  by_family : Member (family kind) events → Subscribes kind events

-- A prefix or a suffix that is absent, or that the key has.
abbrev pub Begins : Text → Option Text → Type 0
Begins key none = Unit
Begins key (some p) = (rest : Text) × (key ≡ p ++ rest)

abbrev pub Ends : Text → Option Text → Type 0
Ends key none = Unit
Ends key (some s) = (rest : Text) × (key ≡ rest ++ s)

subscribed-Subscribes :
    (events : List Text) (kind : EventKind)
    → event_subscribed events kind ≡ true
    → Subscribes kind events
unfolding event_subscribed
subscribed-Subscribes [] kind h = cc
subscribed-Subscribes (e ∷ events) kind h = elim (Bool-cases (text_eq e (qualified_name kind))) [
  | inl f ↦ by_name (here (sym ((text_eq_iff e (qualified_name kind)).0 f)))
  | inr f ↦ elim (Bool-cases (text_eq e (family kind))) [
    | inl g ↦ by_family (here (sym ((text_eq_iff e (family kind)).0 g)))
    | inr g ↦ later (subscribed-Subscribes events kind (rw (f, g) at h))
  ]
]
  where
    later : Subscribes kind events → Subscribes kind (e ∷ events)
    later (by_name m) = by_name (there m)
    later (by_family m) = by_family (there m)

any-Member :
    (p : Text → Bool) (events : List Text) (e : Text)
    → Member e events
    → p e ≡ true
    → any p events ≡ true
any-Member p [] e m h = elim m [ ]
any-Member p (x ∷ events) e (here q) h = let px : p x ≡ true = rw q at h in rw px refl
any-Member p (x ∷ events) e (there m) h = ground (arith, any-Member p events e m h)

or_right : (a b : Bool) → b ≡ true → (a || b) ≡ true
or_right true b h = refl
or_right false b h = h

Subscribes-subscribed :
    (events : List Text) (kind : EventKind)
    → Subscribes kind events
    → event_subscribed events kind ≡ true
unfolding event_subscribed
Subscribes-subscribed events kind (by_name m) =
    any-Member _ events (qualified_name kind) m (rw (text_eq_refl (qualified_name kind)) refl)
Subscribes-subscribed events kind (by_family m) =
    any-Member _ events (family kind) m
      (or_right (text_eq (family kind) (qualified_name kind)) _ (text_eq_refl (family kind)))

prefix_iff :
    (key : Text) (prefix : Option Text)
    → (is_none_or (λ p. starts_with key p) prefix ≡ true) ↔ Begins key prefix
prefix_iff key none = (λ h. tt, λ h. refl)
prefix_iff key (some p) =
    (starts_with-split key p, λ h. let (rest, e) = h in rw e (starts_with-append p rest))

suffix_iff :
    (key : Text) (suffix : Option Text)
    → (is_none_or (λ s. ends_with key s) suffix ≡ true) ↔ Ends key suffix
suffix_iff key none = (λ h. tt, λ h. refl)
suffix_iff key (some s) =
    (ends_with-split key s, λ h. let (rest, e) = h in rw e (ends_with-append rest s))

and_both : (a b : Bool) → a ≡ true → b ≡ true → (a && b) ≡ true
and_both a b h k = rw (h, k) refl

-- A destination fires for an event exactly if its list names the event or the event's family, and
-- the key begins with its prefix and ends in its suffix, where it has them.
pub destination_matches_iff :
    (events : List Text) (prefix suffix : Option Text) (event : ObjectEvent)
    → (destination_matches events prefix suffix event ≡ true)
      ↔ (Subscribes event.kind events × Begins event.key prefix × Ends event.key suffix)
unfolding destination_matches key_passes_filters
destination_matches_iff events prefix suffix event = (
  λ h.
      let filters = &&_right _ _ h in
      (
        subscribed-Subscribes events event.kind (&&_left _ _ h),
        (prefix_iff event.key prefix).0 (&&_left _ _ filters),
        (suffix_iff event.key suffix).0 (&&_right _ _ filters),
      ),
  λ h.
      and_both _ _ (Subscribes-subscribed events event.kind h.0)
        (and_both _ _ ((prefix_iff event.key prefix).1 h.1) ((suffix_iff event.key suffix).1 h.2)),
)

created_family :
    (other : EventKind)
    → (is_created other ≡ true) ↔ (event_subscribed (codes "s3:ObjectCreated:*" ∷ []) other ≡ true)
unfolding event_subscribed text_eq
created_family put = (λ h. refl, λ h. refl)
created_family copy = (λ h. refl, λ h. refl)
created_family complete_multipart_upload = (λ h. refl, λ h. refl)
created_family delete = (λ h. cc, λ h. cc)

removed_family :
    (other : EventKind)
    → (is_created other ≡ false) ↔ (event_subscribed (codes "s3:ObjectRemoved:*" ∷ []) other ≡ true)
unfolding event_subscribed text_eq
removed_family put = (λ h. cc, λ h. cc)
removed_family copy = (λ h. cc, λ h. cc)
removed_family complete_multipart_upload = (λ h. cc, λ h. cc)
removed_family delete = (λ h. refl, λ h. refl)

-- The names agree: a kind's name in a payload is its name in a configuration without `s3:`, both the
-- name and the family are known, and a family stands for the kinds that are as it is, created or removed.
pub known-names :
    (kind : EventKind)
    → (drop 3 (qualified_name kind) ≡ event_name kind)
      × (contains known_events (qualified_name kind) ≡ true)
      × (contains known_events (family kind) ≡ true)
      × ((other : EventKind)
          → (is_created other ≡ is_created kind)
            ↔ (event_subscribed (family kind ∷ []) other ≡ true))
unfolding event_subscribed text_eq
known-names put = (refl, refl, refl, created_family)
known-names copy = (refl, refl, refl, created_family)
known-names complete_multipart_upload = (refl, refl, refl, created_family)
known-names delete = (refl, refl, refl, removed_family)

-- What a destination has to be.
pub record IsValidDestination (url : Text) (events : List Text) (format : Text) (timeout_ms : ℕ)
    : Type 0 where
  pub plain_http : (rest : Text) × (url ≡ codes "http://" ++ rest)
  pub some_event : events ≢ []
  pub known : All (λ e. contains known_events e ≡ true) events
  pub rendered : (format ≡ codes "s3-notification") ⊎ (format ≡ codes "eventbridge")
  pub bounded : 0 < timeout_ms
