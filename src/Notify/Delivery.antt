-- ===== src/Notify/Delivery.antt =====
-- What a delivery leaves on the bus.
use cubby.Base.{ℕ, ◌+◌, ◌%◌, ◌^◌, ◌≡◌, some, List, [], ◌∷◌, ◌++◌, codes}
use cubby.Db.{Db, NotificationRow}
use cubby.Events.{BusSignal, event, clear}
use cubby.Notify.{ObjectEvent, Outside, status_code, label}

module _ (outside : Outside) (about : ObjectEvent) where
  -- The line of the delivery with a number to a destination: of the operation `Webhook`, with the
  -- bucket and the key of the event, the status that the receiver answered, 0 for none, and a note
  -- that names the destination and the outcome.
  abbrev pub IsLine : ℕ → NotificationRow → BusSignal → Type 0
  IsLine seq row clear = ⊥
  IsLine seq row (event e) =
      let outcome = outside.post row seq about in
      (e.method ≡ codes "POST")
      × (e.op ≡ some (codes "Webhook"))
      × (e.bucket ≡ some about.bucket)
      × (e.key ≡ some about.key)
      × (e.status ≡ status_code outcome)
      × (e.note ≡ some (codes "→ webhook " ++ row.draft.url ++ codes " " ++ label outside outcome))

  -- One line for each destination, in their order, numbered from `seq` on as a `u64` counts.
  abbrev pub AreLines : ℕ → List NotificationRow → List BusSignal → Type 0
  AreLines seq [] [] = Unit
  AreLines seq [] (s ∷ signals) = ⊥
  AreLines seq (row ∷ rows) [] = ⊥
  AreLines seq (row ∷ rows) (s ∷ signals) =
      IsLine seq row s × AreLines ((seq + 1) % 2 ^ 64) rows signals

  -- What the deliveries to some destinations add to what was sent.
  pub record Adds (seq : ℕ) (rows : List NotificationRow) (before after : List BusSignal)
      : Type 0 where
    pub added : List BusSignal
    pub appended : after ≡ before ++ added
    pub lines : AreLines seq rows added
