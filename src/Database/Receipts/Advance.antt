-- ===== src/Database/Receipts/Advance.antt =====
-- Receipts only move forward, and only for sent messages.
use omarchy_whatsapp.Prelude.Table.Lookup.{find-update}
use omarchy_whatsapp.Prelude.Table.{find_where, map_if, update_where}
use omarchy_whatsapp.Prelude.Int.{ℤ}
use omarchy_whatsapp.Database.Receipts.{
  reader_rows, receipts_loop, take_receipt, takes_receipt, update_receipts,
}
use omarchy_whatsapp.Database.{Database, MessageRow, same_key}
use omarchy_whatsapp.Prelude.{
  Bool-cases, List, Option, String, [], arith, false, inl, inr, is_some, none, not, refl, some, sym,
  true, ℕ, ◌&&◌, ◌∙◌, ◌∷◌, ◌≡◌, ◌≤◌, ◌⊎◌,
}

-- What receipts may make of a message: its receipt does not fall, a time that is known is not
-- forgotten, and a message of someone else stays as it is.
abbrev pub Advances : {T : Type 0} → MessageRow T → MessageRow T → Type 0
Advances m n =
    (m.receipt ≤ n.receipt)
    × ((is_some m.delivered_at && not (is_some n.delivered_at)) ≡ false)
    × ((is_some m.receipt_read_at && not (is_some n.receipt_read_at)) ≡ false)
    × ((m.from_me ≡ true) ⊎ (n ≡ m))
    × (n.from_me ≡ m.from_me)

-- The same of the row of a key, which neither comes nor goes.
abbrev pub AdvancesRow : {T : Type 0} → Option (MessageRow T) → Option (MessageRow T) → Type 0
AdvancesRow none none = Unit
AdvancesRow none (some n) = ⊥
AdvancesRow (some m) none = ⊥
AdvancesRow (some m) (some n) = Advances m n

module _ {T : Type 0} where
  Advances-refl : (m : MessageRow T) → Advances m m
  Advances-refl m = (omega arith, ground arith, ground arith, inr refl, refl)

  Advances-trans : (m n o : MessageRow T) → Advances m n → Advances n o → Advances m o
  Advances-trans m n o (a1, a2, a3, a4, a5) (b1, b2, b3, b4, b5) = (
    omega arith,
    ground arith,
    ground arith,
    elim b4 [
      | inl own ↦ inl (sym a5 ∙ own)
      | inr e ↦ elim a4 [ inl own ↦ inl own | inr f ↦ inr (e ∙ f) ]
    ],
    b5 ∙ a5,
  )

  take-Advances :
      (c id : String) (receipt : ℕ) (at : ℤ) (m : MessageRow T)
      → takes_receipt c id receipt at m ≡ true
      → Advances m (take_receipt receipt at m)
  take-Advances c id receipt at m h =
      (ground arith, ground arith, ground arith, inl (ground arith), refl)

  AdvancesRow-trans :
      (o1 o2 o3 : Option (MessageRow T)) → AdvancesRow o1 o2 → AdvancesRow o2 o3 → AdvancesRow o1 o3
  AdvancesRow-trans none none o3 a b = b
  AdvancesRow-trans none (some n) o3 a b = absurd a
  AdvancesRow-trans (some m) none o3 a b = absurd a
  AdvancesRow-trans (some m) (some n) none a b = b
  AdvancesRow-trans (some m) (some n) (some o) a b = Advances-trans m n o a b

  AdvancesRow-refl : (o : Option (MessageRow T)) → AdvancesRow o o
  AdvancesRow-refl none = tt
  AdvancesRow-refl (some m) = Advances-refl m

  taken-AdvancesRow :
      (c id : String) (receipt : ℕ) (at : ℤ) (o : Option (MessageRow T))
      → AdvancesRow o (map_if (takes_receipt c id receipt at) (take_receipt receipt at) o)
  taken-AdvancesRow c id receipt at none = tt
  taken-AdvancesRow c id receipt at (some m) = elim (Bool-cases (takes_receipt c id receipt at m)) [
    | inl hit ↦ rw hit (take-Advances c id receipt at m hit)
    | inr miss ↦ rw miss (Advances-refl m)
  ]

  loop-AdvancesRow :
      (k : MessageRow T) (c : String) (ids : List String) (receipt : ℕ) (recipient : Option String)
      (at : ℤ) (db : Database T)
      → AdvancesRow
          (find_where (same_key k) db.messages)
          (find_where (same_key k) (receipts_loop c ids receipt recipient at db).0.messages)
  unfolding receipts_loop
  loop-AdvancesRow k c [] receipt recipient at db = AdvancesRow-refl _
  loop-AdvancesRow k c (id ∷ ids) receipt recipient at db =
      let ms = update_where (takes_receipt c id receipt at) (take_receipt receipt at) db.messages in
      let reads = (reader_rows c id receipt recipient at ms db.message_reads).0 in
      let next = record db { messages = ms; message_reads = reads } in
      AdvancesRow-trans (find_where (same_key k) db.messages) (find_where (same_key k) ms)
        (find_where (same_key k) (receipts_loop c ids receipt recipient at next).0.messages)
        (rw
          (find-update (same_key k) (takes_receipt c id receipt at) (take_receipt receipt at)
            db.messages (λ m. refl))
          (taken-AdvancesRow c id receipt at (find_where (same_key k) db.messages)))
        (loop-AdvancesRow k c ids receipt recipient at next)

  -- Whatever receipts arrive, and in whatever order, no message is added or lost, its receipt never
  -- falls, a delivery or read time that is known is not forgotten, and a message of someone else
  -- stays as it is.
  pub update_receipts-AdvancesRow :
      (k : MessageRow T) (c : String) (ids : List String) (receipt : ℕ) (recipient : Option String)
      (at : ℤ) (db : Database T)
      → AdvancesRow
          (find_where (same_key k) db.messages)
          (find_where (same_key k) (update_receipts c ids receipt recipient at db).0.messages)
  unfolding update_receipts
  update_receipts-AdvancesRow k c ids receipt recipient at db =
      loop-AdvancesRow k c ids receipt recipient at db
