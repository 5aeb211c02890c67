-- ===== src/Database/Receipts.antt =====
-- Delivery and read receipts of sent messages (Database::update_receipts in
-- crates/daemon/src/database.rs).
pub mod Advance
use omarchy_whatsapp.Prelude.{
  Bool, List, Option, String, [], eqb, false, if◌then◌else◌, leb, ltb, none, not, some, true, ℕ,
  ◌&&◌, ◌++◌, ◌==◌, ◌||◌, ◌∷◌,
}
use omarchy_whatsapp.Prelude.Int.{leb_ℤ, ltb_ℤ, pos, ℤ}
use omarchy_whatsapp.Prelude.Table.{count_where, exists_where, update_where}
use omarchy_whatsapp.Database.{Database, MessageRow, ReadRow}
use omarchy_whatsapp.Database.ReadState.{message_is}

-- ?4 > 0 AND (column IS NULL OR ?4 < column)
abbrev pub earlier_than : ℤ → Option ℤ → Bool
earlier_than at none = ltb_ℤ (pos 0) at
earlier_than at (some t) = ltb_ℤ (pos 0) at && ltb_ℤ at t

-- The times of a message that a receipt sets.
abbrev pub sets_delivered : {T : Type 0} → ℕ → ℤ → MessageRow T → Bool
sets_delivered receipt at m = eqb receipt 2 && earlier_than at m.delivered_at

abbrev pub sets_read : {T : Type 0} → ℕ → ℤ → MessageRow T → Bool
sets_read receipt at m = leb 3 receipt && earlier_than at m.receipt_read_at

abbrev pub takes_receipt : {T : Type 0} → String → String → ℕ → ℤ → MessageRow T → Bool
takes_receipt c id receipt at m =
    (message_is c id m && m.from_me)
    && (ltb m.receipt receipt || (sets_delivered receipt at m || sets_read receipt at m))

abbrev pub take_receipt : {T : Type 0} → ℕ → ℤ → MessageRow T → MessageRow T
take_receipt receipt at m = record m {
  receipt = if leb m.receipt receipt then receipt else m.receipt;
  delivered_at = if sets_delivered receipt at m then some at else m.delivered_at;
  receipt_read_at = if sets_read receipt at m then some at else m.receipt_read_at;
}

abbrev pub read_is : String → String → String → ReadRow → Bool
read_is c id reader r = r.chat_jid == c && (r.message_id == id && r.reader_jid == reader)

-- excluded > 0 AND (column <= 0 OR excluded < column)
abbrev pub improves : ℤ → ℤ → Bool
improves at stored = ltb_ℤ (pos 0) at && (leb_ℤ stored (pos 0) || ltb_ℤ at stored)

-- One receipt of one reader: the rows afterwards, and whether one changed.
read_row : String → String → String → ℕ → ℤ → List ReadRow → List ReadRow × Bool
read_row c id reader receipt at rows =
    let hit = λ (r : ReadRow).
      read_is c id reader r && improves at (if eqb receipt 2 then r.delivered_at else r.read_at) in
    if exists_where (read_is c id reader) rows
    then (
      update_where hit
          (λ r. if eqb receipt 2 then record r { delivered_at = at } else record r { read_at = at })
          rows,
      ltb 0 (count_where hit rows),
    )
    else (
      rows
          ++ record {
            chat_jid = c;
            message_id = id;
            reader_jid = reader;
            read_at = if eqb receipt 2 then pos 0 else at;
            delivered_at = if eqb receipt 2 then at else pos 0;
          }
            ∷ [],
      true,
    )

module _ {T : Type 0} where
  -- recipient_jid.filter(|jid| !jid.is_empty()), for receipts that have a row of their own.
  reader_rows :
      String
      → String
      → ℕ
      → Option String
      → ℤ
      → List (MessageRow T)
      → List ReadRow
      → List ReadRow × Bool
  unfolding read_row
  reader_rows c id receipt none at ms rows = (rows, false)
  reader_rows c id receipt (some reader) at ms rows =
      if not (reader == "")
        && (leb 2 receipt && exists_where (λ m. message_is c id m && m.from_me) ms)
      then read_row c id reader receipt at rows
      else (rows, false)

  receipts_loop : String → List String → ℕ → Option String → ℤ → Database T → Database T × Bool
  unfolding reader_rows
  receipts_loop c [] receipt recipient at db = (db, false)
  receipts_loop c (id ∷ ids) receipt recipient at db =
      let ms = update_where (takes_receipt c id receipt at) (take_receipt receipt at) db.messages in
      let reads = reader_rows c id receipt recipient at ms db.message_reads in
      let rest =
        receipts_loop c ids receipt recipient at
          (record db { messages = ms; message_reads = reads.0 }) in
      (
        rest.0,
        ltb 0 (count_where (takes_receipt c id receipt at) db.messages) || (reads.1 || rest.1),
      )

  pub update_receipts :
      String → List String → ℕ → Option String → ℤ → Database T → Database T × Bool
  unfolding receipts_loop
  update_receipts = receipts_loop
