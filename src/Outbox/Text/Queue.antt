-- ===== src/Outbox/Text/Queue.antt =====
-- How many rows wait or are being sent: what a claim and the calls that answer it do to these numbers.
use mathlib.Core.Path.{subst}
use omarchy_whatsapp.Prelude.{
  Bool, Bool-cases, List, Option, Option-cases, String, [], arith, eq_refl, inl, inr, none, not,
  refl, some, true, ◌&&◌, ◌<◌, ◌∷◌, ◌≡◌, ◌≤◌, ◌∙◌,
}
use omarchy_whatsapp.Prelude.Json.{Json}
use omarchy_whatsapp.Prelude.Table.{All, count_where, exists_where}
use omarchy_whatsapp.Prelude.Table.Every.{All-delete, All-update}
use omarchy_whatsapp.Protocol.{MessageQuote}
use omarchy_whatsapp.Outbox.Text.{
  PendingTextMessage, Row, Status, before, claim_row, claim_text_message, claimed,
  complete_text_message, decode, fail_text_message, failed, first_queued, has_id, id_sending,
  is_queued, is_sending, mark_sending, ok, pending, sending,
}

module _ {J Q : Type 0} where
  abbrev pub waits : Row J Q → Bool
  waits r = is_queued r.status

  abbrev pub in_flight : Row J Q → Bool
  in_flight r = is_sending r.status

  abbrev waits_as : String → Row J Q → Bool
  waits_as id r = has_id id r && waits r

  pub first_queued-none :
      (rows : List (Row J Q)) → first_queued rows ≡ none → count_where waits rows ≡ 0
  unfolding first_queued
  first_queued-none [] h = refl
  first_queued-none (r ∷ rs) h = elim (Option-cases (first_queued rs)) [
    | inl none_left ↦ ground (arith, first_queued-none rs)
    | inr (s, found) ↦ ground arith
  ]

  -- The first queued row is a queued row of the table.
  pub first_queued-waits :
      (rows : List (Row J Q)) (r : Row J Q)
      → first_queued rows ≡ some r
      → exists_where (waits_as r.delivery_id) rows ≡ true
  unfolding first_queued
  first_queued-waits [] r h = cc
  first_queued-waits (x ∷ rs) r h = elim (Option-cases (first_queued rs)) [
    | inl none_left ↦ ground (arith, eq_refl x.delivery_id)
    | inr (s, found) ↦ ground (arith, eq_refl x.delivery_id, first_queued-waits rs s found)
  ]

  count-mark_le :
      (r : Row J Q) (rows : List (Row J Q))
      → count_where waits (mark_sending r rows) ≤ count_where waits rows
  count-mark_le r [] = omega arith
  count-mark_le r (x ∷ rs) = ground (arith, count-mark_le r rs)

  pub count-mark_lt :
      (r : Row J Q) (rows : List (Row J Q))
      → exists_where (waits_as r.delivery_id) rows ≡ true
      → count_where waits (mark_sending r rows) < count_where waits rows
  count-mark_lt r [] h = cc
  count-mark_lt r (x ∷ rs) h = ground (arith, count-mark_le r rs, count-mark_lt r rs)

  pub complete-waits :
      (id : String) (rows : List (Row J Q))
      → count_where waits (complete_text_message id rows).0 ≡ count_where waits rows
  unfolding complete_text_message
  complete-waits id [] = refl
  complete-waits id (x ∷ rs) = ground (arith, complete-waits id rs)

  pub fail-waits :
      (id error : String) (rows : List (Row J Q))
      → count_where waits (fail_text_message id error rows).0 ≡ count_where waits rows
  unfolding fail_text_message
  fail-waits id error [] = refl
  fail-waits id error (x ∷ rs) = ground (arith, fail-waits id error rs)

module _ {J Q : Type 0} (mj : Json (List String) J) (qj : Json MessageQuote Q) where
  -- The stored JSON of a row parses.
  abbrev pub Readable : Row J Q → Type 0
  Readable r = (p : PendingTextMessage) × (decode mj qj r ≡ ok p)

  pending-status :
      (r : Row J Q) (s : Status) (e : Option String) (quote : Option (Option MessageQuote))
      (mentions : Option (List String))
      → pending mj qj (record r { status = s; error = e }) quote mentions
        ≡ pending mj qj r quote mentions
  unfolding pending
  pending-status r s e none mentions = refl
  pending-status r s e (some quote) none = refl
  pending-status r s e (some quote) (some mentions) = refl

  decode-status :
      (r : Row J Q) (s : Status) (e : Option String)
      → decode mj qj (record r { status = s; error = e }) ≡ decode mj qj r
  unfolding decode
  decode-status r s e = pending-status r s e _ _

  Readable-status :
      (r : Row J Q) (s : Status) (e : Option String)
      → Readable r
      → Readable (record r { status = s; error = e })
  Readable-status r s e (p, reads) = (p, decode-status r s e ∙ reads)

  first_queued-All :
      (rows : List (Row J Q)) (r : Row J Q)
      → first_queued rows ≡ some r
      → All Readable rows
      → Readable r
  unfolding first_queued
  first_queued-All [] r h all = cc
  first_queued-All (x ∷ rs) r h all = elim (Option-cases (first_queued rs)) [
    | inl none_left ↦ let same : x ≡ r = ground arith in subst Readable same all.0
    | inr (s, found) ↦ elim (Bool-cases (waits x && not (before s x))) [
      | inl mine ↦ let same : x ≡ r = ground arith in subst Readable same all.0
      | inr other ↦
          let same : s ≡ r = ground arith in subst Readable same (first_queued-All rs s found all.1)
    ]
  ]

  decode-id :
      (r : Row J Q) (p : PendingTextMessage) → decode mj qj r ≡ ok p → p.delivery_id ≡ r.delivery_id
  unfolding decode pending
  decode-id r p h = ground arith

  -- What a claim does where every row is readable.
  pub claim-none :
      (rows : List (Row J Q))
      → first_queued rows ≡ none
      → claim_text_message mj qj rows ≡ ok (rows, none)
  unfolding claim_text_message
  claim-none rows h = rw h refl

  pub claim-some :
      (rows : List (Row J Q)) (r : Row J Q)
      → first_queued rows ≡ some r
      → All Readable rows
      → (p : PendingTextMessage) × (claim_text_message mj qj rows
          ≡ ok (mark_sending r rows, some p))
        × (p.delivery_id ≡ r.delivery_id)
  unfolding claim_text_message claim_row claimed
  claim-some rows r h all =
      let (p, reads) = first_queued-All rows r h all in (p, rw (h, reads) refl, decode-id r p reads)

  pub mark-Readable :
      (r : Row J Q) (rows : List (Row J Q)) → All Readable rows → All Readable (mark_sending r rows)
  mark-Readable r rows =
      All-update Readable (has_id r.delivery_id) _ rows (λ x. Readable-status x sending none)

  pub complete-Readable :
      (id : String) (rows : List (Row J Q))
      → All Readable rows
      → All Readable (complete_text_message id rows).0
  unfolding complete_text_message
  complete-Readable id rows = All-delete Readable (id_sending id) rows

  pub fail-Readable :
      (id error : String) (rows : List (Row J Q))
      → All Readable rows
      → All Readable (fail_text_message id error rows).0
  unfolding fail_text_message
  fail-Readable id error rows =
      All-update Readable (id_sending id) _ rows (λ x. Readable-status x failed (some error))
