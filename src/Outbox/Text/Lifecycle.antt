-- ===== src/Outbox/Text/Lifecycle.antt =====
-- The row of one delivery ID in text_outbox, call by call.
use mathlib.Core.Path.{subst}
use omarchy_whatsapp.Prelude.{
  eq_refl, Bool-cases, List, Option, Option-cases, String, [], ap, arith, contains, eq_iff, false,
  inl, inr, is_some, none, refl, some, sym, true, ◌++◌, ◌==◌, ◌∙◌, ◌∷◌, ◌≡◌,
}
use omarchy_whatsapp.Prelude.Table.Count.{count-append, count_of_not-exists}
use omarchy_whatsapp.Prelude.Table.{count_where, find_where}
use omarchy_whatsapp.Prelude.Table.Lookup.{
  exists-find, find-append, find-delete, find_some, found-satisfies,
}
use omarchy_whatsapp.Prelude.Json.{Json}
use omarchy_whatsapp.Protocol.{MessageQuote}
use omarchy_whatsapp.Prelude.Int.{ℤ}
use omarchy_whatsapp.Outbox.Text.{
  clear, Op, PendingTextMessage, Result, Row, claim, claim_row, claim_text_message, claimed,
  complete, decode, discard, enqueue, enqueue_row, enqueue_text_message, err, fail, first_queued,
  has_id, is_failed, is_queued, new_row, ok, queued, reopen, retry, retry_all, same_message,
  stale_ids, step, table_after, trim_failed,
}
use omarchy_whatsapp.Outbox.Text.Order.{first_queued-is, stale-failed}
use omarchy_whatsapp.Outbox.Text.Moves.{
  is_row_of, IsTable, Move, acts, clear-Move, complete-Move, delete-Move, discard-Move, fail-Move,
  is_enqueue, kept, accepted, recover-Move, retry-Move, retry_all-Move, taken, trimmed, update-Move,
}

module _ {J Q : Type 0} (id : String) where
  trim-Move :
      (o : Op) (rows : List (Row J Q))
      → IsTable rows
      → is_enqueue o ≡ true
      → acts {J = J} {Q = Q} o id none ≡ false
      → ((r : Row J Q) → acts o id (some r) ≡ false)
      → Move o id (find_where (has_id id) rows) (find_where (has_id id) (trim_failed rows))
  unfolding trim_failed
  trim-Move o rows unique is_new other spares =
      delete-Move id o _ rows unique (λ _. other) (λ r _. spares r)
        λ r e stale.
          let known : r.delivery_id ≡ id =
            (eq_iff r.delivery_id id).0 (find_some (has_id id) rows r e) in
          let is =
            found-satisfies (has_id id) (λ s. is_failed s.status) rows r (unique id)
              (stale-failed id rows (rw (← known) stale)) e in
          trimmed r is_new refl (ground arith) refl

  claimed-Move :
      (mj : Json (List String) J) (qj : Json MessageQuote Q) (r : Row J Q) (rows : List (Row J Q))
      (d : Result PendingTextMessage)
      → IsTable rows
      → first_queued rows ≡ some r
      → Move claim id
          (find_where (has_id id) rows)
          (find_where (has_id id) (table_after rows (claimed mj qj r rows d)))
  unfolding claimed
  claimed-Move mj qj r rows (err e) unique first = kept refl refl
  claimed-Move mj qj r rows (ok p) unique first =
      update-Move id claim _ _ rows (λ s. refl) refl (λ s _. refl)
        λ s e h.
          let here : id ≡ r.delivery_id =
            sym ((eq_iff s.delivery_id id).0 (find_some (has_id id) rows s e))
            ∙ (eq_iff s.delivery_id r.delivery_id).0 h in
          let is =
            found-satisfies (has_id r.delivery_id) (λ x. is_queued x.status) rows s
              (unique r.delivery_id) (first_queued-is rows r first)
              (subst (λ k. find_where (has_id k) rows ≡ some s) here e) in
          taken s refl refl (ground arith) refl

  claim_row-Move :
      (mj : Json (List String) J) (qj : Json MessageQuote Q) (o : Option (Row J Q))
      (rows : List (Row J Q))
      → IsTable rows
      → first_queued rows ≡ o
      → Move claim id
          (find_where (has_id id) rows)
          (find_where (has_id id) (table_after rows (claim_row mj qj o rows)))
  unfolding claim_row
  claim_row-Move mj qj none rows unique first = kept refl refl
  claim_row-Move mj qj (some r) rows unique first =
      claimed-Move mj qj r rows (decode mj qj r) unique first

  -- A row that has not failed is never trimmed.
  pub find-trim_failed :
      (rows : List (Row J Q)) (r : Row J Q)
      → IsTable rows
      → find_where (has_id id) rows ≡ some r
      → is_failed r.status ≡ false
      → find_where (has_id id) (trim_failed rows) ≡ some r
  unfolding trim_failed
  find-trim_failed rows r unique e live =
      let known : r.delivery_id ≡ id =
        (eq_iff r.delivery_id id).0 (find_some (has_id id) rows r e) in
      rw (find-delete (has_id id) _ rows (unique id), e)
        (elim (Bool-cases (contains r.delivery_id (stale_ids rows))) [
          | inl stale ↦
              let gone =
                found-satisfies (has_id id) (λ s. is_failed s.status) rows r (unique id)
                  (stale-failed id rows (rw (← known) stale)) e in
              absurd (cc (sym gone ∙ live))
          | inr fresh ↦ rw fresh
        ])

pub append-IsTable :
    {J Q : Type 0} (rows : List (Row J Q)) (new : Row J Q)
    → IsTable rows
    → find_where (has_id new.delivery_id) rows ≡ none
    → IsTable (rows ++ new ∷ [])
append-IsTable rows new unique fresh id = elim (Bool-cases (new.delivery_id == id)) [
  | inl same ↦
      let known : new.delivery_id ≡ id = (eq_iff new.delivery_id id).0 same in
      let free : count_where (has_id id) rows ≡ 0 =
        count_of_not-exists (has_id id) rows
          (exists-find (has_id id) rows ∙ ap is_some (rw known at fresh)) in
      ground (arith, count-append (has_id id) rows new, free)
  | inr other ↦ ground (arith, count-append (has_id id) rows new, unique id)
]

module _ {J Q : Type 0} (mj : Json (List String) J) (qj : Json MessageQuote Q)
    (chat text message : String) (created : ℤ) (mentions : List String)
    (quote : Option MessageQuote) where
  accepted-Move :
      (id : String) (rows : List (Row J Q)) (new : Row J Q)
      → IsTable rows
      → find_where (has_id new.delivery_id) rows ≡ none
      → new.status ≡ queued
      → is_row_of (enqueue new.delivery_id chat text message created mentions quote) new ≡ true
      → Move
          (enqueue new.delivery_id chat text message created mentions quote)
          id
          (find_where (has_id id) rows)
          (find_where (has_id id) (trim_failed (rows ++ new ∷ [])))
  accepted-Move id rows new unique fresh is_new its = elim (Bool-cases (new.delivery_id == id)) [
    | inl same ↦
        let known : new.delivery_id ≡ id = (eq_iff new.delivery_id id).0 same in
        let absent : find_where (has_id id) rows ≡ none = rw known at fresh in
        accepted new its (rw absent same) absent is_new (
          find-trim_failed id (rows ++ new ∷ []) new (append-IsTable rows new unique fresh)
            (ground (arith, find-append (has_id id) rows new, exists-find (has_id id) rows))
            (ground arith))
    | inr other ↦
        let same_row : find_where (has_id id) (rows ++ new ∷ []) ≡ find_where (has_id id) rows =
          ground (arith, find-append (has_id id) rows new, exists-find (has_id id) rows) in
        rw same_row at (
          trim-Move id (enqueue new.delivery_id chat text message created mentions quote)
            (rows ++ new ∷ []) (append-IsTable rows new unique fresh) refl other (λ r. refl))
  ]

  enqueue_row-Move :
      (id : String) (new : Row J Q) (o : Option (Row J Q)) (rows : List (Row J Q))
      → IsTable rows
      → find_where (has_id new.delivery_id) rows ≡ o
      → new.status ≡ queued
      → is_row_of (enqueue new.delivery_id chat text message created mentions quote) new ≡ true
      → Move
          (enqueue new.delivery_id chat text message created mentions quote)
          id
          (find_where (has_id id) rows)
          (find_where (has_id id) (table_after rows (enqueue_row mj qj new o rows)))
  unfolding enqueue_row
  enqueue_row-Move id new none rows unique e is_new its =
      accepted-Move id rows new unique e is_new its
  enqueue_row-Move id new (some r) rows unique e is_new its =
      elim (Bool-cases (same_message mj qj r new)) [
        | inl same ↦ rw same (kept (present id new r rows e) refl)
        | inr differs ↦ rw differs (kept (present id new r rows e) refl)
      ]
    where
      present :
          (id : String) (new r : Row J Q) (rows : List (Row J Q))
          → find_where (has_id new.delivery_id) rows ≡ some r
          → acts
              (enqueue new.delivery_id chat text message created mentions quote)
              id
              (find_where (has_id id) rows)
            ≡ false
      present id new r rows e = elim (Option-cases (find_where (has_id id) rows)) [
        | inl none_there ↦ rw none_there (elim (Bool-cases (new.delivery_id == id)) [
          | inl same ↦ absurd (cc (rw ((eq_iff new.delivery_id id).0 same) at e, none_there))
          | inr other ↦ other
        ])
        | inr (s, found) ↦ rw found refl
      ]

module _ {J Q : Type 0} (mj : Json (List String) J) (qj : Json MessageQuote Q) where
  -- Each call and each restart moves the row of a delivery ID as it should, and all but a claim
  -- leave it alone only where they do not select it. An enqueue of a new ID stores it with its
  -- chat, text and message ID as queued; it deletes no other row than a failed one. A claim takes
  -- no other row than a queued one to be sent. A failure fails, and a completion deletes, exactly
  -- the row of its ID where that row is being sent. A retry queues again the failed row of its ID,
  -- a retry of all every row that is not queued, and a restart the rows that are being sent. A
  -- discard deletes the row of its ID exactly where it is not being sent. A reset of the account
  -- deletes every row. The message that a row holds never changes. No delivery ID has two rows
  -- before the call.
  pub step-Move :
      (rows : List (Row J Q)) (o : Op) (id : String)
      → IsTable rows
      → Move o id (find_where (has_id id) rows) (find_where (has_id id) (step mj qj rows o))
  unfolding step enqueue_text_message claim_text_message new_row
  step-Move rows (enqueue k chat text message created mentions quote) id unique =
      enqueue_row-Move mj qj chat text message created mentions quote id
        (new_row mj qj k chat text message created mentions quote) _ rows unique refl refl
        (ground (arith, eq_refl k, eq_refl chat, eq_refl text, eq_refl message))
  step-Move rows claim id unique = claim_row-Move id mj qj _ rows unique refl
  step-Move rows (fail k e) id unique = fail-Move id k e rows
  step-Move rows (retry k) id unique = retry-Move id k rows
  step-Move rows retry_all id unique = retry_all-Move id rows
  step-Move rows (complete k) id unique = complete-Move id k rows unique
  step-Move rows (discard k) id unique = discard-Move id k rows unique
  step-Move rows reopen id unique = recover-Move id rows
  step-Move rows clear id unique = clear-Move id rows
