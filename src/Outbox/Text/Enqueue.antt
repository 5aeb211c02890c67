-- ===== src/Outbox/Text/Enqueue.antt =====
-- What enqueue_text_message promises, and that stored rows always decode.
use omarchy_whatsapp.Prelude.{
  Bool, Bool-cases, List, Option, String, [], arith, eq_refl, false, inl, inr, none, refl, some,
  true, ◌++◌, ◌↔◌, ◌∙◌, ◌∷◌, ◌≡◌, ◌≤◌,
}
use omarchy_whatsapp.Prelude.Table.{All, count_where, exists_where, find_where, update_where}
use omarchy_whatsapp.Prelude.Table.Every.{All-append, All-delete, All-update, find-All}
use omarchy_whatsapp.Prelude.Table.Lookup.{exists-find, find-append, found-satisfies}
use omarchy_whatsapp.Prelude.Int.{ℤ}
use omarchy_whatsapp.Prelude.Json.{Json, JsonLaws}
use omarchy_whatsapp.Protocol.{MessageQuote}
use omarchy_whatsapp.Outbox.Text.{
  clear, clear_text_outbox, Op, PendingTextMessage, Result, Row, already_assigned, claim, claim_row,
  claim_text_message, claimed, complete, complete_text_message, decode, discard,
  discard_text_message, enqueue, enqueue_row, enqueue_text_message, err, fail, fail_text_message,
  failed_kept, first_queued, has_id, is_failed, is_queued, mark_sending, new_row, ok, pending,
  print_quote, queued, recover_interrupted, reopen, retry, retry_all, retry_all_text_messages,
  retry_text_message, run, same_message, step, table_after, trim_failed,
}
use omarchy_whatsapp.Outbox.Text.Order.{
  count-trim_failed, find-first_queued, find-queued, first_queued-is, first_queued-none,
}
use omarchy_whatsapp.Outbox.Text.Moves.{IsTable}
use omarchy_whatsapp.Outbox.Text.Lifecycle.{append-IsTable, find-trim_failed}
use omarchy_whatsapp.Outbox.Text.Claims.{SameMessage, run-IsTable, same_message_iff}

module _ {J Q : Type 0} (mj : Json (List String) J) (qj : Json MessageQuote Q) where
  -- The outcomes of an enqueue, by the row that its delivery ID looks up.
  pub data Outcome (new : Row J Q) (rows : List (Row J Q)) (result : Result (List (Row J Q) × Bool))
      : Type 0 where
    repeated :
        (r : Row J Q)
        → find_where (has_id new.delivery_id) rows ≡ some r
        → SameMessage mj qj r new
        → result ≡ ok (rows, false)
        → Outcome new rows result
    refused :
        (r : Row J Q)
        → find_where (has_id new.delivery_id) rows ≡ some r
        → ¬ SameMessage mj qj r new
        → result ≡ err already_assigned
        → Outcome new rows result
    stored :
        (rows' : List (Row J Q))
        → find_where (has_id new.delivery_id) rows ≡ none
        → result ≡ ok (rows', true)
        → find_where (has_id new.delivery_id) rows' ≡ some new
        → count_where (λ r. is_failed r.status) rows' ≤ failed_kept
        → Outcome new rows result

  enqueue_row-Outcome :
      JsonLaws mj
      → JsonLaws qj
      → (new : Row J Q) (o : Option (Row J Q)) (rows : List (Row J Q)) → IsTable rows
      → new.status ≡ queued
      → find_where (has_id new.delivery_id) rows ≡ o
      → Outcome new rows (enqueue_row mj qj new o rows)
  unfolding enqueue_row
  enqueue_row-Outcome ml ql new none rows unique is_new e =
      stored (trim_failed (rows ++ new ∷ [])) e refl
        (find-trim_failed new.delivery_id (rows ++ new ∷ []) new (append-IsTable rows new unique e)
          (ground (
            arith,
            find-append (has_id new.delivery_id) rows new,
            exists-find (has_id new.delivery_id) rows,
            eq_refl new.delivery_id,
          ))
          (ground arith))
        (count-trim_failed (rows ++ new ∷ []))
  enqueue_row-Outcome ml ql new (some r) rows unique is_new e =
      elim (Bool-cases (same_message mj qj r new)) [
        | inl same ↦ repeated r e ((same_message_iff mj qj ml ql r new).0 same) (rw same)
        | inr differs ↦
            refused r e (λ s. cc ((same_message_iff mj qj ml ql r new).1 s, differs)) (rw differs)
      ]

  -- On every branch an enqueue does what its outcome says: the same message under the same ID is left
  -- alone, another message is refused, and a new ID is stored as queued while 32 failed rows stay at
  -- most.
  pub enqueue-Outcome :
      JsonLaws mj
      → JsonLaws qj
      → (delivery_id chat_jid text message_id : String) (created_at : ℤ) (mentions : List String)
        (quote : Option MessageQuote) (rows : List (Row J Q))
      → IsTable rows
      → Outcome
          (new_row mj qj delivery_id chat_jid text message_id created_at mentions quote)
          rows
          (enqueue_text_message mj qj delivery_id chat_jid text message_id created_at mentions quote
            rows)
  unfolding enqueue_text_message new_row
  enqueue-Outcome ml ql id chat text message created mentions quote rows unique =
      enqueue_row-Outcome ml ql (new_row mj qj id chat text message created mentions quote) _ rows
        unique refl refl

  -- Every row of the table decodes.
  abbrev pub Decodes : Row J Q → Type 0
  Decodes r = (p : PendingTextMessage) × (decode mj qj r ≡ ok p)

  new_row-Decodes :
      JsonLaws mj
      → JsonLaws qj
      → (delivery_id chat_jid text message_id : String) (created_at : ℤ) (mentions : List String)
        (quote : Option MessageQuote)
      → Decodes (new_row mj qj delivery_id chat_jid text message_id created_at mentions quote)
  unfolding new_row decode print_quote
  new_row-Decodes ml ql id chat text message created mentions none = (
    record {
      quote = none;
      mentions = mentions;
      delivery_id = id;
      chat_jid = chat;
      text = text;
      message_id = message;
    },
    rw (ml.round_trip mentions, pending),
  )
  new_row-Decodes ml ql id chat text message created mentions (some q) = (
    record {
      quote = some q;
      mentions = mentions;
      delivery_id = id;
      chat_jid = chat;
      text = text;
      message_id = message;
    },
    rw (ql.round_trip q, ml.round_trip mentions, pending),
  )

  -- A statement that leaves the message columns alone keeps a row decodable.
  update-Decodes :
      (p : Row J Q → Bool) (f : Row J Q → Row J Q) (rows : List (Row J Q))
      → ((r : Row J Q) → decode mj qj (f r) ≡ decode mj qj r)
      → All Decodes rows
      → All Decodes (update_where p f rows)
  update-Decodes p f rows same d = All-update Decodes p f rows (λ r h. (h.0, same r ∙ h.1)) d

  enqueue_row-Decodes :
      (new : Row J Q) (o : Option (Row J Q)) (rows : List (Row J Q))
      → Decodes new
      → All Decodes rows
      → All Decodes (table_after rows (enqueue_row mj qj new o rows))
  unfolding enqueue_row trim_failed
  enqueue_row-Decodes new none rows n d =
      All-delete Decodes _ (rows ++ new ∷ []) (All-append Decodes rows new d n)
  enqueue_row-Decodes new (some r) rows n d = elim (Bool-cases (same_message mj qj r new)) [
    | inl same ↦ rw same d
    | inr differs ↦ rw differs d
  ]

  claim_row-Decodes :
      (o : Option (Row J Q)) (rows : List (Row J Q))
      → All Decodes rows
      → All Decodes (table_after rows (claim_row mj qj o rows))
  unfolding claim_row decode
  claim_row-Decodes none rows d = d
  claim_row-Decodes (some r) rows d = go (decode mj qj r)
    where
      go : (x : Result PendingTextMessage) → All Decodes (table_after rows (claimed mj qj r rows x))
      go (err e) = d
      go (ok p) = update-Decodes _ _ rows (λ s. refl) d

  step-Decodes :
      JsonLaws mj
      → JsonLaws qj
      → (rows : List (Row J Q)) (o : Op) → All Decodes rows
      → All Decodes (step mj qj rows o)
  unfolding step enqueue_text_message claim_text_message fail_text_message retry_text_message
      retry_all_text_messages complete_text_message discard_text_message recover_interrupted
      clear_text_outbox decode
  step-Decodes ml ql rows (enqueue k chat text message created mentions quote) d =
      enqueue_row-Decodes (new_row mj qj k chat text message created mentions quote) _ rows
        (new_row-Decodes ml ql k chat text message created mentions quote) d
  step-Decodes ml ql rows claim d = claim_row-Decodes _ rows d
  step-Decodes ml ql rows (fail k e) d = update-Decodes _ _ rows (λ r. refl) d
  step-Decodes ml ql rows (retry k) d = update-Decodes _ _ rows (λ r. refl) d
  step-Decodes ml ql rows retry_all d = update-Decodes _ _ rows (λ r. refl) d
  step-Decodes ml ql rows (complete k) d = All-delete Decodes _ rows d
  step-Decodes ml ql rows (discard k) d = All-delete Decodes _ rows d
  step-Decodes ml ql rows reopen d = update-Decodes _ _ rows (λ r. refl) d
  step-Decodes ml ql rows clear d = tt

  pub run-Decodes :
      JsonLaws mj
      → JsonLaws qj
      → (rows : List (Row J Q)) (os : List Op) → All Decodes rows
      → All Decodes (run mj qj rows os)
  unfolding run
  run-Decodes ml ql rows [] d = d
  run-Decodes ml ql rows (o ∷ os) d =
      run-Decodes ml ql (step mj qj rows o) os (step-Decodes ml ql rows o d)

  claim_row_total :
      (o : Option (Row J Q)) (rows : List (Row J Q))
      → IsTable rows
      → first_queued rows ≡ o
      → All Decodes rows
      → (rows' : List (Row J Q)) × (p : Option PendingTextMessage) × (claim_row mj qj o rows
          ≡ ok (rows', p))
        × ((p ≡ none) ↔ (exists_where (λ r. is_queued r.status) rows ≡ false))
  unfolding claim_row
  claim_row_total none rows unique first d =
      (rows, none, refl, (λ _. first_queued-none rows first, λ _. refl))
  claim_row_total (some r) rows unique first d =
      let here = find-first_queued rows r (unique r.delivery_id) first in
      let (p, is) = find-All Decodes (has_id r.delivery_id) rows r d here in
      (
        mark_sending r rows,
        some p,
        rw (is, claimed),
        (
          λ e. cc,
          λ e.
              let waits =
                found-satisfies (has_id r.delivery_id) (λ x. is_queued x.status) rows r
                  (unique r.delivery_id) (first_queued-is rows r first) here in
              cc (find-queued rows r r.delivery_id here waits, e),
        ),
      )

  -- After any calls and restarts from an empty outbox a claim succeeds, and it hands out nothing
  -- exactly when no row is queued.
  pub claim_total :
      JsonLaws mj
      → JsonLaws qj
      → (os : List Op)
      → let rows = run mj qj [] os in
        (rows' : List (Row J Q)) × (p : Option PendingTextMessage) × (claim_text_message mj qj rows
          ≡ ok (rows', p))
        × ((p ≡ none) ↔ (exists_where (λ r. is_queued r.status) rows ≡ false))
  unfolding claim_text_message
  claim_total ml ql os =
      claim_row_total _ (run mj qj [] os) (run-IsTable mj qj [] os (λ id. omega arith)) refl
        (run-Decodes ml ql [] os tt)
