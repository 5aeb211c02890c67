-- ===== src/Outbox/Delivery.antt =====
-- The loop that sends what is queued (deliver_pending_text and run_text_outbox in crates/daemon/src/outbox.rs).
-- `W` is the rest of the daemon: the network client and the history. What send_claimed_text does to it, and
-- whether there is a client, are arguments: it does not touch the table of the outbox. The gate of the
-- table is free during a send, and between two rounds: what others do to the table then is an argument, too.
pub mod Drain
pub mod Examples
use omarchy_whatsapp.Prelude.{
  Bool, List, Option, String, [], false, if◌then◌else◌, none, some, suc, true, zero, ℕ, ◌++◌, ◌∷◌,
}
use omarchy_whatsapp.Prelude.Json.{Json}
use omarchy_whatsapp.Protocol.{Message, MessageQuote}
use omarchy_whatsapp.Outbox.Text.{
  Error, Op, PendingTextMessage, Result, Row, claim_text_message, complete_text_message, err,
  fail_text_message, ok, run,
}

-- What a delivery publishes. A snapshot of the outbox is the table at that moment.
pub data Event (J Q : Type 0) : Type 0 where
  text_outbox : List (Row J Q) → Event J Q
  sent : Message → Event J Q
  delivered : String → Event J Q
  failed_with : String → String → Event J Q
  chats_changed : Event J Q

-- The result of send_claimed_text: the message that was sent and stored, or the text of the error.
pub data Answer : Type 0 where
  message_sent : Message → Answer
  refused : String → Answer

-- deliver_pending_text: Ok(true), Ok(false), or an error of the claim.
pub data Delivered : Type 0 where
  one none_pending : Delivered
  claim_failed : Error → Delivered

-- How a drain of the queue ends; `out_of_rounds` is that of the fuel.
pub data Drained : Type 0 where
  no_client empty out_of_rounds : Drained
  stopped : Error → Drained

pub record World (J Q W : Type 0) : Type 0 where
  pub rows : List (Row J Q)
  pub rest : W
  pub published : List (Event J Q)

-- The calls of others on the table before a claim, and during the send of the message that it gives.
pub record Others : Type 0 where
  pub before_claim : List Op
  pub during_send : List Op

-- Those of the next round, and of the later ones; when there are no more, nothing happens.
abbrev pub others_now : List Others → Others
others_now [] = record { before_claim = []; during_send = [] }
others_now (o ∷ os) = o

abbrev pub others_later : List Others → List Others
others_later [] = []
others_later (o ∷ os) = os

module _ {J Q W : Type 0} (mj : Json (List String) J) (qj : Json MessageQuote Q)
    (send_claimed_text : PendingTextMessage → W → W × Answer) where
  -- What follows the send.
  answered : PendingTextMessage → List (Row J Q) → List (Event J Q) → W × Answer → World J Q W
  answered p rows log (rest, message_sent message) =
      let rows' = (complete_text_message p.delivery_id rows).0 in
      record {
        rows = rows';
        rest = rest;
        published =
            log ++ sent message ∷ delivered p.delivery_id ∷ text_outbox rows' ∷ chats_changed ∷ [];
      }
  answered p rows log (rest, refused detail) =
      let rows' = (fail_text_message p.delivery_id detail rows).0 in
      record {
        rows = rows';
        rest = rest;
        published = log ++ failed_with p.delivery_id detail ∷ text_outbox rows' ∷ [];
      }

  after_claim :
      List Op
      → World J Q W
      → Result (List (Row J Q) × Option PendingTextMessage)
      → World J Q W × Delivered
  unfolding answered
  after_claim during_send w (err e) = (w, claim_failed e)
  after_claim during_send w (ok (rows, none)) = (record w { rows = rows }, none_pending)
  after_claim during_send w (ok (rows, some p)) = (
    answered p (run mj qj rows during_send) (w.published ++ text_outbox rows ∷ [])
        (send_claimed_text p w.rest),
    one,
  )

  unfoldable pub deliver_pending_text : List Op → World J Q W → World J Q W × Delivered
  unfolding after_claim
  deliver_pending_text during_send w = after_claim during_send w (claim_text_message mj qj w.rows)

  -- The inner loop of run_text_outbox, from one notification to the next wait.
  unfoldable pub drain : (W → Bool) → ℕ → List Others → World J Q W → World J Q W × Drained
  unfolding deliver_pending_text
  drain has_client zero others w = (w, out_of_rounds)
  drain has_client (suc fuel) others w =
      let now = record w { rows = run mj qj w.rows (others_now others).before_claim } in
      let next = deliver_pending_text (others_now others).during_send now in
      elim (has_client w.rest) [
        | false ↦ (now, no_client)
        | true ↦ elim (next.1) [
          | one ↦ drain has_client fuel (others_later others) next.0
          | none_pending ↦ (next.0, empty)
          | claim_failed e ↦ (next.0, stopped e)
        ]
      ]
