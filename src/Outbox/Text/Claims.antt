-- ===== src/Outbox/Text/Claims.antt =====
-- What enqueue_text_message and claim_text_message promise, on every branch.
use omarchy_whatsapp.Prelude.{
  Bool, Bool-cases, List, Option, String, [], ap, arith, eq_iff, eq_refl, inl, inr, none, refl,
  some, true, ◌++◌, ◌↔◌, ◌∙◌, ◌∷◌, ◌≡◌,
}
use omarchy_whatsapp.Prelude.Table.Count.{count-delete-le, count-update}
use omarchy_whatsapp.Prelude.Table.{delete_where, find_where, update_where}
use omarchy_whatsapp.Prelude.Table.Lookup.{find-update, found-satisfies}
use omarchy_whatsapp.Prelude.Int.{◌≤ℤ◌}
use omarchy_whatsapp.Prelude.Json.{Json, JsonLaws}
use omarchy_whatsapp.Protocol.{MessageQuote}
use omarchy_whatsapp.Outbox.Text.{
  Op, PendingTextMessage, Result, Row, clear, clear_text_outbox, claim, claim_row,
  claim_text_message, claimed, complete, complete_text_message, decode, discard,
  discard_text_message, enqueue, enqueue_row, enqueue_text_message, err, fail, fail_text_message,
  first_queued, has_id, is_queued, mark_sending, new_row, ok, queued, recover_interrupted, reopen,
  retry, retry_all, retry_all_text_messages, retry_text_message, run, same_message, same_quote,
  sending, step, table_after, trim_failed,
}
use omarchy_whatsapp.Outbox.Text.Order.{find-first_queued, first_queued-is, first_queued-oldest}
use omarchy_whatsapp.Outbox.Text.Moves.{IsTable}
use omarchy_whatsapp.Outbox.Text.Lifecycle.{append-IsTable}

-- A statement that keeps the delivery IDs, or deletes rows, keeps the key unique.
module _ {J Q : Type 0} where
  pub update-IsTable :
      (p : Row J Q → Bool) (f : Row J Q → Row J Q) (rows : List (Row J Q))
      → ((id : String) (r : Row J Q) → has_id id (f r) ≡ has_id id r)
      → IsTable rows
      → IsTable (update_where p f rows)
  update-IsTable p f rows keeps unique id =
      omega (arith, count-update (has_id id) p f rows (keeps id), unique id)

  pub delete-IsTable :
      (p : Row J Q → Bool) (rows : List (Row J Q)) → IsTable rows → IsTable (delete_where p rows)
  delete-IsTable p rows unique id = omega (arith, count-delete-le (has_id id) p rows, unique id)

module _ {J Q : Type 0} (mj : Json (List String) J) (qj : Json MessageQuote Q) where
  enqueue_row-IsTable :
      (new : Row J Q) (o : Option (Row J Q)) (rows : List (Row J Q))
      → IsTable rows
      → find_where (has_id new.delivery_id) rows ≡ o
      → IsTable (table_after rows (enqueue_row mj qj new o rows))
  unfolding enqueue_row trim_failed
  enqueue_row-IsTable new none rows unique e =
      delete-IsTable _ (rows ++ new ∷ []) (append-IsTable rows new unique e)
  enqueue_row-IsTable new (some r) rows unique e = elim (Bool-cases (same_message mj qj r new)) [
    | inl same ↦ rw same unique
    | inr differs ↦ rw differs unique
  ]

  claim_row-IsTable :
      (o : Option (Row J Q)) (rows : List (Row J Q))
      → IsTable rows
      → IsTable (table_after rows (claim_row mj qj o rows))
  unfolding claim_row
  claim_row-IsTable none rows unique = unique
  claim_row-IsTable (some r) rows unique = go (decode mj qj r)
    where
      go : (d : Result PendingTextMessage) → IsTable (table_after rows (claimed mj qj r rows d))
      go (err e) = unique
      go (ok p) = update-IsTable _ _ rows (λ id s. refl) unique

  pub step-IsTable : (rows : List (Row J Q)) (o : Op) → IsTable rows → IsTable (step mj qj rows o)
  unfolding step enqueue_text_message claim_text_message fail_text_message retry_text_message
      retry_all_text_messages complete_text_message discard_text_message recover_interrupted
      clear_text_outbox new_row
  step-IsTable rows (enqueue k chat text message created mentions quote) u =
      enqueue_row-IsTable (new_row mj qj k chat text message created mentions quote) _ rows u refl
  step-IsTable rows claim u = claim_row-IsTable _ rows u
  step-IsTable rows (fail k e) u = update-IsTable _ _ rows (λ id s. refl) u
  step-IsTable rows (retry k) u = update-IsTable _ _ rows (λ id s. refl) u
  step-IsTable rows retry_all u = update-IsTable _ _ rows (λ id s. refl) u
  step-IsTable rows (complete k) u = delete-IsTable _ rows u
  step-IsTable rows (discard k) u = delete-IsTable _ rows u
  step-IsTable rows reopen u = update-IsTable _ _ rows (λ id s. refl) u
  step-IsTable rows clear u = λ id. omega arith

  -- The primary key holds after any calls and restarts.
  pub run-IsTable :
      (rows : List (Row J Q)) (os : List Op) → IsTable rows → IsTable (run mj qj rows os)
  unfolding run
  run-IsTable rows [] u = u
  run-IsTable rows (o ∷ os) u = run-IsTable (step mj qj rows o) os (step-IsTable rows o u)

-- A claimed message.
pub record Claims {J Q : Type 0} (mj : Json (List String) J) (qj : Json MessageQuote Q)
    (rows rows' : List (Row J Q)) (p : PendingTextMessage) (r : Row J Q) : Type 0 where
  pub in_table : find_where (has_id p.delivery_id) rows ≡ some r
  pub was_queued : r.status ≡ queued
  pub decoded : decode mj qj r ≡ ok p
  pub taken :
      find_where (has_id p.delivery_id) rows' ≡ some (record r { status = sending; error = none })
  pub oldest :
      (id : String) (s : Row J Q)
      → find_where (has_id id) rows ≡ some s
      → s.status ≡ queued
      → r.created_at ≤ℤ s.created_at

module _ {J Q : Type 0} (mj : Json (List String) J) (qj : Json MessageQuote Q) where
  decode-delivery_id :
      (r : Row J Q) (p : PendingTextMessage) → decode mj qj r ≡ ok p → p.delivery_id ≡ r.delivery_id
  unfolding decode
  decode-delivery_id r p h = ground arith

  claimed-Claims :
      (rows rows' : List (Row J Q)) (r : Row J Q) (p : PendingTextMessage)
      (d : Result PendingTextMessage)
      → IsTable rows
      → first_queued rows ≡ some r
      → decode mj qj r ≡ d
      → claimed mj qj r rows d ≡ ok (rows', some p)
      → Claims mj qj rows rows' p r
  unfolding claimed
  claimed-Claims rows rows' r p (err e) unique first is h = cc
  claimed-Claims rows rows' r p (ok q) unique first is h =
      let same : q ≡ p = ground arith in
      let table : mark_sending r rows ≡ rows' = ground arith in
      let decoded' : decode mj qj r ≡ ok p = is ∙ ap ok same in
      let key : p.delivery_id ≡ r.delivery_id = decode-delivery_id r p decoded' in
      let here = find-first_queued rows r (unique r.delivery_id) first in
      let waits =
        found-satisfies (has_id r.delivery_id) (λ x. is_queued x.status) rows r
          (unique r.delivery_id) (first_queued-is rows r first) here in
      record {
        in_table = rw key here;
        was_queued = ground arith;
        decoded = decoded';
        taken =
            rw (key, ← table)
              (find-update (has_id r.delivery_id) _ _ rows (λ s. refl)
                ∙ rw (here, eq_refl r.delivery_id));
        oldest = λ id s f e. first_queued-oldest rows r s id first f (rw e);
      }

  claim_row-Claims :
      (rows rows' : List (Row J Q)) (o : Option (Row J Q)) (p : PendingTextMessage)
      → IsTable rows
      → first_queued rows ≡ o
      → claim_row mj qj o rows ≡ ok (rows', some p)
      → (r : Row J Q) × Claims mj qj rows rows' p r
  unfolding claim_row
  claim_row-Claims rows rows' none p unique first h = cc
  claim_row-Claims rows rows' (some r) p unique first h =
      (r, claimed-Claims rows rows' r p (decode mj qj r) unique first refl h)

  -- A claim that hands out a message took it from a queued row of the table, no queued row is older
  -- than that one, what it hands out is the decoded row, and the row is being sent afterwards.
  pub claim_oldest :
      (rows rows' : List (Row J Q)) (p : PendingTextMessage)
      → IsTable rows
      → claim_text_message mj qj rows ≡ ok (rows', some p)
      → (r : Row J Q) × Claims mj qj rows rows' p r
  unfolding claim_text_message
  claim_oldest rows rows' p unique h = claim_row-Claims rows rows' _ p unique refl h

  same_quote_iff : JsonLaws qj → (a b : Option Q) → (same_quote mj qj a b ≡ true) ↔ (a ≡ b)
  unfolding same_quote
  same_quote_iff ql none none = (λ h. refl, λ h. refl)
  same_quote_iff ql none (some t) = (λ h. cc, λ h. cc)
  same_quote_iff ql (some s) none = (λ h. cc, λ h. cc)
  same_quote_iff ql (some s) (some t) =
      (λ h. ap some ((ql.same_iff s t).0 h), λ h. (ql.same_iff s t).1 (ground arith))

  -- Equality of the five columns that an accepted delivery ID is bound to.
  abbrev pub SameMessage : Row J Q → Row J Q → Type 0
  SameMessage r s =
      (r.chat_jid ≡ s.chat_jid)
      × (r.text ≡ s.text)
      × (r.message_id ≡ s.message_id)
      × (r.mentions ≡ s.mentions)
      × (r.quote_json ≡ s.quote_json)

  pub same_message_iff :
      JsonLaws mj
      → JsonLaws qj
      → (r s : Row J Q) → (same_message mj qj r s ≡ true) ↔ SameMessage r s
  unfolding same_quote
  same_message_iff ml ql r s = (
    λ h. (
      (eq_iff r.chat_jid s.chat_jid).0 (ground arith),
      (eq_iff r.text s.text).0 (ground arith),
      (eq_iff r.message_id s.message_id).0 (ground arith),
      (ml.same_iff r.mentions s.mentions).0 (ground arith),
      (same_quote_iff ql r.quote_json s.quote_json).0 (ground arith),
    ),
    λ h. ground (
      arith,
      eq_iff r.chat_jid s.chat_jid,
      eq_iff r.text s.text,
      eq_iff r.message_id s.message_id,
      ml.same_iff r.mentions s.mentions,
      same_quote_iff ql r.quote_json s.quote_json,
    ),
  )
