-- ===== src/Outbox/Text/Moves.antt =====
-- What one call does to the row of one delivery ID, for the calls that are one statement on text_outbox.
use omarchy_whatsapp.Prelude.{
  Bool, Bool-cases, List, Option, Option-cases, ◌&&◌, ◌||◌, String, arith, false, inl, inr, none,
  refl, some, true, ◌==◌, ◌≡◌, ◌≤◌,
}
use omarchy_whatsapp.Prelude.Table.{
  count_where, delete_where, find_where, keep_unless, map_if, update_where,
}
use omarchy_whatsapp.Prelude.Table.Lookup.{find-delete, find-update}
use omarchy_whatsapp.Outbox.Text.{
  clear, clear_text_outbox, Op, Row, claim, complete, complete_text_message, discard,
  discard_text_message, enqueue, fail, fail_text_message, failed, has_id, is_failed, is_queued,
  is_sending, queued, recover_interrupted, reopen, requeue, retry, retry_all,
  retry_all_text_messages, retry_text_message, sending, step,
}

-- Whether the call must change the row of the delivery ID: the columns it selects by, and for an
-- enqueue that the ID is new.
abbrev pub acts : {J Q : Type 0} → Op → String → Option (Row J Q) → Bool
acts (enqueue k _ _ _ _ _ _) id none = k == id
acts (enqueue k _ _ _ _ _ _) id (some r) = false
acts claim id before = false
acts (fail k e) id none = false
acts (fail k e) id (some r) = r.delivery_id == k && is_sending r.status
acts (retry k) id none = false
acts (retry k) id (some r) = r.delivery_id == k && is_failed r.status
acts retry_all id none = false
acts retry_all id (some r) = is_sending r.status || is_failed r.status
acts (complete k) id none = false
acts (complete k) id (some r) = r.delivery_id == k && is_sending r.status
acts (discard k) id none = false
acts (discard k) id (some r) = r.delivery_id == k && (is_queued r.status || is_failed r.status)
acts reopen id none = false
acts reopen id (some r) = is_sending r.status
acts clear id none = false
acts clear id (some r) = true

abbrev pub is_enqueue : Op → Bool
is_enqueue (enqueue _ _ _ _ _ _ _) = true
is_enqueue _ = false

-- The row is that of the message that the call enqueues.
abbrev pub is_row_of : {J Q : Type 0} → Op → Row J Q → Bool
is_row_of (enqueue k chat text message _ _ _) r =
    r.delivery_id == k && (r.chat_jid == chat && (r.text == text && r.message_id == message))
is_row_of _ r = false

-- What becomes of the row of one delivery ID in one call.
pub data Move {J Q : Type 0} (o : Op) (id : String) (before after : Option (Row J Q)) : Type 0 where
  kept : acts o id before ≡ false → after ≡ before → Move o id before after
  accepted :
      (r : Row J Q)
      → is_row_of o r ≡ true
      → acts o id before ≡ true
      → before ≡ none
      → r.status ≡ queued
      → after ≡ some r
      → Move o id before after
  trimmed :
      (r : Row J Q)
      → is_enqueue o ≡ true
      → before ≡ some r
      → r.status ≡ failed
      → after ≡ none
      → Move o id before after
  taken :
      (r : Row J Q)
      → o ≡ claim
      → before ≡ some r
      → r.status ≡ queued
      → after ≡ some (record r { status = sending; error = none })
      → Move o id before after
  gave_up :
      (r : Row J Q) (k e : String)
      → o ≡ fail k e
      → before ≡ some r
      → (r.delivery_id == k) ≡ true
      → r.status ≡ sending
      → after ≡ some (record r { status = failed; error = some e })
      → Move o id before after
  retried :
      (r : Row J Q) (k : String)
      → o ≡ retry k
      → before ≡ some r
      → (r.delivery_id == k) ≡ true
      → r.status ≡ failed
      → after ≡ some (requeue r)
      → Move o id before after
  retried_all :
      (r : Row J Q)
      → o ≡ retry_all
      → before ≡ some r
      → is_queued r.status ≡ false
      → after ≡ some (requeue r)
      → Move o id before after
  recovered :
      (r : Row J Q)
      → o ≡ reopen
      → before ≡ some r
      → r.status ≡ sending
      → after ≡ some (requeue r)
      → Move o id before after
  delivered :
      (r : Row J Q) (k : String)
      → o ≡ complete k
      → before ≡ some r
      → (r.delivery_id == k) ≡ true
      → r.status ≡ sending
      → after ≡ none
      → Move o id before after
  discarded :
      (r : Row J Q) (k : String)
      → o ≡ discard k
      → before ≡ some r
      → (r.delivery_id == k) ≡ true
      → is_sending r.status ≡ false
      → after ≡ none
      → Move o id before after
  cleared : (r : Row J Q) → o ≡ clear → before ≡ some r → after ≡ none → Move o id before after

-- The primary key: no delivery ID has two rows.
abbrev pub IsTable : {J Q : Type 0} → List (Row J Q) → Type 0
IsTable rows = (id : String) → count_where (has_id id) rows ≤ 1

module _ {J Q : Type 0} (id : String) where
  pub update-Move :
      (o : Op) (p : Row J Q → Bool) (f : Row J Q → Row J Q) (rows : List (Row J Q))
      → ((r : Row J Q) → has_id id (f r) ≡ has_id id r)
      → acts {J = J} {Q = Q} o id none ≡ false
      → ((r : Row J Q) → p r ≡ false → acts o id (some r) ≡ false)
      → ((r : Row J Q)
          → find_where (has_id id) rows ≡ some r
          → p r ≡ true
          → Move o id (some r) (some (f r)))
      → Move o id (find_where (has_id id) rows) (find_where (has_id id) (update_where p f rows))
  update-Move o p f rows keeps absent misses step =
      rw (find-update (has_id id) p f rows keeps) (go (find_where (has_id id) rows) refl)
    where
      go :
          (row : Option (Row J Q))
          → find_where (has_id id) rows ≡ row
          → Move o id row (map_if p f row)
      go none e = kept absent refl
      go (some r) e = elim (Bool-cases (p r)) [
        | inl hit ↦ rw hit (step r e hit)
        | inr miss ↦ rw miss (kept (misses r miss) refl)
      ]

  pub delete-Move :
      (o : Op) (p : Row J Q → Bool) (rows : List (Row J Q))
      → IsTable rows
      → (find_where (has_id id) rows ≡ none → acts {J = J} {Q = Q} o id none ≡ false)
      → ((r : Row J Q) → p r ≡ false → acts o id (some r) ≡ false)
      → ((r : Row J Q)
          → find_where (has_id id) rows ≡ some r
          → p r ≡ true
          → Move o id (some r) none)
      → Move o id (find_where (has_id id) rows) (find_where (has_id id) (delete_where p rows))
  delete-Move o p rows unique absent misses step =
      rw (find-delete (has_id id) p rows (unique id)) (go (find_where (has_id id) rows) refl)
    where
      go :
          (row : Option (Row J Q))
          → find_where (has_id id) rows ≡ row
          → Move o id row (keep_unless p row)
      go none e = kept (absent e) refl
      go (some r) e = elim (Bool-cases (p r)) [
        | inl hit ↦ rw hit (step r e hit)
        | inr miss ↦ rw miss (kept (misses r miss) refl)
      ]

  pub fail-Move :
      (k e : String) (rows : List (Row J Q))
      → Move
          (fail k e)
          id
          (find_where (has_id id) rows)
          (find_where (has_id id) (fail_text_message k e rows).0)
  unfolding fail_text_message
  fail-Move k e rows =
      update-Move (fail k e) _ _ rows (λ r. refl) refl (λ r h. h)
        (λ r _ h. gave_up r k e refl refl (ground arith) (ground arith) refl)

  pub retry-Move :
      (k : String) (rows : List (Row J Q))
      → Move
          (retry k)
          id
          (find_where (has_id id) rows)
          (find_where (has_id id) (retry_text_message k rows).0)
  unfolding retry_text_message
  retry-Move k rows =
      update-Move (retry k) _ _ rows (λ r. refl) refl (λ r h. h)
        (λ r _ h. retried r k refl refl (ground arith) (ground arith) refl)

  pub retry_all-Move :
      (rows : List (Row J Q))
      → Move retry_all id
          (find_where (has_id id) rows)
          (find_where (has_id id) (retry_all_text_messages rows).0)
  unfolding retry_all_text_messages
  retry_all-Move rows =
      update-Move retry_all _ _ rows (λ r. refl) refl (λ r h. h)
        (λ r _ h. retried_all r refl refl (ground arith) refl)

  pub recover-Move :
      (rows : List (Row J Q))
      → Move reopen id
          (find_where (has_id id) rows)
          (find_where (has_id id) (recover_interrupted rows))
  unfolding recover_interrupted
  recover-Move rows =
      update-Move reopen _ _ rows (λ r. refl) refl (λ r h. h)
        (λ r _ h. recovered r refl refl (ground arith) refl)

  pub complete-Move :
      (k : String) (rows : List (Row J Q))
      → IsTable rows
      → Move
          (complete k)
          id
          (find_where (has_id id) rows)
          (find_where (has_id id) (complete_text_message k rows).0)
  unfolding complete_text_message
  complete-Move k rows unique =
      delete-Move (complete k) _ rows unique (λ _. refl) (λ r h. h)
        (λ r _ h. delivered r k refl refl (ground arith) (ground arith) refl)

  pub discard-Move :
      (k : String) (rows : List (Row J Q))
      → IsTable rows
      → Move
          (discard k)
          id
          (find_where (has_id id) rows)
          (find_where (has_id id) (discard_text_message k rows).0)
  unfolding discard_text_message
  discard-Move k rows unique =
      delete-Move (discard k) _ rows unique (λ _. refl) (λ r h. h)
        (λ r _ h. discarded r k refl refl (ground arith) (ground arith) refl)

  pub clear-Move :
      (rows : List (Row J Q))
      → Move clear id
          (find_where (has_id id) rows)
          (find_where (has_id id) (clear_text_outbox rows))
  unfolding clear_text_outbox
  clear-Move rows = elim (Option-cases (find_where (has_id id) rows)) [
    | inl none_there ↦ rw none_there (kept refl refl)
    | inr (r, found) ↦ rw found (cleared r refl refl refl)
  ]
