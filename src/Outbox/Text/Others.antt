-- ===== src/Outbox/Text/Others.antt =====
-- What the calls of other clients do to the numbers of rows that wait and that are being sent.
use mathlib.Core.Path.{subst}
use omarchy_whatsapp.Prelude.{
  sym, Bool, Bool-cases, List, Option, String, [], arith, false, inl, inr, none, not, refl, some,
  true, ℕ, ◌&&◌, ◌+◌, ◌++◌, ◌∷◌, ◌≡◌, ◌≤◌,
}
use omarchy_whatsapp.Prelude.Json.{Json}
use omarchy_whatsapp.Prelude.Table.{All, count_where, update_where}
use omarchy_whatsapp.Prelude.Table.Count.{count-append, count-delete-le}
use omarchy_whatsapp.Protocol.{MessageQuote}
use omarchy_whatsapp.Outbox.Text.{
  Op, Row, claim, clear, clear_text_outbox, complete, complete_text_message, discard,
  discard_text_message, enqueue, enqueue_row, enqueue_text_message, fail, fail_text_message, has_id,
  id_failed, is_queued, mark_sending, new_row, reopen, requeue, retry, retry_all,
  retry_text_message, run, same_message, step, table_after, trim_failed,
}
use omarchy_whatsapp.Outbox.Text.Moves.{IsTable}
use omarchy_whatsapp.Outbox.Text.Claims.{delete-IsTable, step-IsTable, update-IsTable}
use omarchy_whatsapp.Outbox.Text.Queue.{in_flight, waits}

-- The calls that a client makes, and the reset of the account.
abbrev pub is_of_client : Op → Bool
is_of_client (enqueue _ _ _ _ _ _ _) = true
is_of_client claim = false
is_of_client retry_all = false
is_of_client reopen = false
is_of_client clear = true
is_of_client (fail _ _) = false
is_of_client (retry _) = true
is_of_client (complete _) = false
is_of_client (discard _) = true

-- How many rows a call can add to those that wait.
abbrev pub arrivals : Op → ℕ
arrivals (enqueue _ _ _ _ _ _ _) = 1
arrivals (retry _) = 1
arrivals _ = 0

abbrev pub all_arrivals : List Op → ℕ
all_arrivals [] = 0
all_arrivals (o ∷ os) = arrivals o + all_arrivals os

abbrev pub AllOfClient : List Op → Type 0
AllOfClient = All (λ o. is_of_client o ≡ true)

module _ {J Q : Type 0} where
  -- A row of another ID that is being sent.
  abbrev pub other_in_flight : String → Row J Q → Bool
  other_in_flight id r = in_flight r && not (has_id id r)

  requeue-waits :
      (k : String) (rows : List (Row J Q))
      → count_where waits (update_where (id_failed k) requeue rows)
        ≤ count_where waits rows + count_where (has_id k) rows
  requeue-waits k [] = omega arith
  requeue-waits k (r ∷ rs) = ground (arith, requeue-waits k rs)

  requeue-flight :
      (p : Row J Q → Bool) (k : String) (rows : List (Row J Q))
      → ((r : Row J Q) → p (requeue r) ≡ false)
      → count_where p (update_where (id_failed k) requeue rows) ≤ count_where p rows
  requeue-flight p k [] gone = omega arith
  requeue-flight p k (r ∷ rs) gone = ground (arith, requeue-flight p k rs gone, gone r)

  mark-flight_own :
      (r : Row J Q) (rows : List (Row J Q))
      → count_where (other_in_flight r.delivery_id) (mark_sending r rows)
        ≤ count_where in_flight rows
  mark-flight_own r [] = omega arith
  mark-flight_own r (x ∷ rs) = ground (arith, mark-flight_own r rs)

  pub mark-flight :
      (id : String) (r : Row J Q) (rows : List (Row J Q))
      → id ≡ r.delivery_id
      → count_where (other_in_flight id) (mark_sending r rows) ≤ count_where in_flight rows
  mark-flight id r rows same =
      subst
        (λ k. count_where (other_in_flight k) (mark_sending r rows) ≤ count_where in_flight rows)
        (sym same) (mark-flight_own r rows)

  pub complete-flight :
      (id : String) (rows : List (Row J Q))
      → count_where in_flight (complete_text_message id rows).0
        ≤ count_where (other_in_flight id) rows
  unfolding complete_text_message
  complete-flight id [] = omega arith
  complete-flight id (x ∷ rs) = ground (arith, complete-flight id rs)

  pub fail-flight :
      (id error : String) (rows : List (Row J Q))
      → count_where in_flight (fail_text_message id error rows).0
        ≤ count_where (other_in_flight id) rows
  unfolding fail_text_message
  fail-flight id error [] = omega arith
  fail-flight id error (x ∷ rs) = ground (arith, fail-flight id error rs)

  -- The answer to a claim keeps the key.
  pub mark-IsTable :
      (r : Row J Q) (rows : List (Row J Q)) → IsTable rows → IsTable (mark_sending r rows)
  mark-IsTable r rows u = update-IsTable _ _ rows (λ id s. refl) u

  pub complete-IsTable :
      (id : String) (rows : List (Row J Q))
      → IsTable rows
      → IsTable (complete_text_message id rows).0
  unfolding complete_text_message
  complete-IsTable id rows u = delete-IsTable _ rows u

  pub fail-IsTable :
      (id error : String) (rows : List (Row J Q))
      → IsTable rows
      → IsTable (fail_text_message id error rows).0
  unfolding fail_text_message
  fail-IsTable id error rows u = update-IsTable _ _ rows (λ k s. refl) u

  count-trim_failed-le :
      (p : Row J Q → Bool) (rows : List (Row J Q))
      → count_where p (trim_failed rows) ≤ count_where p rows
  unfolding trim_failed
  count-trim_failed-le p rows = count-delete-le p _ rows

module _ {J Q : Type 0} (mj : Json (List String) J) (qj : Json MessageQuote Q) where
  enqueue_row-waits :
      (new : Row J Q) (o : Option (Row J Q)) (rows : List (Row J Q))
      → count_where waits (table_after rows (enqueue_row mj qj new o rows))
        ≤ count_where waits rows + 1
  unfolding enqueue_row
  enqueue_row-waits new none rows =
      ground (arith, count-append waits rows new, count-trim_failed-le waits (rows ++ new ∷ []))
  enqueue_row-waits new (some r) rows = elim (Bool-cases (same_message mj qj r new)) [
    | inl same ↦ rw same (omega arith)
    | inr differs ↦ rw differs (omega arith)
  ]

  enqueue_row-flight :
      (p : Row J Q → Bool) (new : Row J Q) (o : Option (Row J Q)) (rows : List (Row J Q))
      → p new ≡ false
      → count_where p (table_after rows (enqueue_row mj qj new o rows)) ≤ count_where p rows
  unfolding enqueue_row
  enqueue_row-flight p new none rows is_new =
      ground (arith, count-append p rows new, count-trim_failed-le p (rows ++ new ∷ []))
  enqueue_row-flight p new (some r) rows is_new = elim (Bool-cases (same_message mj qj r new)) [
    | inl same ↦ rw same (omega arith)
    | inr differs ↦ rw differs (omega arith)
  ]

  step-waits :
      (rows : List (Row J Q)) (o : Op)
      → IsTable rows
      → is_of_client o ≡ true
      → count_where waits (step mj qj rows o) ≤ count_where waits rows + arrivals o
  unfolding step enqueue_text_message retry_text_message discard_text_message clear_text_outbox
  step-waits rows (enqueue k chat text message created mentions quote) u h =
      enqueue_row-waits (new_row mj qj k chat text message created mentions quote) _ rows
  step-waits rows claim u h = cc
  step-waits rows retry_all u h = cc
  step-waits rows reopen u h = cc
  step-waits rows clear u h = omega arith
  step-waits rows (fail k e) u h = cc
  step-waits rows (retry k) u h = omega (arith, requeue-waits k rows, u k)
  step-waits rows (complete k) u h = cc
  step-waits rows (discard k) u h = omega (arith, count-delete-le waits _ rows)

  -- No call of a client begins a send: of the rows that a test holds for, which are being sent, there are
  -- no more than before.
  step-flight :
      (p : Row J Q → Bool) (rows : List (Row J Q)) (o : Op)
      → ((r : Row J Q) → is_queued r.status ≡ true → p r ≡ false)
      → is_of_client o ≡ true
      → count_where p (step mj qj rows o) ≤ count_where p rows
  unfolding step enqueue_text_message retry_text_message discard_text_message clear_text_outbox
      new_row
  step-flight p rows (enqueue k chat text message created mentions quote) gone h =
      enqueue_row-flight p (new_row mj qj k chat text message created mentions quote) _ rows
        (gone (new_row mj qj k chat text message created mentions quote) refl)
  step-flight p rows claim gone h = cc
  step-flight p rows retry_all gone h = cc
  step-flight p rows reopen gone h = cc
  step-flight p rows clear gone h = omega arith
  step-flight p rows (fail k e) gone h = cc
  step-flight p rows (retry k) gone h = requeue-flight p k rows (λ r. gone (requeue r) refl)
  step-flight p rows (complete k) gone h = cc
  step-flight p rows (discard k) gone h = count-delete-le p _ rows

  pub run-waits :
      (rows : List (Row J Q)) (os : List Op)
      → IsTable rows
      → AllOfClient os
      → count_where waits (run mj qj rows os) ≤ count_where waits rows + all_arrivals os
  unfolding run
  run-waits rows [] u h = omega arith
  run-waits rows (o ∷ os) u h = omega (
    arith,
    step-waits rows o u h.0,
    run-waits (step mj qj rows o) os (step-IsTable mj qj rows o u) h.1,
  )

  run-never_sending :
      (p : Row J Q → Bool) (rows : List (Row J Q)) (os : List Op)
      → ((r : Row J Q) → is_queued r.status ≡ true → p r ≡ false)
      → AllOfClient os
      → count_where p (run mj qj rows os) ≤ count_where p rows
  unfolding run
  run-never_sending p rows [] gone h = omega arith
  run-never_sending p rows (o ∷ os) gone h =
      omega
        (arith, step-flight p rows o gone h.0, run-never_sending p (step mj qj rows o) os gone h.1)

  pub run-flight :
      (id : String) (rows : List (Row J Q)) (os : List Op)
      → AllOfClient os
      → count_where (other_in_flight id) (run mj qj rows os) ≤ count_where (other_in_flight id) rows
  run-flight id rows os h = run-never_sending (other_in_flight id) rows os (λ r q. ground arith) h

  pub run-flight_all :
      (rows : List (Row J Q)) (os : List Op)
      → AllOfClient os
      → count_where in_flight (run mj qj rows os) ≤ count_where in_flight rows
  run-flight_all rows os h = run-never_sending in_flight rows os (λ r q. ground arith) h
