-- ===== src/Outbox/Delivery/Drain.antt =====
-- The rounds of the delivery loop (run_text_outbox in crates/daemon/src/outbox.rs).
use mathlib.Core.Path.{subst}
use omarchy_whatsapp.Prelude.{
  Bool, List, Option-cases, String, [], arith, inl, inr, refl, some, suc, sym, true, zero, ℕ, ◌+◌,
  ◌++◌, ◌<◌, ◌∷◌, ◌≡◌, ◌≤◌,
}
use omarchy_whatsapp.Prelude.Json.{Json, JsonLaws}
use omarchy_whatsapp.Prelude.Table.{All, count_where}
use omarchy_whatsapp.Protocol.{MessageQuote}
use omarchy_whatsapp.Outbox.Text.{Op, PendingTextMessage, Row, first_queued, mark_sending, run}
use omarchy_whatsapp.Outbox.Text.Queue.{
  Readable, claim-none, claim-some, complete-Readable, complete-waits, count-mark_lt, fail-Readable,
  fail-waits, first_queued-none, first_queued-waits, in_flight, mark-Readable, waits,
}
use omarchy_whatsapp.Outbox.Text.Moves.{IsTable}
use omarchy_whatsapp.Outbox.Text.Claims.{run-IsTable}
use omarchy_whatsapp.Outbox.Text.Enqueue.{run-Decodes}
use omarchy_whatsapp.Outbox.Text.Others.{
  AllOfClient, all_arrivals, complete-IsTable, complete-flight, fail-IsTable, fail-flight,
  mark-IsTable, mark-flight, run-flight, run-flight_all, run-waits,
}
use omarchy_whatsapp.Outbox.Delivery.{
  Others, others_later, others_now, Answer, Drained, World, after_claim, answered,
  deliver_pending_text, drain, empty, message_sent, none_pending, one, refused, text_outbox,
}

-- Whatever others do, they use the calls of clients and the reset of the account.
abbrev pub AllFromClients : List Others → Type 0
AllFromClients = All (λ o. AllOfClient o.before_claim × AllOfClient o.during_send)

-- How many rows others can add to those that wait.
abbrev pub arrivals_of : List Others → ℕ
arrivals_of [] = 0
arrivals_of (o ∷ os) = all_arrivals o.before_claim + all_arrivals o.during_send + arrivals_of os

now-AllFromClients :
    (os : List Others)
    → AllFromClients os
    → AllOfClient (others_now os).before_claim
      × AllOfClient (others_now os).during_send
      × AllFromClients (others_later os)
now-AllFromClients [] h = (tt, tt, tt)
now-AllFromClients (o ∷ os) h = (h.0.0, h.0.1, h.1)

arrivals_of-now :
    (os : List Others)
    → arrivals_of os
      ≡ all_arrivals (others_now os).before_claim
        + all_arrivals (others_now os).during_send
        + arrivals_of (others_later os)
arrivals_of-now [] = refl
arrivals_of-now (o ∷ os) = refl

module _ {J Q W : Type 0} (mj : Json (List String) J) (qj : Json MessageQuote Q)
    (send_claimed_text : PendingTextMessage → W → W × Answer) where
  -- A table with its key of which every row parses.
  abbrev pub Sound : List (Row J Q) → Type 0
  Sound rows = IsTable rows × All (Readable mj qj) rows

  run-Sound :
      JsonLaws mj
      → JsonLaws qj
      → (rows : List (Row J Q)) (os : List Op) → Sound rows
      → Sound (run mj qj rows os)
  run-Sound ml ql rows os h = (run-IsTable mj qj rows os h.0, run-Decodes mj qj ml ql rows os h.1)

  -- What one delivery does: nothing where nothing waits; else one row less waits at least, but for those that
  -- others add, and no more are being sent than before.
  data Progress (during : List Op) (w : World J Q W) : Type 0 where
    idle :
        deliver_pending_text mj qj send_claimed_text during w ≡ (w, none_pending)
        → count_where waits w.rows ≡ 0
        → Progress during w
    moved :
        (w' : World J Q W)
        → deliver_pending_text mj qj send_claimed_text during w ≡ (w', one)
        → Sound w'.rows
        → count_where waits w'.rows < count_where waits w.rows + all_arrivals during
        → count_where in_flight w'.rows ≤ count_where in_flight w.rows
        → Progress during w

  answered-moves :
      JsonLaws mj
      → JsonLaws qj
      → (during : List Op) (w : World J Q W) (r : Row J Q) (p : PendingTextMessage)
        (answer : W × Answer)
      → AllOfClient during
      → first_queued w.rows ≡ some r
      → p.delivery_id ≡ r.delivery_id
      → deliver_pending_text mj qj send_claimed_text during w ≡ (
        answered mj qj send_claimed_text p
            (run mj qj (mark_sending r w.rows) during)
            (w.published ++ text_outbox (mark_sending r w.rows) ∷ [])
            answer,
        one,
      )
      → Sound w.rows
      → Progress during w
  unfolding answered
  answered-moves ml ql during w r p (rest, message_sent m) clients first id does sound =
      let marked = mark_sending r w.rows in
      let marked-Sound : Sound marked =
        (mark-IsTable r w.rows sound.0, mark-Readable mj qj r w.rows sound.1) in
      let later = run mj qj marked during in
      let later-Sound = run-Sound ml ql marked during marked-Sound in
      moved _ does
        (
          complete-IsTable p.delivery_id later later-Sound.0,
          complete-Readable mj qj p.delivery_id later later-Sound.1,
        )
        (omega (
          arith,
          complete-waits p.delivery_id later,
          run-waits mj qj marked during marked-Sound.0 clients,
          count-mark_lt r w.rows (first_queued-waits w.rows r first),
        ))
        (omega (
          arith,
          complete-flight p.delivery_id later,
          run-flight mj qj p.delivery_id marked during clients,
          mark-flight p.delivery_id r w.rows id,
        ))
  answered-moves ml ql during w r p (rest, refused detail) clients first id does sound =
      let marked = mark_sending r w.rows in
      let marked-Sound : Sound marked =
        (mark-IsTable r w.rows sound.0, mark-Readable mj qj r w.rows sound.1) in
      let later = run mj qj marked during in
      let later-Sound = run-Sound ml ql marked during marked-Sound in
      moved _ does
        (
          fail-IsTable p.delivery_id detail later later-Sound.0,
          fail-Readable mj qj p.delivery_id detail later later-Sound.1,
        )
        (omega (
          arith,
          fail-waits p.delivery_id detail later,
          run-waits mj qj marked during marked-Sound.0 clients,
          count-mark_lt r w.rows (first_queued-waits w.rows r first),
        ))
        (omega (
          arith,
          fail-flight p.delivery_id detail later,
          run-flight mj qj p.delivery_id marked during clients,
          mark-flight p.delivery_id r w.rows id,
        ))

  deliver-Progress :
      JsonLaws mj
      → JsonLaws qj
      → (during : List Op) (w : World J Q W) → AllOfClient during
      → Sound w.rows
      → Progress during w
  unfolding deliver_pending_text after_claim
  deliver-Progress ml ql during w clients sound = elim (Option-cases (first_queued w.rows)) [
    | inl none_left ↦
        idle (rw (claim-none mj qj w.rows none_left) refl) (first_queued-none w.rows none_left)
    | inr (r, found) ↦
        let (p, claims, id) = claim-some mj qj w.rows r found sound.1 in
        answered-moves ml ql during w r p (send_claimed_text p w.rest) clients found id
          (rw claims refl) sound
  ]

  -- The state in which the loop waits for the next notification.
  abbrev pub IsDrained : World J Q W → World J Q W × Drained → Type 0
  IsDrained w r =
      (r.1 ≡ empty)
      × (count_where waits r.0.rows ≡ 0)
      × (count_where in_flight r.0.rows ≤ count_where in_flight w.rows)

  -- The world at the claim of the next round.
  abbrev joined : List Others → World J Q W → World J Q W
  joined others w = record w { rows = run mj qj w.rows (others_now others).before_claim }

  drain-idle :
      (has_client : W → Bool) (fuel : ℕ) (others : List Others) (w : World J Q W)
      → has_client w.rest ≡ true
      → deliver_pending_text mj qj send_claimed_text
          (others_now others).during_send
          (joined others w)
        ≡ (joined others w, none_pending)
      → drain mj qj send_claimed_text has_client (suc fuel) others w ≡ (joined others w, empty)
  unfolding drain
  drain-idle has_client fuel others w client does = ground arith

  drain-moved :
      (has_client : W → Bool) (fuel : ℕ) (others : List Others) (w w' : World J Q W)
      → has_client w.rest ≡ true
      → deliver_pending_text mj qj send_claimed_text
          (others_now others).during_send
          (joined others w)
        ≡ (w', one)
      → drain mj qj send_claimed_text has_client (suc fuel) others w
        ≡ drain mj qj send_claimed_text has_client fuel (others_later others) w'
  unfolding drain
  drain-moved has_client fuel others w w' client does = ground arith

  -- From a table that keeps its key and of which every row parses, where there is a client throughout,
  -- whatever the network answers to each send, and whatever others enqueue, retry, discard or reset
  -- before each claim and during each send, the loop ends after as many rounds as messages wait
  -- and as are enqueued or retried meanwhile, and one more. No message is queued then, and no more
  -- are marked as being sent than at the start. The JSON that is printed parses back.
  pub drain_empties :
      JsonLaws mj
      → JsonLaws qj
      → (has_client : W → Bool) (fuel : ℕ) (others : List Others) (w : World J Q W)
      → ((rest : W) → has_client rest ≡ true)
      → IsTable w.rows
      → All (Readable mj qj) w.rows
      → AllFromClients others
      → count_where waits w.rows + arrivals_of others < fuel
      → IsDrained w (drain mj qj send_claimed_text has_client fuel others w)
  drain_empties ml ql has_client zero others w client unique all clients enough =
      absurd (omega arith)
  drain_empties ml ql has_client (suc fuel) others w client unique all clients enough =
      let (before, during, later) = now-AllFromClients others clients in
      let ops = (others_now others).before_claim in
      let grows = run-waits mj qj w.rows ops unique before in
      let flies = run-flight_all mj qj w.rows ops before in
      let split = arrivals_of-now others in
      elim (deliver-Progress ml ql (others_now others).during_send (joined others w) during
        (run-Sound ml ql w.rows ops (unique, all))) [
          | idle does none_left ↦
              subst (IsDrained w) (sym (drain-idle has_client fuel others w (client w.rest) does))
                (refl, none_left, flies)
          | moved w' does sound less flight ↦
              let (how, none_left, kept) =
                drain_empties ml ql has_client fuel (others_later others) w' client sound.0 sound.1
                  later (omega arith) in
              subst (IsDrained w)
                (sym (drain-moved has_client fuel others w w' (client w.rest) does))
                (how, none_left, omega arith)
        ]
