-- ===== src/Outbox/Text.antt =====
-- The table text_outbox (crates/daemon/src/database.rs): messages that wait for delivery.
-- `J` and `Q` are the stored JSON texts of the mentions and of the quote.
pub mod Order
pub mod Moves
pub mod Lifecycle
pub mod Claims
pub mod Enqueue
pub mod Queue
pub mod Others
pub mod Examples
use omarchy_whatsapp.Prelude.{
  Bool, List, Option, String, [], contains, false, if◌then◌else◌, ltb, map, none, some, true, ℕ,
  ◌&&◌, ◌++◌, ◌==◌, ◌||◌, ◌∷◌,
}
use omarchy_whatsapp.Prelude.Json.{Json}
use omarchy_whatsapp.Protocol.{MessageQuote}
use omarchy_whatsapp.Prelude.Int.{eqb_ℤ, ltb_ℤ, ℤ}
use omarchy_whatsapp.Prelude.Newest.{beyond}
use omarchy_whatsapp.Prelude.Table.{count_where, delete_where, find_where, update_where}
use Prim.Native.Nat.{Ordering}
use Prim.Native.String.{compare}

-- The column `status`: 0, 1 and 2.
pub data Status : Type 0 where
  queued sending failed : Status

abbrev pub is_queued : Status → Bool
is_queued queued = true
is_queued _ = false

abbrev pub is_sending : Status → Bool
is_sending sending = true
is_sending _ = false

abbrev pub is_failed : Status → Bool
is_failed failed = true
is_failed _ = false

pub record Row (J Q : Type 0) : Type 0 where
  pub delivery_id : String
  pub chat_jid : String
  pub text : String
  pub message_id : String
  pub status : Status
  pub error : Option String
  pub created_at : ℤ
  pub mentions : J
  pub quote_json : Option Q

pub record PendingTextMessage : Type 0 where
  pub quote : Option MessageQuote
  pub mentions : List String
  pub delivery_id : String
  pub chat_jid : String
  pub text : String
  pub message_id : String

pub data Error : Type 0 where
  already_assigned bad_json : Error

pub data Result {ℓ} (A : Type ℓ) : Type ℓ where
  ok : A → Result A
  err : Error → Result A

-- The failed rows that stay when another message is accepted.
abbrev pub failed_kept : ℕ
failed_kept = 32

module _ {J Q : Type 0} where
  abbrev pub has_id : String → Row J Q → Bool
  has_id id r = r.delivery_id == id

  -- WHERE delivery_id = id AND status = …
  abbrev pub id_queued_or_failed : String → Row J Q → Bool
  id_queued_or_failed id r = has_id id r && (is_queued r.status || is_failed r.status)

  abbrev pub id_sending : String → Row J Q → Bool
  id_sending id r = has_id id r && is_sending r.status

  abbrev pub id_failed : String → Row J Q → Bool
  id_failed id r = has_id id r && is_failed r.status

  abbrev pub requeue : Row J Q → Row J Q
  requeue r = record r { status = queued; error = none }

  abbrev pub ids : List (Row J Q) → List String
  ids = map (λ r. r.delivery_id)

  -- SELECT delivery_id … WHERE status = 2 ORDER BY created_at DESC LIMIT -1 OFFSET 32
  pub stale_ids : List (Row J Q) → List String
  unfolding beyond
  stale_ids rows = ids (
      beyond (λ r. r.created_at) (λ r s. has_id r.delivery_id s) failed_kept
        (λ r. is_failed r.status) rows)

  -- DELETE … WHERE delivery_id IN (…)
  pub trim_failed : List (Row J Q) → List (Row J Q)
  trim_failed rows =
      let stale = stale_ids rows in delete_where (λ r. contains r.delivery_id stale) rows

  -- ORDER BY created_at, delivery_id
  abbrev pub before : Row J Q → Row J Q → Bool
  before a b =
      if ltb_ℤ a.created_at b.created_at
      then true
      else (eqb_ℤ a.created_at b.created_at
          && elim (compare a.delivery_id b.delivery_id) [ Ordering.lt ↦ true | _ ↦ false ])

  abbrev pub earlier : Row J Q → Option (Row J Q) → Option (Row J Q)
  earlier r none = some r
  earlier r (some s) = if before s r then some s else some r

  -- The first queued row in delivery order.
  pub first_queued : List (Row J Q) → Option (Row J Q)
  first_queued [] = none
  first_queued (r ∷ rs) =
      let rest = first_queued rs in if is_queued r.status then earlier r rest else rest

  -- UPDATE … SET status = 1, error = NULL WHERE delivery_id = …
  abbrev pub mark_sending : Row J Q → List (Row J Q) → List (Row J Q)
  mark_sending r =
      update_where (has_id r.delivery_id) (λ s. record s { status = sending; error = none })

  -- Database::fail_text_message and the other transitions of one row: the new table, and whether a
  -- row changed.
  unfoldable pub fail_text_message : String → String → List (Row J Q) → List (Row J Q) × Bool
  fail_text_message id error rows = (
    update_where (id_sending id) (λ r. record r { status = failed; error = some error }) rows,
    ltb 0 (count_where (id_sending id) rows),
  )

  pub retry_text_message : String → List (Row J Q) → List (Row J Q) × Bool
  retry_text_message id rows =
      (update_where (id_failed id) requeue rows, ltb 0 (count_where (id_failed id) rows))

  pub retry_all_text_messages : List (Row J Q) → List (Row J Q) × ℕ
  retry_all_text_messages rows =
      let stopped = λ (r : Row J Q). is_sending r.status || is_failed r.status in
      (update_where stopped requeue rows, count_where stopped rows)

  unfoldable pub complete_text_message : String → List (Row J Q) → List (Row J Q) × Bool
  complete_text_message id rows =
      (delete_where (id_sending id) rows, ltb 0 (count_where (id_sending id) rows))

  pub discard_text_message : String → List (Row J Q) → List (Row J Q) × Bool
  discard_text_message id rows = (
    delete_where (id_queued_or_failed id) rows,
    ltb 0 (count_where (id_queued_or_failed id) rows),
  )

  -- The statement that `Database::open` runs: an interrupted send is queued again.
  pub recover_interrupted : List (Row J Q) → List (Row J Q)
  recover_interrupted = update_where (λ r. is_sending r.status) requeue

  -- DELETE FROM text_outbox, of clear_account_data.
  pub clear_text_outbox : List (Row J Q) → List (Row J Q)
  clear_text_outbox rows = []

module _ {J Q : Type 0} (mj : Json (List String) J) (qj : Json MessageQuote Q) where
  print_quote : Option MessageQuote → Option Q
  print_quote none = none
  print_quote (some q) = some (qj.to_string q)

  same_quote : Option Q → Option Q → Bool
  same_quote none none = true
  same_quote none (some t) = false
  same_quote (some s) none = false
  same_quote (some s) (some t) = qj.same s t

  -- The five columns that an accepted delivery ID is bound to.
  abbrev pub same_message : Row J Q → Row J Q → Bool
  unfolding same_quote
  same_message r s =
      r.chat_jid == s.chat_jid
      && (r.text == s.text
          && (r.message_id == s.message_id
              && (mj.same r.mentions s.mentions && same_quote r.quote_json s.quote_json)))

  pub new_row : String → String → String → String → ℤ → List String → Option MessageQuote → Row J Q
  unfolding print_quote
  new_row delivery_id chat_jid text message_id created_at mentions quote = record {
    delivery_id = delivery_id;
    chat_jid = chat_jid;
    text = text;
    message_id = message_id;
    status = queued;
    error = none;
    created_at = created_at;
    mentions = mj.to_string mentions;
    quote_json = print_quote quote;
  }

  enqueue_row : Row J Q → Option (Row J Q) → List (Row J Q) → Result (List (Row J Q) × Bool)
  unfolding trim_failed same_quote
  enqueue_row new none rows = ok (trim_failed (rows ++ new ∷ []), true)
  enqueue_row new (some existing) rows =
      if same_message existing new then ok (rows, false) else err already_assigned

  -- An error rolls the transaction back: the table stays as it was.
  pub enqueue_text_message :
      String
      → String
      → String
      → String
      → ℤ
      → List String
      → Option MessageQuote
      → List (Row J Q)
      → Result (List (Row J Q) × Bool)
  unfolding enqueue_row
  enqueue_text_message delivery_id chat_jid text message_id created_at mentions quote rows =
      enqueue_row (new_row delivery_id chat_jid text message_id created_at mentions quote)
        (find_where (has_id delivery_id) rows) rows

  decode_quote : Option Q → Option (Option MessageQuote)
  decode_quote none = some none
  decode_quote (some s) = elim (qj.from_str s) [ none ↦ none | some q ↦ some (some q) ]

  pending :
      Row J Q → Option (Option MessageQuote) → Option (List String) → Result PendingTextMessage
  pending r none _ = err bad_json
  pending r (some quote) none = err bad_json
  pending r (some quote) (some mentions) = ok (record {
    quote = quote;
    mentions = mentions;
    delivery_id = r.delivery_id;
    chat_jid = r.chat_jid;
    text = r.text;
    message_id = r.message_id;
  })

  pub decode : Row J Q → Result PendingTextMessage
  unfolding decode_quote pending
  decode r = pending r (decode_quote r.quote_json) (mj.from_str r.mentions)

  -- A row that does not decode is an error, which rolls back before the update.
  claimed :
      Row J Q
      → List (Row J Q)
      → Result PendingTextMessage
      → Result (List (Row J Q) × Option PendingTextMessage)
  claimed r rows (err e) = err e
  claimed r rows (ok p) = ok (mark_sending r rows, some p)

  claim_row :
      Option (Row J Q) → List (Row J Q) → Result (List (Row J Q) × Option PendingTextMessage)
  unfolding decode claimed
  claim_row none rows = ok (rows, none)
  claim_row (some r) rows = claimed r rows (decode r)

  unfoldable pub claim_text_message :
      List (Row J Q) → Result (List (Row J Q) × Option PendingTextMessage)
  unfolding claim_row first_queued
  claim_text_message rows = claim_row (first_queued rows) rows

-- The table after a transaction: an error rolls it back.
abbrev pub table_after {ℓ} :
    {J Q : Type 0} {A : Type ℓ} → List (Row J Q) → Result (List (Row J Q) × A) → List (Row J Q)
table_after rows (ok (rows', _)) = rows'
table_after rows (err e) = rows

pub data Op : Type 0 where
  enqueue : String → String → String → String → ℤ → List String → Option MessageQuote → Op
  claim retry_all reopen clear : Op
  fail : String → String → Op
  retry complete discard : String → Op

-- One call on the table, a start of the daemon (reopen), or a reset of the account (clear).
pub step :
    {J Q : Type 0}
    → Json (List String) J
    → Json MessageQuote Q
    → List (Row J Q)
    → Op
    → List (Row J Q)
step mj qj rows (enqueue id chat text message created mentions quote) =
    table_after rows (enqueue_text_message mj qj id chat text message created mentions quote rows)
step mj qj rows claim = table_after rows (claim_text_message mj qj rows)
step mj qj rows (fail id e) = (fail_text_message id e rows).0
step mj qj rows (retry id) = (retry_text_message id rows).0
step mj qj rows retry_all = (retry_all_text_messages rows).0
step mj qj rows (complete id) = (complete_text_message id rows).0
step mj qj rows (discard id) = (discard_text_message id rows).0
step mj qj rows reopen = recover_interrupted rows
step mj qj rows clear = clear_text_outbox rows

unfoldable pub run :
    {J Q : Type 0}
    → Json (List String) J
    → Json MessageQuote Q
    → List (Row J Q)
    → List Op
    → List (Row J Q)
run mj qj rows [] = rows
run mj qj rows (o ∷ os) = run mj qj (step mj qj rows o) os
