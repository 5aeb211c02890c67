-- ===== src/Outbox/Reads/Sent.antt =====
-- What one delivery of read receipts comes to (deliver_pending_read in crates/daemon/src/outbox.rs).
use mathlib.Core.Path.{subst}
use omarchy_whatsapp.Prelude.{
  if◌then◌else◌, Bool, Bool-cases, Option-cases, sym, List, Option, String, [], ap, arith, contains,
  eq_iff, false, inl, inr, map, none, refl, some, true, ◌&&◌, ◌++◌, ◌==◌, ◌||◌, ◌∙◌, ◌∷◌, ◌≡◌, ◌⊎◌,
}
use omarchy_whatsapp.Prelude.Table.{All, exists_where}
use omarchy_whatsapp.Database.{Database, UnreadReceipt}
use omarchy_whatsapp.Database.ReadQueue.{PendingReadBatch, finish_read_batch, next_read_batch}
use omarchy_whatsapp.Database.ReadQueue.Keeps.{has_receipt}
use omarchy_whatsapp.Outbox.Reads.{
  ReadCall, ReadDelivered, direct_calls, is_of_group, mark_as_read, mark_chat_as_read,
  receipt_calls, sender_call, sender_calls, SenderIds, add_id, batch_calls, deliver_pending_read,
  delivered_batch, finished, group_by_sender, reads_failed, reads_sent, run_calls,
}
use omarchy_whatsapp.Outbox.Reads.Made.{
  Among, Among-append, Among-last, Stopped, none-Among, run_calls-Stopped, run_calls-made,
  run_calls-works, some-Among,
}

-- Whether the calls by sender name an ID to its sender.
abbrev pub is_grouped : String → String → List SenderIds → Bool
is_grouped sender id = exists_where (λ g. g.sender_jid == sender && contains id g.message_ids)

contains-append_id :
    (k id : String) (ids : List String) → contains k (ids ++ id ∷ []) ≡ (contains k ids || id == k)
contains-append_id k id [] = ground arith
contains-append_id k id (x ∷ ids) = ground (arith, contains-append_id k id ids)

is_grouped-add_id :
    (sender id : String) (r : UnreadReceipt) (groups : List SenderIds)
    → is_grouped sender id (add_id r groups)
      ≡ ((r.sender_jid == sender && r.message_id == id) || is_grouped sender id groups)
is_grouped-add_id sender id r [] = ground arith
is_grouped-add_id sender id r (g ∷ groups) = ground (
  arith,
  contains-append_id id r.message_id g.message_ids,
  is_grouped-add_id sender id r groups,
  eq_iff g.sender_jid r.sender_jid,
)

is_grouped-group_by_sender :
    (sender id : String) (rs : List UnreadReceipt) (groups : List SenderIds)
    → is_grouped sender id (group_by_sender rs groups)
      ≡ (has_receipt sender id rs || is_grouped sender id groups)
is_grouped-group_by_sender sender id [] groups = ground arith
is_grouped-group_by_sender sender id (r ∷ rs) groups =
    is_grouped-group_by_sender sender id rs (add_id r groups)
    ∙ ground (arith, is_grouped-add_id sender id r groups)

module _ {Jid : Type 0} (parse : String → Option Jid) (succeeds : ReadCall Jid → Bool) where
  -- The calls that a batch owes to one of its receipts: one that names it, to its sender where the chat
  -- is a group, and one for the chat.
  abbrev pub Notifies : PendingReadBatch → String → String → List (ReadCall Jid) → Type 0
  Notifies batch sender id made =
      (chat : Jid) × (parse batch.chat_jid ≡ some chat)
      × (from : Option Jid) × (from ≡ (if is_of_group batch.receipts then parse sender else none))
      × (ids : List String) × (contains id ids ≡ true)
      × Among (mark_as_read chat from ids) made
      × Among (mark_chat_as_read chat) made

  sender_calls-Among :
      (chat : Jid) (sender id : String) (groups : List SenderIds)
      → is_grouped sender id groups ≡ true
      → (ids : List String) × (contains id ids ≡ true)
        × Among (sender_call parse chat ids (parse sender)) (sender_calls parse chat groups)
  sender_calls-Among chat sender id [] h = cc
  sender_calls-Among chat sender id (g ∷ groups) h =
      elim (Bool-cases (g.sender_jid == sender && contains id g.message_ids)) [
        | inl here ↦ (
          g.message_ids,
          ground arith,
          inl (
              ap (λ k. sender_call parse chat g.message_ids (parse k))
                ((eq_iff g.sender_jid sender).0 (ground arith))),
        )
        | inr apart ↦
            let (ids, names, there) = sender_calls-Among chat sender id groups (ground arith) in
            (ids, names, inr there)
      ]

  contains-receipts :
      (sender id : String) (rs : List UnreadReceipt)
      → has_receipt sender id rs ≡ true
      → contains id (map (λ r. r.message_id) rs) ≡ true
  contains-receipts sender id [] h = cc
  contains-receipts sender id (r ∷ rs) h = ground (arith, contains-receipts sender id rs)

  sent-sender :
      (chat : Jid) (ids : List String) (o : Option Jid) (made : List (ReadCall Jid))
      → Among (sender_call parse chat ids o) (map some made)
      → Among (mark_as_read chat o ids) made
  sent-sender chat ids none made h = absurd (none-Among made h)
  sent-sender chat ids (some from) made h = some-Among (mark_as_read chat (some from) ids) made h

  direct-Among :
      (chat : Jid) (sender id : String) (rs : List UnreadReceipt)
      → has_receipt sender id rs ≡ true
      → Among
          (some (mark_as_read chat none (map (λ r. r.message_id) rs)))
          (direct_calls parse chat (map (λ r. r.message_id) rs))
  direct-Among chat sender id [] h = cc
  direct-Among chat sender id (r ∷ rs) h = inl refl

  receipt-Notifies :
      (batch : PendingReadBatch) (sender id : String) (chat : Jid) (made : List (ReadCall Jid))
      → has_receipt sender id batch.receipts ≡ true
      → parse batch.chat_jid ≡ some chat
      → map some made
        ≡ receipt_calls parse chat batch.receipts ++ some (mark_chat_as_read chat) ∷ []
      → Notifies batch sender id made
  receipt-Notifies batch sender id chat made has parsed all =
      let rs = batch.receipts in
      let last : Among (mark_chat_as_read chat) made = some-Among (mark_chat_as_read chat) made (
        subst (Among (some (mark_chat_as_read chat))) (sym all)
          (Among-last (some (mark_chat_as_read chat)) (receipt_calls parse chat rs))) in
      elim (Bool-cases (is_of_group rs)) [
        | inl group ↦
            let (ids, names, there) =
              sender_calls-Among chat sender id (group_by_sender rs [])
                (is_grouped-group_by_sender sender id rs [] ∙ ground arith) in
            let calls : map some made
                ≡ sender_calls parse chat (group_by_sender rs [])
                  ++ some (mark_chat_as_read chat) ∷ [] =
              all ∙ rw group refl in
            (
              chat,
              parsed,
              parse sender,
              rw group refl,
              ids,
              names,
              sent-sender chat ids (parse sender) made (
                  subst (Among (sender_call parse chat ids (parse sender))) (sym calls)
                    (Among-append _ _ _ there)),
              last,
            )
        | inr direct ↦
            let ids = map (λ (r : UnreadReceipt). r.message_id) rs in
            let calls : map some made
                ≡ direct_calls parse chat ids ++ some (mark_chat_as_read chat) ∷ [] =
              all ∙ rw direct refl in
            (
              chat,
              parsed,
              none,
              rw direct refl,
              ids,
              contains-receipts sender id rs has,
              some-Among (mark_as_read chat none ids) made (
                  subst (Among (some (mark_as_read chat none ids))) (sym calls)
                    (Among-append _ _ _ (direct-Among chat sender id rs has))),
              last,
            )
      ]

  batch-Notifies :
      (batch : PendingReadBatch) (sender id : String) (made : List (ReadCall Jid))
      → has_receipt sender id batch.receipts ≡ true
      → map some made ≡ batch_calls parse (parse batch.chat_jid) batch.receipts
      → Notifies batch sender id made
  batch-Notifies batch sender id made has all = elim (Option-cases (parse batch.chat_jid)) [
    | inl unparsed ↦
        absurd (none-Among made (subst (Among none) (sym (rw unparsed at all)) (inl refl)))
    | inr (chat, parsed) ↦ receipt-Notifies batch sender id chat made has parsed (rw parsed at all)
  ]

  module _ {T : Type 0} (meanwhile : Database T → Database T) (db : Database T) where
    -- What a delivery of a batch comes to, for one of its receipts.
    abbrev pub IsDelivery :
        PendingReadBatch
        → String
        → String
        → (Database T × List (ReadCall Jid)) × ReadDelivered
        → Type 0
    IsDelivery batch sender id r =
        ((r.1 ≡ reads_sent)
          × All (λ c. succeeds c ≡ true) r.0.1
          × Notifies batch sender id r.0.1
          × (r.0.0 ≡ (finish_read_batch batch (meanwhile db)).0))
        ⊎ ((r.1 ≡ reads_failed)
            × Stopped parse succeeds (batch_calls parse (parse batch.chat_jid) batch.receipts) r.0.1
            × (r.0.0 ≡ meanwhile db))

    finished-IsDelivery :
        (batch : PendingReadBatch) (sender id : String) (r : List (ReadCall Jid) × Bool)
        → has_receipt sender id batch.receipts ≡ true
        → (r.1 ≡ true → map some r.0 ≡ batch_calls parse (parse batch.chat_jid) batch.receipts)
        → (r.1 ≡ true → All (λ c. succeeds c ≡ true) r.0)
        → (r.1 ≡ false
            → Stopped parse succeeds (batch_calls parse (parse batch.chat_jid) batch.receipts) r.0)
        → IsDelivery batch sender id (finished parse succeeds meanwhile db batch r)
    unfolding finished
    finished-IsDelivery batch sender id (made, false) has all works stopped =
        inr (refl, stopped refl, refl)
    finished-IsDelivery batch sender id (made, true) has all works stopped =
        inl (refl, works refl, batch-Notifies batch sender id made has (all refl), refl)

-- Where a batch is next that has a receipt of a sender and a message ID, its delivery either succeeds or
-- fails. If it succeeds, every call that it made succeeded; among them are one that marks the message as
-- read, to its sender where the chat is a group and to none elsewhere, and one that marks the chat as
-- read; and the batch is finished, on what the database is by then. If it fails, a call that it made
-- failed or a text did not parse, and that database is left alone.
pub deliver_pending_read-IsDelivery :
    {Jid T : Type 0} (parse : String → Option Jid) (succeeds : ReadCall Jid → Bool)
    (meanwhile : Database T → Database T) (db : Database T) (batch : PendingReadBatch)
    (sender id : String)
    → next_read_batch db ≡ some batch
    → has_receipt sender id batch.receipts ≡ true
    → IsDelivery parse succeeds meanwhile db batch sender id
        (deliver_pending_read parse succeeds meanwhile db)
unfolding deliver_pending_read delivered_batch
deliver_pending_read-IsDelivery parse succeeds meanwhile db batch sender id next has =
    let calls = batch_calls parse (parse batch.chat_jid) batch.receipts in
    rw next (
      finished-IsDelivery parse succeeds meanwhile db batch sender id
        (run_calls parse succeeds calls) has (run_calls-made parse succeeds calls)
        (run_calls-works parse succeeds calls) (run_calls-Stopped parse succeeds calls))
