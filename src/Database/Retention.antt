-- ===== src/Database/Retention.antt =====
-- How many messages of a chat are kept (Database::prune_chat_history in crates/daemon/src/database.rs).
use omarchy_whatsapp.Database.{Codecs, Database, MessageRow, UnreadReceipt, in_chat, same_key}
use omarchy_whatsapp.Database.Insert.{
  MessageInsert, absorb, bump_unread, counts_unread, insert_message_inner, insert_message_into,
  is_dropped, new_message, prune_chat_history, queue_intent, retention, revive, store, upsert_chat,
}
use omarchy_whatsapp.Database.ReadQueue.{queue_chat, queue_receipt}
use omarchy_whatsapp.Prelude.Newest.{count-keep_newest}
use omarchy_whatsapp.Database.Unread.{revive-tables, upsert_chat-messages}
use omarchy_whatsapp.Prelude.Table.Count.{count-append}
use omarchy_whatsapp.Prelude.Table.{count_where}
use omarchy_whatsapp.Prelude.{
  Bool, Bool-cases, Option, ap, arith, eq_refl, inl, inr, none, refl, some, suc, ◌∙◌, ◌≡◌, ◌≤◌,
}

module _ {T : Type 0} (codecs : Codecs T) where
  -- After any insert its chat holds no more than 1000 messages.
  pub insert_message_inner-bounded :
      (i : MessageInsert) (db : Database T)
      → count_where (in_chat i.message.chat_jid) (insert_message_inner codecs i db).0.messages
        ≤ retention
  unfolding insert_message_inner prune_chat_history
  insert_message_inner-bounded i db =
      count-keep_newest (λ m. m.timestamp) same_key
        (λ m. ground (arith, eq_refl m.chat_jid, eq_refl m.sender_jid, eq_refl m.id)) retention
        (in_chat i.message.chat_jid) (insert_message_into codecs i db).0.messages

  count-store-le :
      (p : MessageRow T → Bool) (i : MessageInsert) (unread : Bool) (db : Database T)
      → count_where p (store codecs i unread db).0.messages ≤ suc (count_where p db.messages)
  unfolding store bump_unread
  count-store-le p i unread db =
      ground (arith, count-append p db.messages (new_message codecs i unread db))

  queue_intent-messages :
      (i : MessageInsert) (o : Option UnreadReceipt) (db : Database T)
      → (queue_intent i o db).messages ≡ db.messages
  unfolding queue_intent queue_chat queue_receipt
  queue_intent-messages i none db = refl
  queue_intent-messages i (some r) db = refl

  -- An insert adds one message at most.
  pub count-insert_message_into-le :
      (p : MessageRow T → Bool) (i : MessageInsert) (db : Database T)
      → count_where p (insert_message_into codecs i db).0.messages ≤ suc (count_where p db.messages)
  unfolding insert_message_into absorb
  count-insert_message_into-le p i db = elim (Bool-cases (is_dropped i.message db)) [
    | inl dropped ↦ rw dropped (omega arith)
    | inr taken ↦
        let before = upsert_chat i (revive i db) in
        let counts = counts_unread codecs i before in
        let same : before.messages ≡ db.messages =
          upsert_chat-messages i (revive i db) ∙ (revive-tables i db).1 in
        rw taken (
          omega (
            arith,
            count-store-le p i counts before,
            ap (count_where p) same,
            ap (count_where p)
                (queue_intent-messages i i.read_intent (store codecs i counts before).0),
          ))
  ]
