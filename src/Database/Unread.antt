-- ===== src/Database/Unread.antt =====
-- The materialised unread counter of a chat against the messages that it stands for, across inserts.
use omarchy_whatsapp.Prelude.{
  Bool, Bool-cases, List, Option, Option-cases, String, [], ap, arith, eq_iff, eq_refl, false,
  if◌then◌else◌, inl, inr, is_some, none, refl, some, true, ℕ, ◌++◌, ◌+◌, ◌==◌, ◌∙◌, ◌∷◌, ◌≡◌,
}
use omarchy_whatsapp.Prelude.Table.Count.{count-append}
use omarchy_whatsapp.Prelude.Table.{count_where, exists_where, find_where, map_if, update_where}
use omarchy_whatsapp.Prelude.Table.Lookup.{exists-find, find-update, find-upsert, find_some}
use omarchy_whatsapp.Database.{
  ChatRow, Codecs, Database, UnreadReceipt, chat_is, is_unread, same_key,
}
use omarchy_whatsapp.Database.ReadQueue.{queue_chat, queue_receipt}
use omarchy_whatsapp.Database.Insert.{
  MessageInsert, absorb, bump, bump_unread, counts_unread, insert_message_into, is_dropped,
  new_chat, new_message, queue_intent, revive, store, touch_chat, upsert_chat,
}

abbrev pub counter : Option ChatRow → ℕ
counter none = 0
counter (some r) = r.unread

-- chats.unread of a chat; 0 where it has no row.
abbrev pub unread_shown : {T : Type 0} → String → Database T → ℕ
unread_shown c db = counter (find_where (chat_is c) db.chats)

abbrev pub unread_count : {T : Type 0} → String → Database T → ℕ
unread_count c db = count_where (is_unread c) db.messages

-- The counter of every chat is the number of its unread messages.
abbrev pub Consistent : {T : Type 0} → Database T → Type 0
Consistent db = (c : String) → unread_shown c db ≡ unread_count c db

pub counter-map_if :
    (p : ChatRow → Bool) (f : ChatRow → ChatRow) (o : Option ChatRow)
    → ((r : ChatRow) → (f r).unread ≡ r.unread)
    → counter (map_if p f o) ≡ counter o
counter-map_if p f none same = refl
counter-map_if p f (some r) same = ground (arith, same r)

-- Statements that set the counter of the chat `c`, and the counters that they leave.
pub counter-update :
    (c : String) (f : ChatRow → ChatRow) (n : ℕ) (rows : List ChatRow)
    → ((r : ChatRow) → (f r).jid ≡ r.jid)
    → ((r : ChatRow) → (f r).unread ≡ n)
    → counter (find_where (chat_is c) (update_where (chat_is c) f rows))
      ≡ (if is_some (find_where (chat_is c) rows) then n else 0)
counter-update c f n rows keeps sets =
    rw (find-update (chat_is c) (chat_is c) f rows (λ r. ap (λ j. j == c) (keeps r)))
      (elim (Option-cases (find_where (chat_is c) rows)) [
        | inl missing ↦ rw missing refl
        | inr (r, found) ↦ rw (found, find_some (chat_is c) rows r found) (sets r)
      ])

pub counter-update_other :
    (c k : String) (f : ChatRow → ChatRow) (rows : List ChatRow)
    → (k == c) ≡ false
    → ((r : ChatRow) → (f r).jid ≡ r.jid)
    → counter (find_where (chat_is k) (update_where (chat_is c) f rows))
      ≡ counter (find_where (chat_is k) rows)
counter-update_other c k f rows other keeps =
    rw (find-update (chat_is k) (chat_is c) f rows (λ r. ap (λ j. j == k) (keeps r)))
      (elim (Option-cases (find_where (chat_is k) rows)) [
        | inl missing ↦ rw missing refl
        | inr (r, found) ↦ rw found (
            ground (
              arith,
              find_some (chat_is k) rows r found,
              eq_iff r.jid k,
              eq_iff r.jid c,
              eq_iff k c,
            ))
      ])

module _ {T : Type 0} where
  pub upsert_chat-shown :
      (c : String) (i : MessageInsert) (db : Database T)
      → unread_shown c (upsert_chat i db) ≡ unread_shown c db
  unfolding upsert_chat new_chat touch_chat
  upsert_chat-shown c i db =
      rw
        (find-upsert (chat_is c) (chat_is i.message.chat_jid) (new_chat i) (touch_chat i) db.chats
          (λ r. refl))
        (ground arith)

  upsert_chat-exists :
      (i : MessageInsert) (db : Database T)
      → is_some (find_where (chat_is i.message.chat_jid) (upsert_chat i db).chats) ≡ true
  unfolding upsert_chat new_chat touch_chat
  upsert_chat-exists i db =
      rw
        (find-upsert (chat_is i.message.chat_jid) (chat_is i.message.chat_jid) (new_chat i)
          (touch_chat i) db.chats (λ r. refl))
        (ground
          (arith, exists-find (chat_is i.message.chat_jid) db.chats, eq_refl i.message.chat_jid))

  pub upsert_chat-messages :
      (i : MessageInsert) (db : Database T) → (upsert_chat i db).messages ≡ db.messages
  unfolding upsert_chat
  upsert_chat-messages i db = refl

  bump_unread-shown :
      (c k : String) (db : Database T)
      → is_some (find_where (chat_is k) db.chats) ≡ true
      → unread_shown c (bump_unread k db) ≡ unread_shown c db + (if k == c then 1 else 0)
  unfolding bump_unread
  bump_unread-shown c k db there = elim (Option-cases (find_where (chat_is c) db.chats)) [
    | inl missing ↦
        rw (find-update (chat_is c) (chat_is k) bump db.chats (λ r. refl), missing)
          (ground (arith, eq_iff k c, missing))
    | inr (r, found) ↦
        rw (find-update (chat_is c) (chat_is k) bump db.chats (λ r. refl), found)
          (ground (
            arith,
            eq_iff k c,
            eq_iff r.jid k,
            eq_iff r.jid c,
            find_some (chat_is c) db.chats r found,
          ))
  ]

  pub revive-tables :
      (i : MessageInsert) (db : Database T)
      → ((revive i db).chats ≡ db.chats) × ((revive i db).messages ≡ db.messages)
  unfolding revive
  revive-tables i db = ground arith

-- The counter and the number of unread messages of a chat change by the same amount.
abbrev pub SameDrift : {T : Type 0} → String → Database T → Database T → Type 0
SameDrift c db db' = unread_shown c db' + unread_count c db ≡ unread_count c db' + unread_shown c db

module _ {T : Type 0} (codecs : Codecs T) where
  store-SameDrift :
      (c : String) (i : MessageInsert) (unread : Bool) (db : Database T)
      → is_some (find_where (chat_is i.message.chat_jid) db.chats) ≡ true
      → (unread ≡ true → i.message.from_me ≡ false)
      → SameDrift c db (store codecs i unread db).0
  unfolding store new_message
  store-SameDrift c i unread db there incoming =
      elim (Bool-cases (exists_where (same_key (new_message codecs i unread db)) db.messages)) [
        | inl old ↦ rw old (omega arith)
        | inr new ↦ rw new (elim (Bool-cases unread) [
          | inl counts ↦ ground (
            arith,
            incoming counts,
            bump_unread-shown c i.message.chat_jid
                (record db { messages = db.messages ++ new_message codecs i unread db ∷ [] }) there,
            count-append (is_unread c) db.messages (new_message codecs i unread db),
          )
          | inr silent ↦
              ground
                (arith, count-append (is_unread c) db.messages (new_message codecs i unread db))
        ])
      ]

  queue_intent-SameDrift :
      (c : String) (i : MessageInsert) (o : Option UnreadReceipt) (db db' : Database T)
      → SameDrift c db db'
      → SameDrift c db (queue_intent i o db')
  unfolding queue_intent queue_chat queue_receipt
  queue_intent-SameDrift c i none db db' h = h
  queue_intent-SameDrift c i (some r) db db' h = h

  -- An insert, whatever becomes of the message, moves the counter as it moves the count.
  insert_message_into-SameDrift :
      (c : String) (i : MessageInsert) (db : Database T)
      → (i.increment_unread ≡ true → i.message.from_me ≡ false)
      → SameDrift c db (insert_message_into codecs i db).0
  unfolding insert_message_into absorb counts_unread
  insert_message_into-SameDrift c i db incoming = elim (Bool-cases (is_dropped i.message db)) [
    | inl dropped ↦ rw dropped (omega arith)
    | inr taken ↦
        let before = upsert_chat i (revive i db) in
        let same_shown : unread_shown c before ≡ unread_shown c db =
          upsert_chat-shown c i (revive i db)
          ∙ ap (λ l. counter (find_where (chat_is c) l)) (revive-tables i db).0 in
        let same_count : unread_count c before ≡ unread_count c db =
          ap (count_where (is_unread c))
            (upsert_chat-messages i (revive i db) ∙ (revive-tables i db).1) in
        let counts = counts_unread codecs i before in
        let stored =
          store-SameDrift c i counts before (upsert_chat-exists i (revive i db))
            (λ e. incoming (ground arith)) in
        rw taken (
          queue_intent-SameDrift c i i.read_intent db (store codecs i counts before).0
            (omega (arith, stored, same_shown, same_count)))
  ]

  -- Storing a message keeps every counter equal to the number of unread messages, given that only
  -- incoming messages are counted.
  pub insert_message_into-Consistent :
      (i : MessageInsert) (db : Database T)
      → (i.increment_unread ≡ true → i.message.from_me ≡ false)
      → Consistent db
      → Consistent (insert_message_into codecs i db).0
  insert_message_into-Consistent i db incoming h c =
      omega (arith, insert_message_into-SameDrift c i db incoming, h c)
