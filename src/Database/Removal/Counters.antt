-- ===== src/Database/Removal/Counters.antt =====
-- The unread counters when chats and messages are removed.
use omarchy_whatsapp.Database.ReadState.{message_is, settings_row}
use omarchy_whatsapp.Database.{ChatRow, Database, MessageRow, chat_is, in_chat, is_unread}
use omarchy_whatsapp.Database.Unread.{
  Consistent, counter, counter-map_if, counter-update, counter-update_other, unread_count,
  unread_shown,
}
use omarchy_whatsapp.Prelude.Table.Count.{count-delete-le, count-delete_other, count-delete_split}
use omarchy_whatsapp.Prelude.Table.{
  count_where, delete_where, exists_where, find_where, update_where,
}
use omarchy_whatsapp.Prelude.Table.Lookup.{find-delete_all, find-delete_other, find-update}
use omarchy_whatsapp.Database.Removal.{
  clear_chat, delete_chat, delete_message, delete_messages_through, newest_message,
  refresh_chat_tail, settle_chat, tail_after, through,
}
use omarchy_whatsapp.Prelude.Int.{ltb_ℤ, ℤ}
use mathlib.Core.Path.{subst}
use omarchy_whatsapp.Prelude.{
  Bool, Bool-cases, List, Option, Option-cases, String, [], ap, arith, eq_iff, false, inl, inr,
  none, refl, some, sym, true, ◌&&◌, ◌+◌, ◌==◌, ◌∙◌, ◌∷◌, ◌≡◌,
}

-- A claim on every chat: the chat of the call, and the others.
pub by_chat : (P : String → Type 0) (c k : String) → P c → ((k == c) ≡ false → P k) → P k
by_chat P c k here there = elim (Bool-cases (k == c)) [
  | inl same ↦ subst P (sym ((eq_iff k c).0 same)) here
  | inr other ↦ there other
]

module _ {T : Type 0} where
  through-other :
      (c k : String) (t : ℤ) (m : MessageRow T)
      → (k == c) ≡ false
      → is_unread k m ≡ true
      → through c t m ≡ false
  through-other c k t m other h =
      ground (arith, eq_iff m.chat_jid k, eq_iff m.chat_jid c, eq_iff k c)

  count-none :
      (c : String) (ms : List (MessageRow T))
      → exists_where (in_chat c) ms ≡ false
      → count_where (is_unread c) ms ≡ 0
  count-none c [] h = refl
  count-none c (m ∷ ms) h = ground (arith, count-none c ms)

  -- The chat of a window, and every other chat.
  Exact : String → Database T → Type 0
  Exact k db = unread_shown k db ≡ unread_count k db

  window-other :
      (c k : String) (t : ℤ) (db : Database T)
      → (k == c) ≡ false
      → count_where (is_unread k) (delete_where (through c t) db.messages)
        ≡ count_where (is_unread k) db.messages
  window-other c k t db other =
      count-delete_other (is_unread k) (through c t) db.messages
        (λ m h. through-other c k t m other h)

  refresh-here :
      (c : String) (db : Database T)
      → (find_where (chat_is c) db.chats ≡ none → unread_count c db ≡ 0)
      → Exact c (refresh_chat_tail c db)
  unfolding refresh_chat_tail Exact
  refresh-here c db none_left =
      counter-update c _ _ db.chats (λ r. refl) (λ r. refl)
      ∙ elim (Option-cases (find_where (chat_is c) db.chats)) [
        | inl missing ↦ rw missing (sym (none_left missing))
        | inr (r, found) ↦ rw found refl
      ]

  refresh-other :
      (c k : String) (db : Database T)
      → (k == c) ≡ false
      → unread_shown k (refresh_chat_tail c db) ≡ unread_shown k db
  unfolding refresh_chat_tail
  refresh-other c k db other = counter-update_other c k _ db.chats other (λ r. refl)

  -- One chat after its window is emptied, given that the counter was right before.
  emptied-none :
      (c : String) (t : ℤ) (db : Database T)
      → Exact c db
      → find_where (chat_is c) db.chats ≡ none
      → count_where (is_unread c) (delete_where (through c t) db.messages) ≡ 0
  unfolding Exact
  emptied-none c t db h missing =
      let nothing : unread_count c db ≡ 0 = sym h ∙ ap counter missing in
      omega (arith, count-delete-le (is_unread c) (through c t) db.messages, nothing)

  settle-here :
      (c : String) (t : ℤ) (newer : Bool) (db : Database T)
      → Exact c db
      → exists_where (in_chat c) (delete_where (through c t) db.messages) ≡ newer
      → Exact c (settle_chat c newer (delete_messages_through c t db))
  unfolding settle_chat delete_messages_through Exact
  settle-here c t true db h e =
      refresh-here c (delete_messages_through c t db) (λ missing. emptied-none c t db h missing)
  settle-here c t false db h e =
      ap counter (find-delete_all (chat_is c) db.chats) ∙ sym (count-none c _ e)

  settle-other :
      (c k : String) (t : ℤ) (newer : Bool) (db : Database T)
      → (k == c) ≡ false
      → Exact k db
      → Exact k (settle_chat c newer (delete_messages_through c t db))
  unfolding settle_chat delete_messages_through Exact refresh_chat_tail
  settle-other c k t true db other h =
      refresh-other c k (delete_messages_through c t db) other
      ∙ (h ∙ sym (window-other c k t db other))
  settle-other c k t false db other h =
      ap counter (
        find-delete_other (chat_is k) (chat_is c) db.chats
          (λ r e. ground (arith, eq_iff r.jid k, eq_iff r.jid c, eq_iff k c)))
      ∙ (h ∙ sym (window-other c k t db other))

  -- Deleting a chat keeps the counter of every chat equal to the number of its unread messages.
  pub delete_chat-Consistent :
      (c : String) (t : ℤ) (db : Database T) → Consistent db → Consistent (delete_chat c t db)
  unfolding delete_chat delete_messages_through Exact
  delete_chat-Consistent c t db h k =
      elim (Bool-cases (ltb_ℤ t (settings_row c db.settings).cleared_at)) [
        | inl older ↦ rw older (h k)
        | inr newer ↦ rw newer (
            by_chat
              (λ x. Exact x (
                settle_chat c (exists_where (in_chat c) (delete_messages_through c t db).messages)
                  (delete_messages_through c t db)))
              c k (settle-here c t _ db (h c) refl) (λ other. settle-other c k t _ db other (h k)))
      ]

  -- Clearing a chat does so, too.
  pub clear_chat-Consistent :
      (c : String) (t : ℤ) (db : Database T) → Consistent db → Consistent (clear_chat c t db)
  unfolding clear_chat delete_messages_through Exact settle_chat
  clear_chat-Consistent c t db h k =
      elim (Bool-cases (ltb_ℤ t (settings_row c db.settings).cleared_at)) [
        | inl older ↦ rw older (h k)
        | inr newer ↦ rw newer (
            by_chat (λ x. Exact x (refresh_chat_tail c (delete_messages_through c t db))) c k
              (refresh-here c (delete_messages_through c t db)
                (λ missing. emptied-none c t db (h c) missing))
              (λ other. settle-other c k t true db other (h k)))
      ]

  tail-counter :
      (k c : String) (o : Option (MessageRow T)) (rows : List ChatRow)
      → counter (find_where (chat_is k) (update_where (chat_is c) (tail_after o) rows))
        ≡ counter (find_where (chat_is k) rows)
  unfolding tail_after
  tail-counter k c none rows =
      rw (find-update (chat_is k) (chat_is c) (tail_after {T = T} none) rows (λ r. refl)) (
        counter-map_if (chat_is c) (tail_after {T = T} none) (find_where (chat_is k) rows)
          (λ r. refl))
  tail-counter k c (some m) rows =
      rw (find-update (chat_is k) (chat_is c) (tail_after (some m)) rows (λ r. refl))
        (counter-map_if (chat_is c) (tail_after (some m)) (find_where (chat_is k) rows) (λ r. refl))

  -- delete_message leaves every counter as it was, while the deleted messages no longer count.
  pub delete_message-counters :
      (k c id : String) (db : Database T)
      → (unread_shown k (delete_message c id db) ≡ unread_shown k db)
        × (unread_count k (delete_message c id db)
              + count_where (λ m. is_unread k m && message_is c id m) db.messages
            ≡ unread_count k db)
  unfolding delete_message
  delete_message-counters k c id db = (
    tail-counter k c (newest_message c (delete_where (message_is c id) db.messages)) db.chats,
    count-delete_split (is_unread k) (message_is c id) db.messages,
  )
