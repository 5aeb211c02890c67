-- ===== src/Database/History/Counters.antt =====
-- The calls that keep every unread counter right.
use omarchy_whatsapp.Database.Insert.{
  MessageInsert, insert_message_inner, insert_message_into, prune_chat_history, retention,
}
use omarchy_whatsapp.Database.ReadState.Counters.{
  apply_read_boundary-Consistent, reconcile-Consistent,
}
use omarchy_whatsapp.Database.History.{
  Op, clear, delete, delete_one, insert, read, read_state, reconcile, run, self_read_receipt, step,
  synced_read_state,
}
use omarchy_whatsapp.Database.Unread.{Consistent, insert_message_into-Consistent}
use omarchy_whatsapp.Database.Removal.{delete_message}
use omarchy_whatsapp.Database.{Codecs, Database, in_chat, is_unread, same_key}
use omarchy_whatsapp.Database.ReadState.{
  apply_read_boundary, apply_read_state, apply_self_read_receipt, apply_synced_read_state,
  mark_read, mark_unread, message_is, reconcile_unread_after_full_sync, settings_row,
  stamp_read_state, synced_boundary,
}
use omarchy_whatsapp.Database.Removal.Counters.{
  clear_chat-Consistent, delete_chat-Consistent, delete_message-counters,
}
use omarchy_whatsapp.Prelude.Int.{ltb_ℤ, ℤ}
use omarchy_whatsapp.Prelude.Table.Count.{count-implies}
use omarchy_whatsapp.Prelude.Table.{count_where}
use omarchy_whatsapp.Prelude.Newest.{keep_newest_within}
use omarchy_whatsapp.Prelude.{
  Bool, Bool-cases, List, Option, String, [], ap, arith, false, if◌then◌else◌, inl, inr, not, sym,
  true, ◌&&◌, ◌==◌, ◌∙◌, ◌∷◌, ◌≡◌, ◌≤◌,
}

-- A call whose counters are right afterwards where they were before: an insert counts only incoming
-- messages and prunes nothing, and no single message is deleted.
abbrev pub KeepsCounters : {T : Type 0} → Codecs T → Database T → Op → Type 0
KeepsCounters codecs db (insert i) =
    (i.increment_unread ≡ true → i.message.from_me ≡ false)
    × (count_where (in_chat i.message.chat_jid) (insert_message_into codecs i db).0.messages
        ≤ retention)
KeepsCounters codecs db (delete_one c id) =
    count_where (λ m. in_chat c m && (m.id == id && (not m.from_me && not m.read))) db.messages ≡ 0
KeepsCounters codecs db _ = Unit

-- A run whose every call is so.
abbrev pub AllKeep : {T : Type 0} → Codecs T → Database T → List Op → Type 0
AllKeep codecs db [] = Unit
AllKeep codecs db (o ∷ os) = KeepsCounters codecs db o × AllKeep codecs (step codecs db o) os

module _ {T : Type 0} (codecs : Codecs T) where
  insert-Consistent :
      (i : MessageInsert) (db : Database T)
      → KeepsCounters codecs db (insert i)
      → Consistent db
      → Consistent (insert_message_inner codecs i db).0
  unfolding insert_message_inner prune_chat_history
  insert-Consistent i db keeps h c =
      let kept =
        keep_newest_within (λ m. m.timestamp) same_key retention (in_chat i.message.chat_jid)
          (insert_message_into codecs i db).0.messages keeps.1 in
      insert_message_into-Consistent codecs i db keeps.0 h c
      ∙ ap (count_where (is_unread c)) (sym kept)

  unread-Consistent :
      (c : String) (db : Database T) → Consistent db → Consistent (mark_unread c db).0
  unfolding mark_unread
  unread-Consistent c db h = h

  state-Consistent :
      (c : String) (r : Bool) (db : Database T)
      → Consistent db
      → Consistent (apply_read_state codecs c r db).0
  unfolding apply_read_state
  state-Consistent c true db h = apply_read_boundary-Consistent codecs c _ [] db h
  state-Consistent c false db h = unread-Consistent c db h

  stamp-Consistent :
      (c : String) (event : ℤ) (db : Database T)
      → Consistent db
      → Consistent (stamp_read_state c event db)
  unfolding stamp_read_state
  stamp-Consistent c event db h = h

  synced-Consistent :
      (c : String) (r : Bool) (boundary : Option ℤ) (ids : List String) (event : ℤ)
      (db : Database T)
      → Consistent db
      → Consistent (apply_synced_read_state codecs c r boundary ids event db).0
  unfolding apply_synced_read_state
  synced-Consistent c r boundary ids event db h =
      elim (Bool-cases (ltb_ℤ event (settings_row c db.settings).read_state_updated_at)) [
        | inl stale ↦ rw stale h
        | inr fresh ↦ rw fresh (stamp-Consistent c event (applied r) (right r))
      ]
    where
      applied : Bool → Database T
      applied b =
          (if b
            then apply_read_boundary codecs c (synced_boundary c boundary ids event db) ids db
            else apply_read_state codecs c false db).0

      right : (b : Bool) → Consistent (applied b)
      right true = apply_read_boundary-Consistent codecs c _ ids db h
      right false = state-Consistent c false db h

  receipt-Consistent :
      (c : String) (ids : List String) (receipt : ℤ) (db : Database T)
      → Consistent db
      → Consistent (apply_self_read_receipt codecs c ids receipt db).0
  unfolding apply_self_read_receipt
  receipt-Consistent c [] receipt db h = h
  receipt-Consistent c (id ∷ ids) receipt db h =
      apply_read_boundary-Consistent codecs c _ (id ∷ ids) db h

  reconcile-keeps :
      (complete : Bool) (db : Database T)
      → Consistent db
      → Consistent (reconcile_unread_after_full_sync complete db).0
  unfolding reconcile_unread_after_full_sync
  reconcile-keeps false db h = h
  reconcile-keeps true db h = reconcile-Consistent db h

  delete_one-Consistent :
      (c id : String) (db : Database T)
      → KeepsCounters codecs db (delete_one c id)
      → Consistent db
      → Consistent (delete_message c id db)
  delete_one-Consistent c id db quiet h k =
      let after = delete_message-counters k c id db in
      let none_left =
        count-implies (λ m. is_unread k m && message_is c id m)
          (λ m. in_chat c m && (m.id == id && (not m.from_me && not m.read))) db.messages
          (λ m e. ground arith) in
      omega (arith, after.0, after.1, none_left, quiet, h k)

  step-Consistent :
      (db : Database T) (o : Op)
      → KeepsCounters codecs db o
      → Consistent db
      → Consistent (step codecs db o)
  unfolding step mark_read
  step-Consistent db (insert i) keeps h = insert-Consistent i db keeps h
  step-Consistent db (read c) keeps h = apply_read_boundary-Consistent codecs c _ [] db h
  step-Consistent db (read_state c r) keeps h = state-Consistent c r db h
  step-Consistent db (synced_read_state c r boundary ids event) keeps h =
      synced-Consistent c r boundary ids event db h
  step-Consistent db (self_read_receipt c ids receipt) keeps h =
      receipt-Consistent c ids receipt db h
  step-Consistent db (reconcile complete) keeps h = reconcile-keeps complete db h
  step-Consistent db (delete c t) keeps h = delete_chat-Consistent c t db h
  step-Consistent db (clear c t) keeps h = clear_chat-Consistent c t db h
  step-Consistent db (delete_one c id) keeps h = delete_one-Consistent c id db keeps h

  -- From a history whose counters are right, any run of inserts, reads (mark_read, apply_read_state,
  -- apply_synced_read_state, apply_self_read_receipt), reconciliations, deleted or cleared chats and
  -- deleted messages ends with right counters, where every insert counts only incoming messages and leaves no more than 1000 in its chat, and every single
  -- message that is deleted had been read or was sent.
  pub run-Consistent :
      (db : Database T) (os : List Op)
      → AllKeep codecs db os
      → Consistent db
      → Consistent (run codecs db os)
  unfolding run
  run-Consistent db [] keeps h = h
  run-Consistent db (o ∷ os) keeps h =
      run-Consistent (step codecs db o) os keeps.1 (step-Consistent db o keeps.0 h)
