-- ===== src/Database/Examples.antt =====
-- Tests of the history database, and the theorems at a concrete history.
use omarchy_whatsapp.Database.Retention.{count-insert_message_into-le, insert_message_inner-bounded}
use omarchy_whatsapp.Database.History.Deleted.{deleted-stays-deleted, deleted_chat-stays-deleted}
use omarchy_whatsapp.Database.ReadQueue.{PendingReadBatch, finish_read_batch}
use omarchy_whatsapp.Database.History.Counters.{AllKeep, run-Consistent}
use omarchy_whatsapp.Database.ReadState.Late.{SameUnread, late-stays-read}
use omarchy_whatsapp.Database.{Codecs, Database, UnreadReceipt, in_chat, is_unread}
use omarchy_whatsapp.Database.Unread.{Consistent, unread_count, unread_shown}
use omarchy_whatsapp.Prelude.Table.{count_where, update_where}
use omarchy_whatsapp.Database.ReadState.Marks.{apply_read_boundary-messages, to_read}
use omarchy_whatsapp.Database.ReadQueue.Keeps.{chat_waits, finish_read_batch-keeps, receipt_waits}
use omarchy_whatsapp.Prelude.Json.{plain_list, plain_list-JsonLaws, same_list}
use omarchy_whatsapp.Prelude.Int.{pos, ℤ}
use omarchy_whatsapp.Database.Removal.{delete_chat, delete_message}
use omarchy_whatsapp.Database.Insert.{
  MessageInsert, insert_message_inner, insert_message_into, read_boundary_ids,
  read_boundary_ids-none,
}
use omarchy_whatsapp.Database.Removal.Counters.{delete_message-counters}
use omarchy_whatsapp.Prelude.{
  List, String, [], ap, arith, false, length, none, refl, true, ◌&&◌, ◌+◌, ◌∷◌, ◌≡◌, ◌≤◌,
}
use omarchy_whatsapp.Database.ReadState.{
  apply_read_boundary, message_is, new_boundary, read_boundary_ids_cap, set_read,
}
use omarchy_whatsapp.Database.History.{Op, clear, insert, read, run}

-- Read boundaries are stored as they are; media and quotes are not looked at.
abbrev plain_codecs : Codecs (List String)
plain_codecs = record {
  media = record { to_string = λ m. []; from_str = λ t. none; same = same_list };
  quote = record { to_string = λ q. []; from_str = λ t. none; same = same_list };
  ids = plain_list;
}

abbrev pub empty_history : Database (List String)
empty_history = record {
  chats = [];
  messages = [];
  settings = [];
  message_tombstones = [];
  message_reads = [];
  contacts = [];
  reactions = [];
  reaction_tombstones = [];
  poll_secrets = [];
  poll_votes = [];
  pending_read_chats = [];
  pending_read_messages = [];
}

abbrev incoming : String → ℤ → MessageInsert
incoming id sent = record {
  message = record {
    id = id;
    chat_jid = "a@s";
    sender_jid = "b@s";
    sender_name = "B";
    text = "hello";
    timestamp = sent;
    from_me = false;
    receipt = 0;
    delivered_at = none;
    read_at = none;
    media = none;
    quote = none;
  };
  chat_name = "A";
  is_group = false;
  increment_unread = true;
  from_history = false;
  read_intent = none;
}

-- Two unread messages.
abbrev two_messages : Database (List String)
two_messages =
    run plain_codecs empty_history
      (insert (incoming "m1" (pos 10)) ∷ insert (incoming "m2" (pos 20)) ∷ [])

abbrev one_day : List Op
one_day = insert (incoming "m1" (pos 10)) ∷ read "a@s" ∷ clear "c@s" (pos 5) ∷ []

one_day-AllKeep : AllKeep plain_codecs empty_history one_day
one_day-AllKeep = (
  (
    λ _. refl,
    omega (
      arith,
      count-insert_message_into-le plain_codecs (in_chat "a@s") (incoming "m1" (pos 10))
          empty_history,
    ),
  ),
  (tt, (tt, tt)),
)

few : length (read_boundary_ids plain_codecs none) + 1 ≤ read_boundary_ids_cap
few = omega (arith, ap length (read_boundary_ids-none plain_codecs))

empty_history-Consistent : Consistent empty_history
empty_history-Consistent c = refl

run-Consistent_example : Consistent (run plain_codecs empty_history one_day)
run-Consistent_example =
    run-Consistent plain_codecs empty_history one_day one_day-AllKeep empty_history-Consistent

insert_message_inner-bounded_example :
    count_where
      (in_chat "a@s")
      (insert_message_inner plain_codecs (incoming "m3" (pos 30)) two_messages).0.messages
    ≤ 1000
insert_message_inner-bounded_example =
    insert_message_inner-bounded plain_codecs (incoming "m3" (pos 30)) two_messages

apply_read_boundary-messages_example :
    (apply_read_boundary plain_codecs "a@s" (pos 11) ("m1" ∷ []) two_messages).0.messages
    ≡ update_where
        (to_read "a@s" (new_boundary "a@s" (pos 11) ("m1" ∷ []) two_messages) ("m1" ∷ []))
        set_read
        two_messages.messages
apply_read_boundary-messages_example =
    apply_read_boundary-messages plain_codecs "a@s" (pos 11) ("m1" ∷ []) two_messages

late-stays-read_example :
    SameUnread "a@s"
      (apply_read_boundary plain_codecs "a@s" (pos 11) ("m9" ∷ []) empty_history).0
      (insert_message_into plain_codecs
        (incoming "m9" (pos 15))
        (apply_read_boundary plain_codecs "a@s" (pos 11) ("m9" ∷ []) empty_history).0).0
late-stays-read_example =
    late-stays-read plain_codecs plain_list-JsonLaws "a@s" (pos 11) ("m9" ∷ [])
      (incoming "m9" (pos 15)) empty_history few refl refl

-- A counter that is too high.
abbrev drifted : Database (List String)
drifted = record empty_history {
  chats =
      record {
        jid = "a@s";
        name = "A";
        name_source = 20;
        last_message = "hello";
        last_timestamp = pos 10;
        unread = 3;
        is_group = false;
      }
      ∷ [];
}

abbrev later_calls : List Op
later_calls = insert (incoming "m3" (pos 30)) ∷ read "a@s" ∷ clear "c@s" (pos 5) ∷ []

deleted-stays-deleted_example :
    insert_message_into plain_codecs
      (incoming "m1" (pos 10))
      (run plain_codecs (delete_message "a@s" "m1" two_messages) later_calls)
    ≡ (run plain_codecs (delete_message "a@s" "m1" two_messages) later_calls, false)
deleted-stays-deleted_example =
    deleted-stays-deleted plain_codecs (incoming "m1" (pos 10)) two_messages later_calls

deleted_chat-stays-deleted_example :
    insert_message_into plain_codecs
      (incoming "m1" (pos 10))
      (run plain_codecs (delete_chat "a@s" (pos 15) two_messages) later_calls)
    ≡ (run plain_codecs (delete_chat "a@s" (pos 15) two_messages) later_calls, false)
deleted_chat-stays-deleted_example =
    deleted_chat-stays-deleted plain_codecs 15 (incoming "m1" (pos 10)) two_messages later_calls
      (omega arith)

delete_message-counters_example :
    (unread_shown "a@s" (delete_message "a@s" "m1" two_messages) ≡ unread_shown "a@s" two_messages)
    × (unread_count "a@s" (delete_message "a@s" "m1" two_messages)
          + count_where (λ m. is_unread "a@s" m && message_is "a@s" "m1" m) two_messages.messages
        ≡ unread_count "a@s" two_messages)
delete_message-counters_example = delete_message-counters "a@s" "a@s" "m1" two_messages

abbrev receipt_of_m1 : UnreadReceipt
receipt_of_m1 = record { message_id = "m1"; sender_jid = "b@s"; is_group = false }

abbrev receipt_of_m2 : UnreadReceipt
receipt_of_m2 = record { message_id = "m2"; sender_jid = "b@s"; is_group = false }

-- Two receipts wait.
abbrev waiting : Database (List String)
waiting = record empty_history {
  pending_read_chats = record { chat_jid = "a@s"; created_at = pos 1 } ∷ [];
  pending_read_messages =
      record { chat_jid = "a@s"; message_id = "m1"; sender_jid = "b@s"; is_group = false }
      ∷ record { chat_jid = "a@s"; message_id = "m2"; sender_jid = "b@s"; is_group = false }
      ∷ [];
}

abbrev first_batch : PendingReadBatch
first_batch = record { chat_jid = "a@s"; receipts = receipt_of_m1 ∷ [] }

finish_read_batch-keeps_example :
    (receipt_waits "a@s" "b@s" "m2" (finish_read_batch first_batch waiting).0 ≡ true)
    × (chat_waits "a@s" (finish_read_batch first_batch waiting).0 ≡ true)
finish_read_batch-keeps_example =
    finish_read_batch-keeps "a@s" "b@s" "m2" first_batch waiting refl refl refl
