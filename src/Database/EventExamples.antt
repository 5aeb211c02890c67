-- ===== src/Database/EventExamples.antt =====
-- The theorems on reactions, settings and receipts at concrete tables.
use omarchy_whatsapp.Database.Receipts.{update_receipts}
use omarchy_whatsapp.Database.{Database, MessageRow, same_key}
use omarchy_whatsapp.Database.Receipts.Advance.{AdvancesRow, update_receipts-AdvancesRow}
use omarchy_whatsapp.Database.Reactions.Latest.{apply_reaction-shown, removed-stays-removed, shown}
use omarchy_whatsapp.Database.Reactions.{ReactionEvent, apply_reaction}
use omarchy_whatsapp.Prelude.Table.{find_where}
use omarchy_whatsapp.Prelude.{List, String, [], arith, false, none, refl, some, true, ◌∷◌, ◌≡◌}
use omarchy_whatsapp.Prelude.Int.{pos}
use omarchy_whatsapp.Database.Examples.{empty_history}

abbrev removal : ReactionEvent
removal = record {
  chat_jid = "a@s";
  message_id = "m1";
  reactor_jid = "b@s";
  emoji = "";
  from_me = false;
  timestamp = pos 9;
}

-- One reaction.
abbrev reacted : Database (List String)
reacted = record empty_history {
  reactions =
      record {
        chat_jid = "a@s";
        message_id = "m1";
        reactor_jid = "b@s";
        emoji = "+";
        from_me = false;
        timestamp = pos 5;
      }
      ∷ [];
}

apply_reaction-shown_example :
    shown
      (record removal { emoji = "heart" })
      (apply_reaction (record removal { emoji = "heart" }) reacted).0
    ≡ "heart"
apply_reaction-shown_example =
    apply_reaction-shown (record removal { emoji = "heart" }) reacted (omega arith) (omega arith)

removed-stays-removed_example :
    shown removal
      (apply_reaction
        (record removal { timestamp = pos 8; emoji = "late"; from_me = false })
        (apply_reaction removal reacted).0).0
    ≡ ""
removed-stays-removed_example =
    removed-stays-removed removal (pos 8) "late" false reacted refl (omega arith) (omega arith)
      (omega arith)

abbrev sent_message : MessageRow (List String)
sent_message = record {
  chat_jid = "a@s";
  id = "m5";
  sender_jid = "me@s";
  sender_name = "Me";
  text = "hi";
  timestamp = pos 3;
  from_me = true;
  read = true;
  receipt = 1;
  delivered_at = none;
  receipt_read_at = none;
  media_json = none;
  quote_json = none;
}

update_receipts-AdvancesRow_example :
    AdvancesRow (find_where (same_key sent_message) (sent_message ∷ [])) (
      find_where
        (same_key sent_message)
        (update_receipts "a@s"
          ("m5" ∷ [])
          2
          (some "b@s")
          (pos 7)
          (record empty_history { messages = sent_message ∷ [] })).0.messages)
update_receipts-AdvancesRow_example =
    update_receipts-AdvancesRow sent_message "a@s" ("m5" ∷ []) 2 (some "b@s") (pos 7)
      (record empty_history { messages = sent_message ∷ [] })
