-- ===== src/Database/PollExamples.antt =====
-- The theorems on polls at a concrete poll.
use omarchy_whatsapp.Prelude.Json.{plain_list, plain_list-JsonLaws, same_list}
use omarchy_whatsapp.Database.Polls.Selections.{Fair, apply_poll_vote-Fair}
use omarchy_whatsapp.Database.Polls.{PollVote, apply_poll_vote}
use omarchy_whatsapp.Database.{Codecs, Database}
use omarchy_whatsapp.Prelude.{List, String, [], false, none, some, true, ◌∷◌}
use omarchy_whatsapp.Prelude.Int.{pos}
use omarchy_whatsapp.Protocol.{Poll, poll}
use omarchy_whatsapp.Database.Examples.{empty_history}

abbrev lunch : Poll
lunch = record {
  question = "lunch?";
  options =
      record { name = "yes"; votes = 0; selected_by_me = false; voter_jids = [] }
      ∷ record { name = "no"; votes = 0; selected_by_me = false; voter_jids = [] }
      ∷ [];
  selectable_count = 1;
  total_voters = 0;
  quiz = false;
  correct_option_index = none;
  end_timestamp = pos 0;
}

-- Every stored medium is the poll.
abbrev poll_codecs : Codecs (List String)
poll_codecs = record {
  media = record { to_string = λ m. []; from_str = λ t. some (poll lunch); same = same_list };
  quote = record { to_string = λ q. []; from_str = λ t. none; same = same_list };
  ids = plain_list;
}

abbrev vote_yes : PollVote
vote_yes = record {
  chat_jid = "a@s";
  message_id = "p1";
  voter_jid = "b@s";
  selected_options = "yes" ∷ "yes" ∷ [];
  from_me = false;
  timestamp = pos 9;
}

abbrev poll_history : Database (List String)
poll_history = record empty_history {
  messages =
      record {
        chat_jid = "a@s";
        id = "p1";
        sender_jid = "c@s";
        sender_name = "C";
        text = "lunch?";
        timestamp = pos 3;
        from_me = false;
        read = true;
        receipt = 0;
        delivered_at = none;
        receipt_read_at = none;
        media_json = some [];
        quote_json = none;
      }
      ∷ [];
}

apply_poll_vote-Fair_example :
    Fair poll_codecs (apply_poll_vote poll_codecs vote_yes poll_history).0.poll_votes
apply_poll_vote-Fair_example =
    apply_poll_vote-Fair poll_codecs plain_list-JsonLaws vote_yes poll_history tt
