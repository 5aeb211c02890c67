-- ===== src/Inbox/Examples.antt =====
-- Concrete inboxes.
use omarchy_whatsapp.Prelude.{List, String, [], false, refl, length, ◌∷◌, ◌≡◌, ◌+◌, ◌⊎◌, Bool}
use omarchy_whatsapp.Prelude.Int.{pos, ℤ}
use omarchy_whatsapp.Prelude.Table.{All, count_where, find_where}
use omarchy_whatsapp.Inbox.{
  DurableInbound, InboundKey, Step, clamped, commit, commit_inbound_batch, finish, finish_inbound,
  has_key, insert_oldest, insert_or_ignore, limit_to, oldest_first, pending_inbound, run,
}
use omarchy_whatsapp.Inbox.Refines.{after_all, run-refines}
use omarchy_whatsapp.Inbox.Pending.{NotBefore, Sorted, left_out, pending_inbound-oldest}

abbrev key_of : String → InboundKey
key_of id = record { chat_jid = "chat"; sender_jid = "ada"; message_id = id }

abbrev received : String → String → ℤ → DurableInbound
received id name time = record {
  key = key_of id;
  message = 1 ∷ 2 ∷ [];
  push_name = name;
  timestamp = pos 5;
  media_type = "text";
  is_from_me = false;
  is_group = false;
  is_offline = false;
  committed_at = time;
}

abbrev inbox : List DurableInbound
inbox = received "a" "Ada" (pos 9) ∷ received "b" "Ada" (pos 7) ∷ []

abbrev steps : List Step
steps =
    commit (received "a" "other" (pos 10) ∷ received "c" "Ada" (pos 8) ∷ [])
    ∷ finish (key_of "b")
    ∷ []

second_ignored :
    (commit_inbound_batch (received "a" "x" (pos 1) ∷ received "c" "x" (pos 1) ∷ []) inbox).1 ≡ 1
unfolding commit_inbound_batch insert_or_ignore
second_ignored = refl

oldest_of_two : pending_inbound 0 inbox ≡ received "b" "Ada" (pos 7) ∷ []
unfolding pending_inbound oldest_first insert_oldest limit_to
oldest_of_two = refl

finished_once : (finish_inbound (key_of "z") inbox).1 ≡ false
unfolding finish_inbound
finished_once = refl

run-refines_example :
    find_where (has_key (key_of "a")) (run steps inbox)
    ≡ after_all (key_of "a") steps (find_where (has_key (key_of "a")) inbox)
run-refines_example = run-refines (key_of "a") steps inbox

pending_inbound-oldest_example :
    ((q : DurableInbound → Bool)
      → count_where q (pending_inbound 1 inbox) + count_where q (left_out 1 inbox)
        ≡ count_where q inbox)
    × (Sorted (pending_inbound 1 inbox)
        × (All (λ s. All (NotBefore s) (left_out 1 inbox)) (pending_inbound 1 inbox)
            × ((length (pending_inbound 1 inbox) ≡ clamped 1) ⊎ (left_out 1 inbox ≡ []))))
pending_inbound-oldest_example = pending_inbound-oldest 1 inbox
