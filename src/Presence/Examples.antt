-- ===== src/Presence/Examples.antt =====
-- Tests of the reconciliation, and the theorem at concrete connections.
use omarchy_whatsapp.Prelude.{
  Bool, String, [], false, not, refl, some, true, ◌==◌, ◌∷◌, ◌≡◌, Option,
}
use omarchy_whatsapp.Connections.{ConnectionState}
use omarchy_whatsapp.Presence.{
  ClientCall, call_subscribe, call_unsubscribe, reconcile_connection_intent_inner,
}

-- Addresses that are texts, of which "g" is a group's.
abbrev parse_text : String → Option String
parse_text raw = some raw

abbrev is_g : String → Bool
is_g jid = jid == "g"

abbrev shown_before : ConnectionState
shown_before = record { available = true; active_chats = "a" ∷ "g" ∷ [] }

abbrev shown_after : ConnectionState
shown_after = record { available = true; active_chats = "b" ∷ [] }

moved_on :
    reconcile_connection_intent_inner parse_text is_g true shown_before shown_after false false
      false
    ≡ call_unsubscribe "a" ∷ call_subscribe "b" ∷ []
unfolding reconcile_connection_intent_inner
moved_on = refl

no_client :
    reconcile_connection_intent_inner parse_text is_g false shown_before shown_after true false
      false
    ≡ []
unfolding reconcile_connection_intent_inner
no_client = refl

-- A network on which every call but those for "a" succeeds.
abbrev but_for_a : ClientCall String → Bool
but_for_a (call_unsubscribe x) = not (x == "a")
but_for_a (call_subscribe x) = not (x == "a")
but_for_a _ = true
