-- ===== src/Presence.antt =====
-- The presence of the account and the subscriptions to that of the chats that are shown
-- (crates/daemon/src/presence.rs). The network's addresses are a parameter: `parse` and `is_group` of `Jid`.
pub mod Subscriptions
pub mod Examples
use omarchy_whatsapp.Prelude.{
  Bool, List, Option, String, [], contains, false, if◌then◌else◌, none, not, same_bool, some, true,
  ◌&&◌, ◌++◌, ◌||◌, ◌∷◌,
}
use omarchy_whatsapp.Connections.{ConnectionState}

unfoldable pub effective_presence_available : Bool → Bool → Bool
effective_presence_available requested sync_pending = requested && not sync_pending

-- The calls that the client gets, in order.
pub data ClientCall (Jid : Type 0) : Type 0 where
  call_available call_unavailable : ClientCall Jid
  call_subscribe call_unsubscribe : Jid → ClientCall Jid

-- HashSet::difference
abbrev pub difference : List String → List String → List String
difference [] ys = []
difference (x ∷ xs) ys = let rest = difference xs ys in if contains x ys then rest else x ∷ rest

module _ {Jid : Type 0} (parse : String → Option Jid) (is_group : Jid → Bool) where
  -- A jid that does not parse and a group are skipped.
  call_for : (Jid → ClientCall Jid) → Option Jid → List (ClientCall Jid)
  call_for make none = []
  call_for make (some jid) = if is_group jid then [] else make jid ∷ []

  calls_for : (Jid → ClientCall Jid) → List String → List (ClientCall Jid)
  unfolding call_for
  calls_for make [] = []
  calls_for make (raw ∷ raws) = call_for make (parse raw) ++ calls_for make raws

  presence_call : Bool → Bool → List (ClientCall Jid)
  presence_call true true = []
  presence_call true false = call_available ∷ []
  presence_call false no_name = call_unavailable ∷ []

  -- `has_client` tells whether shared.client is set; without a client nothing is called. A call that
  -- fails is warned of, and the calls go on: which of them take effect is up to the network.
  -- `no_name` tells that the push name of the client is empty, and `sync_pending` is presence_sync_pending.
  unfoldable pub reconcile_connection_intent_inner :
      Bool → ConnectionState → ConnectionState → Bool → Bool → Bool → List (ClientCall Jid)
  unfolding calls_for presence_call effective_presence_available
  reconcile_connection_intent_inner false before after force_presence no_name sync_pending = []
  reconcile_connection_intent_inner true before after force_presence no_name sync_pending =
      (if force_presence || not (same_bool before.available after.available)
        then presence_call (effective_presence_available after.available sync_pending) no_name
        else [])
      ++ (calls_for call_unsubscribe (difference before.active_chats after.active_chats)
          ++ calls_for call_subscribe (difference after.active_chats before.active_chats))
