-- ===== src/Presence/Subscriptions.antt =====
-- Which addresses the client is subscribed to after a run of calls (reconcile_connection_intent_inner in
-- crates/daemon/src/presence.rs).
use omarchy_whatsapp.Prelude.{
  Bool, List, Option, String, [], false, if◌then◌else◌, not, some, true, ◌&&◌, ◌==◌, ◌∷◌, ◌≡◌,
}
use omarchy_whatsapp.Presence.{
  ClientCall, call_available, call_subscribe, call_unavailable, call_unsubscribe,
}

-- Addresses, with equality, of which a text that is no group's is the only one to give its own.
pub record Address {Jid : Type 0} (parse : String → Option Jid) (is_group : Jid → Bool)
    (same : Jid → Jid → Bool) (k : String) (j : Jid) : Type 0 where
  pub parses : parse k ≡ some j
  pub direct : is_group j ≡ false
  pub itself : same j j ≡ true
  pub only : (raw : String) (x : Jid) → parse raw ≡ some x → same x j ≡ true → (raw == k) ≡ true

abbrev turn : Bool → Bool → Bool → Bool
turn b hit s = if hit then b else s

module _ {Jid : Type 0} (same : Jid → Jid → Bool) (succeeds : ClientCall Jid → Bool) where
  -- Whether the client is subscribed to an address after some calls. A call that fails changes nothing.
  abbrev pub subscribed : Jid → List (ClientCall Jid) → Bool → Bool
  subscribed j [] s = s
  subscribed j (call_available ∷ calls) s = subscribed j calls s
  subscribed j (call_unavailable ∷ calls) s = subscribed j calls s
  subscribed j (call_subscribe x ∷ calls) s =
      subscribed j calls (turn true (same x j && succeeds (call_subscribe x)) s)
  subscribed j (call_unsubscribe x ∷ calls) s =
      subscribed j calls (turn false (same x j && succeeds (call_unsubscribe x)) s)

-- Whether an address is subscribed to after a reconciliation, where it was before or not (`s`).
abbrev pub subscribed_after : (was shown came went s : Bool) → Bool
subscribed_after was shown came went s =
    if shown && (not was && came) then true else if was && (not shown && went) then false else s
