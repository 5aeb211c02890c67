-- ===== src/Connections/Aggregate.antt =====
-- The aggregate of all connections: what `state` and `is_focused` tell after each call.
use omarchy_whatsapp.Prelude.Table.{delete_where, exists_where, update_where}
use omarchy_whatsapp.Prelude.{
  Bool, Bool-cases, List, Option, String, [], ap, arith, contains, eq_iff, false, inl, inr, none,
  opt_eq, refl, some, sym, ℕ, ◌&&◌, ◌++◌, ◌==◌, ◌||◌, ◌∙◌, ◌∷◌, ◌≡◌,
}
use omarchy_whatsapp.Connections.{
  ConnectionIntents, ConnectionState, Entry, disconnect, entry_is, gather, insert_chat, is_focused,
  set_active_chat, set_available, state, update_intent,
}

abbrev no_state : ConnectionState
no_state = record { available = false; active_chats = [] }

available_entry : Entry → Bool
available_entry e = e.intent.available

focuses : String → Entry → Bool
focuses chat e = opt_eq e.intent.active_chat (some chat)

contains-append :
    (id : String) (xs : List String) (x : String)
    → contains id (xs ++ x ∷ []) ≡ (contains id xs || x == id)
contains-append id [] x = ground arith
contains-append id (y ∷ ys) x = ground (arith, contains-append id ys x)

contains-insert_chat :
    (chat : String) (o : Option String) (chats : List String)
    → contains chat (insert_chat o chats) ≡ (contains chat chats || opt_eq o (some chat))
unfolding insert_chat
contains-insert_chat chat none chats = ground arith
contains-insert_chat chat (some c) chats = elim (Bool-cases (contains c chats)) [
  | inl old ↦ rw old (ground (arith, eq_iff c chat))
  | inr new ↦ rw new (contains-append chat chats c)
]

gather-available :
    (es : List Entry) (s : ConnectionState)
    → (gather es s).available ≡ (s.available || exists_where available_entry es)
unfolding gather available_entry
gather-available [] s = ground arith
gather-available (e ∷ es) s = gather-available es _ ∙ ground arith

gather-active :
    (chat : String) (es : List Entry) (s : ConnectionState)
    → contains chat (gather es s).active_chats
      ≡ (contains chat s.active_chats || exists_where (focuses chat) es)
unfolding gather focuses
gather-active chat [] s = ground arith
gather-active chat (e ∷ es) s =
    gather-active chat es _
    ∙ ground (arith, contains-insert_chat chat e.intent.active_chat s.active_chats)

-- The aggregate is exactly what the connections intend: it is available where one of them is, and a
-- chat is among the active ones where one of them shows it, which is what is_focused tells.
pub state-is_focused :
    (s : ConnectionIntents) (chat : String)
    → ((state s).available ≡ exists_where (λ e. e.intent.available) s.connections)
      × (contains chat (state s).active_chats ≡ is_focused chat s)
unfolding state is_focused available_entry focuses
state-is_focused s chat = (gather-available s.connections _, gather-active chat s.connections _)

focus-set :
    (c : String) (id : ℕ) (chat : Option String) (es : List Entry)
    → exists_where (focuses c) (
        update_where
          (entry_is id)
          (λ e. record e { intent = record (e.intent) { active_chat = chat } })
          es)
      ≡ ((exists_where (entry_is id) es && opt_eq chat (some c))
          || exists_where (focuses c) (delete_where (entry_is id) es))
unfolding focuses
focus-set c id chat [] = refl
focus-set c id chat (e ∷ es) = ground (arith, focus-set c id chat es)

-- After a connection sets its chat, a chat is focused where it is that one, or where another
-- connection shows it; an ID that no connection has changes nothing.
pub set_active_chat-is_focused :
    (c : String) (id : ℕ) (chat : Option String) (s : ConnectionIntents)
    → is_focused c (set_active_chat id chat s).0 ≡ (
        ((set_active_chat id chat s).1 && opt_eq chat (some c)) || is_focused c (disconnect id s).0)
unfolding set_active_chat update_intent is_focused disconnect focuses
set_active_chat-is_focused c id chat s = focus-set c id chat s.connections

available-set :
    (id : ℕ) (a : Bool) (es : List Entry)
    → exists_where available_entry (
        update_where
          (entry_is id)
          (λ e. record e { intent = record (e.intent) { available = a } })
          es)
      ≡ ((exists_where (entry_is id) es && a)
          || exists_where available_entry (delete_where (entry_is id) es))
unfolding available_entry
available-set id a [] = refl
available-set id a (e ∷ es) = ground (arith, available-set id a es)

-- The same of availability: the daemon is available where this connection says so or another does.
pub set_available-state :
    (id : ℕ) (a : Bool) (s : ConnectionIntents)
    → (state (set_available id a s).0).available
      ≡ (((set_available id a s).1 && a) || (state (disconnect id s).0).available)
unfolding set_available update_intent disconnect state
set_available-state id a s =
    gather-available (set_available id a s).0.connections no_state
    ∙ (available-set id a s.connections
        ∙ ap (λ b. (exists_where (entry_is id) s.connections && a) || b)
            (sym (gather-available (delete_where (entry_is id) s.connections) no_state)))
