-- ===== src/Connections.antt =====
-- What the connected clients intend (crates/daemon/src/connections.rs): the chat that each of them
-- shows, and whether it is available. The map of the connections is the list of its entries.
pub mod Ids
pub mod Aggregate
pub mod Examples
use omarchy_whatsapp.Prelude.{
  Bool, List, Option, String, [], contains, eqb, false, if◌then◌else◌, leb, length, none, opt_eq,
  some, suc, zero, ℕ, ◌%◌, ◌++◌, ◌+◌, ◌^◌, ◌||◌, ◌∷◌,
}
use omarchy_whatsapp.Prelude.Table.{delete_where, exists_where, update_where}

pub record ConnectionIntent : Type 0 where
  pub active_chat : Option String
  pub available : Bool

pub record Entry : Type 0 where
  pub id : ℕ
  pub intent : ConnectionIntent

pub record ConnectionIntents : Type 0 where
  pub next_id : ℕ
  pub connections : List Entry

pub record ConnectionState : Type 0 where
  pub available : Bool
  pub active_chats : List String

abbrev pub no_intent : ConnectionIntent
no_intent = record { active_chat = none; available = false }

abbrev pub entry_is : ℕ → Entry → Bool
entry_is id e = eqb e.id id

-- next_id.wrapping_add(1).max(1)
pub next : ℕ → ℕ
next n = let wrapped = (n + 1) % 2 ^ 64 in if leb 1 wrapped then wrapped else 1

-- The loop that skips the IDs in use, on fuel.
pub free_id : ℕ → ℕ → List Entry → Option ℕ
unfolding next
free_id zero n entries = none
free_id (suc fuel) n entries =
    let rest = free_id fuel (next n) entries in
    if exists_where (entry_is (next n)) entries then rest else some (next n)

entered : ConnectionIntents → Option ℕ → Option (ConnectionIntents × ℕ)
entered s none = none
entered s (some id) = some (
  record {
    next_id = id;
    connections = s.connections ++ record { id = id; intent = no_intent } ∷ [];
  },
  id,
)

-- The loop body runs once, and then once more for each ID in use.
pub connect : ConnectionIntents → Option (ConnectionIntents × ℕ)
unfolding free_id entered
connect s = entered s (free_id (suc (length s.connections)) s.next_id s.connections)

update_intent :
    ℕ → (ConnectionIntent → ConnectionIntent) → ConnectionIntents → ConnectionIntents × Bool
update_intent id f s = (
  record s {
    connections = update_where (entry_is id) (λ e. record e { intent = f e.intent }) s.connections;
  },
  exists_where (entry_is id) s.connections,
)

pub set_active_chat : ℕ → Option String → ConnectionIntents → ConnectionIntents × Bool
unfolding update_intent
set_active_chat id chat = update_intent id (λ i. record i { active_chat = chat })

pub set_available : ℕ → Bool → ConnectionIntents → ConnectionIntents × Bool
unfolding update_intent
set_available id available = update_intent id (λ i. record i { available = available })

pub disconnect : ℕ → ConnectionIntents → ConnectionIntents × Bool
disconnect id s = (
  record s { connections = delete_where (entry_is id) s.connections },
  exists_where (entry_is id) s.connections,
)

-- HashSet::insert
insert_chat : Option String → List String → List String
insert_chat none chats = chats
insert_chat (some chat) chats = if contains chat chats then chats else chats ++ chat ∷ []

gather : List Entry → ConnectionState → ConnectionState
unfolding insert_chat
gather [] state = state
gather (e ∷ es) state = gather es (record {
  available = state.available || e.intent.available;
  active_chats = insert_chat e.intent.active_chat state.active_chats;
})

pub state : ConnectionIntents → ConnectionState
unfolding gather
state s = gather s.connections (record { available = false; active_chats = [] })

pub is_focused : String → ConnectionIntents → Bool
is_focused chat s = exists_where (λ e. opt_eq e.intent.active_chat (some chat)) s.connections
