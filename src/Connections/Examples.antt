-- ===== src/Connections/Examples.antt =====
-- Tests of the connections, and the theorems at concrete states.
use omarchy_whatsapp.Connections.Ids.{Connected, connect-total}
use omarchy_whatsapp.Prelude.{[], arith, some, true, ℕ, ◌∷◌, ◌≡◌}
use omarchy_whatsapp.Connections.{ConnectionIntents, connect}

-- The counter is about to wrap, and the ID 1 is in use.
abbrev wrapping : ConnectionIntents
wrapping = record {
  next_id = 18446744073709551615;
  connections =
      record { id = 1; intent = record { active_chat = some "a"; available = true } } ∷ [];
}

connect-total_example :
    (s' : ConnectionIntents) × ((id : ℕ) × ((connect wrapping ≡ some (s', id))
        × Connected wrapping s' id))
connect-total_example = connect-total wrapping (omega arith) (omega arith)
