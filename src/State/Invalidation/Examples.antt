-- ===== src/State/Invalidation/Examples.antt =====
-- Tests of the windows, and the theorem at a concrete run.
use omarchy_whatsapp.State.Invalidation.Windows.{record_key-published}
use omarchy_whatsapp.Prelude.{List, [], false, refl, true, ◌∷◌, ◌≡◌}
use omarchy_whatsapp.State.Invalidation.{Window, finish, finished, record_key, recorded, run}

abbrev open_chats : List Window
open_chats = record { key = "chats"; trailing = false } ∷ []

folded : (record_key "chats" open_chats).1 ≡ false
unfolding record_key
folded = refl

record_key-published_example :
    (finish "chats"
      (run (record_key "chats" open_chats).0 (recorded "unread" ∷ finished "unread" ∷ []))).1
    ≡ true
record_key-published_example =
    record_key-published "chats" open_chats (recorded "unread" ∷ finished "unread" ∷ []) folded refl
