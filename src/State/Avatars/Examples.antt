-- ===== src/State/Avatars/Examples.antt =====
-- Tests of the avatar announcements, and the theorem at concrete scans.
use omarchy_whatsapp.Prelude.{List, String, [], contains, refl, true, ◌==◌, ◌||◌, ◌∷◌, ◌≡◌}
use omarchy_whatsapp.State.Avatars.{AvatarCoalescer, Entry, changed, flush_coalescer}
use omarchy_whatsapp.State.Avatars.Changes.{flush-exact}

abbrev file : String → String → Entry String
file jid print = record { jid = jid; fingerprint = print }

-- The file of b was rewritten and that of c removed since the last scan; that of d is new.
abbrev last_scan : AvatarCoalescer String
last_scan = record {
  fingerprints = file "a" "1" ∷ file "b" "1" ∷ file "c" "1" ∷ [];
  changed_jids = [];
  seeded = true;
  flush_scheduled = true;
}

abbrev new_scan : List (Entry String)
new_scan = file "a" "1" ∷ file "b" "2" ∷ file "d" "1" ∷ []

three_changes : (flush_coalescer ◌==◌ new_scan last_scan).1 ≡ "b" ∷ "c" ∷ "d" ∷ []
unfolding flush_coalescer
three_changes = refl

flush-exact_example :
    contains "b" (flush_coalescer ◌==◌ new_scan last_scan).1
    ≡ (contains "b" last_scan.changed_jids || changed ◌==◌ "b" new_scan last_scan.fingerprints)
flush-exact_example = flush-exact ◌==◌ "b" new_scan last_scan
