-- ===== src/State/Invalidation.antt =====
-- How invalidations are folded into windows (InvalidationCoalescer in crates/daemon/src/state.rs).
-- The map of the open windows is the list of its entries.
pub mod Windows
pub mod Examples
use omarchy_whatsapp.Prelude.{
  Bool, List, Option, String, [], false, if◌then◌else◌, none, some, true, ◌++◌, ◌==◌, ◌∷◌,
}
use omarchy_whatsapp.Prelude.Table.{delete_where, exists_where, find_where, update_where}

pub record Window : Type 0 where
  pub key : String
  pub trailing : Bool

abbrev pub window_is : String → Window → Bool
window_is k w = w.key == k

set_trailing : String → Bool → List Window → List Window
set_trailing k b = update_where (window_is k) (λ w. record w { trailing = b })

-- Whether the caller publishes now.
pub record_key : String → List Window → List Window × Bool
unfolding set_trailing
record_key k ws =
    if exists_where (window_is k) ws
    then (set_trailing k true ws, false)
    else (ws ++ record { key = k; trailing = false } ∷ [], true)

close : String → List Window → Option Window → List Window × Bool
unfolding set_trailing
close k ws none = (ws, false)
close k ws (some w) =
    if w.trailing then (set_trailing k false ws, true) else (delete_where (window_is k) ws, false)

-- Whether a trailing publish is due.
pub finish : String → List Window → List Window × Bool
unfolding close
finish k ws = close k ws (find_where (window_is k) ws)

pub cancel : String → List Window → List Window
cancel k = delete_where (window_is k)

-- A call of the broadcaster.
pub data Op : Type 0 where
  recorded finished cancelled : String → Op

pub step : List Window → Op → List Window
unfolding record_key finish cancel
step ws (recorded k) = (record_key k ws).0
step ws (finished k) = (finish k ws).0
step ws (cancelled k) = cancel k ws

pub run : List Window → List Op → List Window
unfolding step
run ws [] = ws
run ws (o ∷ os) = run (step ws o) os
