-- ===== src/State/Invalidation/Windows.antt =====
-- The window of one key over runs of calls (InvalidationCoalescer in crates/daemon/src/state.rs).
use omarchy_whatsapp.Prelude.Table.{delete_where, exists_where, find_where, map_if}
use omarchy_whatsapp.Prelude.Table.Lookup.{
  exists-find, find-append, find-delete_other, find-update, find_some,
}
use omarchy_whatsapp.Prelude.{
  Bool, Bool-cases, List, Option, Option-cases, String, [], ap, arith, eq_iff, false, inl, inr,
  is_some, none, not, refl, some, sym, true, ◌&&◌, ◌==◌, ◌∙◌, ◌∷◌, ◌≡◌,
}
use omarchy_whatsapp.State.Invalidation.{
  Op, Window, cancel, cancelled, close, finish, finished, record_key, recorded, run, set_trailing,
  step, window_is,
}

-- The window of a key, and a call that does not end it.
abbrev pub window : String → List Window → Option Window
window k ws = find_where (window_is k) ws

abbrev pub leaves_open : String → Op → Bool
leaves_open k (recorded x) = true
leaves_open k (finished x) = not (x == k)
leaves_open k (cancelled x) = not (x == k)

abbrev pub all_leave_open : String → List Op → Bool
all_leave_open k [] = true
all_leave_open k (o ∷ os) = leaves_open k o && all_leave_open k os

abbrev pub due : Option Window → Bool
due none = false
due (some w) = w.trailing

-- A trailing publish is due for the key.
abbrev pub is_due : String → List Window → Bool
is_due k ws = due (window k ws)

due-map_if :
    (p : Window → Bool) (o : Option Window)
    → due o ≡ true
    → due (map_if p (λ w. record w { trailing = true }) o) ≡ true
due-map_if p none h = h
due-map_if p (some w) h = ground arith

due-some : (o : Option Window) → due o ≡ true → is_some o ≡ true
due-some none h = h
due-some (some w) h = refl

-- A window of another key.
apart :
    (k x : String) (w : Window) → (x == k) ≡ false → window_is k w ≡ true → window_is x w ≡ false
apart k x w h e = ground (arith, eq_iff x k, eq_iff w.key k, eq_iff w.key x)

map_if-other :
    (k x : String) (f : Window → Window) (ws : List Window) (o : Option Window)
    → (x == k) ≡ false
    → window k ws ≡ o
    → map_if (window_is x) f o ≡ o
map_if-other k x f ws none h e = refl
map_if-other k x f ws (some w) h e = rw (apart k x w h (find_some (window_is k) ws w e)) refl

window-set_other :
    (k x : String) (b : Bool) (ws : List Window)
    → (x == k) ≡ false
    → window k (set_trailing x b ws) ≡ window k ws
unfolding set_trailing
window-set_other k x b ws h =
    find-update (window_is k) (window_is x) (λ w. record w { trailing = b }) ws (λ w. refl)
    ∙ map_if-other k x (λ w. record w { trailing = b }) ws (window k ws) h refl

window-delete_other :
    (k x : String) (ws : List Window)
    → (x == k) ≡ false
    → window k (delete_where (window_is x) ws) ≡ window k ws
window-delete_other k x ws h =
    find-delete_other (window_is k) (window_is x) ws (λ w e. apart k x w h e)

record_key-due :
    (k x : String) (ws : List Window) → is_due k ws ≡ true → is_due k (record_key x ws).0 ≡ true
unfolding record_key set_trailing
record_key-due k x ws h = elim (Bool-cases (exists_where (window_is x) ws)) [
  | inl there ↦ rw there (
      ap due
        (find-update (window_is k) (window_is x) (λ w. record w { trailing = true }) ws (λ w. refl))
      ∙ due-map_if (window_is x) (window k ws) h)
  | inr fresh ↦ rw fresh (
      ap due (find-append (window_is k) ws (record { key = x; trailing = false }))
      ∙ rw (exists-find (window_is k) ws, due-some (window k ws) h) h)
]

close-other :
    (k x : String) (ws : List Window) (o : Option Window)
    → (x == k) ≡ false
    → window k (close x ws o).0 ≡ window k ws
unfolding close
close-other k x ws none h = refl
close-other k x ws (some w) h = elim (Bool-cases w.trailing) [
  | inl due_now ↦ rw due_now (window-set_other k x false ws h)
  | inr quiet ↦ rw quiet (window-delete_other k x ws h)
]

step-due :
    (k : String) (ws : List Window) (o : Op)
    → leaves_open k o ≡ true
    → is_due k ws ≡ true
    → is_due k (step ws o) ≡ true
unfolding step finish cancel
step-due k ws (recorded x) ajar h = record_key-due k x ws h
step-due k ws (finished x) ajar h = ap due (close-other k x ws (window x ws) (ground arith)) ∙ h
step-due k ws (cancelled x) ajar h = ap due (window-delete_other k x ws (ground arith)) ∙ h

run-due :
    (k : String) (ws : List Window) (os : List Op)
    → all_leave_open k os ≡ true
    → is_due k ws ≡ true
    → is_due k (run ws os) ≡ true
unfolding run
run-due k ws [] ajar h = h
run-due k ws (o ∷ os) ajar h =
    run-due k (step ws o) os (ground arith) (step-due k ws o (ground arith) h)

finish-due : (k : String) (ws : List Window) → is_due k ws ≡ true → (finish k ws).1 ≡ true
unfolding finish close
finish-due k ws h = elim (Option-cases (window k ws)) [
  | inl missing ↦ absurd (cc (sym h ∙ ap due missing))
  | inr (w, found) ↦ rw found (rw (sym (ap due found) ∙ h) refl)
]

record_key-folded :
    (k : String) (ws : List Window)
    → (record_key k ws).1 ≡ false
    → is_due k (record_key k ws).0 ≡ true
unfolding record_key set_trailing
record_key-folded k ws h = elim (Bool-cases (exists_where (window_is k) ws)) [
  | inl there ↦ elim (Option-cases (window k ws)) [
    | inl missing ↦ absurd (cc (sym there ∙ (exists-find (window_is k) ws ∙ ap is_some missing)))
    | inr (w, found) ↦ rw there (
        ap due (
          find-update (window_is k) (window_is k) (λ w. record w { trailing = true }) ws
            (λ w. refl))
        ∙ rw (found, find_some (window_is k) ws w found) refl)
  ]
  | inr fresh ↦ absurd (cc (rw fresh at h))
]

-- An invalidation that record_key does not publish at once is published when the window of its key
-- ends, whatever calls come in between that do not end that window.
pub record_key-published :
    (k : String) (ws : List Window) (os : List Op)
    → (record_key k ws).1 ≡ false
    → all_leave_open k os ≡ true
    → (finish k (run (record_key k ws).0 os)).1 ≡ true
record_key-published k ws os folded ajar =
    finish-due k (run (record_key k ws).0 os)
      (run-due k (record_key k ws).0 os ajar (record_key-folded k ws folded))
