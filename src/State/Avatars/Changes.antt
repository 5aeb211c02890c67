-- ===== src/State/Avatars/Changes.antt =====
-- Which files a flush announces (AvatarCoalescer in crates/daemon/src/state.rs).
use omarchy_whatsapp.Prelude.{
  Bool, Bool-cases, List, String, [], ap, arith, contains, eq_iff, false, inl, inr, none, refl, sym,
  true, ◌&&◌, ◌++◌, ◌==◌, ◌||◌, ◌∷◌, ◌≡◌, ◌∙◌,
}
use omarchy_whatsapp.Prelude.Table.{find_where}
use omarchy_whatsapp.State.Avatars.{
  AvatarCoalescer, Entry, changed, entry_is, flush_coalescer, fold_changes, insert, jids_of,
}

contains-insert :
    (k jid : String) (xs : List String) → contains k (insert jid xs) ≡ (jid == k || contains k xs)
unfolding insert
contains-insert k jid [] = refl
contains-insert k jid (x ∷ xs) =
    ground (arith, contains-insert k jid xs, eq_iff jid x, eq_iff x k, eq_iff jid k)

with_change :
    (s p j c : Bool) → (s ≡ true → c ≡ true) → ((s || p) || (j && c)) ≡ (p || ((s || j) && c))
with_change true p j c h = rw (h refl) (ground arith)
with_change false p j c h = refl

without_change :
    (s p j c : Bool) → (s ≡ true → c ≡ false) → (p || (j && c)) ≡ (p || ((s || j) && c))
without_change true p j c h = rw (h refl) (ground arith)
without_change false p j c h = refl

contains-append :
    (k : String) (xs ys : List String) → contains k (xs ++ ys) ≡ (contains k xs || contains k ys)
contains-append k [] ys = refl
contains-append k (x ∷ xs) ys = ground (arith, contains-append k xs ys)

module _ {F : Type 0} (same : F → F → Bool) where
  changed-same :
      (k jid : String) (current before : List (Entry F))
      → (jid == k) ≡ true
      → changed same jid current before ≡ changed same k current before
  changed-same k jid current before s = ap (λ j. changed same j current before) ((eq_iff jid k).0 s)

  contains-fold_changes :
      (k : String) (jids : List String) (current before : List (Entry F)) (pending : List String)
      → contains k (fold_changes same jids current before pending)
        ≡ (contains k pending || (contains k jids && changed same k current before))
  unfolding fold_changes
  contains-fold_changes k [] current before pending = ground arith
  contains-fold_changes k (jid ∷ jids) current before pending =
      elim (Bool-cases (changed same jid current before)) [
        | inl yes_ ↦ rw yes_ (
            contains-fold_changes k jids current before (insert jid pending)
            ∙ rw (contains-insert k jid pending) (
                with_change (jid == k) (contains k pending) (contains k jids) _
                  (λ s. sym (changed-same k jid current before s) ∙ yes_)))
        | inr no_ ↦ rw no_ (
            contains-fold_changes k jids current before pending
            ∙ without_change (jid == k) (contains k pending) (contains k jids) _
                (λ s. sym (changed-same k jid current before s) ∙ no_))
      ]

  find-contains :
      (k : String) (es : List (Entry F))
      → contains k (jids_of es) ≡ false
      → find_where (entry_is k) es ≡ none
  find-contains k [] h = refl
  find-contains k (e ∷ es) h = ground (arith, find-contains k es)

  -- A file that is in neither scan has not changed.
  changed-listed :
      (k : String) (current before : List (Entry F))
      → contains k (jids_of current ++ jids_of before) ≡ false
      → changed same k current before ≡ false
  changed-listed k current before h =
      let both = contains-append k (jids_of current) (jids_of before) in
      rw (find-contains k current (ground arith), find-contains k before (ground arith)) refl

  -- A flush announces the files that were pending and those that were added, removed or rewritten since the
  -- last scan, and no others.
  pub flush-exact :
      (jid : String) (current : List (Entry F)) (c : AvatarCoalescer F)
      → contains jid (flush_coalescer same current c).1
        ≡ (contains jid c.changed_jids || changed same jid current c.fingerprints)
  unfolding flush_coalescer
  flush-exact jid current c = ground (
    arith,
    contains-fold_changes jid (jids_of current ++ jids_of c.fingerprints) current c.fingerprints
        c.changed_jids,
    changed-listed jid current c.fingerprints,
  )
