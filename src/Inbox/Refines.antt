-- ===== src/Inbox/Refines.antt =====
-- The inbox as a map from the full source of a message to what was received under it.
use mathlib.Core.Path.{subst}
use omarchy_whatsapp.Prelude.{
  List, Option, [], arith, eq_iff, eq_refl, if◌then◌else◌, none, refl, some, true, false, ◌∙◌, ◌∷◌,
  ◌≡◌, ap, Bool-cases, inl, inr,
}
use omarchy_whatsapp.Prelude.Table.{delete_where, find_where}
use omarchy_whatsapp.Prelude.Table.Lookup.{
  exists-find, find-append, find-delete_other, find-delete_all,
}
use omarchy_whatsapp.Inbox.{
  DurableInbound, InboundKey, Step, commit, commit_inbound_batch, finish, finish_inbound, has_key,
  insert_or_ignore, run, same_key, step,
}

-- One key of the map: what is pending under it is not replaced, and is gone once it is finished.
abbrev pub or_else : Option DurableInbound → Option DurableInbound → Option DurableInbound
or_else none new = new
or_else (some r) new = some r

abbrev pub after : InboundKey → Step → Option DurableInbound → Option DurableInbound
after k (commit records) shown = or_else shown (find_where (has_key k) records)
after k (finish j) shown = if same_key j k then none else shown

abbrev pub after_all : InboundKey → List Step → Option DurableInbound → Option DurableInbound
after_all k [] shown = shown
after_all k (s ∷ steps) shown = after_all k steps (after k s shown)

same_key_eq : (a b : InboundKey) → same_key a b ≡ true → a ≡ b
same_key_eq a b h = ground (
  arith,
  eq_iff a.chat_jid b.chat_jid,
  eq_iff a.sender_jid b.sender_jid,
  eq_iff a.message_id b.message_id,
)

same_key_refl : (a : InboundKey) → same_key a a ≡ true
same_key_refl a = ground (arith, eq_refl a.chat_jid, eq_refl a.sender_jid, eq_refl a.message_id)

-- Whether the keys are the same or not, the row that was there first is the one found.
find-insert_same :
    (r : DurableInbound) (rows : List DurableInbound)
    → find_where (has_key r.key) (insert_or_ignore r rows).0
      ≡ or_else (find_where (has_key r.key) rows) (if has_key r.key r then some r else none)
unfolding insert_or_ignore
find-insert_same r rows = ground (
  arith,
  same_key_refl r.key,
  exists-find (has_key r.key) rows,
  find-append (has_key r.key) rows r,
)

find-insert_other :
    (k : InboundKey) (r : DurableInbound) (rows : List DurableInbound)
    → has_key k r ≡ false
    → find_where (has_key k) (insert_or_ignore r rows).0
      ≡ or_else (find_where (has_key k) rows) (if has_key k r then some r else none)
unfolding insert_or_ignore
find-insert_other k r rows apart =
    ground (arith, exists-find (has_key k) rows, find-append (has_key k) rows r)

find-insert :
    (k : InboundKey) (r : DurableInbound) (rows : List DurableInbound)
    → find_where (has_key k) (insert_or_ignore r rows).0
      ≡ or_else (find_where (has_key k) rows) (if has_key k r then some r else none)
find-insert k r rows = elim (Bool-cases (has_key k r)) [
  | inl same ↦
      subst
        (λ j.
          find_where (has_key j) (insert_or_ignore r rows).0
          ≡ or_else (find_where (has_key j) rows) (if has_key j r then some r else none))
        (same_key_eq r.key k same) (find-insert_same r rows)
  | inr apart ↦ find-insert_other k r rows apart
]

key-apart : (a k j : InboundKey) → same_key j k ≡ false → same_key a k ≡ true → same_key a j ≡ false
key-apart a k j apart h = ground (
  arith,
  eq_iff a.chat_jid k.chat_jid,
  eq_iff a.sender_jid k.sender_jid,
  eq_iff a.message_id k.message_id,
  eq_iff a.chat_jid j.chat_jid,
  eq_iff a.sender_jid j.sender_jid,
  eq_iff a.message_id j.message_id,
  eq_iff j.chat_jid k.chat_jid,
  eq_iff j.sender_jid k.sender_jid,
  eq_iff j.message_id k.message_id,
)

find-finish_other :
    (k j : InboundKey) (rows : List DurableInbound)
    → same_key j k ≡ false
    → find_where (has_key k) (delete_where (has_key j) rows) ≡ find_where (has_key k) rows
find-finish_other k j rows apart =
    find-delete_other (has_key k) (has_key j) rows (λ r. key-apart r.key k j apart)

find-commit :
    (k : InboundKey) (records rows : List DurableInbound)
    → find_where (has_key k) (commit_inbound_batch records rows).0
      ≡ or_else (find_where (has_key k) rows) (find_where (has_key k) records)
unfolding commit_inbound_batch
find-commit k [] rows = ground arith
find-commit k (r ∷ records) rows =
    ground (arith, find-commit k records (insert_or_ignore r rows).0, find-insert k r rows)

find-finish :
    (k j : InboundKey) (rows : List DurableInbound)
    → find_where (has_key k) (finish_inbound j rows).0
      ≡ (if same_key j k then none else find_where (has_key k) rows)
unfolding finish_inbound
find-finish k j rows = elim (Bool-cases (same_key j k)) [
  | inl same ↦
      subst
        (λ i.
          find_where (has_key i) (delete_where (has_key j) rows)
          ≡ (if same_key j i then none else find_where (has_key i) rows))
        (same_key_eq j k same) (ground (arith, same_key_refl j, find-delete_all (has_key j) rows))
  | inr apart ↦ ground (arith, find-finish_other k j rows apart)
]

-- Whatever batches are committed and whatever messages are finished, in whatever order, the inbox holds
-- under each full source exactly what a map would hold that keeps the first message put under the
-- source and removes it when it is finished.
pub run-refines :
    (k : InboundKey) (steps : List Step) (rows : List DurableInbound)
    → find_where (has_key k) (run steps rows) ≡ after_all k steps (find_where (has_key k) rows)
unfolding run step
run-refines k [] rows = refl
run-refines k (commit records ∷ steps) rows =
    run-refines k steps (step (commit records) rows)
    ∙ ap (after_all k steps) (find-commit k records rows)
run-refines k (finish j ∷ steps) rows =
    run-refines k steps (step (finish j) rows) ∙ ap (after_all k steps) (find-finish k j rows)
