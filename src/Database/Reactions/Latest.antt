-- ===== src/Database/Reactions/Latest.antt =====
-- The last writer of a reaction wins, and a removal holds against what was sent before it.
use omarchy_whatsapp.Database.Reactions.{
  ReactionEvent, add_reaction, apply_reaction, blocks, newer_stone, overwrite, reaction_is,
  remove_reaction, replaces, row_of, stone_is, stone_of,
}
use omarchy_whatsapp.Database.{Database, ReactionRow, ReactionTombstone}
use omarchy_whatsapp.Prelude.Table.Count.{count-delete-le, count_of_not-exists}
use omarchy_whatsapp.Prelude.Table.{
  count_where, exists_where, find_where, keep_unless, map_if, update_where,
}
use omarchy_whatsapp.Prelude.Table.Lookup.{
  exists-find, find-append, find-delete, find-update, find_of_count, find_some,
}
use omarchy_whatsapp.Prelude.Int.{leb_ℤ, ℤ, ◌≤ℤ◌}
use omarchy_whatsapp.Prelude.{
  Bool, Bool-cases, Option, Option-cases, String, [], ap, arith, eq_iff, eq_refl, false,
  if◌then◌else◌, inl, inr, not, is_some, none, refl, some, sym, true, ◌&&◌, ◌++◌, ◌==◌, ◌∙◌, ◌∷◌,
  ◌≡◌, ◌≤◌,
}

abbrev pub emoji_of : Option ReactionRow → String
emoji_of none = ""
emoji_of (some r) = r.emoji

-- The reaction that is shown under the event's key; the empty text where there is none.
abbrev pub shown : {T : Type 0} → ReactionEvent → Database T → String
shown e db = emoji_of (find_where (reaction_is e) db.reactions)

-- No stored reaction of the event's key is newer than the event.
abbrev pub NotNewer : ReactionEvent → Option ReactionRow → Type 0
NotNewer e none = Unit
NotNewer e (some r) = r.timestamp ≤ℤ e.timestamp

overwritten :
    (e : ReactionEvent) (r : ReactionRow)
    → reaction_is e r ≡ true
    → r.timestamp ≤ℤ e.timestamp
    → emoji_of (map_if (replaces e) (overwrite e) (some r)) ≡ e.emoji
overwritten e r key old = elim (Bool-cases (r.emoji == e.emoji)) [
  | inl same ↦ ground (arith, eq_iff r.emoji e.emoji)
  | inr other ↦ ground arith
]

-- An emoji that is not newer than the removal of its key.
abbrev pub is_held_back : ReactionEvent → Option ReactionTombstone → Bool
is_held_back e none = false
is_held_back e (some s) = not (e.emoji == "") && leb_ℤ e.timestamp s.timestamp

held_back-blocks :
    (e : ReactionEvent) (o : Option ReactionTombstone)
    → is_held_back e o ≡ (not (e.emoji == "") && blocks e o)
unfolding blocks
held_back-blocks e none = ground arith
held_back-blocks e (some s) = refl

module _ {T : Type 0} where
  remove-none :
      (e : ReactionEvent) (db : Database T)
      → count_where (reaction_is e) db.reactions ≤ 1
      → NotNewer e (find_where (reaction_is e) db.reactions)
      → find_where (reaction_is e) (remove_reaction e db).0.reactions ≡ none
  unfolding remove_reaction
  remove-none e db unique old =
      find-delete (reaction_is e) (λ r. reaction_is e r && leb_ℤ r.timestamp e.timestamp)
        db.reactions unique
      ∙ go (find_where (reaction_is e) db.reactions) refl old
    where
      go :
          (o : Option ReactionRow)
          → find_where (reaction_is e) db.reactions ≡ o
          → NotNewer e o
          → keep_unless (λ r. reaction_is e r && leb_ℤ r.timestamp e.timestamp) o ≡ none
      go none found old = refl
      go (some r) found old = ground (arith, find_some (reaction_is e) db.reactions r found)

  add-shown :
      (e : ReactionEvent) (db : Database T)
      → blocks e (find_where (stone_is e) db.reaction_tombstones) ≡ false
      → NotNewer e (find_where (reaction_is e) db.reactions)
      → shown e (add_reaction e db).0 ≡ e.emoji
  unfolding add_reaction
  add-shown e db free old = rw free (go (find_where (reaction_is e) db.reactions) refl old)
    where
      go :
          (o : Option ReactionRow)
          → find_where (reaction_is e) db.reactions ≡ o
          → NotNewer e o
          → emoji_of (
              find_where (reaction_is e) (
                if exists_where (reaction_is e) db.reactions
                then update_where (replaces e) (overwrite e) db.reactions
                else db.reactions ++ row_of e ∷ []))
            ≡ e.emoji
      go none found old =
          rw
            (
              exists-find (reaction_is e) db.reactions ∙ ap is_some found,
              find-append (reaction_is e) db.reactions (row_of e),
              exists-find (reaction_is e) db.reactions ∙ ap is_some found,
              eq_refl e.chat_jid,
              eq_refl e.message_id,
              eq_refl e.reactor_jid,
            )
            refl
      go (some r) found old =
          rw
            (
              exists-find (reaction_is e) db.reactions ∙ ap is_some found,
              find-update (reaction_is e) (replaces e) (overwrite e) db.reactions (λ x. refl),
              found,
            )
            (overwritten e r (find_some (reaction_is e) db.reactions r found) old)

  add-blocked :
      (e : ReactionEvent) (db : Database T)
      → blocks e (find_where (stone_is e) db.reaction_tombstones) ≡ true
      → add_reaction e db ≡ (db, false)
  unfolding add_reaction
  add-blocked e db stops = rw stops refl

  -- Where the key has one stored reaction at most, and that is not newer than the event, the event
  -- decides what is shown: its emoji, or nothing where it removes the reaction; unless it is an emoji
  -- that is not newer than the removal that the database remembers of its key, which changes nothing
  -- that is shown.
  pub apply_reaction-shown :
      (e : ReactionEvent) (db : Database T)
      → count_where (reaction_is e) db.reactions ≤ 1
      → NotNewer e (find_where (reaction_is e) db.reactions)
      → shown e (apply_reaction e db).0 ≡ (
          if is_held_back e (find_where (stone_is e) db.reaction_tombstones)
          then shown e db
          else e.emoji)
  unfolding apply_reaction
  apply_reaction-shown e db unique old =
      rw (held_back-blocks e (find_where (stone_is e) db.reaction_tombstones))
        (elim (Bool-cases (e.emoji == "")) [
          | inl empty ↦
              rw empty
                (ap emoji_of (remove-none e db unique old) ∙ sym ((eq_iff e.emoji "").0 empty))
          | inr emoji ↦
              elim (Bool-cases (blocks e (find_where (stone_is e) db.reaction_tombstones))) [
                | inl stops ↦ rw (emoji, stops) refl
                | inr free ↦ rw (emoji, free) (rw free at (add-shown e db free old))
              ]
        ])

  remove-twice :
      (e f : ReactionEvent) (db : Database T)
      → find_where (reaction_is e) db.reactions ≡ none
      → find_where (reaction_is e) (remove_reaction f db).0.reactions ≡ none
  unfolding remove_reaction
  remove-twice e f db gone = find_of_count (reaction_is e) _ (
      omega (
        arith,
        count-delete-le (reaction_is e) (λ r. reaction_is f r && leb_ℤ r.timestamp f.timestamp)
            db.reactions,
        count_of_not-exists (reaction_is e) db.reactions
            (exists-find (reaction_is e) db.reactions ∙ ap is_some gone),
      ))

  stone-after :
      (e : ReactionEvent) (db : Database T) (t : ℤ) (emoji : String) (own : Bool)
      → t ≤ℤ e.timestamp
      → blocks
          (record e { timestamp = t; emoji = emoji; from_me = own })
          (find_where (stone_is e) (remove_reaction e db).0.reaction_tombstones)
        ≡ true
  unfolding remove_reaction blocks
  stone-after e db t emoji own early =
      elim (Option-cases (find_where (stone_is e) db.reaction_tombstones)) [
        | inl missing ↦
            let fresh : exists_where (stone_is e) db.reaction_tombstones ≡ false =
              exists-find (stone_is e) db.reaction_tombstones ∙ ap is_some missing in
            rw
              (
                fresh,
                find-append (stone_is e) db.reaction_tombstones (stone_of e),
                fresh,
                eq_refl e.chat_jid,
                eq_refl e.message_id,
                eq_refl e.reactor_jid,
              )
              (ground arith)
        | inr (s, found) ↦
            let there : exists_where (stone_is e) db.reaction_tombstones ≡ true =
              exists-find (stone_is e) db.reaction_tombstones ∙ ap is_some found in
            rw
              (
                there,
                find-update (stone_is e) (newer_stone e) (λ x. record x { timestamp = e.timestamp })
                    db.reaction_tombstones (λ x. refl),
                found,
              )
              (ground (arith, find_some (stone_is e) db.reaction_tombstones s found))
      ]

  -- A reaction that arrives after the removal of a later time stays removed.
  pub removed-stays-removed :
      (e : ReactionEvent) (t : ℤ) (emoji : String) (own : Bool) (db : Database T)
      → e.emoji ≡ ""
      → t ≤ℤ e.timestamp
      → count_where (reaction_is e) db.reactions ≤ 1
      → NotNewer e (find_where (reaction_is e) db.reactions)
      → shown e
          (apply_reaction
            (record e { timestamp = t; emoji = emoji; from_me = own })
            (apply_reaction e db).0).0
        ≡ ""
  unfolding apply_reaction
  removed-stays-removed e t emoji own db removes early unique old =
      let gone = remove-none e db unique old in
      let left = (remove_reaction e db).0 in
      let later = record e { timestamp = t; emoji = emoji; from_me = own } in
      let removal : (e.emoji == "") ≡ true = (eq_iff e.emoji "").1 removes in
      rw removal (elim (Bool-cases (emoji == "")) [
        | inl empty ↦ rw empty (ap emoji_of (remove-twice e later left gone))
        | inr adds ↦ rw adds (
            ap (λ o. emoji_of o)
              (ap (λ (x : Database T × Bool). find_where (reaction_is e) x.0.reactions)
                  (add-blocked later left (stone-after e db t emoji own early))
                ∙ gone))
      ])
