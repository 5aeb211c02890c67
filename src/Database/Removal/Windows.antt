-- ===== src/Database/Removal/Windows.antt =====
-- A deleted message does not come back: the tombstones, and the window that a deleted or cleared
-- chat leaves.
use omarchy_whatsapp.Database.Removal.{clear_chat, delete_chat, delete_message}
use omarchy_whatsapp.Database.ReadState.{settings_row}
use omarchy_whatsapp.Prelude.{
  Bool, Bool-cases, List, Option, Option-cases, String, [], ap, arith, eq_refl, inl, inr, is_some,
  none, refl, some, sym, true, ℕ, ◌++◌, ◌==◌, ◌∙◌, ◌∷◌, ◌≡◌,
}
use omarchy_whatsapp.Prelude.Int.{ltb_ℤ, max_ℤ_right, pos, ℤ, ◌<ℤ◌, ◌≤ℤ◌}
use omarchy_whatsapp.Prelude.Table.Lookup.{
  exists-append, exists-find, find-append, find-update, find-upsert, find_some,
}
use omarchy_whatsapp.Prelude.Table.{exists_where, find_where, map_if, update_where, upsert}
use omarchy_whatsapp.Protocol.{Message}
use omarchy_whatsapp.Database.{Database, SettingsRow, settings_of}
use omarchy_whatsapp.Database.Insert.{cleared, is_dropped, tombstone_is}

-- What is dropped before is dropped afterwards.
abbrev pub StaysDropped : {T : Type 0} → Database T → Database T → Type 0
StaysDropped db db' = (m : Message) → is_dropped m db ≡ true → is_dropped m db' ≡ true

module _ {T : Type 0} where
  cleared-map_if :
      (p : SettingsRow T → Bool) (f : SettingsRow T → SettingsRow T) (o : Option (SettingsRow T))
      (t : ℤ)
      → ((s : SettingsRow T) → s.cleared_at ≤ℤ (f s).cleared_at)
      → cleared o t ≡ true
      → cleared (map_if p f o) t ≡ true
  unfolding cleared
  cleared-map_if p f none t grows h = h
  cleared-map_if p f (some s) t grows h = ground (arith, grows s)

  -- A statement that updates settings and does not move a window back.
  pub cleared-update :
      (k : String) (p : SettingsRow T → Bool) (f : SettingsRow T → SettingsRow T)
      (rows : List (SettingsRow T)) (t : ℤ)
      → ((s : SettingsRow T) → (f s).jid ≡ s.jid)
      → ((s : SettingsRow T) → s.cleared_at ≤ℤ (f s).cleared_at)
      → cleared (find_where (settings_of k) rows) t ≡ true
      → cleared (find_where (settings_of k) (update_where p f rows)) t ≡ true
  cleared-update k p f rows t keeps grows h =
      rw (find-update (settings_of k) p f rows (λ s. ap (λ j. j == k) (keeps s)))
        (cleared-map_if p f (find_where (settings_of k) rows) t grows h)

  cleared-none :
      (k : String) (rows : List (SettingsRow T)) (t : ℤ)
      → cleared (find_where (settings_of k) rows) t ≡ true
      → exists_where (settings_of k) rows ≡ true
  unfolding cleared
  cleared-none k rows t h = elim (Option-cases (find_where (settings_of k) rows)) [
    | inl missing ↦ absurd (cc (sym h ∙ ap (λ o. cleared o t) missing))
    | inr (s, found) ↦ exists-find (settings_of k) rows ∙ ap is_some found
  ]

  pub cleared-append :
      (k : String) (rows : List (SettingsRow T)) (new : SettingsRow T) (t : ℤ)
      → cleared (find_where (settings_of k) rows) t ≡ true
      → cleared (find_where (settings_of k) (rows ++ new ∷ [])) t ≡ true
  cleared-append k rows new t h =
      rw (find-append (settings_of k) rows new, cleared-none k rows t h) h

  pub cleared-upsert :
      (k c : String) (new : SettingsRow T) (f : SettingsRow T → SettingsRow T)
      (rows : List (SettingsRow T)) (t : ℤ)
      → ((s : SettingsRow T) → (f s).jid ≡ s.jid)
      → ((s : SettingsRow T) → s.cleared_at ≤ℤ (f s).cleared_at)
      → cleared (find_where (settings_of k) rows) t ≡ true
      → cleared (find_where (settings_of k) (upsert (settings_of c) new f rows)) t ≡ true
  cleared-upsert k c new f rows t keeps grows h =
      elim (Bool-cases (exists_where (settings_of c) rows)) [
        | inl there ↦ rw there (cleared-update k (settings_of c) f rows t keeps grows h)
        | inr fresh ↦ rw fresh (cleared-append k rows new t h)
      ]

  -- The window of a deleted or cleared chat reaches its time.
  cleared-reached :
      (c : String) (new : SettingsRow T) (f : SettingsRow T → SettingsRow T)
      (rows : List (SettingsRow T)) (t sent : ℤ)
      → sent ≤ℤ t
      → new.jid ≡ c
      → new.cleared_at ≡ t
      → ((s : SettingsRow T) → (f s).jid ≡ s.jid)
      → ((s : SettingsRow T) → t ≤ℤ (f s).cleared_at)
      → cleared (find_where (settings_of c) (upsert (settings_of c) new f rows)) sent ≡ true
  unfolding cleared
  cleared-reached c new f rows t sent h is_new at keeps grows =
      elim (Option-cases (find_where (settings_of c) rows)) [
        | inl missing ↦
            rw
              (
                find-upsert (settings_of c) (settings_of c) new f rows
                    (λ s. ap (λ j. j == c) (keeps s)),
                exists-find (settings_of c) rows,
                missing,
                is_new,
                eq_refl c,
                at,
              )
              (ground arith)
        | inr (s, found) ↦
            rw
              (
                find-upsert (settings_of c) (settings_of c) new f rows
                    (λ x. ap (λ j. j == c) (keeps x)),
                exists-find (settings_of c) rows,
                found,
                find_some (settings_of c) rows s found,
              )
              (ground (arith, grows s))
      ]

module _ {T : Type 0} where
  dropped_of_window :
      (m : Message) (db : Database T)
      → cleared (find_where (settings_of m.chat_jid) db.settings) m.timestamp ≡ true
      → is_dropped m db ≡ true
  unfolding is_dropped
  dropped_of_window m db h = ground arith

  window-before :
      (c : String) (db : Database T) (t : ℕ) (sent : ℤ)
      → sent ≤ℤ pos t
      → pos t <ℤ (settings_row c db.settings).cleared_at
      → cleared (find_where (settings_of c) db.settings) sent ≡ true
  unfolding cleared
  window-before c db t sent h older = elim (Option-cases (find_where (settings_of c) db.settings)) [
    | inl missing ↦ absurd (ground arith)
    | inr (s, found) ↦ ground arith
  ]

  -- After a chat is deleted, whatever it held before, every message of that time or an earlier one
  -- is dropped when it arrives again.
  pub delete_chat-drops :
      (t : ℕ) (m : Message) (db : Database T)
      → m.timestamp ≤ℤ pos t
      → is_dropped m (delete_chat m.chat_jid (pos t) db) ≡ true
  unfolding delete_chat
  delete_chat-drops t m db h =
      elim (Bool-cases (ltb_ℤ (pos t) (settings_row m.chat_jid db.settings).cleared_at)) [
        | inl older ↦
            rw older
              (dropped_of_window m db (window-before m.chat_jid db t m.timestamp h (ground arith)))
        | inr newer ↦ rw newer (
            dropped_of_window m _ (
              cleared-reached m.chat_jid _ _ _ (pos t) m.timestamp h refl refl (λ s. refl)
                (λ s. max_ℤ_right s.cleared_at (pos t))))
      ]

  pub clear_chat-drops :
      (t : ℕ) (m : Message) (db : Database T)
      → m.timestamp ≤ℤ pos t
      → is_dropped m (clear_chat m.chat_jid (pos t) db) ≡ true
  unfolding clear_chat
  clear_chat-drops t m db h =
      elim (Bool-cases (ltb_ℤ (pos t) (settings_row m.chat_jid db.settings).cleared_at)) [
        | inl older ↦
            rw older
              (dropped_of_window m db (window-before m.chat_jid db t m.timestamp h (ground arith)))
        | inr newer ↦ rw newer (
            dropped_of_window m _ (
              cleared-reached m.chat_jid _ _ _ (pos t) m.timestamp h refl refl (λ s. refl)
                (λ s. max_ℤ_right s.cleared_at (pos t))))
      ]

  -- A deleted message is dropped when it arrives again.
  pub delete_message-drops :
      (m : Message) (db : Database T) → is_dropped m (delete_message m.chat_jid m.id db) ≡ true
  unfolding delete_message is_dropped
  delete_message-drops m db = ground (
    arith,
    exists-append (tombstone_is m.chat_jid m.id) db.message_tombstones
        (record { chat_jid = m.chat_jid; id = m.id }),
    eq_refl m.chat_jid,
    eq_refl m.id,
  )
