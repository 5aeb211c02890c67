-- ===== src/Database/Settings/Stale.antt =====
-- A setting that arrives late does not undo a later one.
use omarchy_whatsapp.Prelude.Table.Count.{count-append, count-both-le, count_of_not-exists}
use omarchy_whatsapp.Prelude.Table.{count_where, exists_where, update_where}
use omarchy_whatsapp.Prelude.Table.Lookup.{exists-append, exists-update}
use omarchy_whatsapp.Prelude.Table.Update.{update-absorbed, update-none}
use omarchy_whatsapp.Database.{Database, SettingsRow, new_settings, settings_of}
use omarchy_whatsapp.Database.Settings.{
  apply_archive_at, apply_mute_at, apply_pin_at, update_chat_setting, upsert_since,
}
use omarchy_whatsapp.Prelude.Int.{leb_ℤ, ℤ, ◌<ℤ◌}
use omarchy_whatsapp.Prelude.{
  Bool, Bool-cases, List, String, [], ap, arith, eq_refl, false, inl, inr, refl, true, ◌&&◌, ◌++◌,
  ◌==◌, ◌∙◌, ◌∷◌, ◌≡◌,
}

module _ {T : Type 0} where
  -- No row of the chat takes an earlier setting.
  stale-rows :
      (c : String) (stored : SettingsRow T → ℤ) (early late : ℤ)
      (set1 set2 : SettingsRow T → SettingsRow T) (rows : List (SettingsRow T))
      → early <ℤ late
      → ((s : SettingsRow T) → stored (set2 s) ≡ late)
      → update_where
          (λ s. settings_of c s && leb_ℤ (stored s) early)
          set1
          (update_where (λ s. settings_of c s && leb_ℤ (stored s) late) set2 rows)
        ≡ update_where (λ s. settings_of c s && leb_ℤ (stored s) late) set2 rows
  stale-rows c stored early late set1 set2 rows before sets =
      update-absorbed _ _ set1 set2 rows (λ s e. ground (arith, sets s)) (λ s e. ground arith)

  stale-new :
      (c : String) (stored : SettingsRow T → ℤ) (early late : ℤ)
      (set1 : SettingsRow T → SettingsRow T) (new : SettingsRow T) (rows : List (SettingsRow T))
      → early <ℤ late
      → stored new ≡ late
      → exists_where (settings_of c) rows ≡ false
      → update_where (λ s. settings_of c s && leb_ℤ (stored s) early) set1 (rows ++ new ∷ [])
        ≡ rows ++ new ∷ []
  stale-new c stored early late set1 new rows before is fresh =
      update-none _ set1 (rows ++ new ∷ []) (
        omega (
          arith,
          count-append (λ s. settings_of c s && leb_ℤ (stored s) early) rows new,
          count-both-le (settings_of c) (λ s. leb_ℤ (stored s) early) rows,
          count_of_not-exists (settings_of c) rows fresh,
          last,
        ))
    where
      last : count_where (λ s. settings_of c s && leb_ℤ (stored s) early) (new ∷ []) ≡ 0
      last = ground arith

  upsert_since-stale :
      (c : String) (stored : SettingsRow T → ℤ) (early late : ℤ)
      (set1 set2 : SettingsRow T → SettingsRow T) (db : Database T)
      → early <ℤ late
      → ((s : SettingsRow T) → stored (set2 s) ≡ late)
      → ((s : SettingsRow T) → (set2 s).jid ≡ s.jid)
      → upsert_since c stored early set1 (upsert_since c stored late set2 db)
        ≡ upsert_since c stored late set2 db
  unfolding upsert_since
  upsert_since-stale c stored early late set1 set2 db before sets keeps =
      elim (Bool-cases (exists_where (settings_of c) db.settings)) [
        | inl there ↦
            let still =
              exists-update (settings_of c) (λ s. settings_of c s && leb_ℤ (stored s) late) set2
                db.settings (λ s. ap (λ j. j == c) (keeps s))
              ∙ there in
            rw (there, still, stale-rows c stored early late set1 set2 db.settings before sets) refl
        | inr fresh ↦
            let now : exists_where (settings_of c) (db.settings ++ set2 (new_settings c) ∷ [])
                ≡ true =
              exists-append (settings_of c) db.settings (set2 (new_settings c))
              ∙ rw (fresh, keeps (new_settings c)) (eq_refl c) in
            rw
              (
                fresh,
                now,
                stale-new c stored early late set1 (set2 (new_settings c)) db.settings before
                    (sets (new_settings c)) fresh,
              )
              refl
      ]

  -- A pin that is older than the one applied changes nothing at all.
  pub apply_pin_at-stale :
      (c : String) (v w : Bool) (early late : ℤ) (db : Database T)
      → early <ℤ late
      → apply_pin_at c v early (apply_pin_at c w late db) ≡ apply_pin_at c w late db
  unfolding apply_pin_at update_chat_setting
  apply_pin_at-stale c v w early late db before =
      upsert_since-stale c (λ s. s.pinned_updated_at) early late _ _ db before (λ s. refl)
        (λ s. refl)

  -- Nor does an older change of the archive.
  pub apply_archive_at-stale :
      (c : String) (v w : Bool) (early late : ℤ) (db : Database T)
      → early <ℤ late
      → apply_archive_at c v early (apply_archive_at c w late db) ≡ apply_archive_at c w late db
  unfolding apply_archive_at update_chat_setting
  apply_archive_at-stale c v w early late db before =
      upsert_since-stale c (λ s. s.archived_updated_at) early late _ _ db before (λ s. refl)
        (λ s. refl)

  -- Nor does an older mute.
  pub apply_mute_at-stale :
      (c : String) (v w : Bool) (end1 end2 early late : ℤ) (db : Database T)
      → early <ℤ late
      → apply_mute_at c v end1 early (apply_mute_at c w end2 late db)
        ≡ apply_mute_at c w end2 late db
  unfolding apply_mute_at
  apply_mute_at-stale c v w end1 end2 early late db before =
      upsert_since-stale c (λ s. s.mute_updated_at) early late _ _ db before (λ s. refl) (λ s. refl)
