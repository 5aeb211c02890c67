-- ===== src/Database/Settings.antt =====
-- Pinned, archived and muted chats (Database::apply_pin_at, apply_archive_at, apply_mute_at,
-- update_chat_setting and is_muted in crates/daemon/src/database.rs).
pub mod Stale
use omarchy_whatsapp.Prelude.{
  Bool, Option, String, [], false, if◌then◌else◌, none, some, unwrap_or, ◌&&◌, ◌++◌, ◌||◌, ◌∷◌,
}
use omarchy_whatsapp.Prelude.Int.{leb_ℤ, ltb_ℤ, pos, ℤ}
use omarchy_whatsapp.Prelude.Table.{exists_where, find_where, update_where}
use omarchy_whatsapp.Database.{Database, SettingsRow, new_settings, settings_of}

pub data ChatSetting : Type 0 where
  pinned archived : ChatSetting

-- INSERT … ON CONFLICT(jid) DO UPDATE SET … WHERE the new time is not before the stored one
upsert_since :
    {T : Type 0}
    → String
    → (SettingsRow T → ℤ)
    → ℤ
    → (SettingsRow T → SettingsRow T)
    → Database T
    → Database T
upsert_since c stored updated_at set db = record db {
  settings =
      if exists_where (settings_of c) db.settings
      then update_where (λ s. settings_of c s && leb_ℤ (stored s) updated_at) set db.settings
      else db.settings ++ set (new_settings c) ∷ [];
}

module _ {T : Type 0} where
  update_chat_setting : String → ChatSetting → Bool → ℤ → Database T → Database T
  unfolding upsert_since
  update_chat_setting c pinned value updated_at =
      upsert_since c (λ s. s.pinned_updated_at) updated_at
        (λ s. record s { pinned = some value; pinned_updated_at = updated_at })
  update_chat_setting c archived value updated_at =
      upsert_since c (λ s. s.archived_updated_at) updated_at
        (λ s. record s { archived = some value; archived_updated_at = updated_at })

  pub apply_pin_at : String → Bool → ℤ → Database T → Database T
  unfolding update_chat_setting
  apply_pin_at c value updated_at = update_chat_setting c pinned value updated_at

  pub apply_archive_at : String → Bool → ℤ → Database T → Database T
  unfolding update_chat_setting
  apply_archive_at c value updated_at = update_chat_setting c archived value updated_at

  pub apply_mute_at : String → Bool → ℤ → ℤ → Database T → Database T
  unfolding upsert_since
  apply_mute_at c value mute_end updated_at =
      upsert_since c (λ s. s.mute_updated_at) updated_at
        (λ s. record s {
          muted = some value;
          mute_end = some mute_end;
          mute_updated_at = updated_at;
        })

  muted_at : ℤ → Option (SettingsRow T) → Bool
  muted_at now none = false
  muted_at now (some s) =
      let end = unwrap_or s.mute_end (pos 0) in
      unwrap_or s.muted false && (leb_ℤ end (pos 0) || ltb_ℤ now end)

  pub is_muted : String → ℤ → Database T → Bool
  unfolding muted_at
  is_muted c now db = muted_at now (find_where (settings_of c) db.settings)
