-- ===== src/Database/ReadState/Marks.antt =====
-- Which messages apply_read_boundary marks read, and what its result tells.
use omarchy_whatsapp.Prelude.{
  Bool, List, String, [], arith, contains, eq_sym, false, refl, sym, ◌&&◌, ◌||◌, ◌∙◌, ◌∷◌, ◌≡◌,
}
use omarchy_whatsapp.Prelude.Int.{leb_ℤ, ℤ}
use omarchy_whatsapp.Prelude.Table.{count_where, update_where}
use omarchy_whatsapp.Prelude.Table.Update.{update-none, update-same, update-update}
use omarchy_whatsapp.Database.{Codecs, Database, MessageRow, is_unread}
use omarchy_whatsapp.Database.ReadState.{
  apply_read_boundary, is_covered_unread, is_named_unread, mark_ids, new_boundary, set_read,
}

-- An incoming message that is unread, at the boundary or before it, or named.
abbrev pub to_read : {T : Type 0} → String → ℤ → List String → MessageRow T → Bool
to_read c boundary ids m = is_unread c m && (leb_ℤ m.timestamp boundary || contains m.id ids)

module _ {T : Type 0} where
  abbrev is_among_unread : String → List String → MessageRow T → Bool
  is_among_unread c ids m = is_unread c m && contains m.id ids

  nothing-among : (c : String) (m : MessageRow T) → (is_unread c m && false) ≡ false
  nothing-among c m = ground arith

  count-nothing :
      (c : String) (ms : List (MessageRow T)) → count_where (λ m. is_unread c m && false) ms ≡ 0
  count-nothing c [] = refl
  count-nothing c (m ∷ ms) = ground (arith, count-nothing c ms)

  mark_ids-messages :
      (c : String) (ids : List String) (ms : List (MessageRow T))
      → (mark_ids c ids ms).0 ≡ update_where (is_among_unread c ids) set_read ms
  unfolding mark_ids
  mark_ids-messages c [] ms = sym (update-none _ set_read ms (count-nothing c ms))
  mark_ids-messages c (id ∷ ids) ms =
      mark_ids-messages c ids (update_where (is_named_unread c id) set_read ms)
      ∙ (update-update (is_named_unread c id) (is_among_unread c ids) set_read ms
            (λ m. ground arith)
          ∙ update-same _ (is_among_unread c (id ∷ ids)) set_read ms
              (λ m. ground (arith, eq_sym m.id id)))

  mark_ids-none :
      (c : String) (ids : List String) (ms : List (MessageRow T))
      → (mark_ids c ids ms).1 ≡ 0
      → (mark_ids c ids ms).0 ≡ ms
  unfolding mark_ids
  mark_ids-none c [] ms h = refl
  mark_ids-none c (id ∷ ids) ms h =
      let same = update-none (is_named_unread c id) set_read ms (omega arith) in
      let rest : (mark_ids c ids (update_where (is_named_unread c id) set_read ms)).1 ≡ 0 =
        omega arith in
      rw same (mark_ids-none c ids ms (rw same at rest))

  marked-messages :
      (c : String) (b : ℤ) (ids : List String) (ms : List (MessageRow T))
      → (mark_ids c ids (update_where (is_covered_unread c b) set_read ms)).0
        ≡ update_where (to_read c b ids) set_read ms
  marked-messages c b ids ms =
      mark_ids-messages c ids _
      ∙ (update-update (is_covered_unread c b) (is_among_unread c ids) set_read ms
            (λ m. ground arith)
          ∙ update-same _ (to_read c b ids) set_read ms (λ m. ground arith))

module _ {T : Type 0} (codecs : Codecs T) where
  -- The statements of apply_read_boundary mark exactly the unread incoming messages of the chat
  -- that lie at the new boundary or before it, or that are named; they change no other row.
  pub apply_read_boundary-messages :
      (c : String) (timestamp : ℤ) (ids : List String) (db : Database T)
      → (apply_read_boundary codecs c timestamp ids db).0.messages
        ≡ update_where (to_read c (new_boundary c timestamp ids db) ids) set_read db.messages
  unfolding apply_read_boundary
  apply_read_boundary-messages c timestamp ids db =
      marked-messages c (new_boundary c timestamp ids db) ids db.messages
