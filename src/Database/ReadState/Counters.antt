-- ===== src/Database/ReadState/Counters.antt =====
-- The unread counters after a chat is marked read, and after a full sync.
use mathlib.Core.Path.{subst}
use omarchy_whatsapp.Prelude.{
  Bool, Bool-cases, List, Option, Option-cases, String, [], ap, arith, eq_iff, eqb, false,
  if◌then◌else◌, inl, inr, is_some, none, not, refl, some, sym, true, unwrap_or, ◌&&◌, ◌==◌, ◌∙◌,
  ◌∷◌, ◌≡◌,
}
use omarchy_whatsapp.Prelude.Int.{max_ℤ, max_ℤ_right, pos, ℤ, ◌≤ℤ◌}
use omarchy_whatsapp.Prelude.Table.{All, count_where, find_where, map_if, update_where}
use omarchy_whatsapp.Prelude.Table.Count.{count-both-le, count-cleared, count-same}
use omarchy_whatsapp.Prelude.Table.Lookup.{find-update, find_some}
use omarchy_whatsapp.Prelude.Table.Update.{update-none}
use omarchy_whatsapp.Database.{ChatRow, Codecs, Database, MessageRow, chat_is, in_chat, is_unread}
use omarchy_whatsapp.Database.Unread.{
  Consistent, counter, counter-update, counter-update_other, unread_count, unread_shown,
}
use omarchy_whatsapp.Database.ReadState.{
  apply_read_boundary, candidate_boundary, mark_read, maximum_message_timestamp, new_boundary,
  reconcile_unread_after_full_sync, set_read, settings_row,
}
use omarchy_whatsapp.Database.ReadState.Marks.{apply_read_boundary-messages, to_read}

module _ {T : Type 0} where
  count-to_read :
      (k c : String) (b : ℤ) (ids : List String) (ms : List (MessageRow T))
      → count_where (is_unread k) (update_where (to_read c b ids) set_read ms)
        ≡ count_where (λ m. is_unread k m && not (to_read c b ids m)) ms
  count-to_read k c b ids ms =
      count-cleared (is_unread k) (to_read c b ids) set_read ms (λ m. ground arith)

  count-other :
      (k c : String) (b : ℤ) (ids : List String) (ms : List (MessageRow T))
      → (k == c) ≡ false
      → count_where (is_unread k) (update_where (to_read c b ids) set_read ms)
        ≡ count_where (is_unread k) ms
  count-other k c b ids ms other =
      count-to_read k c b ids ms
      ∙ count-same _ _ ms
          (λ m. ground (arith, eq_iff m.chat_jid k, eq_iff m.chat_jid c, eq_iff k c))

  -- Nothing is unread up to the latest message.
  count-through :
      (c : String) (b : ℤ) (ids : List String) (ms : List (MessageRow T))
      → All (λ m. in_chat c m ≡ true → m.timestamp ≤ℤ b) ms
      → count_where (λ m. is_unread c m && not (to_read c b ids m)) ms ≡ 0
  count-through c b ids [] h = refl
  count-through c b ids (m ∷ ms) h = ground (arith, h.0, count-through c b ids ms h.1)

module _ {T : Type 0} (codecs : Codecs T) where
  -- What apply_read_boundary makes of the counter of its chat, and of another chat's.
  pub apply_read_boundary-shown :
      (c : String) (timestamp : ℤ) (ids : List String) (db : Database T)
      → is_some (find_where (chat_is c) db.chats) ≡ true
      → unread_shown c (apply_read_boundary codecs c timestamp ids db).0
        ≡ unread_count c (apply_read_boundary codecs c timestamp ids db).0
  unfolding apply_read_boundary
  apply_read_boundary-shown c timestamp ids db there =
      counter-update c _ _ db.chats (λ r. refl) (λ r. refl) ∙ rw there refl

  apply_read_boundary-other :
      (c k : String) (timestamp : ℤ) (ids : List String) (db : Database T)
      → (k == c) ≡ false
      → (unread_shown k (apply_read_boundary codecs c timestamp ids db).0 ≡ unread_shown k db)
        × (unread_count k (apply_read_boundary codecs c timestamp ids db).0 ≡ unread_count k db)
  unfolding apply_read_boundary
  apply_read_boundary-other c k timestamp ids db other = (
    counter-update_other c k _ db.chats other (λ r. refl),
    ap (count_where (is_unread k)) (apply_read_boundary-messages codecs c timestamp ids db)
        ∙ count-other k c _ ids db.messages other,
  )

  missing-shown :
      (c : String) (timestamp : ℤ) (ids : List String) (db : Database T)
      → find_where (chat_is c) db.chats ≡ none
      → unread_shown c (apply_read_boundary codecs c timestamp ids db).0 ≡ 0
  unfolding apply_read_boundary
  missing-shown c timestamp ids db missing =
      counter-update c _ _ db.chats (λ r. refl) (λ r. refl) ∙ rw missing refl

  apply_read_boundary-missing :
      (c : String) (timestamp : ℤ) (ids : List String) (db : Database T)
      → find_where (chat_is c) db.chats ≡ none
      → unread_count c db ≡ 0
      → unread_shown c (apply_read_boundary codecs c timestamp ids db).0
        ≡ unread_count c (apply_read_boundary codecs c timestamp ids db).0
  apply_read_boundary-missing c timestamp ids db missing nothing =
      let boundary = new_boundary c timestamp ids db in
      let rest : unread_count c (apply_read_boundary codecs c timestamp ids db).0
          ≡ count_where (λ m. is_unread c m && not (to_read c boundary ids m)) db.messages =
        ap (count_where (is_unread c)) (apply_read_boundary-messages codecs c timestamp ids db)
        ∙ count-to_read c c boundary ids db.messages in
      omega (
        arith,
        missing-shown c timestamp ids db missing,
        rest,
        nothing,
        count-both-le (is_unread c) (λ m. not (to_read c boundary ids m)) db.messages,
      )

  -- Marking a chat read keeps the counter of every chat equal to the number of its unread messages.
  pub apply_read_boundary-Consistent :
      (c : String) (timestamp : ℤ) (ids : List String) (db : Database T)
      → Consistent db
      → Consistent (apply_read_boundary codecs c timestamp ids db).0
  apply_read_boundary-Consistent c timestamp ids db h k = elim (Bool-cases (k == c)) [
    | inl same ↦
        let here : c ≡ k = sym ((eq_iff k c).0 same) in
        subst
          (λ x.
            unread_shown x (apply_read_boundary codecs c timestamp ids db).0
            ≡ unread_count x (apply_read_boundary codecs c timestamp ids db).0)
          here
          (elim (Option-cases (find_where (chat_is c) db.chats)) [
            | inl missing ↦
                apply_read_boundary-missing c timestamp ids db missing
                  (sym (h c) ∙ ap counter missing)
            | inr (r, found) ↦ apply_read_boundary-shown c timestamp ids db (ap is_some found)
          ])
    | inr other ↦
        let rest = apply_read_boundary-other c k timestamp ids db other in
        rest.0 ∙ (h k ∙ sym rest.1)
  ]

module _ {T : Type 0} where
  maximum-bounds :
      (c : String) (ms : List (MessageRow T)) (b : ℤ)
      → ((t : ℤ) → maximum_message_timestamp c ms ≡ some t → t ≤ℤ b)
      → All (λ m. in_chat c m ≡ true → m.timestamp ≤ℤ b) ms
  unfolding maximum_message_timestamp
  maximum-bounds c [] b h = tt
  maximum-bounds c (m ∷ ms) b h = elim (Option-cases (maximum_message_timestamp c ms)) [
    | inl last ↦ (λ here. h m.timestamp (rw (here, last) refl), maximum-bounds c ms b (λ t e. cc))
    | inr (s, next) ↦ (
      λ here.
          let both : max_ℤ m.timestamp s ≤ℤ b = h (max_ℤ m.timestamp s) (rw (here, next) refl) in
          ground arith,
      maximum-bounds c ms b λ t e.
          let is : s ≡ t = ground arith in
          elim (Bool-cases (in_chat c m)) [
            | inl here ↦
                let both : max_ℤ m.timestamp s ≤ℤ b =
                  h (max_ℤ m.timestamp s) (rw (here, next) refl) in
                rw (← is) (ground arith)
            | inr away ↦ h t (rw away e)
          ],
    )
  ]

module _ {T : Type 0} (codecs : Codecs T) where
  mark_read-nothing : (c : String) (db : Database T) → unread_count c (mark_read codecs c db) ≡ 0
  unfolding mark_read candidate_boundary
  mark_read-nothing c db =
      ap (count_where (is_unread c)) (apply_read_boundary-messages codecs c latest [] db)
      ∙ (count-to_read c c (new_boundary c latest [] db) [] db.messages
          ∙ count-through c (new_boundary c latest [] db) [] db.messages
              (maximum-bounds c db.messages (new_boundary c latest [] db) bound))
    where
      latest : ℤ
      latest = unwrap_or (maximum_message_timestamp c db.messages) (pos 0)

      bound :
          (t : ℤ)
          → maximum_message_timestamp c db.messages ≡ some t
          → t ≤ℤ new_boundary c latest [] db
      bound t e =
          let is : latest ≡ t = ap (λ o. unwrap_or o (pos 0)) e in
          subst (λ x. x ≤ℤ new_boundary c latest [] db) is
            (max_ℤ_right (settings_row c db.settings).read_boundary latest)

  -- After mark_read no message of the chat is unread, and its counter says so.
  pub mark_read-clears :
      (c : String) (db : Database T)
      → (unread_count c (mark_read codecs c db) ≡ 0) × (unread_shown c (mark_read codecs c db) ≡ 0)
  unfolding mark_read
  mark_read-clears c db = (
    mark_read-nothing c db,
    elim (Option-cases (find_where (chat_is c) db.chats)) [
      | inl missing ↦ missing-shown codecs c _ [] db missing
      | inr (r, found) ↦
          apply_read_boundary-shown codecs c _ [] db (ap is_some found) ∙ mark_read-nothing c db
    ],
  )

-- reconcile_unread_after_full_sync.
module _ {T : Type 0} where
  recount : (ms : List (MessageRow T)) → ChatRow → ChatRow
  recount ms r = record r { unread = count_where (is_unread r.jid) ms }

  differs : List (MessageRow T) → ChatRow → Bool
  differs ms r = not (eqb r.unread (count_where (is_unread r.jid) ms))

  counter-recount :
      (c : String) (ms : List (MessageRow T)) (o : Option ChatRow)
      → ((r : ChatRow) → o ≡ some r → r.jid ≡ c)
      → counter (map_if (differs ms) (recount ms) o)
        ≡ (if is_some o then count_where (is_unread c) ms else 0)
  unfolding recount differs
  counter-recount c ms none key = refl
  counter-recount c ms (some r) key = rw (← key r refl) (ground arith)

  -- After a full sync the counter of every chat that has a row is its number of unread messages,
  -- whatever it was before.
  pub reconcile-exact :
      (c : String) (db : Database T)
      → is_some (find_where (chat_is c) db.chats) ≡ true
      → unread_shown c (reconcile_unread_after_full_sync true db).0
        ≡ unread_count c (reconcile_unread_after_full_sync true db).0
  unfolding reconcile_unread_after_full_sync recount differs
  reconcile-exact c db there =
      rw (find-update (chat_is c) (differs db.messages) (recount db.messages) db.chats (λ r. refl))
        (counter-recount c db.messages (find_where (chat_is c) db.chats)
            (λ r e. (eq_iff r.jid c).0 (find_some (chat_is c) db.chats r e))
          ∙ rw there refl)

  -- Counters that are right stay so.
  pub reconcile-Consistent :
      (db : Database T) → Consistent db → Consistent (reconcile_unread_after_full_sync true db).0
  unfolding reconcile_unread_after_full_sync recount differs
  reconcile-Consistent db h c = elim (Option-cases (find_where (chat_is c) db.chats)) [
    | inl missing ↦
        rw
          (find-update (chat_is c) (differs db.messages) (recount db.messages) db.chats (λ r. refl))
          (rw missing (sym (ap counter missing) ∙ h c))
    | inr (r, found) ↦ reconcile-exact c db (ap is_some found)
  ]

  -- It reports no change only where it made none.
  pub reconcile-none :
      (complete : Bool) (db : Database T)
      → (reconcile_unread_after_full_sync complete db).1 ≡ 0
      → (reconcile_unread_after_full_sync complete db).0.chats ≡ db.chats
  unfolding reconcile_unread_after_full_sync
  reconcile-none true db h = update-none _ _ db.chats h
  reconcile-none false db h = refl
