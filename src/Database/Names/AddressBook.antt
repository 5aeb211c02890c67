-- ===== src/Database/Names/AddressBook.antt =====
-- The sources of a contact's name, over runs of calls (update_contact_name_into in
-- crates/daemon/src/database.rs).
use mathlib.Core.Path.{subst}
use omarchy_whatsapp.Prelude.{
  Bool, Bool-cases, List, Option-cases, String, [], ap, arith, eq_iff, eq_refl, false,
  if◌then◌else◌, inl, inr, ltb, none, not, refl, some, sym, ℕ, ◌&&◌, ◌==◌, ◌||◌, ◌∙◌, ◌∷◌, ◌≡◌,
}
use omarchy_whatsapp.Prelude.Table.{find_where}
use omarchy_whatsapp.Prelude.Table.Lookup.{exists-find, find-upsert, find_some}
use omarchy_whatsapp.Prelude.Trim.{is_empty, trim}
use omarchy_whatsapp.Database.{ContactRow, Database, settings_of}
use omarchy_whatsapp.Database.Names.{
  HistoryChat, contact_is, is_suppressed, contact_name, insert_history_chat_into, is_outranked,
  name_contact, update_contact_name_into, update_group_name, name_of,
}

-- A call that names contacts or chats.
pub data NameCall : Type 0 where
  contact : String → String → NameCall
  address_book : String → String → NameCall
  group : String → String → NameCall
  history : HistoryChat → NameCall

abbrev pub is_address_of : String → NameCall → Bool
is_address_of jid (contact other name) = false
is_address_of jid (address_book other name) = other == jid
is_address_of jid (group other name) = false
is_address_of jid (history chat) = false

abbrev pub names_address : String → List NameCall → Bool
names_address jid [] = false
names_address jid (c ∷ cs) = is_address_of jid c || names_address jid cs

-- The row of the contact holds a name of the address book.
abbrev Known : String → String → List ContactRow → Type 0
Known jid name contacts =
    (c : ContactRow) × (find_where (contact_is jid) contacts ≡ some c)
    × (c.name ≡ name)
    × (c.source ≡ 1)

find-name_contact-other :
    (jid other name : String) (source : ℕ) (contacts : List ContactRow) (c : ContactRow)
    → (other == jid) ≡ false
    → find_where (contact_is jid) contacts ≡ some c
    → find_where (contact_is jid) (name_contact other name source contacts) ≡ some c
find-name_contact-other jid other name source contacts c apart found =
    let own = find_some (contact_is jid) contacts c found in
    let elsewhere : contact_is other c ≡ false =
      ground (arith, eq_iff c.jid jid, eq_iff c.jid other, eq_iff other jid) in
    find-upsert (contact_is jid) (contact_is other)
      (record { jid = other; name = name; source = source })
      (λ x. record x { name = name; source = source }) contacts (λ x. refl)
    ∙ rw found (ground arith)

-- A row that is written under a jid is the one that is found there.
find-name_contact-own :
    (jid name : String) (source : ℕ) (contacts : List ContactRow)
    → (c : ContactRow) × (find_where (contact_is jid) (name_contact jid name source contacts)
        ≡ some c)
      × (c.name ≡ name)
      × (c.source ≡ source)
find-name_contact-own jid name source contacts =
    elim (Option-cases (find_where (contact_is jid) contacts)) [
      | inl none_yet ↦
          (record { jid = jid; name = name; source = source }, written none_yet, refl, refl)
      | inr (c, found) ↦ (record c { name = name; source = source }, rewritten c found, refl, refl)
    ]
  where
    written :
        find_where (contact_is jid) contacts ≡ none
        → find_where (contact_is jid) (name_contact jid name source contacts)
          ≡ some (record { jid = jid; name = name; source = source })
    written none_yet =
        find-upsert (contact_is jid) (contact_is jid)
          (record { jid = jid; name = name; source = source })
          (λ x. record x { name = name; source = source }) contacts (λ x. refl)
        ∙ rw (exists-find (contact_is jid) contacts, none_yet, eq_refl jid) refl

    rewritten :
        (c : ContactRow)
        → find_where (contact_is jid) contacts ≡ some c
        → find_where (contact_is jid) (name_contact jid name source contacts)
          ≡ some (record c { name = name; source = source })
    rewritten c found =
        let own = find_some (contact_is jid) contacts c found in
        find-upsert (contact_is jid) (contact_is jid)
          (record { jid = jid; name = name; source = source })
          (λ x. record x { name = name; source = source }) contacts (λ x. refl)
        ∙ rw (exists-find (contact_is jid) contacts, found, own) refl

module _ {T : Type 0} where
  abbrev step : NameCall → Database T → Database T
  step (contact jid name) db = (update_contact_name_into jid name 0 db).0
  step (address_book jid name) db = (update_contact_name_into jid name 1 db).0
  step (group jid name) db = (update_group_name jid name db).0
  step (history chat) db = insert_history_chat_into chat db

  abbrev pub run : List NameCall → Database T → Database T
  run [] db = db
  run (c ∷ cs) db = run cs (step c db)

  -- What a call does to the table contacts.
  contacts-update_contact_name_into :
      (jid name : String) (source : ℕ) (db : Database T)
      → (update_contact_name_into jid name source db).0.contacts ≡ (
          if is_empty (trim name) || is_outranked (find_where (contact_is jid) db.contacts) source
          then db.contacts
          else name_contact jid (trim name) source db.contacts)
  unfolding update_contact_name_into
  contacts-update_contact_name_into jid name source db =
      elim (Bool-cases
        (is_empty (trim name) || is_outranked (find_where (contact_is jid) db.contacts) source)) [
          | inl kept ↦ rw kept refl
          | inr named ↦ rw named refl
        ]

  contacts-update_group_name :
      (jid name : String) (db : Database T)
      → (update_group_name jid name db).0.contacts ≡ db.contacts
  unfolding update_group_name
  contacts-update_group_name jid name db = elim (Bool-cases (is_empty (trim name))) [
    | inl blank ↦ rw blank refl
    | inr given ↦ rw given refl
  ]

  contacts-insert_history_chat_into :
      (chat : HistoryChat) (db : Database T)
      → (insert_history_chat_into chat db).contacts ≡ db.contacts
  unfolding insert_history_chat_into
  contacts-insert_history_chat_into chat db =
      elim (Bool-cases (is_suppressed (find_where (settings_of chat.jid) db.settings))) [
        | inl hidden ↦ rw hidden refl
        | inr shown ↦ rw shown refl
      ]

  -- A contact of another jid, or one of a lower source, leaves the row.
  find-update_contact_name_into :
      (jid other name : String) (source : ℕ) (db : Database T) (c : ContactRow)
      → find_where (contact_is jid) db.contacts ≡ some c
      → (other == jid && not (ltb source c.source)) ≡ false
      → find_where (contact_is jid) (update_contact_name_into other name source db).0.contacts
        ≡ some c
  find-update_contact_name_into jid other name source db c found apart =
      ap (find_where (contact_is jid)) (contacts-update_contact_name_into other name source db)
      ∙ elim (Bool-cases (
          is_empty (trim name)
          || is_outranked (find_where (contact_is other) db.contacts) source)) [
            | inl kept ↦ rw kept found
            | inr named ↦ elim (Bool-cases (other == jid)) [
              | inr elsewhere ↦ rw named (
                  find-name_contact-other jid other (trim name) source db.contacts c elsewhere
                    found)
              | inl own ↦
                  let same : find_where (contact_is other) db.contacts ≡ some c =
                    ap (λ k. find_where (contact_is k) db.contacts) ((eq_iff other jid).0 own)
                    ∙ found in
                  absurd (ground arith)
            ]
          ]

  -- One call of another source keeps the name.
  step-Known :
      (jid name : String) (call : NameCall) (db : Database T)
      → is_address_of jid call ≡ false
      → Known jid name db.contacts
      → Known jid name (step call db).contacts
  step-Known jid name (contact other n) db apart (c, found, named, source) =
      (c, find-update_contact_name_into jid other n 0 db c found (ground arith), named, source)
  step-Known jid name (address_book other n) db apart (c, found, named, source) =
      (c, find-update_contact_name_into jid other n 1 db c found (rw apart refl), named, source)
  step-Known jid name (group other n) db apart known =
      subst (Known jid name) (sym (contacts-update_group_name other n db)) known
  step-Known jid name (history chat) db apart known =
      subst (Known jid name) (sym (contacts-insert_history_chat_into chat db)) known

  run-Known :
      (jid name : String) (calls : List NameCall) (db : Database T)
      → names_address jid calls ≡ false
      → Known jid name db.contacts
      → Known jid name (run calls db).contacts
  run-Known jid name [] db apart known = known
  run-Known jid name (call ∷ calls) db apart known =
      run-Known jid name calls (step call db) (ground arith)
        (step-Known jid name call db (ground arith) known)

  first-Known :
      (jid name : String) (db : Database T)
      → is_empty (trim name) ≡ false
      → is_outranked (find_where (contact_is jid) db.contacts) 1 ≡ false
      → Known jid (trim name) (update_contact_name_into jid name 1 db).0.contacts
  first-Known jid name db given rank =
      subst (Known jid (trim name))
        (sym (contacts-update_contact_name_into jid name 1 db ∙ rw (given, rank) refl))
        (find-name_contact-own jid (trim name) 1 db.contacts)

-- After the address book names a contact, and no contact has a source above it, the name is there as long as the
-- address book does not name the contact again: whatever push names, names of groups and chats of the history
-- are stored in between.
pub address_book_stays :
    {T : Type 0} (jid name : String) (calls : List NameCall) (db : Database T)
    → is_empty (trim name) ≡ false
    → is_outranked (find_where (contact_is jid) db.contacts) 1 ≡ false
    → names_address jid calls ≡ false
    → contact_name jid (run calls (update_contact_name_into jid name 1 db).0) ≡ some (trim name)
address_book_stays jid name calls db given rank apart =
    let (c, found, named, source) =
      run-Known jid (trim name) calls (update_contact_name_into jid name 1 db).0 apart
        (first-Known jid name db given rank) in
    ap name_of found ∙ ap some named
