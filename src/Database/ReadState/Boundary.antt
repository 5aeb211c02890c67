-- ===== src/Database/ReadState/Boundary.antt =====
-- What the read boundary of a chat covers, before and after apply_read_boundary.
use omarchy_whatsapp.Prelude.{
  Bool-cases, List, Option, Option-cases, String, [], ap, arith, contains, eq_iff, eq_refl, false,
  if◌then◌else◌, inl, inr, length, length-append, none, refl, some, true, unwrap_or, ℕ, ◌++◌, ◌+◌,
  ◌==◌, ◌||◌, ◌∙◌, ◌∷◌, ◌≡◌, ◌≤◌, ◌⊎◌,
}
use omarchy_whatsapp.Prelude.Json.{JsonLaws}
use omarchy_whatsapp.Prelude.Int.{leb_ℤ, max_ℤ_left, ℤ, ◌≤ℤ◌}
use omarchy_whatsapp.Prelude.Table.Lookup.{exists-find, find-append, find-update, find_some}
use omarchy_whatsapp.Prelude.Table.{find_where, map_if}
use omarchy_whatsapp.Database.{Codecs, Database, MessageRow, SettingsRow, new_settings, settings_of}
use omarchy_whatsapp.Database.Insert.{
  covered, read_boundary_ids, read_boundary_ids-none, read_boundary_ids-printed,
}
use omarchy_whatsapp.Database.ReadState.{
  add_ids, apply_read_boundary, candidate_boundary, ensure_settings, extra_ids, keep_last,
  later_than, message_timestamp, new_boundary, new_ids, print_ids, read_boundary_ids_cap,
  settings_row,
}

contains-append :
    (id : String) (xs : List String) (x : String)
    → contains id (xs ++ x ∷ []) ≡ (contains id xs || x == id)
contains-append id [] x = ground arith
contains-append id (y ∷ ys) x = ground (arith, contains-append id ys x)

-- The IDs of both boundaries are kept.
contains-add_ids :
    (id : String) (covered ids : List String)
    → contains id (add_ids covered ids) ≡ (contains id covered || contains id ids)
unfolding add_ids
contains-add_ids id covered [] = ground arith
contains-add_ids id covered (x ∷ xs) =
    contains-add_ids id (if contains x covered then covered else covered ++ x ∷ []) xs
    ∙ elim (Bool-cases (contains x covered)) [
      | inl old ↦ rw old (ground (arith, eq_iff x id))
      | inr new ↦ rw new (ground (arith, contains-append id covered x))
    ]

length-add_ids :
    (covered ids : List String) → length (add_ids covered ids) ≤ length covered + length ids
unfolding add_ids
length-add_ids covered [] = omega arith
length-add_ids covered (x ∷ xs) = elim (Bool-cases (contains x covered)) [
  | inl old ↦ rw old (omega (arith, length-add_ids covered xs))
  | inr new ↦
      rw new (omega (arith, length-add_ids (covered ++ x ∷ []) xs, length-append covered (x ∷ [])))
]

keep_last-all : (n : ℕ) (xs : List String) → length xs ≤ n → keep_last n xs ≡ xs
unfolding keep_last
keep_last-all n xs h = ground arith

module _ {T : Type 0} where
  contains-extra_ids :
      (id c : String) (b : ℤ) (ms : List (MessageRow T)) (ids : List String)
      → later_than b (message_timestamp c id ms) ≡ true
      → contains id (extra_ids c b ms ids) ≡ contains id ids
  unfolding extra_ids
  contains-extra_ids id c b ms [] h = refl
  contains-extra_ids id c b ms (x ∷ xs) h = elim (Bool-cases (x == id)) [
    | inl same ↦
        let is : x ≡ id = (eq_iff x id).0 same in
        let kept : later_than b (message_timestamp c x ms) ≡ true = rw is h in rw (kept, same) refl
    | inr other ↦ ground (arith, contains-extra_ids id c b ms xs)
  ]

  length-extra_ids :
      (c : String) (b : ℤ) (ms : List (MessageRow T)) (ids : List String)
      → length (extra_ids c b ms ids) ≤ length ids
  unfolding extra_ids
  length-extra_ids c b ms [] = omega arith
  length-extra_ids c b ms (x ∷ xs) = ground (arith, length-extra_ids c b ms xs)

  ensure-row :
      (c : String) (rows : List (SettingsRow T))
      → find_where (settings_of c) (ensure_settings c rows) ≡ some (settings_row c rows)
  unfolding ensure_settings
  ensure-row c rows = elim (Option-cases (find_where (settings_of c) rows)) [
    | inl missing ↦ ground (
      arith,
      missing,
      exists-find (settings_of c) rows,
      find-append (settings_of c) rows (new_settings c),
      eq_refl c,
    )
    | inr (r, found) ↦ ground (arith, found, exists-find (settings_of c) rows)
  ]

module _ {T : Type 0} (codecs : Codecs T) where
  -- The chat's settings afterwards.
  pub settings-after : String → ℤ → List String → Database T → SettingsRow T
  settings-after c timestamp ids db = record (settings_row c db.settings) {
    read_boundary = new_boundary c timestamp ids db;
    read_boundary_ids = print_ids codecs (new_ids codecs c timestamp ids db);
    read_state = some true;
    explicit_unread = false;
  }

  pub apply_read_boundary-settings :
      (c : String) (timestamp : ℤ) (ids : List String) (db : Database T)
      → find_where (settings_of c) (apply_read_boundary codecs c timestamp ids db).0.settings
        ≡ some (settings-after c timestamp ids db)
  unfolding apply_read_boundary settings-after
  apply_read_boundary-settings c timestamp ids db =
      let set = λ (s : SettingsRow T). record s {
        read_boundary = new_boundary c timestamp ids db;
        read_boundary_ids = print_ids codecs (new_ids codecs c timestamp ids db);
        read_state = some true;
        explicit_unread = false;
      } in
      find-update (settings_of c) (settings_of c) set (ensure_settings c db.settings) (λ s. refl)
      ∙ (ap (map_if (settings_of c) set) (ensure-row c db.settings)
          ∙ rw
              (find_some (settings_of c) (ensure_settings c db.settings)
                (settings_row c db.settings) (ensure-row c db.settings))
              refl)

  parse-print :
      JsonLaws codecs.ids
      → (ids : List String) → read_boundary_ids codecs (print_ids codecs ids) ≡ ids
  unfolding print_ids
  parse-print laws [] = read_boundary_ids-none codecs
  parse-print laws (x ∷ xs) = read_boundary_ids-printed codecs laws (x ∷ xs)

  -- The boundary of a chat never moves back.
  pub read_boundary-monotone :
      (c : String) (timestamp : ℤ) (ids : List String) (db : Database T)
      → (settings_row c db.settings).read_boundary
        ≤ℤ (settings_row c (apply_read_boundary codecs c timestamp ids db).0.settings).read_boundary
  unfolding settings-after
  read_boundary-monotone c timestamp ids db =
      rw (apply_read_boundary-settings c timestamp ids db)
        (max_ℤ_left (settings_row c db.settings).read_boundary (candidate_boundary timestamp ids))

  -- The IDs known before and those named now, as far as the boundary's second does not cover them.
  contains-new_ids :
      (c : String) (timestamp : ℤ) (ids : List String) (db : Database T) (id : String)
      → length (read_boundary_ids codecs (settings_row c db.settings).read_boundary_ids)
          + length ids
        ≤ read_boundary_ids_cap
      → later_than (new_boundary c timestamp ids db) (message_timestamp c id db.messages) ≡ true
      → contains id (new_ids codecs c timestamp ids db) ≡ (
          contains id (read_boundary_ids codecs (settings_row c db.settings).read_boundary_ids)
          || contains id ids)
  contains-new_ids c timestamp ids db id few later =
      let old = read_boundary_ids codecs (settings_row c db.settings).read_boundary_ids in
      let b = new_boundary c timestamp ids db in
      ap (contains id) (
        keep_last-all read_boundary_ids_cap (extra_ids c b db.messages (add_ids old ids)) (
          omega (
            arith,
            length-extra_ids c b db.messages (add_ids old ids),
            length-add_ids old ids,
            few,
          )))
      ∙ (contains-extra_ids id c b db.messages (add_ids old ids) later
          ∙ contains-add_ids id old ids)

  covered-before :
      (o : Option (SettingsRow T)) (c : String) (sent : ℤ) (id : String)
      → covered codecs o sent id ≡ (
          leb_ℤ sent (unwrap_or o (new_settings c)).read_boundary
          || contains id
              (read_boundary_ids codecs (unwrap_or o (new_settings c)).read_boundary_ids))
  unfolding covered
  covered-before none c sent id = ground (arith, read_boundary_ids-none codecs)
  covered-before (some s) c sent id = refl

  settings-after-covered :
      JsonLaws codecs.ids
      → (c : String) (timestamp : ℤ) (ids : List String) (db : Database T) (sent : ℤ) (id : String)
      → covered codecs (some (settings-after c timestamp ids db)) sent id ≡ (
          leb_ℤ sent (new_boundary c timestamp ids db)
          || contains id (new_ids codecs c timestamp ids db))
  unfolding covered settings-after
  settings-after-covered laws c timestamp ids db sent id =
      rw (parse-print laws (new_ids codecs c timestamp ids db)) refl

  -- A message that the old boundary covers, or that the new one names or reaches, is covered
  -- afterwards, also where it is not stored yet, as long as the IDs fit the cap.
  pub apply_read_boundary-covers :
      JsonLaws codecs.ids
      → (c : String) (timestamp : ℤ) (ids : List String) (db : Database T) (id : String) (sent : ℤ)
      → length (read_boundary_ids codecs (settings_row c db.settings).read_boundary_ids)
          + length ids
        ≤ read_boundary_ids_cap
      → (message_timestamp c id db.messages ≡ none)
        ⊎ (message_timestamp c id db.messages ≡ some sent)
      → (leb_ℤ sent (candidate_boundary timestamp ids)
          || (contains id ids || covered codecs (find_where (settings_of c) db.settings) sent id))
        ≡ true
      → covered codecs
          (find_where (settings_of c) (apply_read_boundary codecs c timestamp ids db).0.settings)
          sent
          id
        ≡ true
  unfolding later_than
  apply_read_boundary-covers laws c timestamp ids db id sent few stored h =
      rw
        (
          apply_read_boundary-settings c timestamp ids db,
          settings-after-covered laws c timestamp ids db sent id,
        )
        (elim (Bool-cases (leb_ℤ sent (new_boundary c timestamp ids db))) [
          | inl reached ↦ ground arith
          | inr beyond ↦
              let named = contains-new_ids c timestamp ids db id few (elim stored [
                | inl missing ↦ rw missing refl
                | inr there ↦ rw there (ground arith)
              ]) in
              ground (arith, covered-before (find_where (settings_of c) db.settings) c sent id)
        ])
