-- ===== src/Database/Polls/Selections.antt =====
-- No voter counts twice for an option, and a vote that arrives late does not undo a later one.
use omarchy_whatsapp.Prelude.Int.{ℤ, ◌<ℤ◌}
use omarchy_whatsapp.Database.Polls.{
  PollVote, accept_vote, apply_poll_vote, normalize, occurrences, option_names, record_vote,
  replaces_vote, selected_names, selections, set_vote, store_tallies, tally, vote_count, vote_is,
  vote_on, vote_row,
}
use omarchy_whatsapp.Prelude.Table.{All, count_where, exists_where, update_where}
use omarchy_whatsapp.Prelude.Table.Every.{All-append, All-update}
use omarchy_whatsapp.Prelude.Table.Count.{count-append, count-implies, count_of_not-exists}
use omarchy_whatsapp.Prelude.Table.Lookup.{exists-append, exists-update}
use omarchy_whatsapp.Prelude.Table.Update.{update-absorbed, update-none}
use omarchy_whatsapp.Database.{Codecs, Database, PollVoteRow}
use omarchy_whatsapp.Prelude.Json.{JsonLaws}
use omarchy_whatsapp.Prelude.{
  Bool, Bool-cases, List, Option, String, [], arith, contains, eq_iff, eq_refl, false,
  if◌then◌else◌, inl, inr, length, ltb, none, not, refl, some, true, ◌&&◌, ◌++◌, ◌+◌, ◌==◌, ◌∙◌,
  ◌∷◌, ◌≡◌, ◌≤◌,
}
use omarchy_whatsapp.Protocol.{
  MessageMedia, Poll, PollOption, audio, document, image, location, poll, sticker, video,
}

occurrences-append :
    (name : String) (xs : List String) (x : String)
    → occurrences name (xs ++ x ∷ []) ≡ occurrences name xs + (if x == name then 1 else 0)
unfolding occurrences
occurrences-append name [] x = ground arith
occurrences-append name (y ∷ ys) x = ground (arith, occurrences-append name ys x)

occurrences-missing :
    (name : String) (xs : List String) → contains name xs ≡ false → occurrences name xs ≡ 0
unfolding occurrences
occurrences-missing name [] h = refl
occurrences-missing name (x ∷ xs) h = ground (arith, occurrences-missing name xs)

-- A list that names nothing twice.
abbrev pub Distinct : List String → Type 0
Distinct xs = (name : String) → occurrences name xs ≤ 1

add-Distinct :
    (o : String) (acc : List String)
    → contains o acc ≡ false
    → Distinct acc
    → Distinct (acc ++ o ∷ [])
add-Distinct o acc fresh h name = elim (Bool-cases (o == name)) [
  | inl same ↦
      let is : o ≡ name = (eq_iff o name).0 same in
      let none_yet : occurrences name acc ≡ 0 = occurrences-missing name acc (rw (← is) fresh) in
      ground (arith, occurrences-append name acc o)
  | inr other ↦ ground (arith, occurrences-append name acc o, h name)
]

normalize-Distinct : (names os acc : List String) → Distinct acc → Distinct (normalize names os acc)
unfolding normalize
normalize-Distinct names [] acc h = h
normalize-Distinct names (o ∷ os) acc h =
    normalize-Distinct names os _ (elim (Bool-cases (contains o names && not (contains o acc))) [
      | inl taken ↦ rw taken (add-Distinct o acc (ground arith) h)
      | inr left ↦ rw left h
    ])

nothing-twice : Distinct []
unfolding occurrences
nothing-twice name = omega arith

module _ {T : Type 0} (codecs : Codecs T) where
  -- Every vote of the table selects an option once at most.
  abbrev pub Fair : List (PollVoteRow T) → Type 0
  Fair rows = All (λ r. Distinct (selections codecs r)) rows

  selections-printed :
      JsonLaws codecs.ids
      → (r : PollVoteRow T) (xs : List String) → r.selected_options ≡ codecs.ids.to_string xs
      → selections codecs r ≡ xs
  unfolding selections selected_names
  selections-printed laws r xs e = rw (e, laws.round_trip xs) refl

  printed-Distinct :
      JsonLaws codecs.ids
      → (r : PollVoteRow T) (xs : List String) → r.selected_options ≡ codecs.ids.to_string xs
      → Distinct xs
      → Distinct (selections codecs r)
  printed-Distinct laws r xs e d name = rw (selections-printed laws r xs e) (d name)

  record_vote-Fair :
      JsonLaws codecs.ids
      → (v : PollVote) (normalized : List String) (rows : List (PollVoteRow T))
      → Distinct normalized
      → Fair rows
      → Fair (record_vote codecs v normalized rows).0
  unfolding record_vote vote_row
  record_vote-Fair laws v normalized rows d h = elim (Bool-cases (exists_where (vote_is v) rows)) [
    | inl there ↦
        let set = set_vote codecs v normalized in
        rw there (
          All-update (λ r. Distinct (selections codecs r)) (replaces_vote codecs v normalized) set
            rows (λ r _. printed-Distinct laws (set r) normalized refl d) h)
    | inr fresh ↦ rw fresh (
        All-append (λ r. Distinct (selections codecs r)) rows (vote_row codecs v normalized) h
          (printed-Distinct laws (vote_row codecs v normalized) normalized refl d))
  ]

  store_tallies-votes :
      (c id : String) (tallies : Poll × Bool) (db : Database T)
      → (store_tallies codecs c id tallies db).poll_votes ≡ db.poll_votes
  unfolding store_tallies
  store_tallies-votes c id (p, false) db = refl
  store_tallies-votes c id (p, true) db = refl

  accept_vote-Fair :
      JsonLaws codecs.ids
      → (v : PollVote) (normalized : List String) (p : Poll) (db : Database T) → Distinct normalized
      → Fair db.poll_votes
      → Fair (accept_vote codecs v normalized p db).0.poll_votes
  unfolding accept_vote
  accept_vote-Fair laws v normalized p db d h =
      rw (store_tallies-votes v.chat_jid v.message_id _ _)
        (record_vote-Fair laws v normalized db.poll_votes d h)

  vote_on-Fair :
      JsonLaws codecs.ids
      → (v : PollVote) (media : Option MessageMedia) (db : Database T) → Fair db.poll_votes
      → Fair (vote_on codecs v media db).0.poll_votes
  unfolding vote_on
  vote_on-Fair laws v none db h = h
  vote_on-Fair laws v (some (image x1 x2 x3 x4 x5 x6)) db h = h
  vote_on-Fair laws v (some (sticker x1 x2 x3 x4 x5 x6 x7 x8 x9)) db h = h
  vote_on-Fair laws v (some (video x1 x2 x3 x4 x5 x6 x7 x8)) db h = h
  vote_on-Fair laws v (some (audio x1 x2 x3 x4 x5)) db h = h
  vote_on-Fair laws v (some (document x1 x2 x3 x4 x5)) db h = h
  vote_on-Fair laws v (some (location x1 x2 x3 x4 x5 x6 x7 x8 x9)) db h = h
  vote_on-Fair laws v (some (poll p)) db h =
      let normalized = normalize (option_names p.options) v.selected_options [] in
      elim (Bool-cases (ltb p.selectable_count (length normalized))) [
        | inl many ↦ rw many h
        | inr few ↦ rw few (
            accept_vote-Fair laws v normalized p db
              (normalize-Distinct (option_names p.options) v.selected_options []
                (λ name. nothing-twice name))
              h)
      ]

  -- Whatever vote arrives, every vote of the table names an option once at most, so that no voter
  -- counts twice for it.
  pub apply_poll_vote-Fair :
      JsonLaws codecs.ids
      → (v : PollVote) (db : Database T) → Fair db.poll_votes
      → Fair (apply_poll_vote codecs v db).0.poll_votes
  unfolding apply_poll_vote
  apply_poll_vote-Fair laws v db h = vote_on-Fair laws v _ db h

  -- The votes that an option shows are no more than the voters.
  vote_count-le :
      (name : String) (rows : List (PollVoteRow T))
      → Fair rows
      → vote_count codecs name rows ≤ length rows
  unfolding vote_count
  vote_count-le name [] h = omega arith
  vote_count-le name (r ∷ rs) h = omega (arith, h.0 name, vote_count-le name rs h.1)

  -- Where the votes are so, an option of the tallied poll shows no more votes than there are voters.
  pub tally-bounded :
      (rows : List (PollVoteRow T)) (o : PollOption)
      → Fair rows
      → (tally codecs rows o).votes ≤ length rows
  unfolding tally
  tally-bounded rows o h = vote_count-le o.name rows h

  replaced-stale :
      (v : PollVote) (early : ℤ) (options1 options2 : List String) (own : Bool)
      (rows : List (PollVoteRow T))
      → early <ℤ v.timestamp
      → update_where
          (replaces_vote codecs (record v { timestamp = early; from_me = own }) options1)
          (set_vote codecs (record v { timestamp = early; from_me = own }) options1)
          (update_where (replaces_vote codecs v options2) (set_vote codecs v options2) rows)
        ≡ update_where (replaces_vote codecs v options2) (set_vote codecs v options2) rows
  unfolding replaces_vote
  replaced-stale v early options1 options2 own rows before =
      update-absorbed
        (replaces_vote codecs (record v { timestamp = early; from_me = own }) options1)
        (replaces_vote codecs v options2)
        (set_vote codecs (record v { timestamp = early; from_me = own }) options1)
        (set_vote codecs v options2) rows (λ r e. ground arith) (λ r e. ground arith)

  added-stale :
      (v : PollVote) (early : ℤ) (options1 options2 : List String) (own : Bool)
      (rows : List (PollVoteRow T))
      → early <ℤ v.timestamp
      → exists_where (vote_is v) rows ≡ false
      → count_where
          (replaces_vote codecs (record v { timestamp = early; from_me = own }) options1)
          (rows ++ vote_row codecs v options2 ∷ [])
        ≡ 0
  unfolding replaces_vote vote_row
  added-stale v early options1 options2 own rows before fresh =
      let late = record v { timestamp = early; from_me = own } in
      omega (
        arith,
        count-append (replaces_vote codecs late options1) rows (vote_row codecs v options2),
        count-implies (replaces_vote codecs late options1) (vote_is v) rows (λ r e. ground arith),
        count_of_not-exists (vote_is v) rows fresh,
        last,
      )
    where
      last :
          count_where
            (replaces_vote codecs (record v { timestamp = early; from_me = own }) options1)
            (vote_row codecs v options2 ∷ [])
          ≡ 0
      last = ground arith

  -- A vote that arrives after a later one of the same voter leaves the votes as they are.
  pub record_vote-stale :
      (v : PollVote) (early : ℤ) (options1 options2 : List String) (own : Bool)
      (rows : List (PollVoteRow T))
      → early <ℤ v.timestamp
      → (record_vote codecs
          (record v { timestamp = early; from_me = own })
          options1
          (record_vote codecs v options2 rows).0).0
        ≡ (record_vote codecs v options2 rows).0
  unfolding record_vote vote_row
  record_vote-stale v early options1 options2 own rows before =
      let late = record v { timestamp = early; from_me = own } in
      elim (Bool-cases (exists_where (vote_is v) rows)) [
        | inl there ↦
            let still =
              exists-update (vote_is v) (replaces_vote codecs v options2)
                (set_vote codecs v options2) rows (λ r. refl)
              ∙ there in
            rw (there, still, replaced-stale v early options1 options2 own rows before) refl
        | inr fresh ↦
            let now : exists_where (vote_is v) (rows ++ vote_row codecs v options2 ∷ []) ≡ true =
              exists-append (vote_is v) rows (vote_row codecs v options2)
              ∙ rw (fresh, eq_refl v.chat_jid, eq_refl v.message_id) (eq_refl v.voter_jid) in
            rw (fresh, now)
              (update-none (replaces_vote codecs late options1) (set_vote codecs late options1)
                (rows ++ vote_row codecs v options2 ∷ [])
                (added-stale v early options1 options2 own rows before fresh))
      ]
