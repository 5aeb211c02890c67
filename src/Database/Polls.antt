-- ===== src/Database/Polls.antt =====
-- Polls and their votes (Database::apply_poll_vote, store_poll_secret, update_poll_tallies and
-- reconcile_poll_tallies in crates/daemon/src/database.rs).
pub mod Selections
use Prim.Native.Nat.{Ordering}
use Prim.Native.String.{compare}
use omarchy_whatsapp.Prelude.Json.{same_list}
use omarchy_whatsapp.Prelude.{
  Bool, List, Option, String, [], contains, eqb, false, if◌then◌else◌, length, ltb, map, none, not,
  same_bool, some, true, ℕ, ◌&&◌, ◌++◌, ◌+◌, ◌-◌, ◌==◌, ◌^◌, ◌||◌, ◌∷◌,
}
use omarchy_whatsapp.Prelude.Int.{eqb_ℤ, leb_ℤ, ltb_ℤ, ℤ}
use omarchy_whatsapp.Prelude.Table.{
  count_where, exists_where, find_where, select_where, update_where,
}
use omarchy_whatsapp.Protocol.{MessageMedia, Poll, PollOption, poll}
use omarchy_whatsapp.Database.{Codecs, Database, MessageRow, PollVoteRow}
use omarchy_whatsapp.Database.ReadState.{message_is}

pub record PollVote : Type 0 where
  pub chat_jid : String
  pub message_id : String
  pub voter_jid : String
  pub selected_options : List String
  pub from_me : Bool
  pub timestamp : ℤ

-- Whether the call succeeds; an error leaves the tables.
pub data Outcome : Type 0 where
  changed : Bool → Outcome
  too_many_options : Outcome

abbrev pub option_names : List PollOption → List String
option_names = map (λ o. o.name)

-- The options of the poll that are selected, each once, in the order of the selection.
pub normalize : List String → List String → List String → List String
normalize names [] normalized = normalized
normalize names (o ∷ os) normalized =
    normalize names os
      (if contains o names && not (contains o normalized) then normalized ++ o ∷ [] else normalized)

selected_names : Option (List String) → List String
selected_names none = []
selected_names (some names) = names

-- How often the list names the option.
pub occurrences : String → List String → ℕ
occurrences name [] = 0
occurrences name (x ∷ xs) = (if x == name then 1 else 0) + occurrences name xs

same_options : List PollOption → List PollOption → Bool
same_options [] [] = true
same_options [] (y ∷ ys) = false
same_options (x ∷ xs) [] = false
same_options (x ∷ xs) (y ∷ ys) =
    (eqb x.votes y.votes
      && (same_bool x.selected_by_me y.selected_by_me && same_list x.voter_jids y.voter_jids))
    && same_options xs ys

module _ {T : Type 0} where
  abbrev pub vote_of_poll : String → String → PollVoteRow T → Bool
  vote_of_poll c id r = r.chat_jid == c && r.message_id == id

  -- The primary key of poll_votes.
  abbrev pub vote_is : PollVote → PollVoteRow T → Bool
  vote_is v r = vote_of_poll v.chat_jid v.message_id r && r.voter_jid == v.voter_jid

  -- ORDER BY timestamp DESC, voter_jid
  abbrev pub vote_before : PollVoteRow T → PollVoteRow T → Bool
  vote_before a b =
      if ltb_ℤ b.timestamp a.timestamp
      then true
      else (eqb_ℤ a.timestamp b.timestamp
          && elim (compare a.voter_jid b.voter_jid) [ Ordering.gt ↦ false | _ ↦ true ])

  insert_vote : PollVoteRow T → List (PollVoteRow T) → List (PollVoteRow T)
  insert_vote r [] = r ∷ []
  insert_vote r (x ∷ xs) =
      let rest = insert_vote r xs in if vote_before r x then r ∷ x ∷ xs else x ∷ rest

  sort_votes : List (PollVoteRow T) → List (PollVoteRow T)
  unfolding insert_vote
  sort_votes [] = []
  sort_votes (r ∷ rs) = insert_vote r (sort_votes rs)

module _ {T : Type 0} (codecs : Codecs T) where
  -- A vote that does not parse selects nothing.
  pub selections : PollVoteRow T → List String
  unfolding selected_names
  selections r = selected_names (codecs.ids.from_str r.selected_options)

  pub vote_count : String → List (PollVoteRow T) → ℕ
  unfolding occurrences selections
  vote_count name [] = 0
  vote_count name (r ∷ rs) = occurrences name (selections r) + vote_count name rs

  pub own_selected : String → List (PollVoteRow T) → Bool
  unfolding selections
  own_selected name rows = exists_where (λ r. r.from_me && contains name (selections r)) rows

  -- Each voter once, in the order of the votes.
  add_voter : String → PollVoteRow T → List String → List String
  unfolding selections
  add_voter name r voters =
      if contains name (selections r) && not (contains r.voter_jid voters)
      then voters ++ r.voter_jid ∷ []
      else voters

  pub voters_of : String → List (PollVoteRow T) → List String → List String
  unfolding add_voter
  voters_of name [] voters = voters
  voters_of name (r ∷ rs) voters = voters_of name rs (add_voter name r voters)

  abbrev pub has_selection : PollVoteRow T → Bool
  unfolding selections
  has_selection r = elim (selections r) [ [] ↦ false | _ ↦ true ]

  -- total_voters.saturating_add(1), of 32 bits
  pub total_of : List (PollVoteRow T) → ℕ
  total_of rows = let n = count_where has_selection rows in if ltb n (2 ^ 32) then n else 2 ^ 32 - 1

  pub tally : List (PollVoteRow T) → PollOption → PollOption
  unfolding vote_count own_selected voters_of
  tally rows o = record o {
    votes = vote_count o.name rows;
    selected_by_me = own_selected o.name rows;
    voter_jids = voters_of o.name rows [];
  }

  -- The poll with the tallies of its votes, and whether they differ from those it shows.
  pub update_poll_tallies : List (PollVoteRow T) → Poll → Poll × Bool
  unfolding tally same_options total_of
  update_poll_tallies rows p =
      let options = map (tally rows) p.options in
      let total = total_of rows in
      (
        record p { options = options; total_voters = total },
        not (eqb p.total_voters total) || not (same_options p.options options),
      )

  -- The rows of the poll in the order of the query.
  pub reconcile_poll_tallies : String → String → Poll → List (PollVoteRow T) → Poll × Bool
  unfolding update_poll_tallies sort_votes
  reconcile_poll_tallies c id p votes =
      update_poll_tallies (sort_votes (select_where (vote_of_poll c id) votes)) p

  vote_row : PollVote → List String → PollVoteRow T
  vote_row v normalized = record {
    chat_jid = v.chat_jid;
    message_id = v.message_id;
    voter_jid = v.voter_jid;
    selected_options = codecs.ids.to_string normalized;
    from_me = v.from_me;
    timestamp = v.timestamp;
  }

  abbrev pub set_vote : PollVote → List String → PollVoteRow T → PollVoteRow T
  set_vote v normalized r = record r {
    selected_options = codecs.ids.to_string normalized;
    from_me = v.from_me;
    timestamp = v.timestamp;
  }

  -- DO UPDATE … WHERE excluded.timestamp >= timestamp AND something differs
  pub replaces_vote : PollVote → List String → PollVoteRow T → Bool
  replaces_vote v normalized r =
      vote_is v r
      && (leb_ℤ r.timestamp v.timestamp
          && (not (codecs.ids.same r.selected_options (codecs.ids.to_string normalized))
              || (not (same_bool r.from_me v.from_me) || not (eqb_ℤ r.timestamp v.timestamp))))

  pub record_vote : PollVote → List String → List (PollVoteRow T) → List (PollVoteRow T) × Bool
  unfolding vote_row replaces_vote
  record_vote v normalized rows =
      if exists_where (vote_is v) rows
      then (
        update_where (replaces_vote v normalized) (set_vote v normalized) rows,
        ltb 0 (count_where (replaces_vote v normalized) rows),
      )
      else (rows ++ vote_row v normalized ∷ [], true)

  store_tallies : String → String → Poll × Bool → Database T → Database T
  store_tallies c id (p, false) db = db
  store_tallies c id (p, true) db = record db {
    messages =
        update_where (message_is c id)
          (λ m. record m { media_json = some (codecs.media.to_string (poll p)) }) db.messages;
  }

  accept_vote : PollVote → List String → Poll → Database T → Database T × Outcome
  unfolding record_vote reconcile_poll_tallies store_tallies
  accept_vote v normalized p db =
      let recorded = record_vote v normalized db.poll_votes in
      let tallies = reconcile_poll_tallies v.chat_jid v.message_id p recorded.0 in
      (
        store_tallies v.chat_jid v.message_id tallies (record db { poll_votes = recorded.0 }),
        changed (recorded.1 || tallies.1),
      )

  vote_on : PollVote → Option MessageMedia → Database T → Database T × Outcome
  unfolding accept_vote normalize
  vote_on v (some (poll p)) db =
      let normalized = normalize (option_names p.options) v.selected_options [] in
      let accepted = accept_vote v normalized p db in
      if ltb p.selectable_count (length normalized) then (db, too_many_options) else accepted
  vote_on v _ db = (db, changed false)

  parsed_media : Option (MessageRow T) → Option MessageMedia
  parsed_media none = none
  parsed_media (some m) = elim m.media_json [ none ↦ none | some t ↦ codecs.media.from_str t ]

  pub apply_poll_vote : PollVote → Database T → Database T × Outcome
  unfolding vote_on parsed_media
  apply_poll_vote v db =
      vote_on v (parsed_media (find_where (message_is v.chat_jid v.message_id) db.messages)) db
