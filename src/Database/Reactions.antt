-- ===== src/Database/Reactions.antt =====
-- Reactions to messages (Database::apply_reaction in crates/daemon/src/database.rs): the last writer
-- wins, and a removal leaves a tombstone.
pub mod Latest
use omarchy_whatsapp.Prelude.{
  Bool, Option, String, [], false, if◌then◌else◌, ltb, none, not, same_bool, some, ◌&&◌, ◌++◌, ◌==◌,
  ◌||◌, ◌∷◌,
}
use omarchy_whatsapp.Prelude.Int.{eqb_ℤ, leb_ℤ, ltb_ℤ, ℤ}
use omarchy_whatsapp.Prelude.Table.{
  count_where, delete_where, exists_where, find_where, update_where,
}
use omarchy_whatsapp.Database.{Database, ReactionRow, ReactionTombstone}

pub record ReactionEvent : Type 0 where
  pub chat_jid : String
  pub message_id : String
  pub reactor_jid : String
  pub emoji : String
  pub from_me : Bool
  pub timestamp : ℤ

-- The primary key of both tables.
abbrev pub reaction_is : ReactionEvent → ReactionRow → Bool
reaction_is e r =
    r.chat_jid == e.chat_jid && (r.message_id == e.message_id && r.reactor_jid == e.reactor_jid)

abbrev pub stone_is : ReactionEvent → ReactionTombstone → Bool
stone_is e s =
    s.chat_jid == e.chat_jid && (s.message_id == e.message_id && s.reactor_jid == e.reactor_jid)

abbrev pub row_of : ReactionEvent → ReactionRow
row_of e = record {
  chat_jid = e.chat_jid;
  message_id = e.message_id;
  reactor_jid = e.reactor_jid;
  emoji = e.emoji;
  from_me = e.from_me;
  timestamp = e.timestamp;
}

abbrev pub stone_of : ReactionEvent → ReactionTombstone
stone_of e = record {
  chat_jid = e.chat_jid;
  message_id = e.message_id;
  reactor_jid = e.reactor_jid;
  timestamp = e.timestamp;
}

-- DO UPDATE … WHERE excluded.timestamp > timestamp
abbrev pub newer_stone : ReactionEvent → ReactionTombstone → Bool
newer_stone e s = stone_is e s && ltb_ℤ s.timestamp e.timestamp

-- DO UPDATE … WHERE excluded.timestamp >= timestamp AND something differs
abbrev pub replaces : ReactionEvent → ReactionRow → Bool
replaces e r =
    reaction_is e r
    && (leb_ℤ r.timestamp e.timestamp
        && (not (r.emoji == e.emoji)
            || (not (same_bool r.from_me e.from_me) || not (eqb_ℤ r.timestamp e.timestamp))))

abbrev pub overwrite : ReactionEvent → ReactionRow → ReactionRow
overwrite e r = record r { emoji = e.emoji; from_me = e.from_me; timestamp = e.timestamp }

pub blocks : ReactionEvent → Option ReactionTombstone → Bool
blocks e none = false
blocks e (some s) = leb_ℤ e.timestamp s.timestamp

module _ {T : Type 0} where
  pub remove_reaction : ReactionEvent → Database T → Database T × Bool
  remove_reaction e db =
      let there = exists_where (stone_is e) db.reaction_tombstones in
      let old = λ (r : ReactionRow). reaction_is e r && leb_ℤ r.timestamp e.timestamp in
      (
        record db {
          reaction_tombstones =
              if there
              then update_where (newer_stone e) (λ s. record s { timestamp = e.timestamp })
                  db.reaction_tombstones
              else db.reaction_tombstones ++ stone_of e ∷ [];
          reactions = delete_where old db.reactions;
        },
        (not there || ltb 0 (count_where (newer_stone e) db.reaction_tombstones))
            || ltb 0 (count_where old db.reactions),
      )

  pub add_reaction : ReactionEvent → Database T → Database T × Bool
  unfolding blocks
  add_reaction e db =
      let there = exists_where (reaction_is e) db.reactions in
      if blocks e (find_where (stone_is e) db.reaction_tombstones) then (db, false) else (
        record db {
          reactions =
              if there
              then update_where (replaces e) (overwrite e) db.reactions
              else db.reactions ++ row_of e ∷ [];
          reaction_tombstones =
              delete_where (λ s. stone_is e s && ltb_ℤ s.timestamp e.timestamp)
                db.reaction_tombstones;
        },
        not there || ltb 0 (count_where (replaces e) db.reactions),
      )

  -- An empty emoji removes the reaction.
  pub apply_reaction : ReactionEvent → Database T → Database T × Bool
  unfolding remove_reaction add_reaction
  apply_reaction e db = if e.emoji == "" then remove_reaction e db else add_reaction e db
