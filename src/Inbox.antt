-- ===== src/Inbox.antt =====
-- The durable inbox of received messages, the table inbound_inbox
-- (commit_inbound_batch, pending_inbound and finish_inbound in crates/daemon/src/database.rs, and the
-- types of crates/daemon/src/inbound.rs).
pub mod Refines
pub mod Pending
mod Examples
use omarchy_whatsapp.Prelude.{
  Bool, List, String, [], if◌then◌else◌, ltb, ◌&&◌, ◌+◌, ◌++◌, ◌==◌, ◌∷◌, ℕ, zero, suc,
}
use omarchy_whatsapp.Prelude.Int.{ltb_ℤ, ℤ}
use omarchy_whatsapp.Prelude.Table.{count_where, delete_where, exists_where}

pub record InboundKey : Type 0 where
  pub chat_jid : String
  pub sender_jid : String
  pub message_id : String

-- `message` is the list of its bytes.
pub record DurableInbound : Type 0 where
  pub key : InboundKey
  pub message : List ℕ
  pub push_name : String
  pub timestamp : ℤ
  pub media_type : String
  pub is_from_me : Bool
  pub is_group : Bool
  pub is_offline : Bool
  pub committed_at : ℤ

-- The primary key of the table.
abbrev pub same_key : InboundKey → InboundKey → Bool
same_key a b =
    a.chat_jid == b.chat_jid && (a.sender_jid == b.sender_jid && a.message_id == b.message_id)

abbrev pub has_key : InboundKey → DurableInbound → Bool
has_key k r = same_key r.key k

-- INSERT OR IGNORE INTO inbound_inbox
unfoldable pub insert_or_ignore : DurableInbound → List DurableInbound → List DurableInbound × ℕ
insert_or_ignore r rows =
    if exists_where (has_key r.key) rows then (rows, 0) else (rows ++ r ∷ [], 1)

unfoldable pub commit_inbound_batch :
    List DurableInbound → List DurableInbound → List DurableInbound × ℕ
unfolding insert_or_ignore
commit_inbound_batch [] rows = (rows, 0)
commit_inbound_batch (r ∷ records) rows =
    let inserted = insert_or_ignore r rows in
    let rest = commit_inbound_batch records inserted.0 in (rest.0, inserted.1 + rest.1)

unfoldable pub finish_inbound : InboundKey → List DurableInbound → List DurableInbound × Bool
finish_inbound k rows = (delete_where (has_key k) rows, ltb 0 (count_where (has_key k) rows))

-- ORDER BY committed_at, rowid: the rows are in rowid order, and a row that is inserted before equal
-- ones keeps its place.
unfoldable pub insert_oldest : DurableInbound → List DurableInbound → List DurableInbound
insert_oldest r [] = r ∷ []
insert_oldest r (x ∷ xs) =
    let rest = insert_oldest r xs in
    if ltb_ℤ x.committed_at r.committed_at then x ∷ rest else r ∷ x ∷ xs

unfoldable pub oldest_first : List DurableInbound → List DurableInbound
unfolding insert_oldest
oldest_first [] = []
oldest_first (r ∷ rows) = insert_oldest r (oldest_first rows)

-- LIMIT n
unfoldable pub limit_to : ℕ → List DurableInbound → List DurableInbound
limit_to zero rows = []
limit_to (suc n) [] = []
limit_to (suc n) (r ∷ rows) = r ∷ limit_to n rows

-- limit.clamp(1, 10_000)
abbrev pub clamped : ℕ → ℕ
clamped limit = if ltb limit 1 then 1 else if ltb 10000 limit then 10000 else limit

unfoldable pub pending_inbound : ℕ → List DurableInbound → List DurableInbound
unfolding oldest_first limit_to
pending_inbound limit rows = limit_to (clamped limit) (oldest_first rows)

-- The calls that change the table, and a run of them.
pub data Step : Type 0 where
  commit : List DurableInbound → Step
  finish : InboundKey → Step

unfoldable pub step : Step → List DurableInbound → List DurableInbound
unfolding commit_inbound_batch finish_inbound
step (commit records) rows = (commit_inbound_batch records rows).0
step (finish k) rows = (finish_inbound k rows).0

unfoldable pub run : List Step → List DurableInbound → List DurableInbound
unfolding step
run [] rows = rows
run (s ∷ steps) rows = run steps (step s rows)
