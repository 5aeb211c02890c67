-- ===== src/Revisions.antt =====
-- The clock that stamps what the daemon publishes (crates/daemon/src/revisions.rs), and the frame
-- that it stamps (crates/protocol/src/lib.rs). Each call of an atomic is one step.
pub mod Order
pub mod Examples
use omarchy_whatsapp.Prelude.{
  Bool, List, Option, [], eqb, if◌then◌else◌, ltb, none, not, ℕ, ◌&&◌, ◌+◌, ◌-◌, ◌^◌, ◌∷◌,
}

-- `E` is the type of the published events.
pub record ServerFrame (E : Type 0) : Type 0 where
  pub id : Option ℕ
  pub generation : ℕ
  pub sequence : ℕ
  pub event : E

pub record RevisionClock : Type 0 where
  pub generation : ℕ
  pub revision : ℕ

-- u64::MAX
abbrev pub u64_max : ℕ
u64_max = 2 ^ 64 - 1

-- value.saturating_add(1)
pub saturating_succ : ℕ → ℕ
saturating_succ n = if ltb n u64_max then n + 1 else u64_max

pub begin_generation : RevisionClock → RevisionClock × ℕ
unfolding saturating_succ
begin_generation k =
    (record k { generation = saturating_succ k.generation }, saturating_succ k.generation)

pub is_current : ℕ → RevisionClock → Bool
is_current generation k = not (eqb generation 0) && eqb k.generation generation

pub retire_generation : ℕ → RevisionClock → RevisionClock
unfolding saturating_succ
retire_generation generation k =
    if eqb k.generation generation
    then record k { generation = saturating_succ k.generation }
    else k

module _ {E : Type 0} where
  response : Option ℕ → E → ServerFrame E
  response id event = record { id = id; generation = 0; sequence = 0; event = event }

  with_metadata : ℕ → ℕ → ServerFrame E → ServerFrame E
  with_metadata generation sequence f = record f { generation = generation; sequence = sequence }

  stamp : ServerFrame E → RevisionClock → RevisionClock × ServerFrame E
  unfolding saturating_succ with_metadata
  stamp f k = (
    record k { revision = saturating_succ k.revision },
    with_metadata k.generation (saturating_succ k.revision) f,
  )

  pub stamp_event : E → RevisionClock → RevisionClock × ServerFrame E
  unfolding stamp response
  stamp_event event = stamp (response none event)

  pub stamp_response : Option ℕ → E → RevisionClock → RevisionClock × ServerFrame E
  unfolding stamp response
  stamp_response id event = stamp (response id event)

pub data Op (E : Type 0) : Type 0 where
  begin : Op E
  retire : ℕ → Op E
  publish : Option ℕ → E → Op E

-- The clock after some calls, and the frames that they stamped, in order.
pub run : {E : Type 0} → RevisionClock → List (Op E) → RevisionClock × List (ServerFrame E)
unfolding begin_generation retire_generation stamp_response
run k [] = (k, [])
run k (begin ∷ os) = run (begin_generation k).0 os
run k (retire g ∷ os) = run (retire_generation g k) os
run k (publish id e ∷ os) =
    let stamped = stamp_response id e k in
    let rest = run stamped.0 os in (rest.0, stamped.1 ∷ rest.1)
