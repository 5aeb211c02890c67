-- ===== src/State/Avatars.antt =====
-- How changes of the avatar directory are announced (AvatarCoalescer and AvatarBroadcaster in
-- crates/daemon/src/state.rs). `F` is the fingerprint of a file. A map is the list of its entries; the
-- list of changed jids is a set in the order of texts.
pub mod Changes
pub mod Examples
use Prim.Native.Nat.{Ordering}
use Prim.Native.String.{compare}
use omarchy_whatsapp.Prelude.{
  Bool, List, Option, String, [], contains, false, if◌then◌else◌, map, none, not, some, true, ℕ,
  ◌%◌, ◌++◌, ◌+◌, ◌==◌, ◌^◌, ◌∷◌,
}
use omarchy_whatsapp.Prelude.Table.{find_where}

pub record Entry (F : Type 0) : Type 0 where
  pub jid : String
  pub fingerprint : F

pub record AvatarCoalescer (F : Type 0) : Type 0 where
  pub fingerprints : List (Entry F)
  pub changed_jids : List String
  pub seeded : Bool
  pub flush_scheduled : Bool

pub record AvatarBroadcaster (F : Type 0) : Type 0 where
  pub revision : ℕ
  pub state : AvatarCoalescer F

pub record AvatarsEvent : Type 0 where
  pub revision : ℕ
  pub jids : List String
  pub changed_jids : List String

abbrev pub entry_is : {F : Type 0} → String → Entry F → Bool
entry_is jid e = e.jid == jid

abbrev pub jids_of : {F : Type 0} → List (Entry F) → List String
jids_of = map (λ e. e.jid)

-- BTreeSet::insert
unfoldable pub insert : String → List String → List String
insert jid [] = jid ∷ []
insert jid (x ∷ xs) =
    let rest = insert jid xs in
    elim (compare jid x) [
      | Ordering.lt ↦ jid ∷ x ∷ xs
      | Ordering.eq ↦ x ∷ xs
      | Ordering.gt ↦ x ∷ rest
    ]

abbrev pub new_coalescer : {F : Type 0} → AvatarCoalescer F
new_coalescer = record {
  fingerprints = [];
  changed_jids = [];
  seeded = false;
  flush_scheduled = false;
}

module _ {F : Type 0} (same : F → F → Bool) where
  -- current.get(jid) != self.fingerprints.get(jid)
  abbrev pub differs : Option (Entry F) → Option (Entry F) → Bool
  differs none none = false
  differs none (some b) = true
  differs (some a) none = true
  differs (some a) (some b) = not (same a.fingerprint b.fingerprint)

  abbrev pub changed : String → List (Entry F) → List (Entry F) → Bool
  changed jid current before =
      differs (find_where (entry_is jid) current) (find_where (entry_is jid) before)

  -- The loop over the keys of both maps.
  unfoldable pub fold_changes :
      List String → List (Entry F) → List (Entry F) → List String → List String
  unfolding insert
  fold_changes [] current before pending = pending
  fold_changes (jid ∷ jids) current before pending =
      fold_changes jids current before
        (if changed jid current before then insert jid pending else pending)

  unfoldable pub mark_dirty : AvatarCoalescer F → AvatarCoalescer F × Bool
  mark_dirty c = (record c { flush_scheduled = true }, not c.flush_scheduled)

  unfoldable pub flush_coalescer :
      List (Entry F) → AvatarCoalescer F → AvatarCoalescer F × List String
  unfolding fold_changes
  flush_coalescer current c = (
    record { fingerprints = current; changed_jids = []; seeded = true; flush_scheduled = false },
    fold_changes (jids_of current ++ jids_of c.fingerprints) current c.fingerprints c.changed_jids,
  )

  unfoldable pub seed : List (Entry F) → AvatarCoalescer F → AvatarCoalescer F
  seed current c = if c.seeded then c else record c { fingerprints = current; seeded = true }

  published : ℕ → List String → List String → Option AvatarsEvent
  published revision jids [] = none
  published revision jids (x ∷ xs) =
      some (record { revision = revision; jids = jids; changed_jids = x ∷ xs })

  bumped : ℕ → List String → ℕ
  bumped revision [] = revision
  bumped revision (x ∷ xs) = (revision + 1) % 2 ^ 64

  -- fetch_add wraps; the revision that is sent is the old one and one more.
  unfoldable pub flush :
      List (Entry F) → AvatarBroadcaster F → AvatarBroadcaster F × Option AvatarsEvent
  unfolding flush_coalescer published bumped
  flush current b =
      let (state, changed_jids) = flush_coalescer current b.state in
      (
        record { revision = bumped b.revision changed_jids; state = state },
        published (b.revision + 1) (jids_of current) changed_jids,
      )

  unfoldable pub snapshot :
      List (Entry F) → AvatarBroadcaster F → AvatarBroadcaster F × AvatarsEvent
  unfolding seed
  snapshot current b = (
    record b { state = seed current b.state },
    record { revision = b.revision; jids = jids_of current; changed_jids = [] },
  )
