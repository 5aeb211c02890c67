-- ===== src/Revisions/Order.antt =====
-- Revisions count up without a gap, and a generation that has ended never becomes current again.
use mathlib.Core.Path.{subst}
use omarchy_whatsapp.Prelude.{
  Bool-cases, List, [], arith, eqb, false, inl, inr, length, true, ℕ, ◌+◌, ◌<◌, ◌∷◌, ◌≡◌, ◌≤◌,
}
use omarchy_whatsapp.Revisions.{
  Op, RevisionClock, ServerFrame, begin, begin_generation, is_current, publish, retire,
  retire_generation, run, saturating_succ, stamp, stamp_response, u64_max, with_metadata,
}

-- The revisions `n + 1`, `n + 2`, ….
abbrev pub CountUp : {E : Type 0} → ℕ → List (ServerFrame E) → Type 0
CountUp n [] = Unit
CountUp n (f ∷ fs) = (f.sequence ≡ n + 1) × CountUp (n + 1) fs

-- Generations that never fall.
abbrev pub Rising : {E : Type 0} → ℕ → List (ServerFrame E) → Type 0
Rising g [] = Unit
Rising g (f ∷ fs) = (g ≤ f.generation) × Rising f.generation fs

succ-le : (n : ℕ) → n ≤ u64_max → (n ≤ saturating_succ n) × (saturating_succ n ≤ u64_max)
unfolding saturating_succ
succ-le n h = (ground arith, ground arith)

-- One call: the generation does not fall.
retire-le :
    (g : ℕ) (k : RevisionClock)
    → k.generation ≤ u64_max
    → (k.generation ≤ (retire_generation g k).generation)
      × ((retire_generation g k).generation ≤ u64_max)
unfolding retire_generation
retire-le g k h = elim (Bool-cases (eqb k.generation g)) [
  | inl same ↦ rw same (succ-le k.generation h)
  | inr other ↦ rw other (omega arith, h)
]

retire-revision : (g : ℕ) (k : RevisionClock) → (retire_generation g k).revision ≡ k.revision
unfolding retire_generation
retire-revision g k = ground arith

module _ {E : Type 0} where
  -- Until the counter of 64 bits is used up, the frames of any run carry the revisions one after
  -- another, with none left out.
  pub run-CountUp :
      (k : RevisionClock) (os : List (Op E))
      → k.revision + length os ≤ u64_max
      → CountUp k.revision (run k os).1
  unfolding run begin_generation stamp_response stamp saturating_succ with_metadata
  run-CountUp k [] few = tt
  run-CountUp k (begin ∷ os) few = run-CountUp (begin_generation k).0 os (omega arith)
  run-CountUp k (retire g ∷ os) few =
      let same = retire-revision g k in
      subst (λ n. CountUp n (run (retire_generation g k) os).1) same
        (run-CountUp (retire_generation g k) os (omega (arith, same)))
  run-CountUp k (publish id e ∷ os) few =
      let next : saturating_succ k.revision ≡ k.revision + 1 = ground arith in
      (
        next,
        subst (λ n. CountUp n (run (record k { revision = saturating_succ k.revision }) os).1) next
            (run-CountUp (record k { revision = saturating_succ k.revision }) os (ground arith)),
      )

  -- The generation never falls, and the frames show it so.
  run-Rising :
      (k : RevisionClock) (os : List (Op E)) (g : ℕ)
      → k.generation ≤ u64_max
      → g ≤ k.generation
      → Rising g (run k os).1 × (k.generation ≤ (run k os).0.generation)
  unfolding run begin_generation stamp_response stamp with_metadata
  run-Rising k [] g h e = (tt, omega arith)
  run-Rising k (begin ∷ os) g h e =
      let s = succ-le k.generation h in
      let rest = run-Rising (begin_generation k).0 os g s.1 (omega arith) in (rest.0, omega arith)
  run-Rising k (retire x ∷ os) g h e =
      let s = retire-le x k h in
      let rest = run-Rising (retire_generation x k) os g s.1 (omega arith) in (rest.0, omega arith)
  run-Rising k (publish id x ∷ os) g h e =
      let rest = run-Rising (stamp_response id x k).0 os k.generation h (omega arith) in
      ((e, rest.0), rest.1)

  -- The frames of a run carry generations that never fall.
  pub run-generations :
      (k : RevisionClock) (os : List (Op E))
      → k.generation ≤ u64_max
      → Rising k.generation (run k os).1
  run-generations k os h = (run-Rising k os k.generation h (omega arith)).0

  -- A generation that is retired, or that another has followed, is never current again, whatever
  -- the clients of the clock call, until the counter of 64 bits is used up.
  pub retired-stays :
      (k : RevisionClock) (g : ℕ) (os : List (Op E))
      → k.generation < u64_max
      → g ≤ k.generation
      → is_current g (run (retire_generation g k) os).0 ≡ false
  unfolding is_current retire_generation saturating_succ
  retired-stays k g os h e =
      let up : g < (retire_generation g k).generation = ground arith in
      let top : (retire_generation g k).generation ≤ u64_max = ground arith in
      let later = run-Rising (retire_generation g k) os 0 top (omega arith) in
      ground (arith, later.1)

-- A generation that begins is current.
pub begin_generation-is_current :
    (k : RevisionClock) → is_current (begin_generation k).1 (begin_generation k).0 ≡ true
unfolding is_current begin_generation saturating_succ
begin_generation-is_current k = ground arith
