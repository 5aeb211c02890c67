-- ===== src/Voice/Cleanup/Bounded.antt =====
-- How the eviction of cleanup_inner ends (crates/daemon/src/voice_outbox.rs).
use mathlib.Core.Path.{subst, sym}
use omarchy_whatsapp.Prelude.{
  Bool, Bool-cases, List, Option, Option-cases, String, [], ap, arith, false, inl, inr, length,
  none, refl, some, suc, true, zero, ℕ, ◌+◌, ◌-◌, ◌∷◌, ◌≡◌, ◌⊎◌, ◌≤◌, ◌∙◌,
}
use omarchy_whatsapp.Prelude.Table.{exists_where}
use omarchy_whatsapp.Voice.Jobs.{Outbox, remove_files}
use omarchy_whatsapp.Voice.Cleanup.{
  RetainedJob, evict, evict_all, insert_job, max_jobs, max_outbox_bytes, may_evict, oldest_first,
  over_limits, take_first, total_bytes,
}

-- Nothing is taken only where nothing satisfies the test; what is taken comes off the length and the bytes.
take_first-none :
    (p : RetainedJob → Bool) (rs : List RetainedJob)
    → take_first p rs ≡ none
    → exists_where p rs ≡ false
unfolding take_first
take_first-none p [] e = refl
take_first-none p (r ∷ rs) e = elim (Option-cases (take_first p rs)) [
  | inl none_left ↦ ground (arith, take_first-none p rs)
  | inr ((y, ys), found) ↦ ground arith
]

pub take_first-some :
    (p : RetainedJob → Bool) (rs rest : List RetainedJob) (x : RetainedJob)
    → take_first p rs ≡ some (x, rest)
    → (length rs ≡ suc (length rest)) × (total_bytes rs ≡ x.audio_bytes + total_bytes rest)
unfolding take_first
take_first-some p [] rest x e = cc
take_first-some p (r ∷ rs) rest x e = elim (Option-cases (take_first p rs)) [
  | inl none_left ↦ ground arith
  | inr ((y, ys), found) ↦ ground (arith, take_first-some p rs ys y found)
]

abbrev pub WithinLimits : List RetainedJob → Type 0
WithinLimits rs = (length rs ≤ max_jobs) × (total_bytes rs ≤ max_outbox_bytes)

-- What the eviction leaves: jobs within the limits, or none that may go.
abbrev pub Settled : Option String → List RetainedJob → Type 0
Settled preserve rs = WithinLimits rs ⊎ (exists_where (may_evict preserve) rs ≡ false)

module _ {S : Type 0} (preserve : Option String) where
  pub evict-within :
      (fuel : ℕ) (rs : List RetainedJob) (bytes : ℕ) (o : Outbox S)
      → over_limits rs bytes ≡ false
      → evict preserve (suc fuel) rs bytes o ≡ (o, rs)
  unfolding evict
  evict-within fuel rs bytes o e = ground arith

  pub evict-stuck :
      (fuel : ℕ) (rs : List RetainedJob) (bytes : ℕ) (o : Outbox S)
      → over_limits rs bytes ≡ true
      → take_first (may_evict preserve) rs ≡ none
      → evict preserve (suc fuel) rs bytes o ≡ (o, rs)
  unfolding evict
  evict-stuck fuel rs bytes o e f = ground arith

  pub evict-next :
      (fuel : ℕ) (rs rest : List RetainedJob) (bytes : ℕ) (o : Outbox S) (x : RetainedJob)
      → over_limits rs bytes ≡ true
      → take_first (may_evict preserve) rs ≡ some (x, rest)
      → evict preserve (suc fuel) rs bytes o
        ≡ evict preserve fuel rest (bytes - x.audio_bytes) (remove_files x.recording_id o)
  unfolding evict
  evict-next fuel rs rest bytes o x e f = ground arith

  evict_settles :
      (fuel : ℕ) (rs : List RetainedJob) (bytes : ℕ) (o : Outbox S)
      → length rs ≤ fuel
      → bytes ≡ total_bytes rs
      → Settled preserve (evict preserve fuel rs bytes o).1
  unfolding evict
  evict_settles zero [] bytes o h e = inl (omega arith)
  evict_settles zero (r ∷ rs) bytes o h e = absurd (omega arith)
  evict_settles (suc fuel) rs bytes o h e = elim (Bool-cases (over_limits rs bytes)) [
    | inl over ↦ elim (Option-cases (take_first (may_evict preserve) rs)) [
      | inl none_left ↦
          subst (λ x. Settled preserve x.1) (sym (evict-stuck fuel rs bytes o over none_left))
            (inr (take_first-none (may_evict preserve) rs none_left))
      | inr ((x, rest), found) ↦
          let (shorter, less) = take_first-some (may_evict preserve) rs rest x found in
          subst (λ x. Settled preserve x.1) (sym (evict-next fuel rs rest bytes o x over found))
            (evict_settles fuel rest (bytes - x.audio_bytes) (remove_files x.recording_id o)
              (omega arith) (omega arith))
    ]
    | inr within ↦
        subst (λ x. Settled preserve x.1) (sym (evict-within fuel rs bytes o within))
          (inl (ground arith))
  ]

length-insert_job :
    (r : RetainedJob) (rs : List RetainedJob) → length (insert_job r rs) ≡ suc (length rs)
unfolding insert_job
length-insert_job r [] = refl
length-insert_job r (x ∷ xs) = ground (arith, length-insert_job r xs)

length-oldest_first : (rs : List RetainedJob) → length (oldest_first rs) ≡ length rs
unfolding oldest_first
length-oldest_first [] = refl
length-oldest_first (r ∷ rs) =
    length-insert_job r (oldest_first rs) ∙ ap suc (length-oldest_first rs)

pub evict_all_settles :
    {S : Type 0} (preserve : Option String) (state : Outbox S × List RetainedJob)
    → Settled preserve (evict_all preserve state).1
unfolding evict_all
evict_all_settles preserve (o, retained) =
    evict_settles preserve (length retained) (oldest_first retained)
      (total_bytes (oldest_first retained)) o (omega (arith, length-oldest_first retained)) refl
