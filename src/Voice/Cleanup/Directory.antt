-- ===== src/Voice/Cleanup/Directory.antt =====
-- What cleanup_inner leaves in the directory (crates/daemon/src/voice_outbox.rs).
use mathlib.Core.Path.{subst}
use omarchy_whatsapp.Prelude.{
  Bool, Bool-cases, List, Option, Option-cases, String, [], arith, eq_iff, eq_refl, false, inl, inr,
  length, refl, some, suc, sym, true, zero, ℕ, ◌&&◌, ◌-◌, ◌||◌, ◌∷◌, ◌≡◌, ◌≤◌, ◌⊎◌,
}
use omarchy_whatsapp.Prelude.Int.{ltb_ℤ, ℤ}
use omarchy_whatsapp.Prelude.Json.{Json}
use omarchy_whatsapp.Prelude.Table.{All, count_where, exists_where, find_where}
use omarchy_whatsapp.Prelude.Table.Every.{All-implies}
use omarchy_whatsapp.Voice.Jobs.{
  Metadata, Outbox, Recording, VoiceJob, load_from, load_jobs, metadata_is, recording_is,
  remove_files,
}
use omarchy_whatsapp.Voice.Cleanup.Bounded.{
  Settled, evict-next, evict-stuck, evict-within, evict_all_settles,
}
use omarchy_whatsapp.Voice.Cleanup.Counts.{
  count-oldest_first, files-evict, files-sorted, job_is, retained_is,
}
use omarchy_whatsapp.Voice.Cleanup.{
  RetainedJob, behind, cleanup_inner, cleanup_retaining, evict, evict_all, insert_job,
  is_actively_sending, is_expired, is_preserved, max_jobs, max_outbox_bytes, may_evict,
  oldest_first, over_limits, retained_of, size_of, sort_out, sweep_orphans, take_first, total_bytes,
}
use omarchy_whatsapp.Voice.Cleanup.Weights.{exists-count, length-weigh, weigh, weigh-le}

-- A property of the retained jobs through the steps.
module _ (P : RetainedJob → Type 0) where
  All-insert_job :
      (r : RetainedJob) (rs : List RetainedJob) → P r → All P rs → All P (insert_job r rs)
  unfolding insert_job
  All-insert_job r [] p h = (p, tt)
  All-insert_job r (x ∷ xs) p h = elim (Bool-cases (ltb_ℤ x.created_at r.created_at)) [
    | inl later ↦ rw later (h.0, All-insert_job r xs p h.1)
    | inr earlier ↦ rw earlier (p, h)
  ]

  All-oldest_first : (rs : List RetainedJob) → All P rs → All P (oldest_first rs)
  unfolding oldest_first
  All-oldest_first [] h = tt
  All-oldest_first (r ∷ rs) h = All-insert_job r (oldest_first rs) h.0 (All-oldest_first rs h.1)

  All-take_first :
      (p : RetainedJob → Bool) (rs rest : List RetainedJob) (x : RetainedJob)
      → take_first p rs ≡ some (x, rest)
      → All P rs
      → All P rest
  unfolding take_first behind
  All-take_first p [] rest x e h = cc
  All-take_first p (y ∷ ys) rest x e h = elim (Bool-cases (p y)) [
    | inl goes ↦ let others : ys ≡ rest = ground arith in subst (All P) others h.1
    | inr stays ↦ elim (Option-cases (take_first p ys)) [
      | inl none_left ↦ absurd (ground arith)
      | inr ((z, zs), found) ↦
          let others : y ∷ zs ≡ rest = ground arith in
          subst (All P) others (h.0, All-take_first p ys zs z found h.1)
    ]
  ]

module _ {S : Type 0} (P : RetainedJob → Type 0) where
  All-sort_out :
      (Q : VoiceJob → Type 0) (now : ℤ) (preserve : Option String) (audio : List Recording)
      (jobs : List VoiceJob) (o : Outbox S)
      → ((j : VoiceJob) → Q j → P (retained_of now audio j))
      → All Q jobs
      → All P (sort_out now preserve audio jobs (o, [])).1
  unfolding sort_out
  All-sort_out Q now preserve audio [] o makes h = tt
  All-sort_out Q now preserve audio (job ∷ jobs) o makes h =
      let rest = All-sort_out Q now preserve audio jobs o makes h.1 in
      elim (Bool-cases (is_expired now preserve job)) [
        | inl expired ↦ rw expired rest
        | inr kept ↦ rw kept (makes job h.0, rest)
      ]

  All-evict :
      (preserve : Option String) (fuel : ℕ) (rs : List RetainedJob) (bytes : ℕ) (o : Outbox S)
      → All P rs
      → All P (evict preserve fuel rs bytes o).1
  unfolding evict
  All-evict preserve zero rs bytes o h = h
  All-evict preserve (suc fuel) rs bytes o h = elim (Bool-cases (over_limits rs bytes)) [
    | inl over ↦ elim (Option-cases (take_first (may_evict preserve) rs)) [
      | inl none_left ↦
          subst (λ x. All P x.1) (sym (evict-stuck preserve fuel rs bytes o over none_left)) h
      | inr ((x, rest), found) ↦
          subst (λ x. All P x.1) (sym (evict-next preserve fuel rs rest bytes o x over found))
            (All-evict preserve fuel rest (bytes - x.audio_bytes) (remove_files x.recording_id o)
              (All-take_first P (may_evict preserve) rs rest x found h))
    ]
    | inr within ↦ subst (λ x. All P x.1) (sym (evict-within preserve fuel rs bytes o within)) h
  ]

-- The size of a recording, as it is found before the cleanup.
abbrev pub audio_size : {S : Type 0} → Outbox S → String → ℕ
audio_size o id = size_of (find_where (recording_is id) o.recordings)

abbrev sends_now : ℤ → List VoiceJob → String → Bool
sends_now now jobs id = exists_where (λ j. job_is id j && is_actively_sending j now) jobs

-- A retained job has the size of its recording, and is being sent only where a loaded job is.
abbrev IsCounted : {S : Type 0} → Outbox S → ℤ → List VoiceJob → RetainedJob → Type 0
IsCounted o now jobs r =
    (r.audio_bytes ≡ audio_size o r.recording_id)
    × (r.actively_sending ≡ true → sends_now now jobs r.recording_id ≡ true)

sends_now_lem :
    (now : ℤ) (jobs : List VoiceJob)
    → All (λ j. is_actively_sending j now ≡ true → sends_now now jobs j.recording_id ≡ true) jobs
sends_now_lem now [] = tt
sends_now_lem now (j ∷ jobs) = (
  λ h. ground (arith, eq_refl j.recording_id),
  All-implies _ _ jobs (λ k sends h. ground (arith, sends h)) (sends_now_lem now jobs),
)

count-exists :
    {A : Type 0} (p : A → Bool) (xs : List A) → exists_where p xs ≡ true → 1 ≤ count_where p xs
count-exists p [] h = cc
count-exists p (x ∷ xs) h = ground (arith, count-exists p xs)

retained-IsCounted :
    {S : Type 0} (o : Outbox S) (now : ℤ) (jobs : List VoiceJob) (j : VoiceJob)
    → (is_actively_sending j now ≡ true → sends_now now jobs j.recording_id ≡ true)
    → IsCounted o now jobs (retained_of now o.recordings j)
unfolding retained_of
retained-IsCounted o now jobs j sends = (refl, sends)

total_bytes-weigh :
    {S : Type 0} (o : Outbox S) (now : ℤ) (jobs : List VoiceJob) (rs : List RetainedJob)
    → All (IsCounted o now jobs) rs
    → total_bytes rs ≡ weigh (λ r. r.recording_id) (audio_size o) rs
total_bytes-weigh o now jobs [] h = refl
total_bytes-weigh o now jobs (r ∷ rs) h = omega (arith, total_bytes-weigh o now jobs rs h.1, h.0.0)

every_file :
    {S : Type 0} (ms : List (Metadata S)) (test : String → Bool)
    → ((id : String) → exists_where (metadata_is id) ms ≡ true → test id ≡ true)
    → All (λ m. test m.recording_id ≡ true) ms
every_file [] test h = tt
every_file (m ∷ ms) test h = (
  h m.recording_id (ground (arith, eq_refl m.recording_id)),
  every_file ms test (λ id there. h id (ground arith)),
)

-- Where no retained job may go, the jobs that are left are preserved or being sent.
stays-kept :
    {S : Type 0} (o : Outbox S) (now : ℤ) (preserve : Option String) (jobs : List VoiceJob)
    (id : String) (rs : List RetainedJob)
    → All (IsCounted o now jobs) rs
    → exists_where (may_evict preserve) rs ≡ false
    → exists_where (retained_is id) rs ≡ true
    → (is_preserved preserve id || sends_now now jobs id) ≡ true
unfolding may_evict
stays-kept o now preserve jobs id [] h stuck there = cc
stays-kept o now preserve jobs id (r ∷ rs) h stuck there = elim (Bool-cases (retained_is id r)) [
  | inl here ↦
      let named : r.recording_id ≡ id = (eq_iff r.recording_id id).0 here in
      subst (λ k. (is_preserved preserve k || sends_now now jobs k) ≡ true) named
        (ground (arith, h.0.1))
  | inr other ↦ stays-kept o now preserve jobs id rs h.1 (ground arith) (ground arith)
]

module _ {S : Type 0} (json : Json VoiceJob S) (o : Outbox S) (now : ℤ)
    (preserve : Option String) where
  -- The ID is the one to preserve, or a job of it is loaded that is being sent.
  abbrev pub is_exempt : String → Bool
  is_exempt id =
      is_preserved preserve id
      || exists_where (λ j. job_is id j && is_actively_sending j now)
          (load_jobs json (sweep_orphans now o)).1

  -- The directory is within the limits, or all its jobs are exempt from eviction.
  abbrev pub IsBounded : Outbox S → Type 0
  IsBounded final =
      ((length final.metadata ≤ max_jobs)
        × (weigh (λ m. m.recording_id) (audio_size o) final.metadata ≤ max_outbox_bytes))
      ⊎ All (λ m. is_exempt m.recording_id ≡ true) final.metadata

  final-IsBounded :
      (final : Outbox S × List RetainedJob)
      → ((id : String)
          → count_where (metadata_is id) final.0.metadata ≤ count_where (retained_is id) final.1)
      → All (IsCounted o now (load_jobs json (sweep_orphans now o)).1) final.1
      → Settled preserve final.1
      → IsBounded final.0
  final-IsBounded (final, rs) few counted (inl within) = inl (
    omega (
      arith,
      within.0,
      length-weigh (λ m. m.recording_id) final.metadata,
      length-weigh (λ r. r.recording_id) rs,
      weigh-le (λ m. m.recording_id) (λ r. r.recording_id) (λ k. 1) final.metadata rs few,
    ),
    omega (
      arith,
      within.1,
      total_bytes-weigh o now (load_jobs json (sweep_orphans now o)).1 rs counted,
      weigh-le (λ m. m.recording_id) (λ r. r.recording_id) (audio_size o) final.metadata rs few,
    ),
  )
  final-IsBounded (final, rs) few counted (inr stuck) = inr (
      every_file final.metadata is_exempt λ id there.
        stays-kept o now preserve (load_jobs json (sweep_orphans now o)).1 id rs counted stuck (
          exists-count (retained_is id) rs
            (omega (arith, few id, count-exists (metadata_is id) final.metadata there))))

  -- After a cleanup there are eight metadata files at most, and the recordings that they name had 64 MiB
  -- at most when the cleanup began; or every metadata file that is left is of the ID to preserve or of a
  -- loaded job that is being sent.
  pub cleanup_settles : IsBounded (cleanup_inner json o now preserve)
  unfolding cleanup_inner cleanup_retaining load_jobs evict_all
  cleanup_settles =
      let swept = sweep_orphans now o in
      let loaded = load_from json swept.metadata swept in
      let sorted = sort_out now preserve o.recordings loaded.1 (loaded.0, []) in
      final-IsBounded (evict_all preserve sorted)
        (λ id.
          files-evict id preserve (length sorted.1) (oldest_first sorted.1)
            (total_bytes (oldest_first sorted.1)) sorted.0
            (rw (count-oldest_first id sorted.1)
              (files-sorted id json now preserve o.recordings swept)))
        (All-evict (IsCounted o now loaded.1) preserve (length sorted.1) (oldest_first sorted.1)
          (total_bytes (oldest_first sorted.1)) sorted.0
          (All-oldest_first (IsCounted o now loaded.1) sorted.1 (
            All-sort_out (IsCounted o now loaded.1)
              (λ j. is_actively_sending j now ≡ true → sends_now now loaded.1 j.recording_id ≡ true)
              now preserve o.recordings loaded.1 loaded.0 (retained-IsCounted o now loaded.1)
              (sends_now_lem now loaded.1))))
        (evict_all_settles preserve sorted)
