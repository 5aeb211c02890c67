-- ===== src/Voice/Cleanup/Keeps.antt =====
-- The protected jobs in the steps of cleanup_inner (crates/daemon/src/voice_outbox.rs).
use mathlib.Core.Path.{subst}
use omarchy_whatsapp.Prelude.{
  Bool-cases, List, Option, Option-cases, String, [], ap, arith, eq_iff, false, inl, inr, length,
  not, some, sym, true, ◌==◌, ◌∷◌, ◌≡◌, ◌≤◌, ◌∙◌,
}
use omarchy_whatsapp.Prelude.Int.{ℤ, ltb_ℤ}
use omarchy_whatsapp.Prelude.Json.{Json}
use omarchy_whatsapp.Prelude.Table.{All, count_where, exists_where, find_where}
use omarchy_whatsapp.Prelude.Table.Count.{count-delete-le}
use omarchy_whatsapp.Voice.Jobs.{
  Metadata, Outbox, Recording, VoiceJob, checked, is_valid_job, load_from, load_jobs, loaded,
  metadata_is, read_job, recording_is,
}
use omarchy_whatsapp.Voice.Cleanup.{
  RetainedJob, cleanup_inner, cleanup_retaining, evict_all, insert_job, is_actively_sending,
  is_expired, may_evict, oldest_first, retained_of, sort_out, sweep_orphans, total_bytes,
}
use omarchy_whatsapp.Voice.Cleanup.Files.{
  Files, Files-evict, Files-load_from, Files-sort_out, Files-sweep_orphans, Loads, Protected,
  Spares, Stays,
}

module _ {S : Type 0} (id : String) (m : Metadata S) (r : Recording) where
  none-Loads :
      (json : Json VoiceJob S) (job : VoiceJob) (ms : List (Metadata S))
      → count_where (metadata_is id) ms ≡ 0
      → Loads id m r json job ms
  none-Loads json job [] h = tt
  none-Loads json job (x ∷ ms) h =
      (λ here. absurd (ground arith), none-Loads json job ms (ground arith))

  -- Where a directory has one metadata file of an ID, that is the file found.
  find-Loads :
      (json : Json VoiceJob S) (job : VoiceJob) (ms : List (Metadata S))
      → count_where (metadata_is id) ms ≤ 1
      → find_where (metadata_is id) ms ≡ some m
      → read_job json m ≡ some job
      → Loads id m r json job ms
  find-Loads json job [] unique there read = tt
  find-Loads json job (x ∷ ms) unique there read = elim (Bool-cases (metadata_is id x)) [
    | inl here ↦
        let found : x ≡ m = ground arith in
        let alone : count_where (metadata_is id) ms ≡ 0 = ground arith in
        (λ h. ap (read_job json) found ∙ read, none-Loads json job ms alone)
    | inr other ↦ (λ h. cc (h, other), find-Loads json job ms (ground arith) (ground arith) read)
  ]

  -- A loaded job has the ID of its file.
  read_job-id :
      (json : Json VoiceJob S) (x : Metadata S) (j : VoiceJob)
      → read_job json x ≡ some j
      → (j.recording_id == x.recording_id) ≡ true
  unfolding read_job checked is_valid_job
  read_job-id json x j e = elim (Option-cases (json.from_str x.stored)) [
    | inl unparsed ↦ absurd (ground arith)
    | inr (k, parsed) ↦ ground arith
  ]

  abbrev IsJob : VoiceJob → List VoiceJob → Type 0
  IsJob job jobs = All (λ j. (j.recording_id == id) ≡ true → j ≡ job) jobs

  load_from-IsJob :
      (json : Json VoiceJob S) (job : VoiceJob) (ms : List (Metadata S)) (o : Outbox S)
      → Loads id m r json job ms
      → IsJob job (load_from json ms o).1
  unfolding load_from loaded
  load_from-IsJob json job [] o h = tt
  load_from-IsJob json job (x ∷ ms) o h = elim (Option-cases (read_job json x)) [
    | inl unreadable ↦
        subst (λ j. IsJob job (loaded json x j (load_from json ms o)).1) (sym unreadable)
          (load_from-IsJob json job ms o h.1)
    | inr (j, read) ↦
        subst (λ j. IsJob job (loaded json x j (load_from json ms o)).1) (sym read)
          (
            λ same.
                let own = read_job-id json x j read in
                let named : metadata_is id x ≡ true = ground (
                  arith,
                  eq_iff j.recording_id id,
                  eq_iff j.recording_id x.recording_id,
                  eq_iff x.recording_id id,
                ) in
                cc (h.0 named, read),
            load_from-IsJob json job ms o h.1,
          )
  ]

  Protected-unexpired :
      (now : ℤ) (preserve : Option String) (job : VoiceJob)
      → Protected now preserve job
      → is_expired now preserve job ≡ false
  unfolding is_expired is_actively_sending
  Protected-unexpired now preserve job h = ground arith

  IsJob-Spares :
      (now : ℤ) (preserve : Option String) (job : VoiceJob) (jobs : List VoiceJob)
      → Protected now preserve job
      → IsJob job jobs
      → Spares id m r now preserve jobs
  IsJob-Spares now preserve job [] h is = tt
  IsJob-Spares now preserve job (j ∷ jobs) h is = (
    λ same. ap (is_expired now preserve) (is.0 same) ∙ Protected-unexpired now preserve job h,
    IsJob-Spares now preserve job jobs h is.1,
  )

  Protected-may_evict :
      (now : ℤ) (preserve : Option String) (audio : List Recording) (job : VoiceJob)
      → Protected now preserve job
      → may_evict preserve (retained_of now audio job) ≡ false
  unfolding may_evict retained_of
  Protected-may_evict now preserve audio job h = ground arith

  sort_out-Stays :
      (now : ℤ) (preserve : Option String) (audio : List Recording) (job : VoiceJob)
      (jobs : List VoiceJob) (o : Outbox S)
      → Protected now preserve job
      → IsJob job jobs
      → Stays id m r preserve (sort_out now preserve audio jobs (o, [])).1
  unfolding sort_out retained_of
  sort_out-Stays now preserve audio job [] o h is = tt
  sort_out-Stays now preserve audio job (j ∷ jobs) o h is =
      let rest = sort_out-Stays now preserve audio job jobs o h is.1 in
      elim (Bool-cases (is_expired now preserve j)) [
        | inl expired ↦ rw expired rest
        | inr kept ↦ rw kept (
          λ same.
              ap (λ j. may_evict preserve (retained_of now audio j)) (is.0 same)
              ∙ Protected-may_evict now preserve audio job h,
          rest,
        )
      ]

  insert_job-Stays :
      (preserve : Option String) (x : RetainedJob) (rs : List RetainedJob)
      → Stays id m r preserve (x ∷ rs)
      → Stays id m r preserve (insert_job x rs)
  unfolding insert_job
  insert_job-Stays preserve x [] h = h
  insert_job-Stays preserve x (y ∷ ys) h =
      let rest = insert_job-Stays preserve x ys (h.0, h.1.1) in
      elim (Bool-cases (ltb_ℤ y.created_at x.created_at)) [
        | inl later ↦ rw later (h.1.0, rest)
        | inr earlier ↦ rw earlier h
      ]

  oldest_first-Stays :
      (preserve : Option String) (rs : List RetainedJob)
      → Stays id m r preserve rs
      → Stays id m r preserve (oldest_first rs)
  unfolding oldest_first
  oldest_first-Stays preserve [] h = h
  oldest_first-Stays preserve (x ∷ rs) h =
      insert_job-Stays preserve x (oldest_first rs) (h.0, oldest_first-Stays preserve rs h.1)

  Files-evict_all :
      (preserve : Option String) (state : Outbox S × List RetainedJob)
      → Stays id m r preserve state.1
      → Files id m r state.0
      → Files id m r (evict_all preserve state).0
  unfolding evict_all
  Files-evict_all preserve (o, retained) h f =
      Files-evict id m r preserve (length retained) (oldest_first retained)
        (total_bytes (oldest_first retained)) o (oldest_first-Stays preserve retained h) f

swept_unique :
    {S : Type 0} (id : String) (now : ℤ) (o : Outbox S)
    → count_where (metadata_is id) o.metadata ≤ 1
    → count_where (metadata_is id) (sweep_orphans now o).metadata ≤ 1
unfolding sweep_orphans
swept_unique id now o h = omega (
  arith,
  count-delete-le (metadata_is id)
      (λ m. not (exists_where (recording_is m.recording_id) o.recordings)) o.metadata,
)

pub cleanup_inner-keeps :
    {S : Type 0} (json : Json VoiceJob S) (o : Outbox S) (now : ℤ) (preserve : Option String)
    (id : String) (m : Metadata S) (r : Recording) (job : VoiceJob)
    → count_where (metadata_is id) o.metadata ≤ 1
    → Files id m r o
    → read_job json m ≡ some job
    → Protected now preserve job
    → Files id m r (cleanup_inner json o now preserve)
unfolding cleanup_inner cleanup_retaining load_jobs
cleanup_inner-keeps json o now preserve id m r job unique f read safe =
    let swept = sweep_orphans now o in
    let kept = Files-sweep_orphans id m r now o f in
    let loads =
      find-Loads id m r json job swept.metadata (swept_unique id now o unique) kept.0 read in
    let jobs = (load_from json swept.metadata swept).1 in
    let is = load_from-IsJob id m r json job swept.metadata swept loads in
    let loaded_o = (load_from json swept.metadata swept).0 in
    Files-evict_all id m r preserve (sort_out now preserve o.recordings jobs (loaded_o, []))
      (sort_out-Stays id m r now preserve o.recordings job jobs loaded_o safe is)
      (Files-sort_out id m r now preserve o.recordings jobs (loaded_o, [])
        (IsJob-Spares id m r now preserve job jobs safe is)
        (Files-load_from id m r json job swept.metadata swept loads kept))
