-- ===== src/Voice/Cleanup/Counts.antt =====
-- How many metadata files and jobs of one ID the steps of cleanup_inner leave.
use mathlib.Core.Path.{subst}
use omarchy_whatsapp.Prelude.{
  Bool, Bool-cases, List, Option, Option-cases, String, [], arith, eq_iff, if◌then◌else◌, inl, inr,
  refl, some, suc, sym, zero, ℕ, ◌+◌, ◌-◌, ◌==◌, ◌∙◌, ◌∷◌, ◌≡◌, ◌≤◌,
}
use omarchy_whatsapp.Prelude.Int.{ltb_ℤ, ℤ}
use omarchy_whatsapp.Prelude.Json.{Json}
use omarchy_whatsapp.Prelude.Table.{count_where, delete_where}
use omarchy_whatsapp.Voice.Jobs.{
  Metadata, Outbox, Recording, VoiceJob, load_from, loaded, metadata_is, read_job, remove_files,
}
use omarchy_whatsapp.Voice.Jobs.Stored.{read_job-valid}
use omarchy_whatsapp.Voice.Cleanup.Bounded.{evict-next, evict-stuck, evict-within}
use omarchy_whatsapp.Voice.Cleanup.{
  RetainedJob, behind, evict, insert_job, is_expired, may_evict, oldest_first, over_limits,
  retained_of, sort_out, take_first,
}

abbrev pub retained_is : String → RetainedJob → Bool
retained_is id r = r.recording_id == id

abbrev pub job_is : String → VoiceJob → Bool
job_is id j = j.recording_id == id

module _ (id : String) where
  count-insert_job :
      (r : RetainedJob) (rs : List RetainedJob)
      → count_where (retained_is id) (insert_job r rs) ≡ count_where (retained_is id) (r ∷ rs)
  unfolding insert_job
  count-insert_job r [] = refl
  count-insert_job r (x ∷ xs) = elim (Bool-cases (ltb_ℤ x.created_at r.created_at)) [
    | inl later ↦ rw later (ground (arith, count-insert_job r xs))
    | inr earlier ↦ rw earlier refl
  ]

  pub count-oldest_first :
      (rs : List RetainedJob)
      → count_where (retained_is id) (oldest_first rs) ≡ count_where (retained_is id) rs
  unfolding oldest_first
  count-oldest_first [] = refl
  count-oldest_first (r ∷ rs) =
      count-insert_job r (oldest_first rs) ∙ ground (arith, count-oldest_first rs)

  count-take_first :
      (p : RetainedJob → Bool) (rs rest : List RetainedJob) (x : RetainedJob)
      → take_first p rs ≡ some (x, rest)
      → count_where (retained_is id) rs
        ≡ (if retained_is id x then 1 else 0) + count_where (retained_is id) rest
  unfolding take_first behind
  count-take_first p [] rest x e = cc
  count-take_first p (r ∷ rs) rest x e = elim (Option-cases (take_first p rs)) [
    | inl none_left ↦ ground arith
    | inr ((y, ys), found) ↦ ground (arith, count-take_first p rs ys y found)
  ]

module _ {S : Type 0} (id : String) where
  abbrev pub files : Outbox S → ℕ
  files o = count_where (metadata_is id) o.metadata

  count-deleted :
      (other : String) (ms : List (Metadata S))
      → count_where (metadata_is id) (delete_where (metadata_is other) ms)
        ≡ (if other == id then 0 else count_where (metadata_is id) ms)
  count-deleted other [] = ground arith
  count-deleted other (m ∷ ms) = ground (
    arith,
    count-deleted other ms,
    eq_iff m.recording_id other,
    eq_iff m.recording_id id,
    eq_iff other id,
  )

  files-remove_files :
      (other : String) (o : Outbox S)
      → files (remove_files other o) ≡ (if other == id then 0 else files o)
  unfolding remove_files
  files-remove_files other o = count-deleted other o.metadata

  files-load_from :
      (json : Json VoiceJob S) (ms : List (Metadata S)) (o : Outbox S)
      → files (load_from json ms o).0
        ≤ count_where (job_is id) (load_from json ms o).1
          + (files o - count_where (metadata_is id) ms)
  unfolding load_from loaded
  files-load_from json [] o = omega arith
  files-load_from json (x ∷ ms) o =
      let rest = files-load_from json ms o in
      elim (Option-cases (read_job json x)) [
        | inl unreadable ↦
            rw unreadable
              (ground (arith, files-remove_files x.recording_id (load_from json ms o).0))
        | inr (j, read) ↦
            let own = (read_job-valid json x j read).1 in
            rw read (ground (arith, eq_iff j.recording_id x.recording_id))
      ]

  files-sort_out :
      (now : ℤ) (preserve : Option String) (audio : List Recording) (jobs : List VoiceJob)
      (o : Outbox S)
      → files (sort_out now preserve audio jobs (o, [])).0
        ≤ count_where (retained_is id) (sort_out now preserve audio jobs (o, [])).1
          + (files o - count_where (job_is id) jobs)
  unfolding sort_out retained_of
  files-sort_out now preserve audio [] o = omega arith
  files-sort_out now preserve audio (job ∷ jobs) o =
      let rest = files-sort_out now preserve audio jobs o in
      elim (Bool-cases (is_expired now preserve job)) [
        | inl expired ↦ rw expired (
            ground (
              arith,
              files-remove_files job.recording_id (sort_out now preserve audio jobs (o, [])).0,
            ))
        | inr kept ↦ rw kept (ground arith)
      ]

  -- The eviction leaves no more files of an ID than jobs.
  pub files-evict :
      (preserve : Option String) (fuel : ℕ) (rs : List RetainedJob) (bytes : ℕ) (o : Outbox S)
      → files o ≤ count_where (retained_is id) rs
      → files (evict preserve fuel rs bytes o).0
        ≤ count_where (retained_is id) (evict preserve fuel rs bytes o).1
  unfolding evict
  files-evict preserve zero rs bytes o h = h
  files-evict preserve (suc fuel) rs bytes o h = elim (Bool-cases (over_limits rs bytes)) [
    | inl over ↦ elim (Option-cases (take_first (may_evict preserve) rs)) [
      | inl none_left ↦
          subst (λ x. files x.0 ≤ count_where (retained_is id) x.1)
            (sym (evict-stuck preserve fuel rs bytes o over none_left)) h
      | inr ((x, rest), found) ↦
          subst (λ x. files x.0 ≤ count_where (retained_is id) x.1)
            (sym (evict-next preserve fuel rs rest bytes o x over found))
            (files-evict preserve fuel rest (bytes - x.audio_bytes) (remove_files x.recording_id o)
              (ground (
                arith,
                count-take_first id (may_evict preserve) rs rest x found,
                files-remove_files x.recording_id o,
              )))
    ]
    | inr within ↦
        subst (λ x. files x.0 ≤ count_where (retained_is id) x.1)
          (sym (evict-within preserve fuel rs bytes o within)) h
  ]

  -- Of an ID there are no more files than jobs behind the loop over the loaded jobs.
  pub files-sorted :
      (json : Json VoiceJob S) (now : ℤ) (preserve : Option String) (audio : List Recording)
      (o : Outbox S)
      → files
          (sort_out now preserve audio
            (load_from json o.metadata o).1
            ((load_from json o.metadata o).0, [])).0
        ≤ count_where
            (retained_is id)
            (sort_out now preserve audio
              (load_from json o.metadata o).1
              ((load_from json o.metadata o).0, [])).1
  files-sorted json now preserve audio o = omega (
    arith,
    files-load_from json o.metadata o,
    files-sort_out now preserve audio (load_from json o.metadata o).1
        (load_from json o.metadata o).0,
  )
