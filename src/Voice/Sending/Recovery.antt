-- ===== src/Voice/Sending/Recovery.antt =====
-- What a restart leaves of the voice outbox (recover_interrupted).
use mathlib.Core.Path.{subst}
use omarchy_whatsapp.Prelude.{
  Bool-cases, List, Option, Option-cases, [], arith, inl, inr, none, refl, some, sym, ◌∷◌, ◌≡◌,
}
use omarchy_whatsapp.Prelude.Int.{ltb_ℤ, ℤ}
use omarchy_whatsapp.Prelude.Json.{Json}
use omarchy_whatsapp.Prelude.Result.{ok}
use omarchy_whatsapp.Prelude.Table.{All}
use omarchy_whatsapp.Prelude.Table.Every.{All-delete, All-implies}
use omarchy_whatsapp.Voice.Jobs.Stored.{IsValidJob, read_job-valid}
use omarchy_whatsapp.Voice.Sending.Step.{AllFailed, Lists, recover_job_settles, IsSettled}
use omarchy_whatsapp.Voice.Jobs.{
  Metadata, Outbox, VoiceJob, VoiceOutboxEntry, entry, entry_failed, load_from, load_jobs, loaded,
  metadata_is, read_job, remove_files,
}
use omarchy_whatsapp.Voice.Cleanup.{cleanup}
use omarchy_whatsapp.Voice.Sending.{
  insert_entry, listed, recover_interrupted, recover_jobs, sort_entries,
}

module _ {S : Type 0} (json : Json VoiceJob S) where
  abbrev EntriesFailed : List VoiceOutboxEntry → Type 0
  EntriesFailed entries = All (λ e. e.status ≡ entry_failed) entries

  listed-Lists :
      (e : Option VoiceOutboxEntry) (es : List VoiceOutboxEntry)
      → Lists json e
      → EntriesFailed es
      → EntriesFailed (listed e es)
  unfolding listed
  listed-Lists none es h all = all
  listed-Lists (some e) es h all = (h, all)

  recover_jobs_settles :
      ((j : VoiceJob) → json.from_str (json.to_string j) ≡ some j)
      → (now : ℤ) (jobs : List VoiceJob) (o : Outbox S) → All (IsValidJob json) jobs
      → All (IsSettled json jobs) o.metadata
      → (next : Outbox S × List VoiceOutboxEntry) × (recover_jobs json now jobs o ≡ ok next)
        × AllFailed json next.0
        × EntriesFailed next.1
  unfolding recover_jobs
  recover_jobs_settles laws now [] o valid h = ((o, []), refl, h, tt)
  recover_jobs_settles laws now (job ∷ jobs) o valid h =
      let ((o', j), stepped, left, lists) =
        recover_job_settles json laws now job jobs job.status o refl valid.0 h in
      let ((o'', es), done, failed_, all) = recover_jobs_settles laws now jobs o' valid.1 left in
      (
        (o'', listed (entry j) es),
        rw (stepped, done) refl,
        failed_,
        listed-Lists (entry j) es lists all,
      )

  load_from-valid :
      (ms : List (Metadata S)) (o : Outbox S) → All (IsValidJob json) (load_from json ms o).1
  unfolding load_from loaded
  load_from-valid [] o = tt
  load_from-valid (x ∷ ms) o = elim (Option-cases (read_job json x)) [
    | inl unreadable ↦
        subst (λ j. All (IsValidJob json) (loaded json x j (load_from json ms o)).1)
          (sym unreadable) (load_from-valid ms o)
    | inr (j, read) ↦
        subst (λ j. All (IsValidJob json) (loaded json x j (load_from json ms o)).1) (sym read)
          ((read_job-valid json x j read).0, load_from-valid ms o)
  ]

  IsSettled-more :
      (j : VoiceJob) (jobs : List VoiceJob) (m : Metadata S)
      → IsSettled json jobs m
      → IsSettled json (j ∷ jobs) m
  IsSettled-more j jobs m h = elim (Option-cases (read_job json m)) [
    | inl unread ↦ rw unread refl
    | inr (k, read) ↦ ground arith
  ]

  IsSettled-own :
      (j : VoiceJob) (jobs : List VoiceJob) (m : Metadata S)
      → read_job json m ≡ some j
      → IsSettled json (j ∷ jobs) m
  IsSettled-own j jobs m read = rw read (ground (arith, read_job-valid json m j read))

  load_from-IsSettled :
      (ms : List (Metadata S)) (o : Outbox S) → All (IsSettled json (load_from json ms o).1) ms
  unfolding load_from loaded
  load_from-IsSettled [] o = tt
  load_from-IsSettled (x ∷ ms) o = elim (Option-cases (read_job json x)) [
    | inl unreadable ↦
        subst (λ j. All (IsSettled json (loaded json x j (load_from json ms o)).1) (x ∷ ms))
          (sym unreadable) (rw unreadable refl, load_from-IsSettled ms o)
    | inr (j, read) ↦
        subst (λ j. All (IsSettled json (loaded json x j (load_from json ms o)).1) (x ∷ ms))
          (sym read)
          (
            IsSettled-own j (load_from json ms o).1 x read,
            All-implies _ _ ms (IsSettled-more j (load_from json ms o).1)
                (load_from-IsSettled ms o),
          )
  ]

  load_from-All :
      (P : Metadata S → Type 0) (ms : List (Metadata S)) (o : Outbox S)
      → All P o.metadata
      → All P (load_from json ms o).0.metadata
  unfolding load_from loaded remove_files
  load_from-All P [] o h = h
  load_from-All P (x ∷ ms) o h = elim (Option-cases (read_job json x)) [
    | inl unreadable ↦
        subst (λ j. All P (loaded json x j (load_from json ms o)).0.metadata) (sym unreadable)
          (All-delete P (metadata_is x.recording_id) (load_from json ms o).0.metadata
            (load_from-All P ms o h))
    | inr (j, read) ↦
        subst (λ j. All P (loaded json x j (load_from json ms o)).0.metadata) (sym read)
          (load_from-All P ms o h)
  ]

  insert_entry-failed :
      (e : VoiceOutboxEntry) (es : List VoiceOutboxEntry)
      → e.status ≡ entry_failed
      → EntriesFailed es
      → EntriesFailed (insert_entry e es)
  unfolding insert_entry
  insert_entry-failed e [] h all = (h, tt)
  insert_entry-failed e (x ∷ xs) h all = elim (Bool-cases (ltb_ℤ x.created_at e.created_at)) [
    | inl later ↦ rw later (all.0, insert_entry-failed e xs h all.1)
    | inr earlier ↦ rw earlier (h, all)
  ]

  sort_entries-failed :
      (es : List VoiceOutboxEntry) → EntriesFailed es → EntriesFailed (sort_entries es)
  unfolding sort_entries
  sort_entries-failed [] all = tt
  sort_entries-failed (e ∷ es) all =
      insert_entry-failed e (sort_entries es) all.0 (sort_entries-failed es all.1)

  -- Where a printed job parses back, a restart always succeeds. Of the jobs that it leaves none is sent and none
  -- is being sent, whatever the files held before, and each entry that it returns is a failed one.
  pub recover_interrupted_settles :
      ((j : VoiceJob) → json.from_str (json.to_string j) ≡ some j)
      → (o : Outbox S) (now : ℤ)
      → (next : Outbox S × List VoiceOutboxEntry) × (recover_interrupted json o now ≡ ok next)
        × AllFailed json next.0
        × All (λ e. e.status ≡ entry_failed) next.1
  unfolding recover_interrupted load_jobs
  recover_interrupted_settles laws o now =
      let cleaned = cleanup json o now in
      let jobs = (load_from json cleaned.metadata cleaned).1 in
      let ((o', es), done, failed_, all) =
        recover_jobs_settles laws now jobs (load_from json cleaned.metadata cleaned).0
          (load_from-valid cleaned.metadata cleaned)
          (load_from-All (IsSettled json jobs) cleaned.metadata cleaned
            (load_from-IsSettled cleaned.metadata cleaned)) in
      ((o', sort_entries es), rw done refl, failed_, sort_entries-failed es all)
