-- ===== src/Voice/Sending/Step.antt =====
-- What the loop of recover_interrupted makes of one job.
use mathlib.Core.Path.{subst}
use omarchy_whatsapp.Prelude.{
  Bool, List, Option, Option-cases, String, [], arith, eq_iff, false, inl, inr, none, not, refl,
  some, sym, true, ◌&&◌, ◌==◌, ◌||◌, ◌∷◌, ◌≡◌,
}
use omarchy_whatsapp.Prelude.Int.{ℤ}
use omarchy_whatsapp.Prelude.Json.{Json}
use omarchy_whatsapp.Prelude.Result.{ok}
use omarchy_whatsapp.Prelude.Table.{All, exists_where, upsert}
use omarchy_whatsapp.Prelude.Table.Every.{All-delete_kept, All-implies, All-upsert}
use omarchy_whatsapp.Voice.Jobs.Stored.{IsValidJob, save_job-valid}
use omarchy_whatsapp.Voice.Jobs.{
  Metadata, Outbox, StoredStatus, VoiceJob, VoiceOutboxEntry, checked, entry, entry_failed, failed,
  is_valid_job, metadata_is, read_job, remove_files, sending, sent,
}
use omarchy_whatsapp.Voice.Sending.{interrupted, recover_job}

abbrev pub is_failed : StoredStatus → Bool
is_failed sending = false
is_failed failed = true
is_failed sent = false

-- A job of the list that is not failed has the ID.
abbrev pub is_open : String → VoiceJob → Bool
is_open id k = k.recording_id == id && not (is_failed k.status)

-- The file holds no job, or a failed one, or one that is still to be dealt with.
abbrev pub settled_job : String → Option VoiceJob → List VoiceJob → Bool
settled_job id none jobs = true
settled_job id (some j) jobs = is_failed j.status || exists_where (is_open id) jobs

module _ {S : Type 0} (json : Json VoiceJob S) where
  abbrev pub IsSettled : List VoiceJob → Metadata S → Type 0
  IsSettled jobs m = settled_job m.recording_id (read_job json m) jobs ≡ true

  -- Every file holds a failed job, or none that is valid.
  abbrev pub AllFailed : Outbox S → Type 0
  AllFailed o = All (λ m. settled_job m.recording_id (read_job json m) [] ≡ true) o.metadata

  -- The step for a job that is being sent.
  interrupted-valid :
      (job : VoiceJob) (now : ℤ) → IsValidJob json job → IsValidJob json (interrupted job now)
  unfolding interrupted is_valid_job
  interrupted-valid job now v = v

  read_job-interrupted :
      ((j : VoiceJob) → json.from_str (json.to_string j) ≡ some j)
      → (job : VoiceJob) (now : ℤ) → IsValidJob json job
      → read_job json (record {
        recording_id = job.recording_id;
        stored = json.to_string (interrupted job now);
      })
        ≡ some (interrupted job now)
  unfolding read_job checked interrupted is_valid_job
  read_job-interrupted laws job now v = rw (laws (interrupted job now)) (rw v refl)

  -- A file of another ID, and one of a job that is failed, wait for the later jobs only.
  IsSettled-other :
      (job : VoiceJob) (jobs : List VoiceJob) (m : Metadata S)
      → (job.recording_id == m.recording_id && not (is_failed job.status)) ≡ false
      → IsSettled (job ∷ jobs) m
      → IsSettled jobs m
  IsSettled-other job jobs m e h = elim (Option-cases (read_job json m)) [
    | inl unread ↦ rw unread refl
    | inr (j, read) ↦ ground arith
  ]

  IsSettled-read :
      (jobs : List VoiceJob) (m : Metadata S) (j : VoiceJob)
      → read_job json m ≡ some j
      → is_failed j.status ≡ true
      → IsSettled jobs m
  IsSettled-read jobs m j read f = rw read (rw f refl)

  apart_sym :
      (job : VoiceJob) (m : Metadata S) (b : Bool)
      → (m.recording_id == job.recording_id) ≡ false
      → (job.recording_id == m.recording_id && b) ≡ false
  apart_sym job m b apart =
      ground (arith, eq_iff m.recording_id job.recording_id, eq_iff job.recording_id m.recording_id)

  read_job-updated :
      ((j : VoiceJob) → json.from_str (json.to_string j) ≡ some j)
      → (job : VoiceJob) (now : ℤ) (m : Metadata S) → IsValidJob json job
      → (m.recording_id == job.recording_id) ≡ true
      → read_job json (record m { stored = json.to_string (interrupted job now) })
        ≡ some (interrupted job now)
  unfolding read_job
  read_job-updated laws job now m v here =
      subst
        (λ id.
          checked json id (json.from_str (json.to_string (interrupted job now)))
          ≡ some (interrupted job now))
        (sym ((eq_iff m.recording_id job.recording_id).0 here))
        (read_job-interrupted laws job now v)

  -- What the loop makes of one job: the files that are left wait for the later jobs only, and a job that is
  -- listed is listed as failed.
  abbrev pub Lists : Option VoiceOutboxEntry → Type 0
  Lists none = Unit
  Lists (some e) = e.status ≡ entry_failed

  pub recover_job_settles :
      ((j : VoiceJob) → json.from_str (json.to_string j) ≡ some j)
      → (now : ℤ) (job : VoiceJob) (jobs : List VoiceJob) (s : StoredStatus) (o : Outbox S)
      → job.status ≡ s
      → IsValidJob json job
      → All (IsSettled (job ∷ jobs)) o.metadata
      → (next : Outbox S × VoiceJob) × (recover_job json now job s o ≡ ok next)
        × All (IsSettled jobs) next.0.metadata
        × Lists (entry next.1)
  unfolding recover_job remove_files entry interrupted
  recover_job_settles laws now job jobs sent o e v h = (
    (remove_files job.recording_id o, job),
    refl,
    All-delete_kept _ _ (metadata_is job.recording_id) o.metadata
        (λ m apart. IsSettled-other job jobs m (apart_sym job m (not (is_failed job.status)) apart))
        h,
    rw e tt,
  )
  recover_job_settles laws now job jobs failed o e v h = (
    (o, job),
    refl,
    All-implies _ _ o.metadata (λ m. IsSettled-other job jobs m (rw e (ground arith))) h,
    rw e refl,
  )
  recover_job_settles laws now job jobs sending o e v h = (
    (
      record o {
        metadata =
            upsert (metadata_is job.recording_id)
              (record {
                recording_id = job.recording_id;
                stored = json.to_string (interrupted job now);
              })
              (λ m. record m { stored = json.to_string (interrupted job now) }) o.metadata;
      },
      interrupted job now,
    ),
    rw (save_job-valid json (interrupted job now) o v) refl,
    All-upsert _ _ (metadata_is job.recording_id) _ _ o.metadata
        (IsSettled-read jobs _ (interrupted job now) (read_job-interrupted laws job now v) refl)
        (λ m here.
          IsSettled-read jobs _ (interrupted job now) (read_job-updated laws job now m v here) refl)
        (λ m apart. IsSettled-other job jobs m (apart_sym job m (not (is_failed job.status)) apart))
        h,
    refl,
  )
