-- ===== src/Voice/Sending/Retry.antt =====
-- A recording that is sent again (prepare over the cleanup, assign_delivery).
use omarchy_whatsapp.Prelude.{
  List, String, ap, arith, eq_iff, eq_refl, eqb, false, none, refl, some, sym, true, ℕ, ◌==◌, ◌≡◌,
  ◌∙◌, ◌≤◌,
}
use omarchy_whatsapp.Prelude.Int.{ℤ}
use omarchy_whatsapp.Prelude.Json.{Json}
use omarchy_whatsapp.Prelude.Result.{ok}
use omarchy_whatsapp.Prelude.Table.{count_where, find_where}
use omarchy_whatsapp.Prelude.Table.Lookup.{find_some}
use omarchy_whatsapp.Prelude.Trim.{is_empty}
use omarchy_whatsapp.Voice.Jobs.{
  Metadata, Outbox, Recording, VoiceJob, is_valid_job, metadata_is, read_job, recording_is, sending,
}
use omarchy_whatsapp.Voice.Jobs.Stored.{
  IsValidJob, read_job-stored, read_job-valid, save_job-valid, written,
}
use omarchy_whatsapp.Voice.Cleanup.{cleanup_inner}
use omarchy_whatsapp.Voice.Cleanup.Files.{Files, Protected}
use omarchy_whatsapp.Voice.Cleanup.Keeps.{cleanup_inner-keeps}
use omarchy_whatsapp.Voice.Sending.{
  after_sweep, checked_recording_bytes, located, fresh_job, parsed_job, prepare, prepare_swept,
  started, stored_job, one_more,
}

same_length : (n : ℕ) → eqb n n ≡ true
same_length n = ground arith

module _ {S : Type 0} (json : Json VoiceJob S) where
  stored_job-found :
      (id : String) (fresh job : VoiceJob) (m : Metadata S)
      → (m.recording_id == id) ≡ true
      → read_job json m ≡ some job
      → stored_job json id fresh (some m) ≡ ok job
  unfolding stored_job parsed_job
  stored_job-found id fresh job m named read =
      let (valid, own) = read_job-valid json m job read in
      let path =
        (eq_iff job.recording_id m.recording_id).0 own ∙ (eq_iff m.recording_id id).0 named in
      rw (read_job-stored json m job read, ap (is_valid_job job) (sym path), valid) refl

  started-valid :
      (job : VoiceJob) (now : ℤ) → IsValidJob json job → IsValidJob json (started job now)
  unfolding started is_valid_job
  started-valid job now v = v

  -- What comes behind the cleanup succeeds on a job that is stored.
  prepare_swept-stored :
      (id chat_jid : String) (now : ℤ) (o : Outbox S) (m : Metadata S) (bytes : List ℕ)
      (job : VoiceJob)
      → find_where (metadata_is id) o.metadata ≡ some m
      → (m.recording_id == id) ≡ true
      → read_job json m ≡ some job
      → checked_recording_bytes id o ≡ ok (bytes, job.duration_ms)
      → (o' : Outbox S) × (prepare_swept json id chat_jid now o ≡ ok ((started job now, bytes), o'))
  unfolding prepare_swept
  prepare_swept-stored id chat_jid now o m bytes job there named read checked_ =
      let valid = (read_job-valid json m job read).0 in
      (
        written json (started job now) o,
        rw
            (
              checked_,
              there,
              stored_job-found id (fresh_job id chat_jid job.duration_ms now) job m named read,
              same_length job.duration_ms,
              save_job-valid json (started job now) o (started-valid job now valid),
            )
            refl,
      )

  checked-same :
      (id : String) (r : Recording) (o o' : Outbox S)
      → find_where (recording_is id) o.recordings ≡ some r
      → find_where (recording_is id) o'.recordings ≡ some r
      → checked_recording_bytes id o ≡ checked_recording_bytes id o'
  unfolding checked_recording_bytes located
  checked-same id r o o' here there = rw (here, there) refl

  -- Where the outbox has a recording whose bytes are of a valid size and parse, and one metadata file of
  -- its ID, which holds a valid job of the recording's duration, the recording can be sent again to a
  -- chat that is not empty, however full the outbox is: the bytes are those of the recording, and the
  -- job is the stored one with its chat and its delivery ID, as being sent, with one attempt more.
  pub prepare-stored :
      (o : Outbox S) (id chat_jid : String) (now : ℤ) (m : Metadata S) (r : Recording)
      (job : VoiceJob)
      → count_where (metadata_is id) o.metadata ≤ 1
      → Files id m r o
      → read_job json m ≡ some job
      → checked_recording_bytes id o ≡ ok (r.bytes, job.duration_ms)
      → is_empty chat_jid ≡ false
      → (prepare json id chat_jid now o).1
        ≡ ok (
          record job {
            status = sending;
            error = none;
            attempts = one_more job.attempts;
            updated_at = now;
          },
          r.bytes,
        )
  unfolding prepare started after_sweep
  prepare-stored o id chat_jid now m r job unique files read checked_ chat =
      let swept = cleanup_inner json o now (some id) in
      let named = find_some (metadata_is id) o.metadata m files.0 in
      let (valid, own) = read_job-valid json m job read in
      let path =
        (eq_iff job.recording_id m.recording_id).0 own ∙ (eq_iff m.recording_id id).0 named in
      let safe : Protected now (some id) job = rw (path, eq_refl id) refl in
      let kept = cleanup_inner-keeps json o now (some id) id m r job unique files read safe in
      let (o', done) =
        prepare_swept-stored id chat_jid now swept m r.bytes job kept.0 named read
          (checked-same id r swept o kept.1 files.1 ∙ checked_) in
      rw (chat, done) refl
