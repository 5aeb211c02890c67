-- ===== src/Voice/Sending.antt =====
-- How a recording is sent, and what a restart makes of interrupted sends (checked_recording_bytes, prepare,
-- recover_interrupted, entries).
pub mod Retry
pub mod Step
pub mod Recovery
use omarchy_whatsapp.Prelude.{
  Bool, List, Option, String, [], eqb, if◌then◌else◌, leb, length, ltb, none, not, some, ℕ, ◌&&◌,
  ◌*◌, ◌+◌, ◌-◌, ◌^◌, ◌||◌, ◌∷◌,
}
use omarchy_whatsapp.Prelude.Int.{ltb_ℤ, ℤ}
use omarchy_whatsapp.Prelude.Json.{Json}
use omarchy_whatsapp.Prelude.Result.{Result, ensure, err, ok, ◌>>=◌, ◌>>◌}
use omarchy_whatsapp.Prelude.Table.{find_where}
use omarchy_whatsapp.Prelude.Trim.{is_empty}
use omarchy_whatsapp.Voice.Ogg.{OggError, ogg_opus_duration_ms}
use omarchy_whatsapp.Voice.Jobs.{
  Link, link_is, outside_outbox, Metadata, Outbox, Recording, StoredStatus, VoiceError, VoiceJob,
  VoiceOutboxEntry, chat_empty, entry, failed, id_invalid, is_sending, is_sent, is_valid_job,
  job_version, load_jobs, metadata_invalid, metadata_is, metadata_unreadable, recording_changed,
  recording_id_is_valid, recording_is, recording_missing, recording_size, recording_unsupported,
  remove_files, save_job, sending, sent,
}
use omarchy_whatsapp.Voice.Cleanup.{cleanup, cleanup_inner}

-- MAX_AUDIO_BYTES of crates/daemon/src/assets.rs
abbrev pub max_audio_bytes : ℕ
max_audio_bytes = 25 * 1024 * 1024

-- The duration is always there (see Ogg.Stream).
measured : Option (Result OggError ℕ) → Result VoiceError ℕ
measured none = err recording_unsupported
measured (some (err e)) = err recording_unsupported
measured (some (ok d)) = ok d

sized : List ℕ → Result VoiceError (List ℕ × ℕ)
unfolding measured
sized bytes = do
  ensure (ltb 0 (length bytes) && leb (length bytes) max_audio_bytes) recording_size
  duration_ms ← measured (ogg_opus_duration_ms bytes)
  ok (bytes, duration_ms)

-- The path, resolved: a link may not leave the directory.
located : Option Recording → Option Link → Result VoiceError (List ℕ × ℕ)
unfolding sized
located (some r) link = sized r.bytes
located none none = err recording_missing
located none (some link) = if link.is_inside then sized link.bytes else err outside_outbox

-- u32::saturating_add(1)
abbrev pub one_more : ℕ → ℕ
one_more n = if ltb n (2 ^ 32 - 1) then n + 1 else n

fresh_job : String → String → ℕ → ℤ → VoiceJob
fresh_job recording_id chat_jid duration_ms now = record {
  version = job_version;
  recording_id = recording_id;
  chat_jid = chat_jid;
  duration_ms = duration_ms;
  message_id = none;
  status = sending;
  error = none;
  attempts = 0;
  created_at = now;
  updated_at = now;
}

pub started : VoiceJob → ℤ → VoiceJob
started job now = record job {
  status = sending;
  error = none;
  attempts = one_more job.attempts;
  updated_at = now;
}

module _ {S : Type 0} where
  unfoldable pub checked_recording_bytes : String → Outbox S → Result VoiceError (List ℕ × ℕ)
  unfolding located recording_id_is_valid
  checked_recording_bytes id o =
      if recording_id_is_valid id
      then located (find_where (recording_is id) o.recordings) (find_where (link_is id) o.links)
      else err id_invalid

interrupted : VoiceJob → ℤ → VoiceJob
interrupted job now = record job {
  status = failed;
  error = some "Send was interrupted; retry is safe";
  updated_at = now;
}

listed : Option VoiceOutboxEntry → List VoiceOutboxEntry → List VoiceOutboxEntry
listed none entries = entries
listed (some e) entries = e ∷ entries

insert_entry : VoiceOutboxEntry → List VoiceOutboxEntry → List VoiceOutboxEntry
insert_entry e [] = e ∷ []
insert_entry e (x ∷ xs) =
    let rest = insert_entry e xs in if ltb_ℤ x.created_at e.created_at then x ∷ rest else e ∷ x ∷ xs

-- sort_by_key
sort_entries : List VoiceOutboxEntry → List VoiceOutboxEntry
unfolding insert_entry
sort_entries [] = []
sort_entries (e ∷ es) = insert_entry e (sort_entries es)

entries_of : List VoiceJob → List VoiceOutboxEntry
unfolding listed entry
entries_of [] = []
entries_of (job ∷ jobs) = listed (entry job) (entries_of jobs)

parsed_job : String → Option VoiceJob → Result VoiceError VoiceJob
unfolding is_valid_job
parsed_job id none = err metadata_unreadable
parsed_job id (some job) = if is_valid_job job id then ok job else err metadata_invalid

module _ {S : Type 0} (json : Json VoiceJob S) where
  stored_job : String → VoiceJob → Option (Metadata S) → Result VoiceError VoiceJob
  unfolding parsed_job
  stored_job id fresh none = ok fresh
  stored_job id fresh (some m) = parsed_job id (json.from_str m.stored)

  -- What comes behind the cleanup.
  prepare_swept :
      String → String → ℤ → Outbox S → Result VoiceError ((VoiceJob × List ℕ) × Outbox S)
  unfolding checked_recording_bytes stored_job fresh_job started save_job
  prepare_swept recording_id chat_jid now o = do
    (bytes, duration_ms) ← checked_recording_bytes recording_id o
    job ←
        stored_job recording_id (fresh_job recording_id chat_jid duration_ms now)
          (find_where (metadata_is recording_id) o.metadata)
    ensure (eqb job.duration_ms duration_ms) recording_changed
    o' ← save_job json (started job now) o
    ok ((started job now, bytes), o')

  -- On an error the directory is the one that the cleanup left.
  after_sweep :
      Outbox S
      → Result VoiceError ((VoiceJob × List ℕ) × Outbox S)
      → Outbox S × Result VoiceError (VoiceJob × List ℕ)
  after_sweep o (err e) = (o, err e)
  after_sweep o (ok (prepared, o')) = (o', ok prepared)

  unfoldable pub prepare :
      String → String → ℤ → Outbox S → Outbox S × Result VoiceError (VoiceJob × List ℕ)
  unfolding prepare_swept after_sweep cleanup_inner
  prepare recording_id chat_jid now o =
      let swept = cleanup_inner json o now (some recording_id) in
      if is_empty chat_jid
      then (o, err chat_empty)
      else after_sweep swept (prepare_swept recording_id chat_jid now swept)

  -- One job of the loop: the directory and the entries of the later ones are built on.
  pub recover_job : ℤ → VoiceJob → StoredStatus → Outbox S → Result VoiceError (Outbox S × VoiceJob)
  unfolding save_job interrupted
  recover_job now job sent o = ok (remove_files job.recording_id o, job)
  recover_job now job sending o = do
    o' ← save_job json (interrupted job now) o
    ok (o', interrupted job now)
  recover_job now job failed o = ok (o, job)

  recover_jobs : ℤ → List VoiceJob → Outbox S → Result VoiceError (Outbox S × List VoiceOutboxEntry)
  unfolding recover_job listed entry
  recover_jobs now [] o = ok (o, [])
  recover_jobs now (job ∷ jobs) o = do
    (o', recovered) ← recover_job now job job.status o
    (o'', entries) ← recover_jobs now jobs o'
    ok (o'', listed (entry recovered) entries)

  unfoldable pub recover_interrupted :
      Outbox S → ℤ → Result VoiceError (Outbox S × List VoiceOutboxEntry)
  unfolding cleanup load_jobs recover_jobs sort_entries
  recover_interrupted o now = do
    let loaded = load_jobs json (cleanup json o now)
    (o', entries) ← recover_jobs now loaded.1 loaded.0
    ok (o', sort_entries entries)

  unfoldable pub entries : Outbox S → Outbox S × List VoiceOutboxEntry
  unfolding load_jobs entries_of sort_entries
  entries o = let loaded = load_jobs json o in (loaded.0, sort_entries (entries_of loaded.1))
