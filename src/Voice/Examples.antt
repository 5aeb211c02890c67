-- ===== src/Voice/Examples.antt =====
-- Tests of the voice outbox, and the theorems at a concrete recording and its job.
use omarchy_whatsapp.Prelude.{
  List, [], arith, drop, false, none, refl, some, ℕ, ◌++◌, ◌*◌, ◌+◌, ◌-◌, ◌/◌, ◌==◌, ◌∷◌, ◌≡◌,
}
use omarchy_whatsapp.Prelude.Int.{pos}
use omarchy_whatsapp.Prelude.Bytes.{le_bytes}
use omarchy_whatsapp.Prelude.Json.{Json}
use omarchy_whatsapp.Prelude.Result.{Result, err, ok}
use omarchy_whatsapp.Prelude.Table.{All}
use omarchy_whatsapp.Voice.Ogg.{OggError, Page, ogg_opus_duration_ms, opus_head}
use omarchy_whatsapp.Voice.Ogg.Encode.{Framing, IsPage}
use omarchy_whatsapp.Voice.Ogg.Stream.{IsDuration, ogg_opus_duration_ms_total}
use omarchy_whatsapp.Voice.Ogg.Recording.{Opens, ogg_opus_duration_ms-stream_bytes, stream_bytes}
use omarchy_whatsapp.Voice.Jobs.{
  Metadata, Outbox, Recording, VoiceJob, VoiceOutboxEntry, entry_failed, job_version,
  outside_outbox, read_job, sending,
}
use omarchy_whatsapp.Voice.Cleanup.{cleanup_inner}
use omarchy_whatsapp.Voice.Cleanup.Files.{Files}
use omarchy_whatsapp.Voice.Cleanup.Directory.{IsBounded, cleanup_settles}
use omarchy_whatsapp.Voice.Sending.{checked_recording_bytes, prepare, recover_interrupted}
use omarchy_whatsapp.Voice.Sending.Retry.{prepare-stored}
use omarchy_whatsapp.Voice.Sending.Step.{AllFailed}
use omarchy_whatsapp.Voice.Sending.Recovery.{recover_interrupted_settles}

-- The first page opens the stream with a pre-skip of 312 samples; the second ends at one second more.
abbrev head_page : Page
head_page = record {
  granule = 0;
  serial = 7;
  sequence = 0;
  body = opus_head ++ (1 ∷ 1 ∷ 56 ∷ 1 ∷ 0 ∷ 0 ∷ 0 ∷ 0 ∷ 0 ∷ 0 ∷ 0 ∷ []);
}

abbrev audio_page : Page
audio_page = record { granule = 48312; serial = 7; sequence = 1; body = 5 ∷ 6 ∷ [] }

abbrev framing : ℕ → Framing
framing size = record { flags = 0; checksum = 99; table = size ∷ [] }

abbrev two_pages : List (Framing × Page)
two_pages = (framing 19, head_page) ∷ (framing 2, audio_page) ∷ []

head_IsPage : IsPage (framing 19) head_page
head_IsPage = record {
  granule_fits = omega arith;
  serial_fits = omega arith;
  sequence_fits = omega arith;
  body_covered = refl;
}

audio_IsPage : IsPage (framing 2) audio_page
audio_IsPage = record {
  granule_fits = omega arith;
  serial_fits = omega arith;
  sequence_fits = omega arith;
  body_covered = refl;
}

head_Opens : Opens 312 head_page
head_Opens = record { long = refl; magic = refl; version = refl; channels = refl; skips = refl }

one_second : ogg_opus_duration_ms (stream_bytes two_pages) ≡ some (ok 1000)
unfolding ogg_opus_duration_ms le_bytes
one_second = refl

ogg_opus_duration_ms-stream_bytes_example :
    ogg_opus_duration_ms (stream_bytes two_pages)
    ≡ some (ok (((48312 - 312) * 1000 + 47999) / 48000))
ogg_opus_duration_ms-stream_bytes_example =
    ogg_opus_duration_ms-stream_bytes 312 48312 (framing 19) head_page
      ((framing 2, audio_page) ∷ []) (head_IsPage, (audio_IsPage, tt)) head_Opens (refl, refl, tt)
      refl (omega arith) (omega arith) (omega arith)

ogg_opus_duration_ms_total_example :
    (r : Result OggError ℕ) × (ogg_opus_duration_ms (drop 1 (stream_bytes two_pages)) ≡ some r)
    × IsDuration r
ogg_opus_duration_ms_total_example = ogg_opus_duration_ms_total (drop 1 (stream_bytes two_pages))

-- Jobs that stand for themselves in their files.
abbrev plain_job : Json VoiceJob VoiceJob
plain_job = record {
  to_string = λ j. j;
  from_str = λ j. some j;
  same = λ a b. a.recording_id == b.recording_id;
}

abbrev voice_job : VoiceJob
voice_job = record {
  version = job_version;
  recording_id = "r1";
  chat_jid = "a@s";
  duration_ms = 1000;
  message_id = none;
  status = sending;
  error = none;
  attempts = 1;
  created_at = pos 100;
  updated_at = pos 120;
}

abbrev job_file : Metadata VoiceJob
job_file = record { recording_id = "r1"; stored = voice_job }

abbrev recording : Recording
recording = record { recording_id = "r1"; bytes = stream_bytes two_pages; modified = pos 90 }

-- A recording that is being sent, and a metadata file that has lost its recording.
abbrev voice_outbox : Outbox VoiceJob
voice_outbox = record {
  links = record { recording_id = "r3"; is_inside = false; bytes = recording.bytes } ∷ [];
  recordings = recording ∷ [];
  metadata = job_file ∷ record { recording_id = "r2"; stored = voice_job } ∷ [];
}

job_is_read : read_job plain_job job_file ≡ some voice_job
unfolding read_job
job_is_read = refl

cleanup_settles_example :
    IsBounded plain_job voice_outbox
      (pos 200)
      none
      (cleanup_inner plain_job voice_outbox (pos 200) none)
cleanup_settles_example = cleanup_settles plain_job voice_outbox (pos 200) none

recording_checked : checked_recording_bytes "r1" voice_outbox ≡ ok (recording.bytes, 1000)
unfolding checked_recording_bytes ogg_opus_duration_ms le_bytes
recording_checked = refl

link_refused : checked_recording_bytes "r3" voice_outbox ≡ err outside_outbox
unfolding checked_recording_bytes
link_refused = refl

prepare-stored_example :
    (prepare plain_job "r1" "b@s" (pos 200) voice_outbox).1
    ≡ ok (
      record voice_job { status = sending; error = none; attempts = 2; updated_at = pos 200 },
      recording.bytes,
    )
prepare-stored_example =
    prepare-stored plain_job voice_outbox "r1" "b@s" (pos 200) job_file recording voice_job
      (omega arith) (refl, refl) job_is_read recording_checked refl

recover_interrupted_settles_example :
    (next : Outbox VoiceJob × List VoiceOutboxEntry) × (recover_interrupted plain_job voice_outbox
        (pos 200)
      ≡ ok next)
    × AllFailed plain_job next.0
    × All (λ e. e.status ≡ entry_failed) next.1
recover_interrupted_settles_example =
    recover_interrupted_settles plain_job (λ j. refl) voice_outbox (pos 200)
