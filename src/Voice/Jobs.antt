-- ===== src/Voice/Jobs.antt =====
-- The jobs of the voice outbox and the directory that holds them (crates/daemon/src/voice_outbox.rs).
-- The directory is the list of its recordings, voice-ID.ogg, and the list of its metadata files,
-- voice-ID.json, and of the symbolic links among the names of recordings, which a listing passes over;
-- other entries are not looked at. What a metadata file contains is printed and parsed
-- by serde_json, a parameter.
pub mod Stored
use Prim.Native.Char.{code}
use Prim.Native.String
use omarchy_whatsapp.Prelude.{
  Bool, List, Option, String, [], eqb, false, if◌then◌else◌, leb, length, ltb, none, not, some, suc,
  true, zero, ℕ, ◌&&◌, ◌*◌, ◌+◌, ◌-◌, ◌==◌, ◌^◌, ◌||◌, ◌∷◌,
}
use omarchy_whatsapp.Prelude.Int.{ltb_ℤ, leb_ℤ, pos, saturating_sub, ℤ}
use omarchy_whatsapp.Prelude.Json.{Json}
use omarchy_whatsapp.Prelude.Result.{Result, ensure, err, ok, ◌>>=◌, ◌>>◌}
use omarchy_whatsapp.Prelude.Table.{delete_where, exists_where, find_where, upsert}
use omarchy_whatsapp.Prelude.Trim.{is_empty}
use omarchy_whatsapp.Voice.Ogg.{max_duration_ms, min_duration_ms}

-- JOB_VERSION
abbrev pub job_version : ℕ
job_version = 1

-- MAX_ERROR_CHARS
abbrev pub max_error_chars : ℕ
max_error_chars = 512

pub data StoredStatus : Type 0 where
  sending failed sent : StoredStatus

abbrev pub is_sending : StoredStatus → Bool
is_sending sending = true
is_sending failed = false
is_sending sent = false

abbrev pub is_sent : StoredStatus → Bool
is_sent sending = false
is_sent failed = false
is_sent sent = true

pub record VoiceJob : Type 0 where
  pub version : ℕ
  pub recording_id : String
  pub chat_jid : String
  pub duration_ms : ℕ
  pub message_id : Option String
  pub status : StoredStatus
  pub error : Option String
  pub attempts : ℕ
  pub created_at : ℤ
  pub updated_at : ℤ

pub data VoiceOutboxStatus : Type 0 where
  entry_sending entry_failed : VoiceOutboxStatus

pub record VoiceOutboxEntry : Type 0 where
  pub recording_id : String
  pub chat_jid : String
  pub duration_ms : ℕ
  pub status : VoiceOutboxStatus
  pub error : Option String
  pub created_at : ℤ

entry_with : VoiceJob → VoiceOutboxStatus → VoiceOutboxEntry
entry_with job status = record {
  recording_id = job.recording_id;
  chat_jid = job.chat_jid;
  duration_ms = job.duration_ms;
  status = status;
  error = job.error;
  created_at = job.created_at;
}

entry_status : StoredStatus → VoiceJob → Option VoiceOutboxEntry
entry_status sending job = some (entry_with job entry_sending)
entry_status failed job = some (entry_with job entry_failed)
entry_status sent job = none

unfoldable pub entry : VoiceJob → Option VoiceOutboxEntry
unfolding entry_status entry_with
entry job = entry_status job.status job

-- An ASCII letter or digit, or a hyphen.
abbrev pub is_id_char : ℕ → Bool
is_id_char c =
    (leb b'a' c && leb c b'z')
    || ((leb b'A' c && leb c b'Z') || ((leb b'0' c && leb c b'9') || eqb c b'-'))

abbrev pub all_id_chars : String → Bool
all_id_chars String.[] = true
all_id_chars (String.◌∷◌ c s) = is_id_char (code c) && all_id_chars s

abbrev pub starts_with_hyphen : String → Bool
starts_with_hyphen String.[] = false
starts_with_hyphen (String.◌∷◌ c s) = eqb (code c) b'-'

abbrev pub ends_with_hyphen : String → Bool
ends_with_hyphen String.[] = false
ends_with_hyphen (String.◌∷◌ c s) = if is_empty s then eqb (code c) b'-' else ends_with_hyphen s

abbrev pub count_chars : String → ℕ
count_chars String.[] = 0
count_chars (String.◌∷◌ c s) = suc (count_chars s)

-- The length is counted in characters: where they are not as many as the bytes, a character is not ASCII.
unfoldable pub recording_id_is_valid : String → Bool
recording_id_is_valid id =
    leb 1 (count_chars id)
    && (leb (count_chars id) 80
        && (not (starts_with_hyphen id) && (not (ends_with_hyphen id) && all_id_chars id)))

abbrev pub take_chars : ℕ → String → String
take_chars zero s = String.[]
take_chars (suc n) String.[] = String.[]
take_chars (suc n) (String.◌∷◌ c s) = String.◌∷◌ c (take_chars n s)

unfoldable pub truncated_error : String → String
truncated_error = take_chars max_error_chars

pub data VoiceError : Type 0 where
  id_invalid metadata_invalid metadata_unreadable chat_empty delivery_incomplete : VoiceError
  outside_outbox other_delivery_id recording_missing recording_size recording_unsupported
        recording_changed :
      VoiceError

abbrev no_text : Option String → Bool
no_text none = false
no_text (some id) = is_empty id

unfoldable pub is_valid_job : VoiceJob → String → Bool
unfolding recording_id_is_valid
is_valid_job job recording_id =
    eqb job.version job_version
    && (job.recording_id == recording_id
        && (recording_id_is_valid job.recording_id
            && (not (is_empty job.chat_jid)
                && (leb min_duration_ms job.duration_ms
                    && (leb job.duration_ms max_duration_ms && not (no_text job.message_id))))))

pub record Recording : Type 0 where
  pub recording_id : String
  pub bytes : List ℕ
  pub modified : ℤ

pub record Metadata (S : Type 0) : Type 0 where
  pub recording_id : String
  pub stored : S

-- A symbolic link to a file: whether that is in the directory itself, and what it contains.
pub record Link : Type 0 where
  pub recording_id : String
  pub is_inside : Bool
  pub bytes : List ℕ

pub record Outbox (S : Type 0) : Type 0 where
  pub links : List Link
  pub recordings : List Recording
  pub metadata : List (Metadata S)

abbrev pub recording_is : String → Recording → Bool
recording_is id r = r.recording_id == id

abbrev pub link_is : String → Link → Bool
link_is id l = l.recording_id == id

abbrev pub metadata_is : {S : Type 0} → String → Metadata S → Bool
metadata_is id m = m.recording_id == id

module _ {S : Type 0} where
  -- Both files, or the link in place of the recording; one that is not there is no error.
  unfoldable pub remove_files : String → Outbox S → Outbox S
  remove_files id o = record {
    links = delete_where (link_is id) o.links;
    recordings = delete_where (recording_is id) o.recordings;
    metadata = delete_where (metadata_is id) o.metadata;
  }

  unfoldable pub remove_job_files : String → Outbox S → Result VoiceError (Outbox S)
  unfolding remove_files recording_id_is_valid
  remove_job_files id o =
      if recording_id_is_valid id then ok (remove_files id o) else err id_invalid

  abbrev pub discard : String → Outbox S → Result VoiceError (Outbox S)
  discard = remove_job_files

module _ {S : Type 0} (json : Json VoiceJob S) where
  unfoldable pub save_job : VoiceJob → Outbox S → Result VoiceError (Outbox S)
  unfolding is_valid_job
  save_job job o =
      if is_valid_job job job.recording_id
      then ok (record o {
        metadata =
            upsert (metadata_is job.recording_id)
              (record { recording_id = job.recording_id; stored = json.to_string job })
              (λ m. record m { stored = json.to_string job }) o.metadata;
      })
      else err metadata_invalid

  -- A job that the caller holds, and the directory with it.
  saved : VoiceJob → Outbox S → Result VoiceError (VoiceJob × Outbox S)
  unfolding save_job
  saved job o = do o' ← save_job job o; ok (job, o')

  assigned : Option String → String → Result VoiceError (Option String)
  assigned none message_id = ok (some message_id)
  assigned (some existing) message_id =
      if existing == message_id then ok (some existing) else err other_delivery_id

  unfoldable pub assign_delivery :
      String → String → ℤ → VoiceJob → Outbox S → Result VoiceError (VoiceJob × Outbox S)
  unfolding saved assigned
  assign_delivery chat_jid message_id now job o = do
    ensure (not (is_empty chat_jid || is_empty message_id)) delivery_incomplete
    id ← assigned job.message_id message_id
    saved (record job { chat_jid = chat_jid; message_id = id; updated_at = now }) o

  unfoldable pub mark_failed :
      String → ℤ → VoiceJob → Outbox S → Result VoiceError (VoiceJob × Outbox S)
  unfolding saved truncated_error
  mark_failed error now job o =
      saved (record job { status = failed; error = some (truncated_error error); updated_at = now })
        o

  unfoldable pub finish_sent : ℤ → VoiceJob → Outbox S → Result VoiceError (Outbox S)
  unfolding save_job remove_job_files
  finish_sent now job o = do
    o' ← save_job (record job { status = sent; error = none; updated_at = now }) o
    remove_job_files job.recording_id o'

  -- The metadata of one file, where it parses and is valid.
  unfoldable pub checked : String → Option VoiceJob → Option VoiceJob
  unfolding is_valid_job
  checked id none = none
  checked id (some job) = if is_valid_job job id then some job else none

  unfoldable pub read_job : Metadata S → Option VoiceJob
  unfolding checked
  read_job m = checked m.recording_id (json.from_str m.stored)

  -- A file that does not parse or is not valid is removed with its recording.
  unfoldable pub loaded :
      Metadata S → Option VoiceJob → Outbox S × List VoiceJob → Outbox S × List VoiceJob
  unfolding remove_files
  loaded m none (o, jobs) = (remove_files m.recording_id o, jobs)
  loaded m (some job) (o, jobs) = (o, job ∷ jobs)

  unfoldable pub load_from : List (Metadata S) → Outbox S → Outbox S × List VoiceJob
  unfolding loaded read_job
  load_from [] o = (o, [])
  load_from (m ∷ ms) o = loaded m (read_job m) (load_from ms o)

  unfoldable pub load_jobs : Outbox S → Outbox S × List VoiceJob
  unfolding load_from
  load_jobs o = load_from o.metadata o
