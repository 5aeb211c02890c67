-- ===== src/Voice/Cleanup.antt =====
-- What the voice outbox keeps (cleanup_inner, is_actively_sending).
pub mod Files
pub mod Keeps
pub mod Bounded
pub mod Counts
pub mod Weights
pub mod Directory
use omarchy_whatsapp.Prelude.{
  Bool, List, Option, String, [], false, true, if◌then◌else◌, length, ltb, none, not, opt_eq, some,
  suc, zero, ℕ, ◌&&◌, ◌*◌, ◌+◌, ◌-◌, ◌||◌, ◌∷◌,
}
use omarchy_whatsapp.Prelude.Int.{leb_ℤ, ltb_ℤ, pos, saturating_sub, ℤ}
use omarchy_whatsapp.Prelude.Json.{Json}
use omarchy_whatsapp.Prelude.Table.{delete_where, exists_where, find_where}
use omarchy_whatsapp.Voice.Jobs.{
  Metadata, Outbox, Recording, VoiceJob, is_sending, load_jobs, metadata_is, recording_is,
  remove_files,
}

-- ORPHAN_TTL_SECONDS, JOB_TTL_SECONDS, ACTIVE_SEND_GRACE_SECONDS, MAX_JOBS and MAX_OUTBOX_BYTES
abbrev pub orphan_ttl_seconds : ℕ
orphan_ttl_seconds = 24 * 60 * 60

abbrev pub job_ttl_seconds : ℕ
job_ttl_seconds = 7 * 24 * 60 * 60

abbrev pub active_send_grace_seconds : ℕ
active_send_grace_seconds = 15 * 60

abbrev pub max_jobs : ℕ
max_jobs = 8

abbrev pub max_outbox_bytes : ℕ
max_outbox_bytes = 64 * 1024 * 1024

pub record RetainedJob : Type 0 where
  pub created_at : ℤ
  pub recording_id : String
  pub audio_bytes : ℕ
  pub actively_sending : Bool

unfoldable pub is_actively_sending : VoiceJob → ℤ → Bool
is_actively_sending job now =
    is_sending job.status
    && leb_ℤ (saturating_sub now job.updated_at) (pos active_send_grace_seconds)

abbrev pub is_preserved : Option String → String → Bool
is_preserved preserve id = opt_eq preserve (some id)

pub size_of : Option Recording → ℕ
size_of none = 0
size_of (some r) = length r.bytes

unfoldable pub is_expired : ℤ → Option String → VoiceJob → Bool
is_expired now preserve job =
    not (is_preserved preserve job.recording_id)
    && ltb_ℤ (pos job_ttl_seconds) (saturating_sub now job.updated_at)

retained_of : ℤ → List Recording → VoiceJob → RetainedJob
unfolding size_of
retained_of now audio job = record {
  created_at = job.created_at;
  recording_id = job.recording_id;
  audio_bytes = size_of (find_where (recording_is job.recording_id) audio);
  actively_sending = is_actively_sending job now;
}

-- sort_by_key is stable: a job that comes first stays before the equal ones.
insert_job : RetainedJob → List RetainedJob → List RetainedJob
insert_job r [] = r ∷ []
insert_job r (x ∷ xs) =
    let rest = insert_job r xs in if ltb_ℤ x.created_at r.created_at then x ∷ rest else r ∷ x ∷ xs

unfoldable pub oldest_first : List RetainedJob → List RetainedJob
unfolding insert_job
oldest_first [] = []
oldest_first (r ∷ rs) = insert_job r (oldest_first rs)

abbrev pub total_bytes : List RetainedJob → ℕ
total_bytes [] = 0
total_bytes (r ∷ rs) = r.audio_bytes + total_bytes rs

unfoldable pub may_evict : Option String → RetainedJob → Bool
may_evict preserve r = not (is_preserved preserve r.recording_id) && not r.actively_sending

behind :
    RetainedJob → Option (RetainedJob × List RetainedJob) → Option (RetainedJob × List RetainedJob)
behind x none = none
behind x (some (y, ys)) = some (y, x ∷ ys)

-- position and remove
unfoldable pub take_first :
    (RetainedJob → Bool) → List RetainedJob → Option (RetainedJob × List RetainedJob)
unfolding behind
take_first p [] = none
take_first p (r ∷ rs) = if p r then some (r, rs) else behind r (take_first p rs)

abbrev pub over_limits : List RetainedJob → ℕ → Bool
over_limits rs bytes = ltb max_jobs (length rs) || ltb max_outbox_bytes bytes

module _ {S : Type 0} where
  -- The first two sweeps, by the files that the directory listing shows.
  unfoldable pub sweep_orphans : ℤ → Outbox S → Outbox S
  sweep_orphans now o = record o {
    recordings =
        delete_where
          (λ r.
            not (exists_where (metadata_is r.recording_id) o.metadata)
            && ltb_ℤ (pos orphan_ttl_seconds) (saturating_sub now r.modified))
          o.recordings;
    metadata =
        delete_where (λ m. not (exists_where (recording_is m.recording_id) o.recordings))
          o.metadata;
  }

  -- The loop over the loaded jobs.
  unfoldable pub sort_out :
      ℤ
      → Option String
      → List Recording
      → List VoiceJob
      → Outbox S × List RetainedJob
      → Outbox S × List RetainedJob
  unfolding remove_files is_expired retained_of
  sort_out now preserve audio [] (o, retained) = (o, retained)
  sort_out now preserve audio (job ∷ jobs) (o, retained) =
      let (o', rest) = sort_out now preserve audio jobs (o, retained) in
      if is_expired now preserve job
      then (remove_files job.recording_id o', rest)
      else (o', retained_of now audio job ∷ rest)

  -- The eviction loop, on fuel; it also returns the jobs that are left.
  unfoldable pub evict :
      Option String → ℕ → List RetainedJob → ℕ → Outbox S → Outbox S × List RetainedJob
  unfolding take_first may_evict remove_files
  evict preserve zero retained bytes o = (o, retained)
  evict preserve (suc fuel) retained bytes o = elim (over_limits retained bytes) [
    | false ↦ (o, retained)
    | true ↦ elim (take_first (may_evict preserve) retained) [
      | none ↦ (o, retained)
      | some (evicted, rest) ↦
          evict preserve fuel rest (bytes - evicted.audio_bytes)
            (remove_files evicted.recording_id o)
    ]
  ]

  unfoldable pub evict_all :
      Option String → Outbox S × List RetainedJob → Outbox S × List RetainedJob
  unfolding evict oldest_first
  evict_all preserve (o, retained) =
      evict preserve (length retained) (oldest_first retained) (total_bytes (oldest_first retained))
        o

module _ {S : Type 0} (json : Json VoiceJob S) where
  -- The directory after the cleanup, and the jobs that it retains.
  unfoldable pub cleanup_retaining : Outbox S → ℤ → Option String → Outbox S × List RetainedJob
  unfolding sweep_orphans load_jobs sort_out evict_all
  cleanup_retaining o now preserve =
      let (loaded, jobs) = load_jobs json (sweep_orphans now o) in
      evict_all preserve (sort_out now preserve o.recordings jobs (loaded, []))

  unfoldable pub cleanup_inner : Outbox S → ℤ → Option String → Outbox S
  unfolding cleanup_retaining
  cleanup_inner o now preserve = (cleanup_retaining o now preserve).0

  unfoldable pub cleanup : Outbox S → ℤ → Outbox S
  unfolding cleanup_inner
  cleanup o now = cleanup_inner o now none
