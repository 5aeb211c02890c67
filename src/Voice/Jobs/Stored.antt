-- ===== src/Voice/Jobs/Stored.antt =====
-- The jobs that read_job and save_job take and give (crates/daemon/src/voice_outbox.rs).
use omarchy_whatsapp.Prelude.{
  Option-cases, arith, eq_iff, eq_refl, inl, inr, refl, some, true, ◌==◌, ◌≡◌,
}
use omarchy_whatsapp.Prelude.Json.{Json}
use omarchy_whatsapp.Prelude.Result.{ok}
use omarchy_whatsapp.Prelude.Table.{upsert}
use omarchy_whatsapp.Voice.Jobs.{
  Metadata, Outbox, VoiceJob, checked, is_valid_job, metadata_is, read_job, save_job,
}

module _ {S : Type 0} (json : Json VoiceJob S) where
  abbrev pub IsValidJob : VoiceJob → Type 0
  IsValidJob job = is_valid_job job job.recording_id ≡ true

  pub read_job-valid :
      (m : Metadata S) (j : VoiceJob)
      → read_job json m ≡ some j
      → IsValidJob j × ((j.recording_id == m.recording_id) ≡ true)
  unfolding read_job checked is_valid_job
  read_job-valid m j e = elim (Option-cases (json.from_str m.stored)) [
    | inl unparsed ↦ absurd (ground arith)
    | inr (k, parsed) ↦ ground (arith, eq_refl j.recording_id, eq_iff j.recording_id m.recording_id)
  ]

  pub read_job-stored :
      (m : Metadata S) (j : VoiceJob) → read_job json m ≡ some j → json.from_str m.stored ≡ some j
  unfolding read_job checked
  read_job-stored m j e = elim (Option-cases (json.from_str m.stored)) [
    | inl unparsed ↦ absurd (ground arith)
    | inr (k, parsed) ↦ ground arith
  ]

  abbrev pub written : VoiceJob → Outbox S → Outbox S
  written job o = record o {
    metadata =
        upsert (metadata_is job.recording_id)
          (record { recording_id = job.recording_id; stored = json.to_string job })
          (λ m. record m { stored = json.to_string job }) o.metadata;
  }

  pub save_job-valid :
      (job : VoiceJob) (o : Outbox S) → IsValidJob job → save_job json job o ≡ ok (written job o)
  unfolding save_job
  save_job-valid job o v = rw v refl
