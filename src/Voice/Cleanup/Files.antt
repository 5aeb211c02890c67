-- ===== src/Voice/Cleanup/Files.antt =====
-- The files of one recording through the steps of a cleanup.
use mathlib.Core.Path.{subst}
use omarchy_whatsapp.Prelude.{
  Bool-cases, List, Option, Option-cases, String, [], arith, eq_iff, false, inl, inr, not, refl,
  some, suc, sym, true, zero, ℕ, ◌&&◌, ◌-◌, ◌==◌, ◌||◌, ◌∷◌, ◌≡◌, ◌∙◌,
}
use omarchy_whatsapp.Prelude.Int.{ℤ, ltb_ℤ, pos, saturating_sub}
use omarchy_whatsapp.Prelude.Json.{Json}
use omarchy_whatsapp.Prelude.Table.{All, exists_where, find_where}
use omarchy_whatsapp.Prelude.Table.Lookup.{exists-find, find-delete_other}
use omarchy_whatsapp.Voice.Jobs.{
  Metadata, Outbox, Recording, VoiceJob, load_from, loaded, metadata_is, read_job, recording_is,
  remove_files,
}
use omarchy_whatsapp.Voice.Cleanup.Bounded.{evict-next, evict-stuck, evict-within}
use omarchy_whatsapp.Voice.Cleanup.{
  behind, orphan_ttl_seconds, RetainedJob, evict, is_actively_sending, is_expired, is_preserved,
  may_evict, over_limits, sort_out, sweep_orphans, take_first,
}

-- Both files of a recording, as they are found.
abbrev pub Files : {S : Type 0} → String → Metadata S → Recording → Outbox S → Type 0
Files id m r o =
    (find_where (metadata_is id) o.metadata ≡ some m)
    × (find_where (recording_is id) o.recordings ≡ some r)

-- The cleanup is told to preserve the job, or the job is being sent.
abbrev pub Protected : ℤ → Option String → VoiceJob → Type 0
Protected now preserve job =
    (is_preserved preserve job.recording_id || is_actively_sending job now) ≡ true

module _ {S : Type 0} (id : String) (m : Metadata S) (r : Recording) where
  Files-remove_files :
      (other : String) (o : Outbox S)
      → (other == id) ≡ false
      → Files id m r o
      → Files id m r (remove_files other o)
  unfolding remove_files
  Files-remove_files other o apart (there, sound) = (
    find-delete_other (metadata_is id) (metadata_is other) o.metadata (λ x h.
          ground (arith, eq_iff x.recording_id id, eq_iff x.recording_id other, eq_iff other id))
        ∙ there,
    find-delete_other (recording_is id) (recording_is other) o.recordings (λ x h.
          ground (arith, eq_iff x.recording_id id, eq_iff x.recording_id other, eq_iff other id))
        ∙ sound,
  )

  pub Files-sweep_orphans :
      (now : ℤ) (o : Outbox S) → Files id m r o → Files id m r (sweep_orphans now o)
  unfolding sweep_orphans
  Files-sweep_orphans now o (there, sound) = (
    find-delete_other (metadata_is id) _ o.metadata (λ x h.
          subst (λ k. not (exists_where (recording_is k) o.recordings) ≡ false)
            (sym ((eq_iff x.recording_id id).0 h))
            (rw (exists-find (recording_is id) o.recordings, sound) refl))
        ∙ there,
    find-delete_other (recording_is id) _ o.recordings (λ x h.
          subst
            (λ k.
              (not (exists_where (metadata_is k) o.metadata)
                && ltb_ℤ (pos orphan_ttl_seconds) (saturating_sub now x.modified))
              ≡ false)
            (sym ((eq_iff x.recording_id id).0 h))
            (rw (exists-find (metadata_is id) o.metadata, there) refl))
        ∙ sound,
  )

  -- A loaded job of the ID is the job of the file.
  abbrev pub Loads : Json VoiceJob S → VoiceJob → List (Metadata S) → Type 0
  Loads json job ms = All (λ x. metadata_is id x ≡ true → read_job json x ≡ some job) ms

  pub Files-load_from :
      (json : Json VoiceJob S) (job : VoiceJob) (ms : List (Metadata S)) (o : Outbox S)
      → Loads json job ms
      → Files id m r o
      → Files id m r (load_from json ms o).0
  unfolding load_from loaded
  Files-load_from json job [] o h f = f
  Files-load_from json job (x ∷ ms) o h f =
      let rest = Files-load_from json job ms o h.1 f in
      elim (Option-cases (read_job json x)) [
        | inl unreadable ↦
            subst (λ j. Files id m r (loaded json x j (load_from json ms o)).0) (sym unreadable)
              (Files-remove_files x.recording_id (load_from json ms o).0
                (elim (Bool-cases (x.recording_id == id)) [
                  | inl same ↦ cc (h.0 same, unreadable)
                  | inr apart ↦ apart
                ])
                rest)
        | inr (j, read) ↦
            subst (λ j. Files id m r (loaded json x j (load_from json ms o)).0) (sym read) rest
      ]

  -- Every job of the ID is protected.
  abbrev pub Spares : ℤ → Option String → List VoiceJob → Type 0
  Spares now preserve jobs =
      All (λ j. (j.recording_id == id) ≡ true → is_expired now preserve j ≡ false) jobs

  pub Files-sort_out :
      (now : ℤ) (preserve : Option String) (audio : List Recording) (jobs : List VoiceJob)
      (state : Outbox S × List RetainedJob)
      → Spares now preserve jobs
      → Files id m r state.0
      → Files id m r (sort_out now preserve audio jobs state).0
  unfolding sort_out
  Files-sort_out now preserve audio [] (o, retained) h f = f
  Files-sort_out now preserve audio (job ∷ jobs) (o, retained) h f =
      let rest = Files-sort_out now preserve audio jobs (o, retained) h.1 f in
      elim (Bool-cases (is_expired now preserve job)) [
        | inl expired ↦ rw expired (
            Files-remove_files job.recording_id ((sort_out now preserve audio jobs (o, retained)).0)
              (elim (Bool-cases (job.recording_id == id)) [
                | inl same ↦ cc (h.0 same, expired)
                | inr apart ↦ apart
              ])
              rest)
        | inr kept ↦ rw kept rest
      ]

  abbrev pub Stays : Option String → List RetainedJob → Type 0
  Stays preserve rs = All (λ x. (x.recording_id == id) ≡ true → may_evict preserve x ≡ false) rs

  take_first-Stays :
      (preserve : Option String) (rs rest : List RetainedJob) (x : RetainedJob)
      → take_first (may_evict preserve) rs ≡ some (x, rest)
      → Stays preserve rs
      → ((x.recording_id == id) ≡ false) × Stays preserve rest
  unfolding take_first behind
  take_first-Stays preserve [] rest x e h = cc
  take_first-Stays preserve (y ∷ ys) rest x e h = elim (Bool-cases (may_evict preserve y)) [
    | inl goes ↦
        let first : x ≡ y = ground arith in
        let others : ys ≡ rest = ground arith in
        (
          elim (Bool-cases (x.recording_id == id)) [
            | inl same ↦ cc (h.0 (rw (← first) same), goes)
            | inr apart ↦ apart
          ],
          subst (Stays preserve) others h.1,
        )
    | inr stays ↦ elim (Option-cases (take_first (may_evict preserve) ys)) [
      | inl none_left ↦ absurd (ground arith)
      | inr ((z, zs), found) ↦
          let (goes, stay) = take_first-Stays preserve ys zs z found h.1 in
          let first : z ≡ x = ground arith in
          let others : y ∷ zs ≡ rest = ground arith in
          (
            subst (λ w. (w.recording_id == id) ≡ false) first goes,
            subst (Stays preserve) others (h.0, stay),
          )
    ]
  ]

  pub Files-evict :
      (preserve : Option String) (fuel : ℕ) (rs : List RetainedJob) (bytes : ℕ) (o : Outbox S)
      → Stays preserve rs
      → Files id m r o
      → Files id m r (evict preserve fuel rs bytes o).0
  unfolding evict
  Files-evict preserve zero rs bytes o h f = f
  Files-evict preserve (suc fuel) rs bytes o h f = elim (Bool-cases (over_limits rs bytes)) [
    | inl over ↦ elim (Option-cases (take_first (may_evict preserve) rs)) [
      | inl none_left ↦
          subst (λ x. Files id m r x.0) (sym (evict-stuck preserve fuel rs bytes o over none_left))
            f
      | inr ((x, rest), found) ↦
          let (goes, stay) = take_first-Stays preserve rs rest x found h in
          subst (λ x. Files id m r x.0)
            (sym (evict-next preserve fuel rs rest bytes o x over found))
            (Files-evict preserve fuel rest (bytes - x.audio_bytes) (remove_files x.recording_id o)
              stay (Files-remove_files x.recording_id o goes f))
    ]
    | inr within ↦
        subst (λ x. Files id m r x.0) (sym (evict-within preserve fuel rs bytes o within)) f
  ]
