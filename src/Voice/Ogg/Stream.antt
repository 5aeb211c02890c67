-- ===== src/Voice/Ogg/Stream.antt =====
-- The loop over the pages, round by round (ogg_opus_duration_ms in crates/daemon/src/voice_outbox.rs).
use omarchy_whatsapp.Prelude.{
  List, [], arith, drop, inl, inr, length, refl, some, suc, zero, ℕ, ◌+◌, ◌<◌, ◌≤◌, ◌∷◌, ◌≡◌, ◌∙◌,
}
use omarchy_whatsapp.Prelude.Bytes.{byte_at, length-drop, length-drop-le, split_at, sum, take}
use omarchy_whatsapp.Prelude.Result.{Result, Result-cases, err, ok}
use omarchy_whatsapp.Voice.Ogg.{
  OggError, OggState, Page, accept, before_first, duration_of, max_duration_ms, min_duration_ms,
  next_page, ogg_opus_duration_ms, read_page, read_pages,
}

split_at-shorter :
    (n : ℕ) (bytes front rest : List ℕ)
    → split_at n bytes ≡ some (front, rest)
    → length rest + n ≡ length bytes
split_at-shorter n bytes front rest e = ground (arith, length-drop n bytes)

read_page-shorter :
    (bytes rest : List ℕ) (p : Page) → read_page bytes ≡ ok (p, rest) → length rest < length bytes
unfolding read_page
read_page-shorter bytes rest p e =
    let n = byte_at 26 (take 27 bytes) in
    let m = sum (take n (drop 27 bytes)) in
    ground (
      arith,
      length-drop 27 bytes,
      length-drop-le n (drop 27 bytes),
      length-drop-le m (drop n (drop 27 bytes)),
    )

next_page-shorter :
    (bytes rest : List ℕ) (s t : OggState)
    → next_page bytes s ≡ ok (t, rest)
    → length rest < length bytes
unfolding next_page
next_page-shorter bytes rest s t e = elim (Result-cases (read_page bytes)) [
  | inl ((page, after), read) ↦ elim (Result-cases (accept page s)) [
    | inl (u, accepted) ↦ ground (arith, read_page-shorter bytes after page read)
    | inr (x, refused) ↦ ground arith
  ]
  | inr (x, refused) ↦ ground arith
]

pub read_pages-next :
    (fuel b : ℕ) (bytes rest : List ℕ) (s t : OggState)
    → next_page (b ∷ bytes) s ≡ ok (t, rest)
    → read_pages (suc fuel) (b ∷ bytes) s ≡ read_pages fuel rest t
unfolding read_pages
read_pages-next fuel b bytes rest s t e = ground arith

read_pages_total :
    (fuel : ℕ) (bytes : List ℕ) (s : OggState)
    → length bytes < fuel
    → (r : Result OggError OggState) × (read_pages fuel bytes s ≡ some r)
unfolding read_pages
read_pages_total zero bytes s h = absurd (omega arith)
read_pages_total (suc fuel) [] s h = (ok s, refl)
read_pages_total (suc fuel) (b ∷ bytes) s h = elim (Result-cases (next_page (b ∷ bytes) s)) [
  | inl ((t, rest), e) ↦
      let (r, found) =
        read_pages_total fuel rest t (omega (arith, next_page-shorter (b ∷ bytes) rest s t e)) in
      (r, read_pages-next fuel b bytes rest s t e ∙ found)
  | inr (x, e) ↦ (err x, ground arith)
]

abbrev pub IsDuration : Result OggError ℕ → Type 0
IsDuration (ok d) = (min_duration_ms ≤ d) × (d ≤ max_duration_ms)
IsDuration (err e) = Unit

duration_of_bounds :
    (s : OggState) (d : ℕ) → duration_of s ≡ ok d → (min_duration_ms ≤ d) × (d ≤ max_duration_ms)
unfolding duration_of
duration_of_bounds s d e = ground arith

IsDuration-of : (s : OggState) (r : Result OggError ℕ) → duration_of s ≡ r → IsDuration r
IsDuration-of s (ok d) e = duration_of_bounds s d e
IsDuration-of s (err x) e = tt

-- On any bytes the loop ends within as many rounds as there are bytes and one more, and a duration that is
-- returned is one of 250 milliseconds to 15 minutes.
pub ogg_opus_duration_ms_total :
    (bytes : List ℕ)
    → (r : Result OggError ℕ) × (ogg_opus_duration_ms bytes ≡ some r) × IsDuration r
unfolding ogg_opus_duration_ms
ogg_opus_duration_ms_total bytes =
    let (r, found) = read_pages_total (suc (length bytes)) bytes before_first (omega arith) in
    elim (Result-cases r) [
      | inl (s, is) ↦ (duration_of s, rw (found, is) refl, IsDuration-of s (duration_of s) refl)
      | inr (x, is) ↦ (err x, rw (found, is) refl, tt)
    ]
