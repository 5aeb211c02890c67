-- ===== src/Voice/Ogg/Recording.antt =====
-- The duration of a recording that was written page by page.
use omarchy_whatsapp.Prelude.{
  List, Option, [], ap, arith, drop, eqb, leb, length, length-append, none, refl, some, suc, true,
  false, zero, ℕ, ◌+◌, ◌*◌, ◌-◌, ◌/◌, ◌^◌, ◌++◌, ◌<◌, ◌≤◌, ◌∷◌, ◌≡◌, ◌∙◌, if◌then◌else◌,
}
use omarchy_whatsapp.Prelude.Bytes.{byte_at, le_value, starts_with, take}
use omarchy_whatsapp.Prelude.Result.{ok}
use omarchy_whatsapp.Voice.Ogg.{
  OggState, Page, accept, after_pages, before_first, duration_of, max_duration_ms, min_duration_ms,
  next_page, ogg_opus_duration_ms, opus_head, read_pages,
}
use omarchy_whatsapp.Voice.Ogg.Stream.{read_pages-next}
use omarchy_whatsapp.Voice.Ogg.Encode.{Framing, IsPage, page_bytes, read_page-page_bytes}

abbrev pub stream_bytes : List (Framing × Page) → List ℕ
stream_bytes [] = []
stream_bytes ((f, p) ∷ ps) = page_bytes f p ++ stream_bytes ps

abbrev pub AreWritten : List (Framing × Page) → Type 0
AreWritten [] = Unit
AreWritten ((f, p) ∷ ps) = IsPage f p × AreWritten ps

-- The first page opens an Opus stream with a pre-skip.
pub record Opens (k : ℕ) (p : Page) : Type 0 where
  pub long : leb 19 (length p.body) ≡ true
  pub magic : starts_with opus_head p.body ≡ true
  pub version : eqb (byte_at 8 p.body) 1 ≡ true
  pub channels : eqb (byte_at 9 p.body) 0 ≡ false
  pub skips : le_value (take 2 (drop 10 p.body)) ≡ k

-- The later pages are of the same stream, and numbered one after another.
abbrev pub Continues : ℕ → ℕ → List (Framing × Page) → Type 0
Continues serial sequence [] = Unit
Continues serial sequence ((f, p) ∷ ps) =
    (p.serial ≡ serial) × (p.sequence ≡ suc sequence) × Continues serial (suc sequence) ps

-- The granule position of the last page that has one.
abbrev pub last_position : Option ℕ → List (Framing × Page) → Option ℕ
last_position last [] = last
last_position last ((f, p) ∷ ps) =
    last_position (if eqb p.granule (2 ^ 64 - 1) then last else some p.granule) ps

-- The state between two pages of a stream.
abbrev within : ℕ → ℕ → Option ℕ → ℕ → OggState
within serial k last sequence = record {
  stream_serial = some serial;
  pre_skip = some k;
  last_granule = last;
  sequence = some sequence;
}

next_page-page_bytes :
    (f : Framing) (p : Page) (rest : List ℕ) (s t : OggState)
    → IsPage f p
    → accept p s ≡ ok t
    → next_page (page_bytes f p ++ rest) s ≡ ok (t, rest)
unfolding next_page
next_page-page_bytes f p rest s t is accepted = rw (read_page-page_bytes f p rest is, accepted)

read_pages-page_bytes :
    (fuel : ℕ) (f : Framing) (p : Page) (rest : List ℕ) (s t : OggState)
    → IsPage f p
    → accept p s ≡ ok t
    → read_pages (suc fuel) (page_bytes f p ++ rest) s ≡ read_pages fuel rest t
read_pages-page_bytes fuel f p rest s t is accepted =
    read_pages-next fuel _ _ rest s t (next_page-page_bytes f p rest s t is accepted)

accept-opening :
    (k : ℕ) (p : Page)
    → Opens k p
    → accept p before_first
      ≡ ok (
          within p.serial k
            (if eqb p.granule (2 ^ 64 - 1) then none else some p.granule)
            p.sequence)
unfolding accept
accept-opening k p o = ground arith

accept-continuing :
    (serial k sequence : ℕ) (last : Option ℕ) (p : Page)
    → p.serial ≡ serial
    → p.sequence ≡ suc sequence
    → p.sequence < 2 ^ 32
    → accept p (within serial k last sequence)
      ≡ ok (
          within serial k
            (if eqb p.granule (2 ^ 64 - 1) then last else some p.granule)
            (suc sequence))
unfolding accept
accept-continuing serial k sequence last p same next fits = ground arith

read_pages-stream :
    (fuel serial k sequence : ℕ) (last : Option ℕ) (ps : List (Framing × Page))
    → AreWritten ps
    → Continues serial sequence ps
    → length ps < fuel
    → (n : ℕ) × (read_pages fuel (stream_bytes ps) (within serial k last sequence)
        ≡ some (ok (within serial k (last_position last ps) n)))
unfolding read_pages
read_pages-stream zero serial k sequence last ps w c h = absurd (omega arith)
read_pages-stream (suc fuel) serial k sequence last [] w c h = (sequence, refl)
read_pages-stream (suc fuel) serial k sequence last ((f, p) ∷ ps) w c h =
    let (n, found) =
      read_pages-stream fuel serial k (suc sequence)
        (if eqb p.granule (2 ^ 64 - 1) then last else some p.granule) ps w.1 (c.2) (omega arith) in
    (
      n,
      read_pages-page_bytes fuel f p (stream_bytes ps) (within serial k last sequence) _ w.0
            (accept-continuing serial k sequence last p c.0 c.1 (w.0.sequence_fits))
          ∙ found,
    )

duration_of-within :
    (serial k last n : ℕ)
    → k ≤ last
    → min_duration_ms ≤ ((last - k) * 1000 + 47999) / 48000
    → ((last - k) * 1000 + 47999) / 48000 ≤ max_duration_ms
    → duration_of (within serial k (some last) n) ≡ ok (((last - k) * 1000 + 47999) / 48000)
unfolding duration_of
duration_of-within serial k last n skip low high = ground arith

length-le-stream_bytes : (ps : List (Framing × Page)) → length ps ≤ length (stream_bytes ps)
length-le-stream_bytes [] = omega arith
length-le-stream_bytes ((f, p) ∷ ps) =
    omega (arith, length-append {0} (page_bytes f p) (stream_bytes ps), length-le-stream_bytes ps)

-- For a recording whose first page opens an Opus stream with a pre-skip, whose later pages are of the same
-- stream and numbered one after another, with any flags, checksums and segments, the duration is the
-- last granule position less the pre-skip, at 48 samples a millisecond and rounded up, where that lies
-- between 250 milliseconds and 15 minutes.
pub ogg_opus_duration_ms-stream_bytes :
    (k last : ℕ) (f : Framing) (p : Page) (ps : List (Framing × Page))
    → AreWritten ((f, p) ∷ ps)
    → Opens k p
    → Continues p.serial p.sequence ps
    → last_position none ((f, p) ∷ ps) ≡ some last
    → k ≤ last
    → min_duration_ms ≤ ((last - k) * 1000 + 47999) / 48000
    → ((last - k) * 1000 + 47999) / 48000 ≤ max_duration_ms
    → ogg_opus_duration_ms (stream_bytes ((f, p) ∷ ps))
      ≡ some (ok (((last - k) * 1000 + 47999) / 48000))
unfolding ogg_opus_duration_ms
ogg_opus_duration_ms-stream_bytes k last f p ps w o c known skip low high =
    let bytes = stream_bytes ((f, p) ∷ ps) in
    let first = if eqb p.granule (2 ^ 64 - 1) then none else some p.granule in
    let (n, found) =
      read_pages-stream (length bytes) p.serial k p.sequence first ps w.1 c
        (omega (arith, length-le-stream_bytes ((f, p) ∷ ps))) in
    let started =
      read_pages-page_bytes (length bytes) f p (stream_bytes ps) before_first
        (within p.serial k first p.sequence) w.0 (accept-opening k p o) in
    ap after_pages (started ∙ found)
    ∙ (rw known (ap some (duration_of-within p.serial k last n skip low high)))
