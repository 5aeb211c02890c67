-- ===== src/Voice/Ogg.antt =====
-- The duration of an Ogg Opus recording (ogg_opus_duration_ms).
pub mod Encode
pub mod Stream
pub mod Recording
use omarchy_whatsapp.Prelude.{
  Bool, List, Option, [], drop, eqb, if◌then◌else◌, leb, length, ltb, none, not, some, suc, true,
  zero, ℕ, ◌&&◌, ◌*◌, ◌+◌, ◌-◌, ◌/◌, ◌^◌, ◌∷◌,
}
use omarchy_whatsapp.Prelude.Bytes.{byte_at, le_value, split_at, starts_with, sum, take}
use omarchy_whatsapp.Prelude.Result.{Result, context, ensure, err, ok, ◌>>=◌, ◌>>◌}

-- MIN_DURATION_MS and MAX_DURATION_MS
abbrev pub min_duration_ms : ℕ
min_duration_ms = 250

abbrev pub max_duration_ms : ℕ
max_duration_ms = 15 * 60 * 1000

pub data OggError : Type 0 where
  truncated_header unsupported_stream truncated_table truncated_page : OggError
  inconsistent_stream no_opus_header unsupported_opus_header : OggError
  no_duration no_pre_skip invalid_duration duration_overflow duration_out_of_range : OggError

abbrev pub oggs : List ℕ
oggs = 0x4f ∷ 0x67 ∷ 0x67 ∷ 0x53 ∷ []

abbrev pub opus_head : List ℕ
opus_head = 0x4f ∷ 0x70 ∷ 0x75 ∷ 0x73 ∷ 0x48 ∷ 0x65 ∷ 0x61 ∷ 0x64 ∷ []

-- What the loop reads off one page.
pub record Page : Type 0 where
  pub granule : ℕ
  pub serial : ℕ
  pub sequence : ℕ
  pub body : List ℕ

-- The variables of the loop, but for the offset.
pub record OggState : Type 0 where
  pub stream_serial : Option ℕ
  pub pre_skip : Option ℕ
  pub last_granule : Option ℕ
  pub sequence : Option ℕ

abbrev pub before_first : OggState
before_first = record {
  stream_serial = none;
  pre_skip = none;
  last_granule = none;
  sequence = none;
}

page_of : List ℕ → List ℕ → Page
page_of header body = record {
  granule = le_value (take 8 (drop 6 header));
  serial = le_value (take 4 (drop 14 header));
  sequence = le_value (take 4 (drop 18 header));
  body = body;
}

-- The list is what stands at the offset and behind it. A segment table has 255 bytes at most, so their
-- sum fits a usize.
unfoldable pub read_page : List ℕ → Result OggError (Page × List ℕ)
unfolding page_of
read_page bytes = do
  (header, after_header) ← context (split_at 27 bytes) truncated_header
  ensure (starts_with oggs header && eqb (byte_at 4 header) 0) unsupported_stream
  (table, after_table) ← context (split_at (byte_at 26 header) after_header) truncated_table
  (body, rest) ← context (split_at (sum table) after_table) truncated_page
  ok (page_of header body, rest)

-- value.checked_add(1) == Some(page_sequence)
abbrev pub follows : Option ℕ → ℕ → Bool
follows none page_sequence = true
follows (some value) page_sequence = ltb (value + 1) (2 ^ 32) && eqb (value + 1) page_sequence

check_stream : Page → Option ℕ → OggState → Result OggError OggState
check_stream page (some expected) s = do
  ensure (eqb page.serial expected && follows s.sequence page.sequence) inconsistent_stream
  ok s
check_stream page none s = do
  ensure (leb 19 (length page.body) && starts_with opus_head page.body) no_opus_header
  ensure (eqb (byte_at 8 page.body) 1 && not (eqb (byte_at 9 page.body) 0)) unsupported_opus_header
  ok (record s {
    stream_serial = some page.serial;
    pre_skip = some (le_value (take 2 (drop 10 page.body)));
  })

-- A granule of u64::MAX says that no packet ends on the page.
unfoldable pub accept : Page → OggState → Result OggError OggState
unfolding check_stream
accept page s = do
  checked ← check_stream page s.stream_serial s
  ok (record checked {
    sequence = some page.sequence;
    last_granule =
        if eqb page.granule (2 ^ 64 - 1) then checked.last_granule else some page.granule;
  })

-- One round of the loop.
unfoldable pub next_page : List ℕ → OggState → Result OggError (OggState × List ℕ)
unfolding read_page accept
next_page bytes s = do (page, rest) ← read_page bytes; accepted ← accept page s; ok (accepted, rest)

-- The loop on fuel; `none` means that the fuel ran out.
pub read_pages : ℕ → List ℕ → OggState → Option (Result OggError OggState)
unfolding next_page
read_pages zero bytes s = none
read_pages (suc fuel) [] s = some (ok s)
read_pages (suc fuel) (b ∷ bytes) s = elim (next_page (b ∷ bytes) s) [
  | ok (accepted, rest) ↦ read_pages fuel rest accepted
  | err e ↦ some (err e)
]

unfoldable pub duration_of : OggState → Result OggError ℕ
duration_of s = do
  granule ← context s.last_granule no_duration
  pre_skip ← context s.pre_skip no_pre_skip
  ensure (leb pre_skip granule) invalid_duration
  let samples = granule - pre_skip
  ensure (ltb (samples * 1000) (2 ^ 64)) duration_overflow
  let duration_ms = (samples * 1000 + 47999) / 48000
  ensure (leb min_duration_ms duration_ms && leb duration_ms max_duration_ms) duration_out_of_range
  ok duration_ms

after_pages : Option (Result OggError OggState) → Option (Result OggError ℕ)
unfolding duration_of
after_pages none = none
after_pages (some (err e)) = some (err e)
after_pages (some (ok s)) = some (duration_of s)

-- Each page takes 27 bytes at least.
unfoldable pub ogg_opus_duration_ms : List ℕ → Option (Result OggError ℕ)
unfolding read_pages after_pages
ogg_opus_duration_ms bytes = after_pages (read_pages (suc (length bytes)) bytes before_first)
