-- ===== src/Voice/Ogg/Encode.antt =====
-- A writer of pages beside read_page (ogg_opus_duration_ms in crates/daemon/src/voice_outbox.rs).
use mathlib.Core.List.{append_assoc}
use omarchy_whatsapp.Prelude.{
  List, [], ap, arith, eqb, length, ◌&&◌, leb, length-append, true, ℕ, ◌++◌, ◌<◌, ◌^◌, ◌∷◌, ◌≡◌,
  ◌∙◌, refl, some,
}
use omarchy_whatsapp.Prelude.Bytes.{
  byte_at, drop-append, le_bytes, le_value-le_bytes, split_at, starts_with, sum, take-append,
}
use omarchy_whatsapp.Prelude.Result.{ok}
use omarchy_whatsapp.Voice.Ogg.{Page, oggs, page_of, read_page}

-- What a writer adds to a page: the flags, the checksum, and the table of the segments of the body.
pub record Framing : Type 0 where
  pub flags : ℕ
  pub checksum : ℕ
  pub table : List ℕ

abbrev pub header_bytes : Framing → Page → List ℕ
header_bytes f p =
    oggs
    ++ (0
        ∷ f.flags
        ∷ (le_bytes 8 p.granule
            ++ (le_bytes 4 p.serial
                ++ (le_bytes 4 p.sequence ++ (le_bytes 4 f.checksum ++ length f.table ∷ [])))))

abbrev pub page_bytes : Framing → Page → List ℕ
page_bytes f p = header_bytes f p ++ (f.table ++ p.body)

pub record IsPage (f : Framing) (p : Page) : Type 0 where
  pub granule_fits : p.granule < 2 ^ 64
  pub serial_fits : p.serial < 2 ^ 32
  pub sequence_fits : p.sequence < 2 ^ 32
  pub body_covered : sum f.table ≡ length p.body

long {ℓ} : {A : Type ℓ} (xs ys : List A) → leb (length xs) (length (xs ++ ys)) ≡ true
long xs ys = ground (arith, length-append xs ys)

split_at-append {ℓ} :
    {A : Type ℓ} (xs ys : List A) → split_at (length xs) (xs ++ ys) ≡ some (xs, ys)
split_at-append xs ys = rw (long xs ys, take-append xs ys, drop-append xs ys)

page_of-header : (f : Framing) (p : Page) → IsPage f p → page_of (header_bytes f p) p.body ≡ p
unfolding page_of le_bytes
page_of-header f p is = ground (
  arith,
  le_value-le_bytes 8 p.granule,
  le_value-le_bytes 4 p.serial,
  le_value-le_bytes 4 p.sequence,
)

read_page-parts :
    (bytes header table body rest : List ℕ)
    → split_at 27 bytes ≡ some (header, table ++ (body ++ rest))
    → (starts_with oggs header && eqb (byte_at 4 header) 0) ≡ true
    → byte_at 26 header ≡ length table
    → sum table ≡ length body
    → read_page bytes ≡ ok (page_of header body, rest)
unfolding read_page
read_page-parts bytes header table body rest front magic count covered =
    rw (
      front,
      magic,
      count,
      split_at-append table (body ++ rest),
      covered,
      split_at-append body rest,
    )

split_at-page :
    (f : Framing) (p : Page) (rest : List ℕ)
    → split_at 27 (page_bytes f p ++ rest) ≡ some (header_bytes f p, f.table ++ (p.body ++ rest))
unfolding le_bytes
split_at-page f p rest = ground (arith, append_assoc f.table p.body rest)

header_magic :
    (f : Framing) (p : Page)
    → (starts_with oggs (header_bytes f p) && eqb (byte_at 4 (header_bytes f p)) 0) ≡ true
header_magic f p = refl

header_count : (f : Framing) (p : Page) → byte_at 26 (header_bytes f p) ≡ length f.table
unfolding le_bytes
header_count f p = refl

-- What is read off a page that was written, with any flags, checksum and segment table that covers the
-- body, is the page, and what follows it is left.
pub read_page-page_bytes :
    (f : Framing) (p : Page) (rest : List ℕ)
    → IsPage f p
    → read_page (page_bytes f p ++ rest) ≡ ok (p, rest)
read_page-page_bytes f p rest is =
    read_page-parts (page_bytes f p ++ rest) (header_bytes f p) f.table p.body rest
      (split_at-page f p rest) (header_magic f p) (header_count f p) is.body_covered
    ∙ ap (λ q. ok (q, rest)) (page_of-header f p is)
