-- ===== src/Paste/Image/Jpeg.antt =====
-- The walk of jpeg_dimensions over segments that were written (crates/daemon/src/paste.rs).
use omarchy_whatsapp.Prelude.{
  List, [], arith, eqb, false, length, some, suc, true, ◌++◌, ◌<◌, ◌^◌, ◌+◌, ◌∷◌, ◌≡◌, ℕ,
}
use omarchy_whatsapp.Prelude.Bytes.{be_bytes_2}
use omarchy_whatsapp.Prelude.Result.{Result}
use omarchy_whatsapp.Paste.Image.{ImageError, ends, is_frame, scan, stands_alone, walk}

-- What comes before the frame header: segments, markers that stand alone, and padding.
pub data Part : Type 0 where
  segment : ℕ → List ℕ → Part
  alone padding : ℕ → Part

abbrev pub part_bytes : Part → List ℕ
part_bytes (segment marker payload) = 0xff ∷ marker ∷ (be_bytes_2 (2 + length payload) ++ payload)
part_bytes (alone marker) = 0xff ∷ marker ∷ []
part_bytes (padding b) = b ∷ []

abbrev pub IsPart : Part → Type 0
IsPart (segment marker payload) =
    (stands_alone marker ≡ false)
    × (is_frame marker ≡ false)
    × (eqb marker 0xff ≡ false)
    × (2 + length payload < 2 ^ 16)
IsPart (alone marker) = stands_alone marker ≡ true
IsPart (padding b) = eqb b 0xff ≡ false

abbrev pub parts_bytes : List Part → List ℕ → List ℕ
parts_bytes [] rest = rest
parts_bytes (p ∷ ps) rest = part_bytes p ++ parts_bytes ps rest

abbrev pub frame_bytes : ℕ → ℕ → ℕ → ℕ → ℕ → List ℕ → List ℕ
frame_bytes marker size precision width height rest =
    0xff
    ∷ marker
    ∷ (be_bytes_2 size ++ (precision ∷ (be_bytes_2 height ++ (be_bytes_2 width ++ rest))))

pub walk-ends :
    (fuel : ℕ) (bytes : List ℕ) (result : Result ImageError (ℕ × ℕ))
    → scan bytes ≡ ends result
    → walk (suc fuel) bytes ≡ some result
unfolding walk
walk-ends fuel bytes result e = ground arith
