-- ===== src/Paste/Image/Total.antt =====
-- The walk of jpeg_dimensions over any bytes (crates/daemon/src/paste.rs).
use mathlib.Core.Path.{subst}
use omarchy_whatsapp.Paste.Image.Jpeg.{walk-ends}
use omarchy_whatsapp.Prelude.{
  Bool-cases, inl, inr, ltb, List, [], arith, drop, eqb, leb, length, not, some, suc, zero, ◌&&◌,
  ◌⊎◌, ◌<◌, ◌^◌, ◌∷◌, ◌≡◌, ◌∙◌, ℕ, refl,
}
use omarchy_whatsapp.Prelude.Bytes.{IsByte, be_value, length-drop, length-drop-le, starts_with}
use omarchy_whatsapp.Prelude.Result.{Result, err, ok}
use omarchy_whatsapp.Prelude.Table.{All}
use omarchy_whatsapp.Paste.Image.{
  ImageError, Scan, ends, frame_header, go_on, is_frame, not_jpeg, jpeg_dimensions, scan,
  skip_segment, stands_alone, take, walk,
}

scan-shorter : (bytes rest : List ℕ) → scan bytes ≡ go_on rest → length rest < length bytes
unfolding scan skip_segment frame_header
scan-shorter [] rest e = cc
scan-shorter (b ∷ []) rest e = cc
scan-shorter (b ∷ marker ∷ bytes) rest e =
    ground (arith, length-drop-le (be_value (take 2 bytes)) bytes)

-- What a result of the walk satisfies: dimensions are positive and fit 16 bits.
abbrev pub IsDimensions : Result ImageError (ℕ × ℕ) → Type 0
IsDimensions (ok (width, height)) =
    (0 < width) × (width < 2 ^ 16) × (0 < height) × (height < 2 ^ 16)
IsDimensions (err e) = Unit

frame_header-IsDimensions : (rest : List ℕ) → All IsByte rest → IsDimensions (frame_header rest)
unfolding frame_header
frame_header-IsDimensions (a ∷ b ∷ c ∷ h1 ∷ h0 ∷ w1 ∷ w0 ∷ rest) all = ground arith
frame_header-IsDimensions rest all = tt

All-drop : (n : ℕ) (bytes : List ℕ) → All IsByte bytes → All IsByte (drop n bytes)
All-drop zero bytes all = all
All-drop (suc n) [] all = tt
All-drop (suc n) (b ∷ bytes) all = All-drop n bytes all.1

-- One round keeps the bytes bytes, and ends with such a result if it ends.
abbrev pub IsScan : Scan → Type 0
IsScan (go_on rest) = All IsByte rest
IsScan (ends result) = IsDimensions result

skip_segment-IsScan : (rest : List ℕ) → All IsByte rest → IsScan (skip_segment rest)
unfolding skip_segment
skip_segment-IsScan rest all = elim (Bool-cases (ltb 1 (length rest))) [
  | inl long ↦ elim (Bool-cases (leb 2 (be_value (take 2 rest)))) [
    | inl counted ↦ rw (long, counted) (All-drop (be_value (take 2 rest)) rest all)
    | inr corrupt ↦ rw (long, corrupt) tt
  ]
  | inr short ↦ rw short tt
]

scan-IsScan : (bytes : List ℕ) → All IsByte bytes → IsScan (scan bytes)
unfolding scan
scan-IsScan [] all = tt
scan-IsScan (b ∷ []) all = tt
scan-IsScan (b ∷ marker ∷ rest) all = elim (Bool-cases (not (eqb b 0xff))) [
  | inl other ↦ rw other (all.1)
  | inr prefix ↦ elim (Bool-cases (stands_alone marker)) [
    | inl alone_ ↦ rw (prefix, alone_) (all.1.1)
    | inr with_segment ↦ elim (Bool-cases (is_frame marker)) [
      | inl frame ↦ rw (prefix, with_segment, frame) (frame_header-IsDimensions rest (all.1.1))
      | inr no_frame ↦ elim (Bool-cases (eqb marker 0xff)) [
        | inl fill ↦ rw (prefix, with_segment, no_frame, fill) (all.1)
        | inr segment_ ↦
            rw (prefix, with_segment, no_frame, segment_) (skip_segment-IsScan rest (all.1.1))
      ]
    ]
  ]
]

Scan-cases :
    (s : Scan)
    → ((rest : List ℕ) × (s ≡ go_on rest)) ⊎ ((r : Result ImageError (ℕ × ℕ)) × (s ≡ ends r))
Scan-cases (go_on rest) = inl (rest, refl)
Scan-cases (ends r) = inr (r, refl)

walk-go_on :
    (fuel : ℕ) (bytes rest : List ℕ)
    → scan bytes ≡ go_on rest
    → walk (suc fuel) bytes ≡ walk fuel rest
unfolding walk
walk-go_on fuel bytes rest e = ground arith

walk_total :
    (fuel : ℕ) (bytes : List ℕ)
    → All IsByte bytes
    → length bytes < fuel
    → (r : Result ImageError (ℕ × ℕ)) × (walk fuel bytes ≡ some r) × IsDimensions r
walk_total zero bytes all f = absurd (omega arith)
walk_total (suc fuel) bytes all f = elim (Scan-cases (scan bytes)) [
  | inl (rest, e) ↦
      let (r, found, is) =
        walk_total fuel rest (subst IsScan e (scan-IsScan bytes all))
          (omega (arith, scan-shorter bytes rest e)) in
      (r, walk-go_on fuel bytes rest e ∙ found, is)
  | inr (r, e) ↦ (r, walk-ends fuel bytes r e, subst IsScan e (scan-IsScan bytes all))
]

-- On any bytes the walk ends within as many rounds as there are bytes: jpeg_dimensions returns an error
-- or dimensions, and those are positive numbers of 16 bits.
pub jpeg_dimensions_total :
    (bytes : List ℕ)
    → All IsByte bytes
    → (r : Result ImageError (ℕ × ℕ)) × (jpeg_dimensions bytes ≡ some r) × IsDimensions r
unfolding jpeg_dimensions
jpeg_dimensions_total bytes all =
    elim (Bool-cases (ltb 2 (length bytes) && starts_with (0xff ∷ 0xd8 ∷ []) bytes)) [
      | inl jpeg ↦
          let (r, found, is) =
            walk_total (length bytes) (drop 2 bytes) (All-drop 2 bytes all)
              (ground (arith, length-drop 2 bytes)) in
          (r, rw jpeg found, is)
      | inr other ↦ (err not_jpeg, rw other, tt)
    ]
