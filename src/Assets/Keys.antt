-- ===== src/Assets/Keys.antt =====
-- Keys in hexadecimal digits, compared (hex_key in crates/daemon/src/assets.rs).
use omarchy_whatsapp.Prelude.{List, [], arith, eqb, ℕ, ◌&&◌, ◌%◌, ◌++◌, ◌/◌, ◌<◌, ◌∷◌, ◌≡◌}
use omarchy_whatsapp.Prelude.Bytes.{IsByte, starts_with}
use omarchy_whatsapp.Prelude.Table.{All}
use omarchy_whatsapp.Assets.{hex_digit, hex_key, same_bytes}

eqb-hex_digit : (a b : ℕ) → a < 16 → b < 16 → eqb (hex_digit a) (hex_digit b) ≡ eqb a b
eqb-hex_digit a b ha hb = ground arith

eqb-halves : (a b : ℕ) → (eqb (a / 16) (b / 16) && eqb (a % 16) (b % 16)) ≡ eqb a b
eqb-halves a b = ground arith

pub same_bytes_key :
    (d : ℕ) (a b x y : List ℕ)
    → All IsByte a
    → All IsByte b
    → d < 48
    → same_bytes (hex_key a ++ d ∷ x) (hex_key b ++ d ∷ y) ≡ (same_bytes a b && same_bytes x y)
same_bytes_key d [] [] x y ha hb h = ground arith
same_bytes_key d [] (b ∷ t) x y ha hb h = ground arith
same_bytes_key d (a ∷ s) [] x y ha hb h = ground arith
same_bytes_key d (a ∷ s) (b ∷ t) x y ha hb h = ground (
  arith,
  eqb-hex_digit (a / 16) (b / 16) (omega arith) (omega arith),
  eqb-hex_digit (a % 16) (b % 16) (omega arith) (omega arith),
  eqb-halves a b,
  same_bytes_key d s t x y ha.1 hb.1 h,
)

pub starts_with_key :
    (d : ℕ) (a b x y : List ℕ)
    → All IsByte a
    → All IsByte b
    → d < 48
    → starts_with (hex_key a ++ d ∷ x) (hex_key b ++ d ∷ y) ≡ (same_bytes a b && starts_with x y)
starts_with_key d [] [] x y ha hb h = ground arith
starts_with_key d [] (b ∷ t) x y ha hb h = ground arith
starts_with_key d (a ∷ s) [] x y ha hb h = ground arith
starts_with_key d (a ∷ s) (b ∷ t) x y ha hb h = ground (
  arith,
  eqb-hex_digit (b / 16) (a / 16) (omega arith) (omega arith),
  eqb-hex_digit (b % 16) (a % 16) (omega arith) (omega arith),
  eqb-halves b a,
  starts_with_key d s t x y ha.1 hb.1 h,
)
