-- ===== src/Prelude/Int.antt =====
-- Signed integers over the native numbers, for the source's i64 timestamps. Orders go through the
-- two parts of an integer, which are numbers that `omega` reads.
use Prim.Native.Nat.{ℕ, suc, ◌+◌, ◌-◌, ◌^◌, ◌≤◌, ◌<◌}
use mathlib.Core.Path.{◌≡◌}
use mathlib.Core.Logic.{◌↔◌}
use mathlib.Core.Bool.{Bool, true}
use mathlib.Core.Option.{Option, none, some}
use native.Mathlib.Omega.{arith}
use omarchy_whatsapp.Prelude.Tests.{eqb, if◌then◌else◌, leb, ltb}

-- `negsuc n` is -(n + 1).
pub data ℤ : Type 0 where
  pos : ℕ → ℤ
  negsuc : ℕ → ℤ

abbrev pub pos_part : ℤ → ℕ
pos_part (pos n) = n
pos_part (negsuc n) = 0

abbrev pub neg_part : ℤ → ℕ
neg_part (pos n) = 0
neg_part (negsuc n) = suc n

-- a - b, as an integer.
abbrev pub sub_ℕ : ℕ → ℕ → ℤ
sub_ℕ a b = if leb b a then pos (a - b) else negsuc (b - a - 1)

infix 50 ◌≤ℤ◌ ◌<ℤ◌
abbrev pub ◌≤ℤ◌ : ℤ → ℤ → Type 0
a ≤ℤ b = pos_part a + neg_part b ≤ pos_part b + neg_part a

abbrev pub ◌<ℤ◌ : ℤ → ℤ → Type 0
a <ℤ b = pos_part a + neg_part b < pos_part b + neg_part a

abbrev pub leb_ℤ : ℤ → ℤ → Bool
leb_ℤ a b = leb (pos_part a + neg_part b) (pos_part b + neg_part a)

abbrev pub ltb_ℤ : ℤ → ℤ → Bool
ltb_ℤ a b = ltb (pos_part a + neg_part b) (pos_part b + neg_part a)

abbrev pub eqb_ℤ : ℤ → ℤ → Bool
eqb_ℤ a b = eqb (pos_part a + neg_part b) (pos_part b + neg_part a)

abbrev pub max_ℤ : ℤ → ℤ → ℤ
max_ℤ a b = if leb_ℤ a b then b else a

abbrev pub min_ℤ : ℤ → ℤ → ℤ
min_ℤ a b = if leb_ℤ a b then a else b

-- i64::saturating_sub(a, b): the exact difference, held to the range of an i64.
abbrev pub i64_max : ℕ
i64_max = 2 ^ 63 - 1

abbrev pub saturate : ℤ → ℤ
saturate (pos n) = if ltb i64_max n then pos i64_max else pos n
saturate (negsuc n) = if ltb i64_max n then negsuc i64_max else negsuc n

unfoldable pub saturating_sub : ℤ → ℤ → ℤ
saturating_sub a b = saturate (sub_ℕ (pos_part a + neg_part b) (neg_part a + pos_part b))

-- Option's order in Rust has `None` first; `max` keeps the later of two.
abbrev pub max_opt : Option ℤ → Option ℤ → Option ℤ
max_opt none b = b
max_opt (some a) none = some a
max_opt (some a) (some b) = some (max_ℤ a b)

pub eq_of_parts : (a b : ℤ) → pos_part a + neg_part b ≡ pos_part b + neg_part a → a ≡ b
eq_of_parts a b h = ground arith

pub eqb_ℤ_iff : (a b : ℤ) → (eqb_ℤ a b ≡ true) ↔ (a ≡ b)
eqb_ℤ_iff a b = ground arith

pub max_ℤ_left : (a b : ℤ) → a ≤ℤ max_ℤ a b
max_ℤ_left a b = ground arith

pub max_ℤ_right : (a b : ℤ) → b ≤ℤ max_ℤ a b
max_ℤ_right a b = ground arith

-- Taking one off never passes the number itself, in the range of an i64.
pub saturating_sub-one-le : (a : ℤ) → neg_part a ≤ 2 ^ 63 → saturating_sub a (pos 1) ≤ℤ a
unfolding saturating_sub
saturating_sub-one-le a h = ground arith
