-- ===== src/Prelude/Json.antt =====
-- serde_json, which is not part of the program, as a parameter: for one type its printer, its parser
-- (`none` is a parse error), and equality of the printed texts.
use Prim.Native.String.{String}
use mathlib.Core.Path.{◌≡◌, refl}
use mathlib.Core.List.{List, [], ◌∷◌}
use native.Mathlib.Omega.{arith}
use text.Mathlib.Text.{◌==◌}
use text.Mathlib.TextEquality.{eq_iff}
use mathlib.Core.Logic.{◌↔◌}
use mathlib.Core.Bool.{Bool, true, false, ◌&&◌}
use mathlib.Core.Option.{Option, some}

pub record Json (M S : Type 0) : Type 0 where
  pub to_string : M → S
  pub from_str : S → Option M
  pub same : S → S → Bool

-- What the program relies on: a printed value parses back, and `same` is equality.
pub record JsonLaws {M S : Type 0} (j : Json M S) : Type 0 where
  pub round_trip : (m : M) → j.from_str (j.to_string m) ≡ some m
  pub same_iff : (s t : S) → (j.same s t ≡ true) ↔ (s ≡ t)

-- Lists of texts that stand for themselves: a codec for which the laws hold.
abbrev pub same_list : List String → List String → Bool
same_list [] [] = true
same_list [] (y ∷ ys) = false
same_list (x ∷ xs) [] = false
same_list (x ∷ xs) (y ∷ ys) = x == y && same_list xs ys

pub same_list_iff : (xs ys : List String) → (same_list xs ys ≡ true) ↔ (xs ≡ ys)
same_list_iff [] [] = (λ h. refl, λ h. refl)
same_list_iff [] (y ∷ ys) = (λ h. cc, λ h. cc)
same_list_iff (x ∷ xs) [] = (λ h. cc, λ h. cc)
same_list_iff (x ∷ xs) (y ∷ ys) = (
  λ h. ground (arith, eq_iff x y, same_list_iff xs ys),
  λ h. ground (arith, eq_iff x y, same_list_iff xs ys),
)

abbrev pub plain_list : Json (List String) (List String)
plain_list = record { to_string = λ xs. xs; from_str = λ xs. some xs; same = same_list }

pub plain_list-JsonLaws : JsonLaws plain_list
plain_list-JsonLaws = record { round_trip = λ xs. refl; same_iff = same_list_iff }
