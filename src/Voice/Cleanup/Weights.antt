-- ===== src/Voice/Cleanup/Weights.antt =====
-- Sums over the IDs of two lists, for the files and the jobs of a cleanup.
use omarchy_whatsapp.Prelude.{
  Bool, Bool-cases, List, String, [], ap, arith, eq_iff, eq_refl, if◌then◌else◌, inl, inr, length,
  refl, true, ℕ, ◌+◌, ◌==◌, ◌∷◌, ◌≡◌, ◌≤◌,
}
use omarchy_whatsapp.Prelude.Table.{count_where, exists_where}

-- The sum of a weight over the IDs of a list.
abbrev pub weigh : {A : Type 0} → (A → String) → (String → ℕ) → List A → ℕ
weigh f w [] = 0
weigh f w (x ∷ xs) = w (f x) + weigh f w xs

pub exists-count :
    {B : Type 0} (p : B → Bool) (ys : List B) → 1 ≤ count_where p ys → exists_where p ys ≡ true
exists-count p [] h = absurd (omega arith)
exists-count p (y ∷ ys) h = ground (arith, exists-count p ys)

module _ {A B : Type 0} (f : A → String) (g : B → String) where
  -- The list without its first entry of an ID.
  abbrev without_first : String → List B → List B
  without_first k [] = []
  without_first k (y ∷ ys) = let rest = without_first k ys in if g y == k then ys else y ∷ rest

  count-without_first :
      (k id : String) (ys : List B)
      → exists_where (λ y. g y == k) ys ≡ true
      → count_where (λ y. g y == id) ys
        ≡ (if k == id then 1 else 0) + count_where (λ y. g y == id) (without_first k ys)
  count-without_first k id [] h = cc
  count-without_first k id (y ∷ ys) h =
      ground (arith, count-without_first k id ys, eq_iff (g y) k, eq_iff (g y) id, eq_iff k id)

  weigh-without_first :
      (w : String → ℕ) (k : String) (ys : List B)
      → exists_where (λ y. g y == k) ys ≡ true
      → weigh g w ys ≡ w k + weigh g w (without_first k ys)
  weigh-without_first w k [] h = cc
  weigh-without_first w k (y ∷ ys) h = elim (Bool-cases (g y == k)) [
    | inl here ↦ rw here (ap (λ i. w i + weigh g w ys) ((eq_iff (g y) k).0 here))
    | inr other ↦ rw other (omega (arith, weigh-without_first w k ys (ground arith)))
  ]

  -- Where no ID is more often in one list than in another, the one weighs no more.
  pub weigh-le :
      (w : String → ℕ) (xs : List A) (ys : List B)
      → ((id : String) → count_where (λ x. f x == id) xs ≤ count_where (λ y. g y == id) ys)
      → weigh f w xs ≤ weigh g w ys
  weigh-le w [] ys h = omega arith
  weigh-le w (x ∷ xs) ys h =
      let there = exists-count (λ y. g y == f x) ys (ground (arith, h (f x), eq_refl (f x))) in
      omega (
        arith,
        weigh-without_first w (f x) ys there,
        weigh-le w xs (without_first (f x) ys)
            λ id. ground (arith, h id, count-without_first (f x) id ys there),
      )

pub length-weigh : {A : Type 0} (f : A → String) (xs : List A) → length xs ≡ weigh f (λ k. 1) xs
length-weigh f [] = refl
length-weigh f (x ∷ xs) = omega (arith, length-weigh f xs)
