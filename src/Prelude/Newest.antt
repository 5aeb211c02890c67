-- ===== src/Prelude/Newest.antt =====
-- `ORDER BY … DESC LIMIT n` and the rows beyond it: the newest rows of a table that satisfy a
-- condition, and the deletion of all others that do.
use native.Mathlib.Nat.{zero-add}
use Prim.Native.Nat.{ℕ, zero, suc, ◌+◌, ◌≤◌}
use mathlib.Core.Path.{◌≡◌, refl, sym, ◌∙◌}
use mathlib.Core.Bool.{Bool, true, false, not, ◌&&◌, ◌||◌}
use mathlib.Core.List.{List, [], ◌∷◌}
use native.Mathlib.Omega.{arith}
use omarchy_whatsapp.Prelude.Tests.{drop, if◌then◌else◌, length}
use omarchy_whatsapp.Prelude.Int.{ltb_ℤ, ℤ}
use omarchy_whatsapp.Prelude.Table.{count_where, delete_where, exists_where, select_where}
use omarchy_whatsapp.Prelude.Table.Lookup.{exists-select}

-- `time` is the column of the order, and `same` tells whether two rows have one primary key.
module _ {ℓ} {A : Type ℓ} (time : A → ℤ) (same : A → A → Bool) where
  -- A stable insertion: among equal times the row of the lower rowid comes first.
  insert_newest : A → List A → List A
  insert_newest r [] = r ∷ []
  insert_newest r (x ∷ xs) =
      let rest = insert_newest r xs in if ltb_ℤ (time r) (time x) then x ∷ rest else r ∷ x ∷ xs

  unfoldable pub newest_first : List A → List A
  unfolding insert_newest
  newest_first [] = []
  newest_first (r ∷ rs) = insert_newest r (newest_first rs)

  -- The rows of the condition that the limit leaves out.
  unfoldable pub beyond : ℕ → (A → Bool) → List A → List A
  unfolding newest_first
  beyond n p rows = drop n (newest_first (select_where p rows))

  -- DELETE … WHERE p AND rowid NOT IN (SELECT rowid … WHERE p ORDER BY time DESC LIMIT n)
  unfoldable pub keep_newest : ℕ → (A → Bool) → List A → List A
  unfolding beyond
  keep_newest n p rows =
      let old = beyond n p rows in delete_where (λ r. p r && exists_where (same r) old) rows

  count-insert_newest :
      (q : A → Bool) (r : A) (rows : List A)
      → count_where q (insert_newest r rows) ≡ (if q r then 1 else 0) + count_where q rows
  unfolding insert_newest
  count-insert_newest q r [] = refl
  count-insert_newest q r (x ∷ xs) = ground (arith, count-insert_newest q r xs)

  count-newest_first :
      (q : A → Bool) (rows : List A) → count_where q (newest_first rows) ≡ count_where q rows
  unfolding newest_first
  count-newest_first q [] = refl
  count-newest_first q (r ∷ rs) =
      ground (arith, count-insert_newest q r (newest_first rs), count-newest_first q rs)

  count-drop :
      (q : A → Bool) (n : ℕ) (rows : List A) → count_where q rows ≤ n + count_where q (drop n rows)
  count-drop q zero rows = omega arith
  count-drop q (suc n) [] = omega arith
  count-drop q (suc n) (r ∷ rs) = ground (arith, count-drop q n rs)

  exists-drop :
      (q : A → Bool) (n : ℕ) (rows : List A)
      → exists_where q (drop n rows) ≡ true
      → exists_where q rows ≡ true
  exists-drop q zero rows h = h
  exists-drop q (suc n) [] h = h
  exists-drop q (suc n) (r ∷ rs) h = ground (arith, exists-drop q n rs)

  exists-insert_newest :
      (q : A → Bool) (r : A) (rows : List A)
      → exists_where q (insert_newest r rows) ≡ (q r || exists_where q rows)
  unfolding insert_newest
  exists-insert_newest q r [] = refl
  exists-insert_newest q r (x ∷ xs) = ground (arith, exists-insert_newest q r xs)

  exists-newest_first :
      (q : A → Bool) (rows : List A) → exists_where q (newest_first rows) ≡ exists_where q rows
  unfolding newest_first
  exists-newest_first q [] = refl
  exists-newest_first q (r ∷ rs) =
      ground (arith, exists-insert_newest q r (newest_first rs), exists-newest_first q rs)

  -- A row beyond the limit is one of the condition.
  pub exists-beyond :
      (q : A → Bool) (n : ℕ) (p : A → Bool) (rows : List A)
      → exists_where q (beyond n p rows) ≡ true
      → exists_where (λ r. q r && p r) rows ≡ true
  unfolding beyond
  exists-beyond q n p rows h =
      sym (exists-select q p rows)
      ∙ (sym (exists-newest_first q (select_where p rows)) ∙ exists-drop q n _ h)

  pub count-beyond :
      (q : A → Bool) (n : ℕ) (p : A → Bool) (rows : List A)
      → count_where q (select_where p rows) ≤ n + count_where q (beyond n p rows)
  unfolding beyond
  count-beyond q n p rows = omega (
    arith,
    count-newest_first q (select_where p rows),
    count-drop q n (newest_first (select_where p rows)),
  )

  count-outside :
      ((r : A) → same r r ≡ true)
      → (rows old : List A)
      → ((q : A → Bool) → exists_where q rows ≡ true → exists_where q old ≡ true)
      → count_where (λ r. not (exists_where (same r) old)) rows ≡ 0
  count-outside refl' [] old inside = refl
  count-outside refl' (r ∷ rs) old inside =
      rw (inside (same r) (ground (arith, refl' r)), zero-add)
        (count-outside refl' rs old (λ q e. inside q (ground arith)))

  count-delete_old :
      (p : A → Bool) (rows old : List A)
      → count_where p (delete_where (λ r. p r && exists_where (same r) old) rows)
        ≡ count_where (λ r. not (exists_where (same r) old)) (select_where p rows)
  count-delete_old p [] old = refl
  count-delete_old p (r ∷ rs) old = ground (arith, count-delete_old p rs old)

  -- No more than `n` rows of the condition are left.
  pub count-keep_newest :
      ((r : A) → same r r ≡ true)
      → (n : ℕ) (p : A → Bool) (rows : List A) → count_where p (keep_newest n p rows) ≤ n
  unfolding keep_newest
  count-keep_newest refl' n p rows = omega (
    arith,
    count-delete_old p rows old,
    count-beyond (λ r. not (exists_where (same r) old)) n p rows,
    count-outside refl' old old (λ q e. e),
  )
    where
      old : List A
      old = beyond n p rows

  length-insert_newest : (r : A) (rows : List A) → length (insert_newest r rows) ≡ suc (length rows)
  unfolding insert_newest
  length-insert_newest r [] = refl
  length-insert_newest r (x ∷ xs) = ground (arith, length-insert_newest r xs)

  length-newest_first : (rows : List A) → length (newest_first rows) ≡ length rows
  unfolding newest_first
  length-newest_first [] = refl
  length-newest_first (r ∷ rs) =
      ground (arith, length-insert_newest r (newest_first rs), length-newest_first rs)

  length-select : (p : A → Bool) (rows : List A) → length (select_where p rows) ≡ count_where p rows
  length-select p [] = refl
  length-select p (r ∷ rs) = ground (arith, length-select p rs)

  drop_all : (n : ℕ) (rows : List A) → length rows ≤ n → drop n rows ≡ []
  drop_all zero [] h = refl
  drop_all zero (r ∷ rs) h = absurd (omega arith)
  drop_all (suc n) [] h = refl
  drop_all (suc n) (r ∷ rs) h = drop_all n rs (omega arith)

  delete-nothing : (p : A → Bool) (rows : List A) → delete_where (λ r. p r && false) rows ≡ rows
  delete-nothing p [] = refl
  delete-nothing p (r ∷ rs) = ground (arith, delete-nothing p rs)

  -- Within the limit nothing is deleted.
  pub keep_newest_within :
      (n : ℕ) (p : A → Bool) (rows : List A) → count_where p rows ≤ n → keep_newest n p rows ≡ rows
  unfolding keep_newest
  keep_newest_within n p rows h =
      rw
        (drop_all n (newest_first (select_where p rows))
          (omega (arith, length-newest_first (select_where p rows), length-select p rows)))
        (delete-nothing p rows)
