-- ===== src/Prelude/Table/Lookup.antt =====
-- What a lookup, or a test for a row, sees of the statements. A key is unique when no more than one
-- row has it.
use Prim.Native.Nat.{◌≤◌}
use mathlib.Core.Path.{◌≡◌, refl}
use mathlib.Core.Logic.{inl, inr}
use mathlib.Core.Bool.{Bool, true, false, ◌&&◌, ◌||◌}
use mathlib.Core.List.{List, [], ◌∷◌, ◌++◌}
use mathlib.Core.Option.{none, some}
use native.Mathlib.Omega.{arith}
use omarchy_whatsapp.Prelude.Tests.{Bool-cases, if◌then◌else◌, is_some}
use omarchy_whatsapp.Prelude.Table.{
  count_where, delete_where, exists_where, find_where, keep_unless, map_if, select_where,
  update_where, upsert,
}

module _ {ℓ} {A : Type ℓ} where
  pub exists-find : (q : A → Bool) (rs : List A) → exists_where q rs ≡ is_some (find_where q rs)
  exists-find q [] = refl
  exists-find q (r ∷ rs) = ground (arith, exists-find q rs)

  pub find_of_count : (q : A → Bool) (rs : List A) → count_where q rs ≡ 0 → find_where q rs ≡ none
  find_of_count q [] h = refl
  find_of_count q (r ∷ rs) h = ground (arith, find_of_count q rs)

  pub find-update :
      (q p : A → Bool) (f : A → A) (rs : List A)
      → ((r : A) → q (f r) ≡ q r)
      → find_where q (update_where p f rs) ≡ map_if p f (find_where q rs)
  find-update q p f [] keeps = refl
  find-update q p f (r ∷ rs) keeps = ground (arith, keeps r, find-update q p f rs keeps)

  pub find-delete :
      (q p : A → Bool) (rs : List A)
      → count_where q rs ≤ 1
      → find_where q (delete_where p rs) ≡ keep_unless p (find_where q rs)
  find-delete q p [] h = refl
  find-delete q p (r ∷ rs) h = ground (arith, find-delete q p rs, find_of_count q rs)

  pub find-append :
      (q : A → Bool) (rs : List A) (new : A)
      → find_where q (rs ++ new ∷ [])
        ≡ (if exists_where q rs then find_where q rs else if q new then some new else none)
  find-append q [] new = refl
  find-append q (r ∷ rs) new = ground (arith, find-append q rs new)

  pub exists-append :
      (q : A → Bool) (rs : List A) (new : A)
      → exists_where q (rs ++ new ∷ []) ≡ (exists_where q rs || q new)
  exists-append q [] new = ground arith
  exists-append q (r ∷ rs) new = ground (arith, exists-append q rs new)

  pub find_some : (q : A → Bool) (rs : List A) (r : A) → find_where q rs ≡ some r → q r ≡ true
  find_some q [] r h = cc
  find_some q (x ∷ rs) r h = ground (arith, find_some q rs r)

  pub find-upsert :
      (q p : A → Bool) (new : A) (f : A → A) (rs : List A)
      → ((r : A) → q (f r) ≡ q r)
      → find_where q (upsert p new f rs) ≡ (
          if exists_where p rs
          then map_if p f (find_where q rs)
          else if is_some (find_where q rs)
          then find_where q rs
          else if q new
          then some new
          else none)
  find-upsert q p new f rs keeps = elim (Bool-cases (exists_where p rs)) [
    | inl there ↦ rw there (find-update q p f rs keeps)
    | inr fresh ↦ rw (fresh, find-append q rs new, exists-find q rs)
  ]

  pub exists-select :
      (q p : A → Bool) (rs : List A)
      → exists_where q (select_where p rs) ≡ exists_where (λ r. q r && p r) rs
  exists-select q p [] = refl
  exists-select q p (r ∷ rs) = ground (arith, exists-select q p rs)

  exists_of_both :
      (q p : A → Bool) (rs : List A)
      → exists_where (λ x. q x && p x) rs ≡ true
      → exists_where q rs ≡ true
  exists_of_both q p [] h = h
  exists_of_both q p (x ∷ rs) h = ground (arith, exists_of_both q p rs)

  -- Where the key is unique, the row that the lookup finds is the one that satisfies `p`.
  pub found-satisfies :
      (q p : A → Bool) (rs : List A) (r : A)
      → count_where q rs ≤ 1
      → exists_where (λ x. q x && p x) rs ≡ true
      → find_where q rs ≡ some r
      → p r ≡ true
  found-satisfies q p [] r u e f = cc
  found-satisfies q p (x ∷ rs) r u e f =
      ground (
        arith,
        found-satisfies q p rs r,
        exists_of_both q p rs,
        find_of_count q rs,
        exists-find q rs,
      )

  pub find-delete_other :
      (q p : A → Bool) (rs : List A)
      → ((r : A) → q r ≡ true → p r ≡ false)
      → find_where q (delete_where p rs) ≡ find_where q rs
  find-delete_other q p [] apart = refl
  find-delete_other q p (r ∷ rs) apart = ground (arith, apart r, find-delete_other q p rs apart)

  pub find-delete_all : (q : A → Bool) (rs : List A) → find_where q (delete_where q rs) ≡ none
  find-delete_all q [] = refl
  find-delete_all q (r ∷ rs) = ground (arith, find-delete_all q rs)

  pub exists-delete_other :
      (q p : A → Bool) (rs : List A)
      → ((r : A) → q r ≡ true → p r ≡ false)
      → exists_where q (delete_where p rs) ≡ exists_where q rs
  exists-delete_other q p [] apart = refl
  exists-delete_other q p (r ∷ rs) apart = ground (arith, apart r, exists-delete_other q p rs apart)

  pub exists-implies :
      (q p : A → Bool) (rs : List A)
      → ((r : A) → q r ≡ true → p r ≡ true)
      → exists_where q rs ≡ true
      → exists_where p rs ≡ true
  exists-implies q p [] imp h = h
  exists-implies q p (r ∷ rs) imp h = ground (arith, imp r, exists-implies q p rs imp)

  pub exists-update :
      (q p : A → Bool) (f : A → A) (rs : List A)
      → ((r : A) → q (f r) ≡ q r)
      → exists_where q (update_where p f rs) ≡ exists_where q rs
  exists-update q p f [] keeps = refl
  exists-update q p f (r ∷ rs) keeps = ground (arith, keeps r, exists-update q p f rs keeps)
