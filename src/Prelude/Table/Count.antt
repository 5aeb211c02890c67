-- ===== src/Prelude/Table/Count.antt =====
-- What a count sees of the statements.
use Prim.Native.Nat.{◌+◌, ◌≤◌}
use mathlib.Core.Path.{◌≡◌, refl}
use mathlib.Core.Bool.{Bool, true, false, not, ◌&&◌}
use mathlib.Core.List.{List, [], ◌∷◌, ◌++◌}
use native.Mathlib.Omega.{arith}
use omarchy_whatsapp.Prelude.Tests.{if◌then◌else◌}
use omarchy_whatsapp.Prelude.Table.{count_where, delete_where, exists_where, update_where}

module _ {ℓ} {A : Type ℓ} where
  pub count_of_not-exists :
      (q : A → Bool) (rs : List A) → exists_where q rs ≡ false → count_where q rs ≡ 0
  count_of_not-exists q [] h = refl
  count_of_not-exists q (r ∷ rs) h = ground (arith, count_of_not-exists q rs)

  pub count-append :
      (q : A → Bool) (rs : List A) (new : A)
      → count_where q (rs ++ new ∷ []) ≡ count_where q rs + (if q new then 1 else 0)
  count-append q [] new = ground arith
  count-append q (r ∷ rs) new = ground (arith, count-append q rs new)

  pub count-update :
      (q p : A → Bool) (f : A → A) (rs : List A)
      → ((r : A) → q (f r) ≡ q r)
      → count_where q (update_where p f rs) ≡ count_where q rs
  count-update q p f [] keeps = refl
  count-update q p f (r ∷ rs) keeps = ground (arith, keeps r, count-update q p f rs keeps)

  pub count-delete-le :
      (q p : A → Bool) (rs : List A) → count_where q (delete_where p rs) ≤ count_where q rs
  count-delete-le q p [] = omega arith
  count-delete-le q p (r ∷ rs) = ground (arith, count-delete-le q p rs)

  pub count-same :
      (p q : A → Bool) (rs : List A) → ((r : A) → p r ≡ q r) → count_where p rs ≡ count_where q rs
  count-same p q [] same = refl
  count-same p q (r ∷ rs) same = ground (arith, same r, count-same p q rs same)

  -- Rows that an update leaves out of the count.
  pub count-cleared :
      (q p : A → Bool) (f : A → A) (rs : List A)
      → ((r : A) → q (f r) ≡ false)
      → count_where q (update_where p f rs) ≡ count_where (λ r. q r && not (p r)) rs
  count-cleared q p f [] gone = refl
  count-cleared q p f (r ∷ rs) gone = ground (arith, gone r, count-cleared q p f rs gone)

  pub count-both-le :
      (q p : A → Bool) (rs : List A) → count_where (λ r. q r && p r) rs ≤ count_where q rs
  count-both-le q p [] = omega arith
  count-both-le q p (r ∷ rs) = ground (arith, count-both-le q p rs)

  pub count-delete_other :
      (q p : A → Bool) (rs : List A)
      → ((r : A) → q r ≡ true → p r ≡ false)
      → count_where q (delete_where p rs) ≡ count_where q rs
  count-delete_other q p [] apart = refl
  count-delete_other q p (r ∷ rs) apart = ground (arith, apart r, count-delete_other q p rs apart)

  pub count-delete_split :
      (q p : A → Bool) (rs : List A)
      → count_where q (delete_where p rs) + count_where (λ r. q r && p r) rs ≡ count_where q rs
  count-delete_split q p [] = omega arith
  count-delete_split q p (r ∷ rs) = ground (arith, count-delete_split q p rs)

  pub count-implies :
      (q p : A → Bool) (rs : List A)
      → ((r : A) → q r ≡ true → p r ≡ true)
      → count_where q rs ≤ count_where p rs
  count-implies q p [] imp = omega arith
  count-implies q p (r ∷ rs) imp = ground (arith, imp r, count-implies q p rs imp)
