-- ===== src/Prelude/Table/Every.antt =====
-- Predicates on every row.
use mathlib.Core.Path.{◌≡◌, subst}
use mathlib.Core.Logic.{inl, inr}
use mathlib.Core.Bool.{Bool, false, true}
use mathlib.Core.List.{List, [], ◌∷◌, ◌++◌}
use mathlib.Core.Option.{some}
use native.Mathlib.Omega.{arith}
use omarchy_whatsapp.Prelude.Tests.{Bool-cases}
use omarchy_whatsapp.Prelude.Table.{
  All, delete_where, exists_where, find_where, update_where, upsert,
}

module _ {ℓ κ} {A : Type ℓ} (P : A → Type κ) where
  pub All-update :
      (p : A → Bool) (f : A → A) (rs : List A)
      → ((r : A) → P r → P (f r))
      → All P rs
      → All P (update_where p f rs)
  All-update p f [] keeps h = tt
  All-update p f (r ∷ rs) keeps h = elim (Bool-cases (p r)) [
    | inl e ↦ rw e (keeps r h.0, All-update p f rs keeps h.1)
    | inr e ↦ rw e (h.0, All-update p f rs keeps h.1)
  ]

  pub All-delete : (p : A → Bool) (rs : List A) → All P rs → All P (delete_where p rs)
  All-delete p [] h = tt
  All-delete p (r ∷ rs) h = elim (Bool-cases (p r)) [
    | inl e ↦ rw e (All-delete p rs h.1)
    | inr e ↦ rw e (h.0, All-delete p rs h.1)
  ]

  pub All-append : (rs : List A) (new : A) → All P rs → P new → All P (rs ++ new ∷ [])
  All-append [] new h n = (n, tt)
  All-append (r ∷ rs) new h n = (h.0, All-append rs new h.1 n)

  pub find-All : (q : A → Bool) (rs : List A) (r : A) → All P rs → find_where q rs ≡ some r → P r
  find-All q [] r h e = cc
  find-All q (x ∷ rs) r h e = elim (Bool-cases (q x)) [
    | inl hit ↦ let found : x ≡ r = ground arith in subst P found h.0
    | inr miss ↦ find-All q rs r h.1 (rw miss at e)
  ]

-- From one predicate to another, by what a statement tells of the rows.
module _ {ℓ κ μ} {A : Type ℓ} (Q : A → Type κ) (P : A → Type μ) where
  pub All-implies : (rs : List A) → ((r : A) → Q r → P r) → All Q rs → All P rs
  All-implies [] imp h = tt
  All-implies (r ∷ rs) imp h = (imp r h.0, All-implies rs imp h.1)

  pub All-delete_kept :
      (p : A → Bool) (rs : List A)
      → ((r : A) → p r ≡ false → Q r → P r)
      → All Q rs
      → All P (delete_where p rs)
  All-delete_kept p [] imp h = tt
  All-delete_kept p (r ∷ rs) imp h = elim (Bool-cases (p r)) [
    | inl e ↦ rw e (All-delete_kept p rs imp h.1)
    | inr e ↦ rw e (imp r e h.0, All-delete_kept p rs imp h.1)
  ]

  All-update_split :
      (p : A → Bool) (f : A → A) (rs : List A)
      → ((r : A) → p r ≡ true → P (f r))
      → ((r : A) → p r ≡ false → Q r → P r)
      → All Q rs
      → All P (update_where p f rs)
  All-update_split p f [] new old h = tt
  All-update_split p f (r ∷ rs) new old h = elim (Bool-cases (p r)) [
    | inl e ↦ rw e (new r e, All-update_split p f rs new old h.1)
    | inr e ↦ rw e (old r e h.0, All-update_split p f rs new old h.1)
  ]

  All-append_split :
      (p : A → Bool) (new : A) (rs : List A)
      → exists_where p rs ≡ false
      → P new
      → ((r : A) → p r ≡ false → Q r → P r)
      → All Q rs
      → All P (rs ++ new ∷ [])
  All-append_split p new [] none n old h = (n, tt)
  All-append_split p new (r ∷ rs) none n old h =
      (old r (ground arith) h.0, All-append_split p new rs (ground arith) n old h.1)

  pub All-upsert :
      (p : A → Bool) (new : A) (f : A → A) (rs : List A)
      → P new
      → ((r : A) → p r ≡ true → P (f r))
      → ((r : A) → p r ≡ false → Q r → P r)
      → All Q rs
      → All P (upsert p new f rs)
  All-upsert p new f rs n here old h = elim (Bool-cases (exists_where p rs)) [
    | inl there ↦ rw there (All-update_split p f rs here old h)
    | inr fresh ↦ rw fresh (All-append_split p new rs fresh n old h)
  ]
