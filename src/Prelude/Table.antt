-- ===== src/Prelude/Table.antt =====
-- A table is the list of its rows in rowid order, and a statement is a function on it:
-- `UPDATE … WHERE`, `DELETE … WHERE`, `SELECT COUNT(*)`, `EXISTS` and a lookup by a condition.
pub mod Count
pub mod Lookup
pub mod Update
pub mod Every
use Prim.Native.Nat.{ℕ, ◌+◌, ◌≤◌}
use mathlib.Core.Path.{◌≡◌, refl, subst}
use mathlib.Core.Logic.{inl, inr}
use mathlib.Core.Bool.{Bool, true, false, not, ◌&&◌, ◌||◌}
use mathlib.Core.List.{List, [], ◌∷◌, ◌++◌}
use mathlib.Core.Option.{Option, none, some}
use native.Mathlib.Omega.{arith}
use omarchy_whatsapp.Prelude.Tests.{if◌then◌else◌}

module _ {ℓ} {A : Type ℓ} where
  -- UPDATE … SET f WHERE p
  abbrev pub update_where : (A → Bool) → (A → A) → List A → List A
  update_where p f [] = []
  update_where p f (r ∷ rs) = (if p r then f r else r) ∷ update_where p f rs

  -- DELETE … WHERE p
  abbrev pub delete_where : (A → Bool) → List A → List A
  delete_where p [] = []
  delete_where p (r ∷ rs) = let rest = delete_where p rs in if p r then rest else r ∷ rest

  -- SELECT … WHERE p
  abbrev pub select_where : (A → Bool) → List A → List A
  select_where p [] = []
  select_where p (r ∷ rs) = let rest = select_where p rs in if p r then r ∷ rest else rest

  -- SELECT COUNT(*) … WHERE p, and the number of rows that a statement changes
  abbrev pub count_where : (A → Bool) → List A → ℕ
  count_where p [] = 0
  count_where p (r ∷ rs) = (if p r then 1 else 0) + count_where p rs

  -- EXISTS (SELECT 1 … WHERE p)
  abbrev pub exists_where : (A → Bool) → List A → Bool
  exists_where p [] = false
  exists_where p (r ∷ rs) = p r || exists_where p rs

  -- The one row that a condition on the primary key selects.
  abbrev pub find_where : (A → Bool) → List A → Option A
  find_where p [] = none
  find_where p (r ∷ rs) = if p r then some r else find_where p rs

  -- INSERT … ON CONFLICT DO UPDATE SET f: `p` selects the conflicting row.
  abbrev pub upsert : (A → Bool) → A → (A → A) → List A → List A
  upsert p new f rs = if exists_where p rs then update_where p f rs else rs ++ new ∷ []

  -- Every row satisfies `P`.
  abbrev pub All {κ} : (A → Type κ) → List A → Type κ
  All P [] = Unit
  All P (r ∷ rs) = P r × All P rs

  -- The row that a deletion leaves, and the one that an update makes.
  abbrev pub keep_unless : (A → Bool) → Option A → Option A
  keep_unless p none = none
  keep_unless p (some r) = if p r then none else some r

  abbrev pub map_if : (A → Bool) → (A → A) → Option A → Option A
  map_if p f none = none
  map_if p f (some r) = if p r then some (f r) else some r
