-- ===== src/Prelude/Table/Update.antt =====
-- Updates that change nothing, or that follow one another.
use mathlib.Core.Path.{◌≡◌, refl}
use mathlib.Core.Bool.{Bool, true, false, ◌||◌}
use mathlib.Core.List.{List, [], ◌∷◌}
use native.Mathlib.Omega.{arith}
use omarchy_whatsapp.Prelude.Table.{count_where, update_where}

module _ {ℓ} {A : Type ℓ} where
  pub update-update :
      (q p : A → Bool) (f : A → A) (rs : List A)
      → ((r : A) → p (f r) ≡ false)
      → update_where p f (update_where q f rs) ≡ update_where (λ r. q r || p r) f rs
  update-update q p f [] once = refl
  update-update q p f (r ∷ rs) once = ground (arith, once r, update-update q p f rs once)

  pub update-same :
      (p q : A → Bool) (f : A → A) (rs : List A)
      → ((r : A) → p r ≡ q r)
      → update_where p f rs ≡ update_where q f rs
  update-same p q f [] same = refl
  update-same p q f (r ∷ rs) same = ground (arith, same r, update-same p q f rs same)

  pub update-none :
      (p : A → Bool) (f : A → A) (rs : List A) → count_where p rs ≡ 0 → update_where p f rs ≡ rs
  update-none p f [] h = refl
  update-none p f (r ∷ rs) h = ground (arith, update-none p f rs)

  -- Rows that an update leaves outside another.
  pub update-absorbed :
      (p q : A → Bool) (g f : A → A) (rs : List A)
      → ((r : A) → q r ≡ true → p (f r) ≡ false)
      → ((r : A) → q r ≡ false → p r ≡ false)
      → update_where p g (update_where q f rs) ≡ update_where q f rs
  update-absorbed p q g f [] hit miss = refl
  update-absorbed p q g f (r ∷ rs) hit miss =
      ground (arith, hit r, miss r, update-absorbed p q g f rs hit miss)
