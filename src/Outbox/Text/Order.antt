-- ===== src/Outbox/Text/Order.antt =====
-- Which rows the subqueries of text_outbox select: the rows trimmed by an accepted message, and the
-- row that is claimed.
use native.Mathlib.Nat.{zero-add}
use omarchy_whatsapp.Prelude.{
  List, Option-cases, String, [], arith, contains, eq_iff, eq_refl, false, inl, inr, none, not,
  refl, some, sym, true, ◌&&◌, ◌∙◌, ◌∷◌, ◌≡◌, ◌≢◌, ◌≤◌,
}
use omarchy_whatsapp.Prelude.Int.{◌≤ℤ◌}
use omarchy_whatsapp.Prelude.Newest.{beyond, count-beyond, exists-beyond}
use omarchy_whatsapp.Prelude.Table.{
  count_where, delete_where, exists_where, find_where, select_where,
}
use omarchy_whatsapp.Outbox.Text.{
  Row, failed_kept, first_queued, has_id, ids, is_failed, is_queued, stale_ids, trim_failed,
}

module _ {J Q : Type 0} where
  contains-ids :
      (id : String) (rows : List (Row J Q)) → contains id (ids rows) ≡ exists_where (has_id id) rows
  contains-ids id [] = refl
  contains-ids id (r ∷ rs) = ground (arith, contains-ids id rs)

  -- A delivery ID among those to trim is that of a failed row.
  pub stale-failed :
      (id : String) (rows : List (Row J Q))
      → contains id (stale_ids rows) ≡ true
      → exists_where (λ r. has_id id r && is_failed r.status) rows ≡ true
  unfolding stale_ids
  stale-failed id rows h =
      exists-beyond (λ r. r.created_at) (λ r s. has_id r.delivery_id s) (has_id id) failed_kept
        (λ r. is_failed r.status) rows (sym (contains-ids id _) ∙ h)

  -- The row to claim is in the table, and queued.
  pub first_queued-is :
      (rows : List (Row J Q)) (r : Row J Q)
      → first_queued rows ≡ some r
      → exists_where (λ s. has_id r.delivery_id s && is_queued s.status) rows ≡ true
  unfolding first_queued
  first_queued-is [] r h = cc
  first_queued-is (x ∷ rs) r h = ground (
    arith,
    first_queued-is rs r,
    eq_iff r.delivery_id r.delivery_id,
    eq_iff x.delivery_id r.delivery_id,
  )

  pub find-queued :
      (rows : List (Row J Q)) (s : Row J Q) (id : String)
      → find_where (has_id id) rows ≡ some s
      → is_queued s.status ≡ true
      → exists_where (λ r. is_queued r.status) rows ≡ true
  find-queued [] s id f e = cc
  find-queued (x ∷ rs) s id f e = ground (arith, find-queued rs s id)

  -- Nothing is claimed only where no row is queued.
  pub first_queued-none :
      (rows : List (Row J Q))
      → first_queued rows ≡ none
      → exists_where (λ s. is_queued s.status) rows ≡ false
  unfolding first_queued
  first_queued-none [] h = refl
  first_queued-none (x ∷ rs) h = ground (arith, first_queued-none rs)

  -- No queued row is older than the row to claim.
  pub first_queued-oldest :
      (rows : List (Row J Q)) (r s : Row J Q) (id : String)
      → first_queued rows ≡ some r
      → find_where (has_id id) rows ≡ some s
      → is_queued s.status ≡ true
      → r.created_at ≤ℤ s.created_at
  unfolding first_queued
  first_queued-oldest [] r s id h f e = cc
  first_queued-oldest (x ∷ rs) r s id h f e = elim (Option-cases (first_queued rs)) [
    | inl last ↦ ground (arith, first_queued-none rs last, find-queued rs s id)
    | inr (y, next) ↦ ground (arith, first_queued-oldest rs y s id next)
  ]

-- The row to claim is the one that its delivery ID looks up.
module _ {J Q : Type 0} where
  exists_of_queued :
      (id : String) (rows : List (Row J Q))
      → exists_where (λ s. has_id id s && is_queued s.status) rows ≡ true
      → count_where (has_id id) rows ≢ 0
  exists_of_queued id [] e h = cc
  exists_of_queued id (x ∷ rs) e h = ground (arith, exists_of_queued id rs)

  pub find-first_queued :
      (rows : List (Row J Q)) (r : Row J Q)
      → count_where (has_id r.delivery_id) rows ≤ 1
      → first_queued rows ≡ some r
      → find_where (has_id r.delivery_id) rows ≡ some r
  unfolding first_queued
  find-first_queued [] r unique h = cc
  find-first_queued (x ∷ rs) r unique h = elim (Option-cases (first_queued rs)) [
    | inl last ↦ ground (arith, eq_refl r.delivery_id)
    | inr (y, next) ↦ ground (
      arith,
      eq_refl r.delivery_id,
      first_queued-is rs y next,
      exists_of_queued y.delivery_id rs,
      find-first_queued rs y,
    )
  ]

-- How many failed rows stay.
module _ {J Q : Type 0} where
  count-stale :
      (rows : List (Row J Q)) (stale : List String)
      → ((r : Row J Q)
          → exists_where (has_id r.delivery_id) rows ≡ true
          → contains r.delivery_id stale ≡ true)
      → count_where (λ r. not (contains r.delivery_id stale)) rows ≡ 0
  count-stale [] stale inside = refl
  count-stale (r ∷ rs) stale inside =
      let here = inside r (ground (arith, eq_iff r.delivery_id r.delivery_id)) in
      rw (here, zero-add) (count-stale rs stale (λ s e. inside s (ground arith)))

  count-not-stale :
      (rows : List (Row J Q)) (stale : List String)
      → count_where
          (λ r. is_failed r.status)
          (delete_where (λ r. contains r.delivery_id stale) rows)
        ≡ count_where
            (λ r. not (contains r.delivery_id stale))
            (select_where (λ r. is_failed r.status) rows)
  count-not-stale [] stale = refl
  count-not-stale (r ∷ rs) stale = ground (arith, count-not-stale rs stale)

  -- After the trim no more than 32 failed rows are left.
  pub count-trim_failed :
      (rows : List (Row J Q))
      → count_where (λ r. is_failed r.status) (trim_failed rows) ≤ failed_kept
  unfolding trim_failed stale_ids
  count-trim_failed rows = omega (
    arith,
    count-not-stale rows stale,
    count-beyond (λ r. r.created_at) (λ r s. has_id r.delivery_id s)
        (λ r. not (contains r.delivery_id stale)) failed_kept (λ r. is_failed r.status) rows,
    count-stale dropped stale (λ r e. contains-ids r.delivery_id dropped ∙ e),
  )
    where
      dropped : List (Row J Q)
      dropped =
          beyond (λ r. r.created_at) (λ r s. has_id r.delivery_id s) failed_kept
            (λ r. is_failed r.status) rows

      stale : List String
      stale = ids dropped
