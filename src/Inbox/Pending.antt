-- ===== src/Inbox/Pending.antt =====
-- pending_inbound returns the messages that were committed first.
use omarchy_whatsapp.Prelude.{
  Bool, List, [], arith, if◌then◌else◌, refl, drop, length, ap, ◌∙◌, ◌∷◌, ◌≡◌, ◌+◌, ◌⊎◌, Bool-cases,
  inl, inr, ℕ, zero, suc,
}
use omarchy_whatsapp.Prelude.Int.{ltb_ℤ, ◌≤ℤ◌}
use omarchy_whatsapp.Prelude.Table.{All, count_where}
use omarchy_whatsapp.Inbox.{
  DurableInbound, clamped, insert_oldest, limit_to, oldest_first, pending_inbound,
}

abbrev pub NotBefore : DurableInbound → DurableInbound → Type 0
NotBefore s r = s.committed_at ≤ℤ r.committed_at

abbrev pub Sorted : List DurableInbound → Type 0
Sorted [] = Unit
Sorted (r ∷ rows) = All (NotBefore r) rows × Sorted rows

All-insert :
    (P : DurableInbound → Type 0) (r : DurableInbound) (rows : List DurableInbound)
    → P r
    → All P rows
    → All P (insert_oldest r rows)
unfolding insert_oldest
All-insert P r [] h all = (h, tt)
All-insert P r (x ∷ xs) h all = elim (Bool-cases (ltb_ℤ x.committed_at r.committed_at)) [
  | inl later ↦ rw later (all.0, All-insert P r xs h all.1)
  | inr earlier ↦ rw earlier (h, all)
]

All-weaken :
    (r x : DurableInbound) (rows : List DurableInbound)
    → NotBefore r x
    → All (NotBefore x) rows
    → All (NotBefore r) rows
All-weaken r x [] h all = tt
All-weaken r x (y ∷ ys) h all = (omega arith, All-weaken r x ys h all.1)

Sorted-insert :
    (r : DurableInbound) (rows : List DurableInbound) → Sorted rows → Sorted (insert_oldest r rows)
unfolding insert_oldest
Sorted-insert r [] h = (tt, tt)
Sorted-insert r (x ∷ xs) h = elim (Bool-cases (ltb_ℤ x.committed_at r.committed_at)) [
  | inl later ↦ rw later (All-insert (NotBefore x) r xs (ground arith) h.0, Sorted-insert r xs h.1)
  | inr earlier ↦ rw earlier ((ground arith, All-weaken r x xs (ground arith) h.0), h)
]

oldest_first-Sorted : (rows : List DurableInbound) → Sorted (oldest_first rows)
unfolding oldest_first
oldest_first-Sorted [] = tt
oldest_first-Sorted (r ∷ rows) = Sorted-insert r (oldest_first rows) (oldest_first-Sorted rows)

count-insert :
    (q : DurableInbound → Bool) (r : DurableInbound) (rows : List DurableInbound)
    → count_where q (insert_oldest r rows) ≡ (if q r then 1 else 0) + count_where q rows
unfolding insert_oldest
count-insert q r [] = refl
count-insert q r (x ∷ xs) = ground (arith, count-insert q r xs)

count-oldest_first :
    (q : DurableInbound → Bool) (rows : List DurableInbound)
    → count_where q (oldest_first rows) ≡ count_where q rows
unfolding oldest_first
count-oldest_first q [] = refl
count-oldest_first q (r ∷ rs) =
    ground (arith, count-insert q r (oldest_first rs), count-oldest_first q rs)

All-limit :
    (P : DurableInbound → Type 0) (n : ℕ) (rows : List DurableInbound)
    → All P rows
    → All P (limit_to n rows)
unfolding limit_to
All-limit P zero rows all = tt
All-limit P (suc n) [] all = tt
All-limit P (suc n) (r ∷ rows) all = (all.0, All-limit P n rows all.1)

All-drop :
    (P : DurableInbound → Type 0) (n : ℕ) (rows : List DurableInbound)
    → All P rows
    → All P (drop n rows)
All-drop P zero rows all = all
All-drop P (suc n) [] all = tt
All-drop P (suc n) (r ∷ rows) all = All-drop P n rows all.1

Sorted-limit : (n : ℕ) (rows : List DurableInbound) → Sorted rows → Sorted (limit_to n rows)
unfolding limit_to
Sorted-limit zero rows h = tt
Sorted-limit (suc n) [] h = tt
Sorted-limit (suc n) (r ∷ rows) h = (All-limit (NotBefore r) n rows h.0, Sorted-limit n rows h.1)

limit-before :
    (n : ℕ) (rows : List DurableInbound)
    → Sorted rows
    → All (λ s. All (NotBefore s) (drop n rows)) (limit_to n rows)
unfolding limit_to
limit-before zero rows h = tt
limit-before (suc n) [] h = tt
limit-before (suc n) (r ∷ rows) h = (All-drop (NotBefore r) n rows h.0, limit-before n rows h.1)

count-limit :
    (q : DurableInbound → Bool) (n : ℕ) (rows : List DurableInbound)
    → count_where q (limit_to n rows) + count_where q (drop n rows) ≡ count_where q rows
unfolding limit_to
count-limit q zero rows = omega arith
count-limit q (suc n) [] = omega arith
count-limit q (suc n) (r ∷ rows) = ground (arith, count-limit q n rows)

limit-full :
    (n : ℕ) (rows : List DurableInbound) → (length (limit_to n rows) ≡ n) ⊎ (drop n rows ≡ [])
unfolding limit_to
limit-full zero rows = inl refl
limit-full (suc n) [] = inr refl
limit-full (suc n) (r ∷ rows) = elim (limit-full n rows) [
  | inl full ↦ inl (ap suc full)
  | inr none_left ↦ inr none_left
]

-- The messages that a call of pending_inbound leaves for later ones.
abbrev pub left_out : ℕ → List DurableInbound → List DurableInbound
left_out limit rows = drop (clamped limit) (oldest_first rows)

-- The messages of the inbox are those that pending_inbound returns and those that it leaves out, each
-- as often as it is in the inbox. What it returns is in the order of committed_at and was committed no
-- later than anything it leaves out; and it leaves something out only when it returns as many messages
-- as the limit, brought between 1 and 10,000, allows.
pub pending_inbound-oldest :
    (limit : ℕ) (rows : List DurableInbound)
    → ((q : DurableInbound → Bool)
        → count_where q (pending_inbound limit rows) + count_where q (left_out limit rows)
          ≡ count_where q rows)
      × (Sorted (pending_inbound limit rows)
          × (All (λ s. All (NotBefore s) (left_out limit rows)) (pending_inbound limit rows)
              × ((length (pending_inbound limit rows) ≡ clamped limit)
                  ⊎ (left_out limit rows ≡ []))))
unfolding pending_inbound
pending_inbound-oldest limit rows =
    let sorted = oldest_first-Sorted rows in
    (
      λ q. count-limit q (clamped limit) (oldest_first rows) ∙ count-oldest_first q rows,
      (
        Sorted-limit (clamped limit) (oldest_first rows) sorted,
        (
          limit-before (clamped limit) (oldest_first rows) sorted,
          limit-full (clamped limit) (oldest_first rows),
        ),
      ),
    )
