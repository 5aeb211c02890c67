-- ===== src/Connections/Ids.antt =====
-- The ID of a new connection: the loop of `connect` ends, and the ID is in range and not in use.
use mathlib.Core.Path.{subst}
use omarchy_whatsapp.Prelude.Table.{delete_where, exists_where}
use omarchy_whatsapp.Connections.{
  ConnectionIntents, Entry, connect, entered, entry_is, free_id, next, no_intent,
}
use omarchy_whatsapp.Prelude.{
  Bool-cases, List, Option-cases, [], ap, arith, eqb, false, if◌then◌else◌, inl, inr, leb, length,
  none, refl, some, suc, true, unwrap_or, zero, ℕ, ◌++◌, ◌+◌, ◌-◌, ◌<◌, ◌^◌, ◌∙◌, ◌∷◌, ◌≡◌, ◌≢◌,
  ◌≤◌,
}

-- u64::MAX
abbrev pub max_id : ℕ
max_id = 2 ^ 64 - 1

next-value : (n : ℕ) → n ≤ max_id → next n ≡ (if eqb n max_id then 1 else n + 1)
unfolding next
next-value n h = ground arith

iterate : ℕ → ℕ → ℕ
iterate zero n = n
iterate (suc i) n = iterate i (next n)

next-range : (n : ℕ) → n ≤ max_id → (1 ≤ next n) × (next n ≤ max_id)
next-range n h = (ground (arith, next-value n h), ground (arith, next-value n h))

-- After `i` steps the counter has moved by `i`, around the range.
iterate-value :
    (i n : ℕ)
    → n ≤ max_id
    → 1 ≤ n
    → i ≤ max_id
    → iterate i n ≡ (if leb (n + i) max_id then n + i else n + i - max_id)
unfolding iterate
iterate-value zero n h one k = ground arith
iterate-value (suc i) n h one k =
    let r = next-range n h in ground (arith, iterate-value i (next n) r.1 r.0, next-value n h)

-- No ID comes up twice in less than a turn.
iterate-apart : (i n : ℕ) → n ≤ max_id → 1 ≤ n → suc i < max_id → iterate (suc i) n ≢ n
iterate-apart i n h one k e = ground (arith, iterate-value (suc i) n h one)

length-delete_le :
    (id : ℕ) (entries : List Entry) → length (delete_where (entry_is id) entries) ≤ length entries
length-delete_le id [] = omega arith
length-delete_le id (e ∷ es) = ground (arith, length-delete_le id es)

length-delete :
    (id : ℕ) (entries : List Entry)
    → exists_where (entry_is id) entries ≡ true
    → length (delete_where (entry_is id) entries) < length entries
length-delete id [] h = cc
length-delete id (e ∷ es) h = ground (arith, length-delete id es, length-delete_le id es)

exists-delete_other :
    (id other : ℕ) (entries : List Entry)
    → id ≢ other
    → exists_where (entry_is id) (delete_where (entry_is other) entries)
      ≡ exists_where (entry_is id) entries
exists-delete_other id other [] apart = refl
exists-delete_other id other (e ∷ es) apart = ground (arith, exists-delete_other id other es apart)

-- The next `k` IDs, from `n` on, are in use.
AllTaken : ℕ → ℕ → List Entry → Type 0
AllTaken zero n entries = Unit
AllTaken (suc k) n entries =
    (exists_where (entry_is n) entries ≡ true) × AllTaken k (next n) entries

AllTaken-delete :
    (k m n : ℕ) (entries : List Entry)
    → ((j : ℕ) → j < k → iterate j m ≢ n)
    → AllTaken k m entries
    → AllTaken k m (delete_where (entry_is n) entries)
unfolding AllTaken iterate
AllTaken-delete zero m n entries apart h = tt
AllTaken-delete (suc k) m n entries apart h = (
  exists-delete_other m n entries (apart 0 (omega arith)) ∙ h.0,
  AllTaken-delete k (next m) n entries (λ j e. apart (suc j) (omega arith)) h.1,
)

-- So many connections there are.
AllTaken-length :
    (k n : ℕ) (entries : List Entry)
    → n ≤ max_id
    → 1 ≤ n
    → k < max_id
    → AllTaken k n entries
    → k ≤ length entries
unfolding AllTaken iterate
AllTaken-length zero n entries h one few all = omega arith
AllTaken-length (suc k) n entries h one few all =
    let r = next-range n h in
    let fewer =
      AllTaken-length k (next n) (delete_where (entry_is n) entries) r.1 r.0 (omega arith) (
        AllTaken-delete k (next n) n entries (λ j e. iterate-apart j n h one (omega arith))
          all.1) in
    omega (arith, fewer, length-delete n entries all.0)

free_id-none :
    (fuel n : ℕ) (entries : List Entry)
    → free_id fuel n entries ≡ none
    → AllTaken fuel (next n) entries
unfolding free_id AllTaken
free_id-none zero n entries h = tt
free_id-none (suc fuel) n entries h = elim (Bool-cases (exists_where (entry_is (next n)) entries)) [
  | inl taken ↦ (taken, free_id-none fuel (next n) entries (rw taken at h))
  | inr free ↦ absurd (cc (rw free at h))
]

free_id-some :
    (fuel n id : ℕ) (entries : List Entry)
    → n ≤ max_id
    → free_id fuel n entries ≡ some id
    → ((1 ≤ id) × (id ≤ max_id)) × (exists_where (entry_is id) entries ≡ false)
unfolding free_id
free_id-some zero n id entries range h = absurd (cc h)
free_id-some (suc fuel) n id entries range h =
    let r = next-range n range in
    elim (Bool-cases (exists_where (entry_is (next n)) entries)) [
      | inl taken ↦ free_id-some fuel (next n) id entries r.1 (rw taken at h)
      | inr free ↦
          let is : next n ≡ id = ap (λ o. unwrap_or o 0) (rw free at h) in
          subst (λ x. ((1 ≤ x) × (x ≤ max_id)) × (exists_where (entry_is x) entries ≡ false)) is
            (r, free)
    ]

-- What connect gives: an ID of the range that no connection has, entered without an intent.
pub record Connected (s s' : ConnectionIntents) (id : ℕ) : Type 0 where
  pub at_least_one : 1 ≤ id
  pub in_range : id ≤ max_id
  pub was_free : exists_where (entry_is id) s.connections ≡ false
  pub counter : s'.next_id ≡ id
  pub added : s'.connections ≡ s.connections ++ record { id = id; intent = no_intent } ∷ []

-- With fewer than 2^64 - 2 connections, `connect` returns, and gives the new connection an ID that
-- no other connection has and that is not zero, also where the counter wraps around.
pub connect-total :
    (s : ConnectionIntents)
    → s.next_id ≤ max_id
    → suc (length s.connections) < max_id
    → (s' : ConnectionIntents) × ((id : ℕ) × ((connect s ≡ some (s', id)) × Connected s s' id))
unfolding connect entered
connect-total s range few =
    elim (Option-cases (free_id (suc (length s.connections)) s.next_id s.connections)) [
      | inl stuck ↦
          let r = next-range s.next_id range in
          let full =
            AllTaken-length (suc (length s.connections)) (next s.next_id) s.connections r.1 r.0 few
              (free_id-none (suc (length s.connections)) s.next_id s.connections stuck) in
          absurd (omega arith)
      | inr (id, found) ↦
          let is =
            free_id-some (suc (length s.connections)) s.next_id id s.connections range found in
          (
            record {
              next_id = id;
              connections = s.connections ++ record { id = id; intent = no_intent } ∷ [];
            },
            (
              id,
              (
                ap (entered s) found,
                record {
                  at_least_one = is.0.0;
                  in_range = is.0.1;
                  was_free = is.1;
                  counter = refl;
                  added = refl;
                },
              ),
            ),
          )
    ]
