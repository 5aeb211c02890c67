-- ===== src/Outbox/Reads/Made.antt =====
-- The calls that one delivery of read receipts makes (deliver_pending_read in crates/daemon/src/outbox.rs).
use omarchy_whatsapp.Prelude.{
  Bool, List, Option, String, [], ap, false, inl, inr, map, none, refl, some, true, ◌++◌, ◌∷◌, ◌≡◌,
  ◌⊎◌,
}
use omarchy_whatsapp.Prelude.Table.{All}
use omarchy_whatsapp.Outbox.Reads.{ReadCall, after_call, run_calls}

-- That a value is among those of a list.
abbrev pub Among : {A : Type 0} → A → List A → Type 0
Among x [] = ⊥
Among x (y ∷ ys) = (y ≡ x) ⊎ Among x ys

pub Among-append : {A : Type 0} (x : A) (xs ys : List A) → Among x xs → Among x (xs ++ ys)
Among-append x [] ys h = absurd h
Among-append x (y ∷ xs) ys (inl e) = inl e
Among-append x (y ∷ xs) ys (inr h) = inr (Among-append x xs ys h)

pub Among-last : {A : Type 0} (x : A) (xs : List A) → Among x (xs ++ x ∷ [])
Among-last x [] = inl refl
Among-last x (y ∷ xs) = inr (Among-last x xs)

pub some-Among : {A : Type 0} (x : A) (xs : List A) → Among (some x) (map some xs) → Among x xs
some-Among x [] h = absurd h
some-Among x (y ∷ xs) (inl e) = inl (ap (λ o. elim o [ none ↦ y | some z ↦ z ]) e)
some-Among x (y ∷ xs) (inr h) = inr (some-Among x xs h)

pub none-Among : {A : Type 0} (xs : List A) → Among none (map some xs) → ⊥
none-Among [] h = h
none-Among (y ∷ xs) (inl e) = absurd (cc e)
none-Among (y ∷ xs) (inr h) = none-Among xs h

module _ {Jid : Type 0} (parse : String → Option Jid) (succeeds : ReadCall Jid → Bool) where
  after_call-made :
      (call : ReadCall Jid) (calls : List (Option (ReadCall Jid))) (works : Bool)
      (rest : List (ReadCall Jid) × Bool)
      → (rest.1 ≡ true → map some rest.0 ≡ calls)
      → (after_call parse succeeds call works rest).1 ≡ true
      → map some (after_call parse succeeds call works rest).0 ≡ some call ∷ calls
  after_call-made call calls false rest made h = cc
  after_call-made call calls true (front, done) made h = ap (λ cs. some call ∷ cs) (made h)

  pub run_calls-made :
      (calls : List (Option (ReadCall Jid)))
      → (run_calls parse succeeds calls).1 ≡ true
      → map some (run_calls parse succeeds calls).0 ≡ calls
  run_calls-made [] h = refl
  run_calls-made (none ∷ calls) h = cc
  run_calls-made (some call ∷ calls) h =
      after_call-made call calls (succeeds call) (run_calls parse succeeds calls)
        (run_calls-made calls) h

  after_call-works :
      (call : ReadCall Jid) (works : Bool) (rest : List (ReadCall Jid) × Bool)
      → succeeds call ≡ works
      → (rest.1 ≡ true → All (λ c. succeeds c ≡ true) rest.0)
      → (after_call parse succeeds call works rest).1 ≡ true
      → All (λ c. succeeds c ≡ true) (after_call parse succeeds call works rest).0
  after_call-works call false rest is works h = cc
  after_call-works call true (front, done) is works h = (is, works h)

  pub run_calls-works :
      (calls : List (Option (ReadCall Jid)))
      → (run_calls parse succeeds calls).1 ≡ true
      → All (λ c. succeeds c ≡ true) (run_calls parse succeeds calls).0
  run_calls-works [] h = tt
  run_calls-works (none ∷ calls) h = cc
  run_calls-works (some call ∷ calls) h =
      after_call-works call (succeeds call) (run_calls parse succeeds calls) refl
        (run_calls-works calls) h

  -- Why a run of calls stops: one of those made failed, or a text did not parse.
  abbrev pub Stopped : List (Option (ReadCall Jid)) → List (ReadCall Jid) → Type 0
  Stopped calls made = ((c : ReadCall Jid) × Among c made × (succeeds c ≡ false)) ⊎ Among none calls

  after_call-Stopped :
      (call : ReadCall Jid) (calls : List (Option (ReadCall Jid))) (works : Bool)
      (rest : List (ReadCall Jid) × Bool)
      → succeeds call ≡ works
      → (rest.1 ≡ false → Stopped calls rest.0)
      → (after_call parse succeeds call works rest).1 ≡ false
      → Stopped (some call ∷ calls) (after_call parse succeeds call works rest).0
  after_call-Stopped call calls false rest is stopped h = inl (call, inl refl, is)
  after_call-Stopped call calls true (front, done) is stopped h = elim (stopped h) [
    | inl (c, there, fails) ↦ inl (c, inr there, fails)
    | inr unparsed ↦ inr (inr unparsed)
  ]

  pub run_calls-Stopped :
      (calls : List (Option (ReadCall Jid)))
      → (run_calls parse succeeds calls).1 ≡ false
      → Stopped calls (run_calls parse succeeds calls).0
  run_calls-Stopped [] h = cc
  run_calls-Stopped (none ∷ calls) h = inr (inl refl)
  run_calls-Stopped (some call ∷ calls) h =
      after_call-Stopped call calls (succeeds call) (run_calls parse succeeds calls) refl
        (run_calls-Stopped calls) h
