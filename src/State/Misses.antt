-- ===== src/State/Misses.antt =====
-- The phone numbers that the network does not know (PhoneNumberMisses in crates/daemon/src/state.rs).
use omarchy_whatsapp.Prelude.{
  Bool, List, String, [], ap, arith, contains, eq_iff, eqb, false, if◌then◌else◌, ℕ, ◌&&◌, ◌++◌,
  ◌==◌, ◌||◌, ◌∷◌, ◌≡◌, ◌∙◌, refl,
}

pub record PhoneNumberMisses : Type 0 where
  pub generation : ℕ
  pub jids : List String

unfoldable pub retain_generation : ℕ → PhoneNumberMisses → PhoneNumberMisses
retain_generation generation m =
    if eqb m.generation generation then m else record { generation = generation; jids = [] }

-- The set of jids is a list without repetition.
unfoldable pub remember : ℕ → String → PhoneNumberMisses → PhoneNumberMisses
unfolding retain_generation
remember generation jid m =
    let kept = retain_generation generation m in
    if contains jid kept.jids then kept else record kept { jids = kept.jids ++ jid ∷ [] }

unfoldable pub is_missing : ℕ → String → PhoneNumberMisses → PhoneNumberMisses × Bool
unfolding retain_generation
is_missing generation jid m =
    let kept = retain_generation generation m in (kept, contains jid kept.jids)

-- One call, and a run of calls. A question also forgets what an older generation knew.
pub data Call : Type 0 where
  remembered asked : ℕ → String → Call

abbrev step : Call → PhoneNumberMisses → PhoneNumberMisses
unfolding remember is_missing
step (remembered generation jid) m = remember generation jid m
step (asked generation jid) m = (is_missing generation jid m).0

run : List Call → PhoneNumberMisses → PhoneNumberMisses
unfolding remember is_missing
run [] m = m
run (c ∷ cs) m = run cs (step c m)

abbrev call_generation : Call → ℕ
call_generation (remembered generation jid) = generation
call_generation (asked generation jid) = generation

abbrev remembers : ℕ → String → Call → Bool
remembers generation jid (remembered g j) = eqb g generation && j == jid
remembers generation jid (asked g j) = false

-- Whether a jid was remembered in a generation and no call of another generation came after.
abbrev known : ℕ → String → List Call → Bool → Bool
known generation jid [] before = before
known generation jid (c ∷ cs) before =
    known generation jid cs
      (eqb (call_generation c) generation && (before || remembers generation jid c))

contains-append_one :
    (k jid : String) (xs : List String) → contains k (xs ++ jid ∷ []) ≡ (contains k xs || jid == k)
contains-append_one k jid [] = ground arith
contains-append_one k jid (x ∷ xs) = ground (arith, contains-append_one k jid xs)

abbrev missing_now : ℕ → String → PhoneNumberMisses → Bool
missing_now generation jid m = eqb m.generation generation && contains jid m.jids

step-missing :
    (generation : ℕ) (jid : String) (c : Call) (m : PhoneNumberMisses)
    → missing_now generation jid (step c m) ≡ (
        eqb (call_generation c) generation
        && (missing_now generation jid m || remembers generation jid c))
unfolding remember is_missing
step-missing generation jid (remembered g j) m =
    ground (arith, contains-append_one jid j m.jids, eq_iff j jid)
step-missing generation jid (asked g j) m = ground arith

run-known :
    (generation : ℕ) (jid : String) (cs : List Call) (m : PhoneNumberMisses)
    → missing_now generation jid (run cs m) ≡ known generation jid cs (missing_now generation jid m)
unfolding run
run-known generation jid [] m = refl
run-known generation jid (c ∷ cs) m =
    run-known generation jid cs (step c m)
    ∙ ap (known generation jid cs) (step-missing generation jid c m)

asked_now :
    (generation : ℕ) (jid : String) (m : PhoneNumberMisses)
    → (is_missing generation jid m).1 ≡ missing_now generation jid m
unfolding is_missing
asked_now generation jid m = ground arith

none_at_first : (generation : ℕ) → (eqb 0 generation && false) ≡ false
none_at_first generation = ground arith

-- After any calls a jid is reported as missing in a generation exactly if it was remembered in that generation,
-- and no call of another generation came in between.
is_missing-run :
    (generation : ℕ) (jid : String) (cs : List Call)
    → (is_missing generation jid (run cs (record { generation = 0; jids = [] }))).1
      ≡ known generation jid cs false
unfolding is_missing
is_missing-run generation jid cs =
    let m = run cs (record { generation = 0; jids = [] }) in
    asked_now generation jid m
    ∙ run-known generation jid cs (record { generation = 0; jids = [] })
    ∙ ap (known generation jid cs) (none_at_first generation)
