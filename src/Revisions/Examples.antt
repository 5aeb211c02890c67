-- ===== src/Revisions/Examples.antt =====
-- Tests of the clock, and the theorems at concrete runs.
use omarchy_whatsapp.Revisions.Order.{CountUp, run-CountUp}
use omarchy_whatsapp.Prelude.{List, String, [], arith, none, some, ◌∷◌}
use omarchy_whatsapp.Revisions.{Op, RevisionClock, begin, publish, retire, run}

abbrev fresh_clock : RevisionClock
fresh_clock = record { generation = 0; revision = 0 }

abbrev some_calls : List (Op String)
some_calls =
    begin ∷ publish none "unread" ∷ publish (some 7) "pong" ∷ retire 1 ∷ publish none "state" ∷ []

run-CountUp_example : CountUp 0 (run fresh_clock some_calls).1
run-CountUp_example = run-CountUp fresh_clock some_calls (omega arith)
