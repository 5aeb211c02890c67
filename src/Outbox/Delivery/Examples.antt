-- ===== src/Outbox/Delivery/Examples.antt =====
-- Tests of the delivery loop, and the theorem at a concrete outbox.
use omarchy_whatsapp.Prelude.{List, String, [], arith, none, refl, true, ℕ, ◌+◌, ◌∷◌, ◌≡◌}
use omarchy_whatsapp.Prelude.Json.{plain_list, plain_list-JsonLaws}
use omarchy_whatsapp.Prelude.Int.{pos}
use omarchy_whatsapp.Protocol.{MessageQuote}
use omarchy_whatsapp.Outbox.Text.{
  run, discard, enqueue, PendingTextMessage, claim_text_message, fail_text_message,
}
use omarchy_whatsapp.Outbox.Text.Examples.{
  plain_quote, plain_quote-JsonLaws, three_rows, three_rows-IsTable, three_rows-Readable,
}
use omarchy_whatsapp.Outbox.Delivery.{Answer, Others, World, drain, refused}
use omarchy_whatsapp.Outbox.Delivery.Drain.{IsDrained, drain_empties}

-- A network that counts the sends and refuses each.
abbrev refuse_all : PendingTextMessage → ℕ → ℕ × Answer
refuse_all p sends = (sends + 1, refused "offline")

abbrev two_waiting : World (List String) MessageQuote ℕ
two_waiting = record { rows = three_rows; rest = 0; published = [] }

-- During the first send another message is enqueued; one is discarded before the second claim.
abbrev busy : List Others
busy =
    record { before_claim = []; during_send = enqueue "d9" "a@s" "hi" "m9" (pos 90) [] none ∷ [] }
    ∷ record { before_claim = discard "d9" ∷ []; during_send = [] }
    ∷ []

two_sends : (drain plain_list plain_quote refuse_all (λ sends. true) 4 [] two_waiting).0.rest ≡ 2
unfolding drain claim_text_message fail_text_message run
two_sends = refl

drain_empties_example :
    IsDrained plain_list plain_quote refuse_all two_waiting
      (drain plain_list plain_quote refuse_all (λ sends. true) 4 busy two_waiting)
drain_empties_example =
    drain_empties plain_list plain_quote refuse_all plain_list-JsonLaws plain_quote-JsonLaws
      (λ sends. true) 4 busy two_waiting (λ rest. refl) three_rows-IsTable three_rows-Readable
      ((tt, (refl, tt)), (((refl, tt), tt), tt)) (omega arith)
