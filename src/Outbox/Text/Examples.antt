-- ===== src/Outbox/Text/Examples.antt =====
-- Tests of text_outbox, and the theorems at concrete tables.
use omarchy_whatsapp.Prelude.Json.{Json, JsonLaws, plain_list, plain_list-JsonLaws}
use omarchy_whatsapp.Prelude.Table.{All, exists_where, find_where}
use omarchy_whatsapp.Outbox.Text.Queue.{Readable}
use omarchy_whatsapp.Outbox.Text.Claims.{Claims, claim_oldest}
use omarchy_whatsapp.Outbox.Text.Enqueue.{Outcome, claim_total, enqueue-Outcome}
use omarchy_whatsapp.Prelude.Int.{pos, ℤ}
use omarchy_whatsapp.Outbox.Text.Moves.{IsTable, Move}
use omarchy_whatsapp.Outbox.Text.Lifecycle.{append-IsTable, step-Move}
use omarchy_whatsapp.Protocol.{MessageQuote}
use omarchy_whatsapp.Prelude.{
  Bool, List, Option, String, [], arith, eq_iff, eq_refl, false, none, refl, some, true, ◌&&◌, ◌==◌,
  ◌↔◌, ◌∷◌, ◌≡◌,
}
use omarchy_whatsapp.Outbox.Text.{
  Op, PendingTextMessage, Row, Status, claim, claim_row, claim_text_message, claimed, complete,
  decode, decode_quote, discard, enqueue, enqueue_text_message, fail, failed, first_queued, has_id,
  is_queued, new_row, ok, pending, queued, reopen, retry, run, sending, step,
}

abbrev pub same_quote_text : MessageQuote → MessageQuote → Bool
same_quote_text a b =
    a.message_id == b.message_id
    && (a.sender_jid == b.sender_jid && (a.sender_name == b.sender_name && a.text == b.text))

abbrev pub plain_quote : Json MessageQuote MessageQuote
plain_quote = record { to_string = λ q. q; from_str = λ q. some q; same = same_quote_text }

same_quote_text_iff : (a b : MessageQuote) → (same_quote_text a b ≡ true) ↔ (a ≡ b)
same_quote_text_iff a b = (
  λ h.
      let e1 : a.message_id ≡ b.message_id = (eq_iff a.message_id b.message_id).0 (ground arith) in
      let e2 : a.sender_jid ≡ b.sender_jid = (eq_iff a.sender_jid b.sender_jid).0 (ground arith) in
      let e3 : a.sender_name ≡ b.sender_name =
        (eq_iff a.sender_name b.sender_name).0 (ground arith) in
      let e4 : a.text ≡ b.text = (eq_iff a.text b.text).0 (ground arith) in
      λ i. record { message_id = e1 i; sender_jid = e2 i; sender_name = e3 i; text = e4 i },
  λ h. rw h (
      ground
        (arith, eq_refl b.message_id, eq_refl b.sender_jid, eq_refl b.sender_name, eq_refl b.text)),
)

pub plain_quote-JsonLaws : JsonLaws plain_quote
plain_quote-JsonLaws = record { round_trip = λ q. refl; same_iff = same_quote_text_iff }

abbrev pub row : String → Status → ℤ → Row (List String) MessageQuote
row id status created = record {
  delivery_id = id;
  chat_jid = "a@s";
  text = "hello";
  message_id = "m1";
  status = status;
  error = none;
  created_at = created;
  mentions = "b@s" ∷ [];
  quote_json = none;
}

-- Two queued messages, the second of them older, and one that failed.
abbrev pub three_rows : List (Row (List String) MessageQuote)
three_rows = row "d1" queued (pos 20) ∷ row "d2" queued (pos 10) ∷ row "d3" failed (pos 5) ∷ []

pub three_rows-IsTable : IsTable three_rows
three_rows-IsTable =
    append-IsTable (row "d1" queued (pos 20) ∷ row "d2" queued (pos 10) ∷ [])
      (row "d3" failed (pos 5))
      (append-IsTable (row "d1" queued (pos 20) ∷ []) (row "d2" queued (pos 10))
        (append-IsTable [] (row "d1" queued (pos 20)) (λ id. omega arith) refl) refl)
      refl

pub three_rows-Readable : All (Readable plain_list plain_quote) three_rows
unfolding decode
three_rows-Readable = ((_, refl), ((_, refl), ((_, refl), tt)))

abbrev claimed_message : PendingTextMessage
claimed_message = record {
  quote = none;
  mentions = "b@s" ∷ [];
  delivery_id = "d2";
  chat_jid = "a@s";
  text = "hello";
  message_id = "m1";
}

abbrev after_claim : List (Row (List String) MessageQuote)
after_claim = row "d1" queued (pos 20) ∷ row "d2" sending (pos 10) ∷ row "d3" failed (pos 5) ∷ []

claim_of_three :
    claim_text_message plain_list plain_quote three_rows ≡ ok (after_claim, some claimed_message)
unfolding claim_text_message claim_row claimed first_queued decode decode_quote pending
claim_of_three = refl

claim_oldest_example :
    (r : Row (List String) MessageQuote) × Claims plain_list plain_quote three_rows after_claim
      claimed_message r
claim_oldest_example =
    claim_oldest plain_list plain_quote three_rows after_claim claimed_message three_rows-IsTable
      claim_of_three

step-Move_example :
    Move claim "d2"
      (find_where (has_id "d2") three_rows)
      (find_where (has_id "d2") (step plain_list plain_quote three_rows claim))
step-Move_example = step-Move plain_list plain_quote three_rows claim "d2" three_rows-IsTable

abbrev some_calls : List Op
some_calls =
    enqueue "d4" "a@s" "hi" "m4" (pos 30) [] none
    ∷ claim
    ∷ fail "d2" "offline"
    ∷ retry "d2"
    ∷ reopen
    ∷ claim
    ∷ complete "d2"
    ∷ discard "d3"
    ∷ []

enqueue-Outcome_example :
    Outcome plain_list plain_quote
      (new_row plain_list plain_quote "d9" "a@s" "new" "m9" (pos 40) [] none)
      three_rows
      (enqueue_text_message plain_list plain_quote "d9" "a@s" "new" "m9"
        (pos 40)
        []
        none
        three_rows)
enqueue-Outcome_example =
    enqueue-Outcome plain_list plain_quote plain_list-JsonLaws plain_quote-JsonLaws "d9" "a@s" "new"
      "m9" (pos 40) [] none three_rows three_rows-IsTable

claim_total_example :
    let rows = run plain_list plain_quote [] some_calls in
    (rows' : List (Row (List String) MessageQuote)) × (p : Option PendingTextMessage)
    × (claim_text_message plain_list plain_quote rows ≡ ok (rows', p))
    × ((p ≡ none) ↔ (exists_where (λ r. is_queued r.status) rows ≡ false))
claim_total_example =
    claim_total plain_list plain_quote plain_list-JsonLaws plain_quote-JsonLaws some_calls
