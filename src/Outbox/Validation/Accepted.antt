-- ===== src/Outbox/Validation/Accepted.antt =====
-- What validate accepts, and what it answers where it refuses
-- (crates/daemon/src/text_outbox.rs, validate_delivery_id and validate).
use omarchy_whatsapp.Prelude.{Bool-cases, String, false, leb, refl, true, ◌≡◌, inl, inr}
use omarchy_whatsapp.Prelude.Result.{Result, err, ok}
use omarchy_whatsapp.Prelude.Trim.{is_empty, trim, trim_idem}
use omarchy_whatsapp.Outbox.Validation.{
  Invalid, all_chars, id_empty, id_too_large, id_unsupported, is_delivery_char, text_empty,
  text_len, text_too_large, validate, validate_delivery_id,
}

-- The limits of a delivery ID and of a trimmed text.
abbrev pub IsDeliveryId : String → Type 0
IsDeliveryId id =
    (is_empty id ≡ false) × (leb (text_len id) 128 ≡ true) × (all_chars is_delivery_char id ≡ true)

abbrev pub IsText : String → Type 0
IsText text = (trim text ≡ text) × (is_empty text ≡ false) × (leb (text_len text) 65536 ≡ true)

-- What is wrong with a delivery ID and a text that one of the messages names.
abbrev pub Fails : Invalid → String → String → Type 0
Fails id_empty id text = is_empty id ≡ true
Fails id_too_large id text = (is_empty id ≡ false) × (leb (text_len id) 128 ≡ false)
Fails id_unsupported id text =
    (is_empty id ≡ false) × (leb (text_len id) 128 ≡ true) × (all_chars is_delivery_char id ≡ false)
Fails text_empty id text = IsDeliveryId id × (is_empty (trim text) ≡ true)
Fails text_too_large id text =
    IsDeliveryId id × (is_empty (trim text) ≡ false) × (leb (text_len (trim text)) 65536 ≡ false)
Fails _ id text = ⊥

abbrev pub Answers : String → String → Result Invalid String → Type 0
Answers id text (ok shown) = IsDeliveryId id × IsText shown × (shown ≡ trim text)
Answers id text (err e) = Fails e id text

-- An accepted text is the given one without the white space around it, under the limits, with a valid delivery ID; an
-- error names the first limit that the ID or the trimmed text does not meet.
pub validate-Answers : (id text : String) → Answers id text (validate id text)
unfolding validate validate_delivery_id
validate-Answers id text = elim (Bool-cases (is_empty id)) [
  | inl e ↦ rw e e
  | inr e ↦ elim (Bool-cases (leb (text_len id) 128)) [
    | inr l ↦ rw (e, l) (e, l)
    | inl l ↦ elim (Bool-cases (all_chars is_delivery_char id)) [
      | inr a ↦ rw (e, l, a) (e, l, a)
      | inl a ↦ elim (Bool-cases (is_empty (trim text))) [
        | inl n ↦ rw (e, l, a, n) ((e, l, a), n)
        | inr n ↦ elim (Bool-cases (leb (text_len (trim text)) 65536)) [
          | inr s ↦ rw (e, l, a, n, s) ((e, l, a), n, s)
          | inl s ↦ rw (e, l, a, n, s) ((e, l, a), (trim_idem text, n, s), refl)
        ]
      ]
    ]
  ]
]
