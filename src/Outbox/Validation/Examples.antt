-- ===== src/Outbox/Validation/Examples.antt =====
-- Tests of the validation, and the theorems at concrete messages.
use omarchy_whatsapp.Prelude.{
  Bool, List, String, not, [], contains, leb, length, none, refl, true, ℕ, ◌&&◌, ◌||◌, ◌∷◌, ◌≡◌,
}
use omarchy_whatsapp.Prelude.Result.{err, ok}
use omarchy_whatsapp.Prelude.Trim.{trim}
use omarchy_whatsapp.Outbox.Validation.{
  id_unsupported, is_digit, is_mention_jid, mention_token, mentions_token, mention_absent,
  text_empty, validate, validate_mentions,
}
use omarchy_whatsapp.Outbox.Validation.Accepted.{Answers, validate-Answers}
use omarchy_whatsapp.Outbox.Validation.Mentions.{validate_mentions-accepted}

trimmed : validate "d-1" "  hello " ≡ ok "hello"
unfolding validate trim
trimmed = refl

blank : validate "d-1" " \n" ≡ err text_empty
unfolding validate trim
blank = refl

slashed : validate "d/1" "hello" ≡ err id_unsupported
unfolding validate
slashed = refl

validate-Answers_example : Answers "d-1" "  hello " (validate "d-1" "  hello ")
validate-Answers_example = validate-Answers "d-1" "  hello "

-- The letters and digits of ASCII.
abbrev ascii_alphanumeric : ℕ → Bool
ascii_alphanumeric c = is_digit c || ((leb b'a' c && leb c b'z') || (leb b'A' c && leb c b'Z'))

abbrev two_mentions : List String
two_mentions = "44@lid" ∷ "31@s.whatsapp.net" ∷ "44@lid" ∷ []

abbrev sorted_mentions : List String
sorted_mentions = "31@s.whatsapp.net" ∷ "44@lid" ∷ []

mentions_listed :
    validate_mentions ascii_alphanumeric true "@31 and (@44)" two_mentions ≡ ok sorted_mentions
unfolding validate_mentions
mentions_listed = refl

longer_number :
    validate_mentions ascii_alphanumeric true "@311" ("31@lid" ∷ []) ≡ err mention_absent
unfolding validate_mentions
longer_number = refl

validate_mentions-accepted_example :
    (leb (length two_mentions) 1024 ≡ true)
    × (contains "44@lid" sorted_mentions ≡ contains "44@lid" two_mentions)
    × ((not (contains "44@lid" two_mentions)
          || (true
              && (is_mention_jid "44@lid"
                  && mentions_token ascii_alphanumeric
                      (mention_token "44@lid")
                      none
                      "@31 and (@44)")))
        ≡ true)
validate_mentions-accepted_example =
    validate_mentions-accepted ascii_alphanumeric true "@31 and (@44)" two_mentions sorted_mentions
      "44@lid" mentions_listed
