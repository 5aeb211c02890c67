-- ===== src/Outbox/Validation/Mentions.antt =====
-- What validate_mentions accepts and what it hands on (crates/daemon/src/text_outbox.rs).
use omarchy_whatsapp.Prelude.{
  Bool, Bool-cases, List, String, [], arith, contains, eq_iff, leb, length, none, not, refl, true,
  ℕ, ◌&&◌, ◌||◌, ◌≡◌, ◌==◌, ◌∷◌, ◌∙◌, inl, inr,
}
use omarchy_whatsapp.Prelude.Result.{Result-cases, ok}
use omarchy_whatsapp.Outbox.Validation.{
  check_mentions, dedup, dedup_after, insert_text, is_mention_jid, mention_token, mentions_token,
  no_texts, sort_texts, validate_mentions,
}

-- Sorting keeps every text, and so does removing the neighbours that are the same.
insert_text-contains :
    (k x : String) → (xs : List String) → contains k (insert_text x xs) ≡ (x == k || contains k xs)
unfolding insert_text
insert_text-contains k x [] = refl
insert_text-contains k x (y ∷ ys) = ground (arith, insert_text-contains k x ys)

sort_texts-contains : (k : String) → (xs : List String) → contains k (sort_texts xs) ≡ contains k xs
unfolding sort_texts
sort_texts-contains k [] = refl
sort_texts-contains k (x ∷ xs) =
    insert_text-contains k x (sort_texts xs) ∙ ground (arith, sort_texts-contains k xs)

dedup_after-contains :
    (k x : String)
    → (xs : List String) → (x == k || contains k (dedup_after x xs)) ≡ (x == k || contains k xs)
unfolding dedup_after
dedup_after-contains k x [] = refl
dedup_after-contains k x (y ∷ ys) = ground (arith, dedup_after-contains k y ys, eq_iff y x)

dedup-contains : (k : String) → (xs : List String) → contains k (dedup xs) ≡ contains k xs
unfolding dedup
dedup-contains k [] = refl
dedup-contains k (x ∷ xs) = dedup_after-contains k x xs

module _ (is_alphanumeric : ℕ → Bool) where
  check_mentions-each :
      (text : String)
      → (jids : List String) → check_mentions is_alphanumeric text jids ≡ ok tt
      → (k : String) → contains k jids ≡ true
      → (is_mention_jid k ≡ true)
        × (mentions_token is_alphanumeric (mention_token k) none text ≡ true)
  unfolding check_mentions
  check_mentions-each text [] h k among = absurd (ground arith)
  check_mentions-each text (jid ∷ jids) h k among = elim (Bool-cases (is_mention_jid jid)) [
    | inr invalid ↦ absurd (ground arith)
    | inl valid ↦ elim (Bool-cases (mentions_token is_alphanumeric (mention_token jid) none text)) [
      | inr missing ↦ absurd (ground arith)
      | inl present ↦ elim (Bool-cases (jid == k)) [
        | inl own ↦ rw (← (eq_iff jid k).0 own) (valid, present)
        | inr other ↦ check_mentions-each text jids (ground arith) k (ground arith)
      ]
    ]
  ]

  -- The mentions that are handed on are those that were given; there are 1024 at most, in a group chat where there is
  -- one, and each is a user's JID of which the text holds the token.
  pub validate_mentions-accepted :
      (group : Bool) (text : String) (mentions listed : List String) (k : String)
      → validate_mentions is_alphanumeric group text mentions ≡ ok listed
      → (leb (length mentions) 1024 ≡ true)
        × (contains k listed ≡ contains k mentions)
        × ((not (contains k mentions)
              || (group
                  && (is_mention_jid k
                      && mentions_token is_alphanumeric (mention_token k) none text)))
            ≡ true)
  unfolding validate_mentions
  validate_mentions-accepted group text mentions listed k h =
      elim (Bool-cases (leb (length mentions) 1024)) [
        | inr many ↦ absurd (ground arith)
        | inl few ↦ elim (Bool-cases (no_texts mentions || group)) [
          | inr alone ↦ absurd (ground arith)
          | inl allowed ↦ elim (Result-cases (check_mentions is_alphanumeric text mentions)) [
            | inr (e, bad) ↦ absurd (ground arith)
            | inl (done, checked) ↦ (
              few,
              rw (← handed few allowed checked)
                  (dedup-contains k (sort_texts mentions) ∙ sort_texts-contains k mentions),
              elim (Bool-cases (contains k mentions)) [
                | inr apart ↦ rw apart refl
                | inl among ↦
                    let (valid, present) = check_mentions-each text mentions checked k among in
                    rw (among, in_group among allowed, valid, present) refl
              ],
            )
          ]
        ]
      ]
    where
      handed :
          leb (length mentions) 1024 ≡ true
          → (no_texts mentions || group) ≡ true
          → check_mentions is_alphanumeric text mentions ≡ ok tt
          → dedup (sort_texts mentions) ≡ listed
      handed few allowed checked = ground arith

      in_group : contains k mentions ≡ true → (no_texts mentions || group) ≡ true → group ≡ true
      in_group among allowed = ground arith
