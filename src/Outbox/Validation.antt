-- ===== src/Outbox/Validation.antt =====
-- What a message has to satisfy before it is queued (crates/daemon/src/text_outbox.rs).
pub mod Accepted
pub mod Mentions
pub mod Examples
use Prim.Native.Nat.{Ordering}
use Prim.Native.Char.{Char, code}
use Prim.Native.String
use Prim.Native.String.{compare}
use omarchy_whatsapp.Prelude.{
  Bool, List, Option, String, [], eqb, false, if◌then◌else◌, leb, length, none, not, some, true, ℕ,
  ◌&&◌, ◌+◌, ◌==◌, ◌||◌, ◌∷◌,
}
use omarchy_whatsapp.Prelude.Result.{Result, ensure, err, ok, ◌>>=◌, ◌>>◌}
use omarchy_whatsapp.Prelude.Trim.{is_empty, is_white, trim}

-- MAX_DELIVERY_ID_BYTES and MAX_TEXT_BYTES
abbrev pub max_delivery_id_bytes : ℕ
max_delivery_id_bytes = 128

abbrev pub max_text_bytes : ℕ
max_text_bytes = 65536

pub data Invalid : Type 0 where
  id_empty id_too_large id_unsupported text_empty text_too_large : Invalid
  too_many_mentions mentions_need_group invalid_mention mention_absent : Invalid

-- The bytes of a character in UTF-8, and of a text.
abbrev pub char_len : ℕ → ℕ
char_len c = if leb c 0x7f then 1 else if leb c 0x7ff then 2 else if leb c 0xffff then 3 else 4

abbrev pub text_len : String → ℕ
text_len String.[] = 0
text_len (String.◌∷◌ c s) = char_len (code c) + text_len s

abbrev pub is_digit : ℕ → Bool
is_digit c = leb b'0' c && leb c b'9'

abbrev pub is_delivery_char : ℕ → Bool
is_delivery_char c =
    (leb b'a' c && leb c b'z')
    || ((leb b'A' c && leb c b'Z') || (is_digit c || (eqb c b'-' || (eqb c b'_' || eqb c b'.'))))

-- A test on every character; one that is not ASCII has a byte that fails such a test.
abbrev pub all_chars : (ℕ → Bool) → String → Bool
all_chars p String.[] = true
all_chars p (String.◌∷◌ c s) = p (code c) && all_chars p s

unfoldable pub validate_delivery_id : String → Result Invalid (Unit {0})
validate_delivery_id id = do
  ensure (not (is_empty id)) id_empty
  ensure (leb (text_len id) max_delivery_id_bytes) id_too_large
  ensure (all_chars is_delivery_char id) id_unsupported
  ok tt

unfoldable pub validate : String → String → Result Invalid String
unfolding validate_delivery_id
validate id text = do
  validate_delivery_id id
  ensure (not (is_empty (trim text))) text_empty
  ensure (leb (text_len (trim text)) max_text_bytes) text_too_large
  ok (trim text)

-- split_once('@').unwrap_or_default()
abbrev pub push : Char → String × String → String × String
push c (a, b) = (String.◌∷◌ c a, b)

abbrev pub pushed : Char → Option (String × String) → Option (String × String)
pushed c none = none
pushed c (some p) = some (push c p)

abbrev pub split_some : String → Option (String × String)
split_some String.[] = none
split_some (String.◌∷◌ c s) =
    let rest = split_some s in if eqb (code c) b'@' then some (String.[], s) else pushed c rest

abbrev pub halves : Option (String × String) → String × String
halves none = (String.[], String.[])
halves (some p) = p

unfoldable pub is_mention_jid : String → Bool
is_mention_jid jid =
    let (user, server) = halves (split_some jid) in
    not (is_empty user)
    && (all_chars is_digit user && (server == "s.whatsapp.net" || server == "lid"))

abbrev pub mention_token : String → String
mention_token jid = String.◌∷◌ "@" (halves (split_some jid)).0

-- What is behind a prefix of a text.
strip_prefix : String → String → Option String
strip_prefix String.[] text = some text
strip_prefix (String.◌∷◌ p ps) String.[] = none
strip_prefix (String.◌∷◌ p ps) (String.◌∷◌ c s) =
    let rest = strip_prefix ps s in if eqb (code c) (code p) then rest else none

abbrev may_precede : Option ℕ → Bool
may_precede none = true
may_precede (some c) = is_white c || (eqb c b'(' || (eqb c b'[' || eqb c b'{'))

abbrev pub no_texts : List String → Bool
no_texts [] = true
no_texts (k ∷ ks) = false

-- mentions.sort()
unfoldable pub insert_text : String → List String → List String
insert_text k [] = k ∷ []
insert_text k (x ∷ xs) =
    let rest = insert_text k xs in elim (compare x k) [ Ordering.lt ↦ x ∷ rest | _ ↦ k ∷ x ∷ xs ]

unfoldable pub sort_texts : List String → List String
unfolding insert_text
sort_texts [] = []
sort_texts (k ∷ ks) = insert_text k (sort_texts ks)

-- mentions.dedup()
unfoldable pub dedup_after : String → List String → List String
dedup_after k [] = []
dedup_after k (x ∷ xs) = let rest = dedup_after x xs in if x == k then rest else x ∷ rest

unfoldable pub dedup : List String → List String
unfolding dedup_after
dedup [] = []
dedup (k ∷ ks) = k ∷ dedup_after k ks

module _ (is_alphanumeric : ℕ → Bool) where
  may_follow : String → Bool
  may_follow String.[] = true
  may_follow (String.◌∷◌ c s) = not (is_alphanumeric (code c)) && not (eqb (code c) b'_')

  here_with : Option ℕ → Option String → Bool
  unfolding may_follow is_white
  here_with previous none = false
  here_with previous (some behind) = may_precede previous && may_follow behind

  -- match_indices(token).any(…): the matches of such a token do not overlap, since it has its one @ in front.
  unfoldable pub mentions_token : String → Option ℕ → String → Bool
  unfolding here_with strip_prefix
  mentions_token token previous String.[] = here_with previous (strip_prefix token String.[])
  mentions_token token previous (String.◌∷◌ c s) =
      here_with previous (strip_prefix token (String.◌∷◌ c s))
      || mentions_token token (some (code c)) s

  unfoldable pub check_mentions : String → List String → Result Invalid (Unit {0})
  unfolding is_mention_jid mentions_token
  check_mentions text [] = ok tt
  check_mentions text (jid ∷ jids) = do
    ensure (is_mention_jid jid) invalid_mention
    ensure (mentions_token (mention_token jid) none text) mention_absent
    check_mentions text jids

  unfoldable pub validate_mentions : Bool → String → List String → Result Invalid (List String)
  unfolding check_mentions sort_texts dedup
  validate_mentions chat_is_group text mentions = do
    ensure (leb (length mentions) 1024) too_many_mentions
    ensure (no_texts mentions || chat_is_group) mentions_need_group
    check_mentions text mentions
    ok (dedup (sort_texts mentions))
