-- ===== src/Assets/Avatars.antt =====
-- Which jid an avatar file belongs to (avatar_fingerprints).
use omarchy_whatsapp.Prelude.{
  Bool, List, Option, [], ap, arith, eqb, false, if◌then◌else◌, leb, length, ltb, none, refl, some,
  suc, true, zero, ℕ, ◌&&◌, ◌%◌, ◌*◌, ◌+◌, ◌-◌, ◌/◌, ◌<◌, ◌∷◌, ◌∙◌, ◌≡◌,
}
use omarchy_whatsapp.Prelude.Bytes.{IsByte}
use omarchy_whatsapp.Prelude.Table.{All}
use omarchy_whatsapp.Assets.{ascii, avatar_name, hex_digit, hex_key, same_bytes}

-- The result of the loop over the pairs of digits: the bytes, no such bytes, or the slice of a text inside a
-- character, which panics.
pub data Decoded : Type 0 where
  decoded : List ℕ → Decoded
  undecoded panicked : Decoded

-- char::to_digit(16)
abbrev pub hex_value : ℕ → Option ℕ
hex_value c =
    if leb b'0' c && leb c b'9'
    then some (c - b'0')
    else if leb b'a' c && leb c b'f'
    then some (c - 87)
    else if leb b'A' c && leb c b'F'
    then some (c - 55)
    else none

abbrev two_digits : Option ℕ → Option ℕ → Option ℕ
two_digits none low = none
two_digits (some high) none = none
two_digits (some high) (some low) = some (16 * high + low)

-- u8::from_str_radix of two bytes, which takes a sign in front.
abbrev pub hex_byte : ℕ → ℕ → Option ℕ
hex_byte a b = if eqb a b'+' then hex_value b else two_digits (hex_value a) (hex_value b)

-- A byte inside a character.
abbrev pub continues : List ℕ → Bool
continues [] = false
continues (b ∷ bytes) = leb 0x80 b && leb b 0xbf

abbrev with_byte : Option ℕ → Decoded → Decoded
with_byte none rest = undecoded
with_byte (some b) (decoded bytes) = decoded (b ∷ bytes)
with_byte (some b) undecoded = undecoded
with_byte (some b) panicked = panicked

unfoldable pub decode_pairs : List ℕ → Decoded
decode_pairs [] = decoded []
decode_pairs (a ∷ []) = undecoded
decode_pairs (a ∷ b ∷ bytes) =
    let rest = decode_pairs bytes in
    if continues bytes then panicked else with_byte (hex_byte a b) rest

-- String::from_utf8: how many bytes are missing of the character that was begun, and the range of the next one.
abbrev lead_of : ℕ → Option (ℕ × ℕ × ℕ)
lead_of b =
    if leb b 0x7f
    then some (0, 0x80, 0xbf)
    else if leb 0xc2 b && leb b 0xdf
    then some (1, 0x80, 0xbf)
    else if eqb b 0xe0
    then some (2, 0xa0, 0xbf)
    else if eqb b 0xed
    then some (2, 0x80, 0x9f)
    else if leb 0xe1 b && leb b 0xef
    then some (2, 0x80, 0xbf)
    else if eqb b 0xf0
    then some (3, 0x90, 0xbf)
    else if eqb b 0xf4
    then some (3, 0x80, 0x8f)
    else if leb 0xf1 b && leb b 0xf3
    then some (3, 0x80, 0xbf)
    else none

-- `none` is a byte that cannot stand there.
abbrev next_of : ℕ × ℕ × ℕ → ℕ → Option (ℕ × ℕ × ℕ)
next_of (zero, low, high) b = lead_of b
next_of (suc n, low, high) b = if leb low b && leb b high then some (n, 0x80, 0xbf) else none

is_utf8_from : Option (ℕ × ℕ × ℕ) → List ℕ → Bool
is_utf8_from none bytes = false
is_utf8_from (some state) [] = eqb state.0 0
is_utf8_from (some state) (b ∷ bytes) = is_utf8_from (next_of state b) bytes

unfoldable pub is_utf8 : List ℕ → Bool
unfolding is_utf8_from
is_utf8 = is_utf8_from (some (0, 0x80, 0xbf))

abbrev checked_text : Decoded → Decoded
checked_text (decoded bytes) = if is_utf8 bytes then decoded bytes else undecoded
checked_text undecoded = undecoded
checked_text panicked = panicked

-- What stands before the extension img, where that is the extension: no further dot, and a stem.
abbrev before_img : List ℕ → Option (List ℕ)
before_img [] = none
before_img (b ∷ bytes) =
    let rest = before_img bytes in
    if same_bytes (b ∷ bytes) (ascii ".img") then some [] else with_front b rest
  where
    with_front : ℕ → Option (List ℕ) → Option (List ℕ)
    with_front b none = none
    with_front b (some stem) = some (b ∷ stem)

stem_jid : Option (List ℕ) → Decoded
unfolding decode_pairs is_utf8
stem_jid none = undecoded
stem_jid (some []) = undecoded
stem_jid (some (b ∷ stem)) =
    if is_utf8 (b ∷ stem) && eqb (length (b ∷ stem) % 2) 0
    then checked_text (decode_pairs (b ∷ stem))
    else undecoded

-- The jid under which a file is listed; `undecoded` means that the file is passed over.
unfoldable pub fingerprint_jid : List ℕ → Decoded
unfolding stem_jid
fingerprint_jid name = stem_jid (before_img name)

hex_value-hex_digit : (n : ℕ) → n < 16 → hex_value (hex_digit n) ≡ some n
hex_value-hex_digit n h = ground arith

hex_digit_sign : (n : ℕ) → n < 16 → eqb (hex_digit n) b'+' ≡ false
hex_digit_sign n h = ground arith

hex_byte-hex_digit :
    (b : ℕ) → IsByte b → hex_byte (hex_digit (b / 16)) (hex_digit (b % 16)) ≡ some b
hex_byte-hex_digit b h =
    rw
      (
        hex_digit_sign (b / 16) (omega arith),
        hex_value-hex_digit (b / 16) (omega arith),
        hex_value-hex_digit (b % 16) (omega arith),
      )
      (ap some (omega arith))

continues-hex_key : (bytes : List ℕ) → All IsByte bytes → continues (hex_key bytes) ≡ false
continues-hex_key [] h = refl
continues-hex_key (b ∷ bytes) h = ground arith

decode_pairs-hex_key :
    (bytes : List ℕ) → All IsByte bytes → decode_pairs (hex_key bytes) ≡ decoded bytes
unfolding decode_pairs
decode_pairs-hex_key [] h = refl
decode_pairs-hex_key (b ∷ bytes) h =
    rw (continues-hex_key bytes h.1, hex_byte-hex_digit b h.0, decode_pairs-hex_key bytes h.1) refl

hex_digit_dot : (n : ℕ) → eqb (hex_digit n) b'.' ≡ false
hex_digit_dot n = ground arith

before_img-avatar_name : (jid : List ℕ) → before_img (avatar_name jid) ≡ some (hex_key jid)
before_img-avatar_name [] = refl
before_img-avatar_name (b ∷ jid) =
    rw (hex_digit_dot (b / 16), hex_digit_dot (b % 16), before_img-avatar_name jid) refl

hex_key_even : (bytes : List ℕ) → eqb (length (hex_key bytes) % 2) 0 ≡ true
hex_key_even [] = refl
hex_key_even (b ∷ bytes) = ground (arith, hex_key_even bytes)

is_utf8-hex_digit : (n : ℕ) (rest : List ℕ) → n < 16 → is_utf8 (hex_digit n ∷ rest) ≡ is_utf8 rest
unfolding is_utf8
is_utf8-hex_digit n rest h =
    let low : leb (hex_digit n) 0x7f ≡ true = ground arith in
    let next : lead_of (hex_digit n) ≡ some (0, 0x80, 0xbf) = rw low refl in
    ap (λ state. is_utf8_from state rest) next

is_utf8-hex_key : (bytes : List ℕ) → All IsByte bytes → is_utf8 (hex_key bytes) ≡ true
unfolding is_utf8
is_utf8-hex_key [] h = refl
is_utf8-hex_key (b ∷ bytes) h =
    is_utf8-hex_digit (b / 16) (hex_digit (b % 16) ∷ hex_key bytes) (omega arith)
    ∙ is_utf8-hex_digit (b % 16) (hex_key bytes) (omega arith)
    ∙ is_utf8-hex_key bytes h.1

-- The avatar file of a jid is listed under that jid again, for every jid that is not empty.
pub fingerprint_jid-avatar_name :
    (jid : List ℕ)
    → All IsByte jid
    → is_utf8 jid ≡ true
    → ltb 0 (length jid) ≡ true
    → fingerprint_jid (avatar_name jid) ≡ decoded jid
unfolding fingerprint_jid
fingerprint_jid-avatar_name [] h text long = cc
fingerprint_jid-avatar_name (b ∷ jid) h text long =
    rw
      (
        before_img-avatar_name (b ∷ jid),
        is_utf8-hex_key (b ∷ jid) h,
        hex_key_even (b ∷ jid),
        decode_pairs-hex_key (b ∷ jid) h,
        text,
      )
      refl
