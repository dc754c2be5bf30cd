-- ===== src/Text.antt =====
-- What the code uses of Rust's `char` and `str`. A `char` is its code point, a `String` the list
-- of its `char`s, and its bytes are UTF-8.
pub mod Utf8
use cjson_rs.Common.{
  ℕ, zero, suc, ◌+◌, ◌-◌, ◌*◌, ◌/◌, ◌%◌, Bool, ◌&&◌, ◌||◌, Option, none, some, List, [], ◌∷◌, ◌++◌,
  Bytes, ltb, ◌==◌, within, if◌then◌else◌, length,
}

-- a Unicode scalar value
abbrev pub is_char : ℕ → Bool
is_char c = ltb c 0xD800 || within 0xE000 0x10FFFF c

-- `char::from_u32`
abbrev pub from_u32 : ℕ → Option ℕ
from_u32 c = if is_char c then some c else none

-- the bytes of one `char`
unfoldable pub encode_char : ℕ → Bytes
encode_char c =
    if ltb c 0x80
    then c ∷ []
    else if ltb c 0x800
    then (0xC0 + c / 64) ∷ (0x80 + c % 64) ∷ []
    else if ltb c 0x10000
    then (0xE0 + c / 4096) ∷ (0x80 + c / 64 % 64) ∷ (0x80 + c % 64) ∷ []
    else (0xF0 + c / 262144) ∷ (0x80 + c / 4096 % 64) ∷ (0x80 + c / 64 % 64) ∷ (0x80 + c % 64) ∷ []

-- `str::as_bytes`
unfoldable pub as_bytes : List ℕ → Bytes
as_bytes [] = []
as_bytes (c ∷ cs) = encode_char c ++ as_bytes cs

abbrev is_cont : ℕ → Bool
is_cont b = within 0x80 0xBF b

abbrev pub tail_bits : ℕ → ℕ
tail_bits b = b - 0x80

-- The well-formed sequences of the Unicode standard (table 3-7): no overlong form, no surrogate,
-- nothing above U+10FFFF.
decode_two : ℕ → Bytes → Option (ℕ × Bytes)
decode_two a [] = none
decode_two a (b ∷ r) = if is_cont b then some ((a - 0xC0) * 64 + tail_bits b, r) else none

second_of_three : ℕ → ℕ → Bool
second_of_three a b =
    if a == 0xE0 then within 0xA0 0xBF b else if a == 0xED then within 0x80 0x9F b else is_cont b

decode_three : ℕ → Bytes → Option (ℕ × Bytes)
decode_three a (b ∷ c ∷ r) =
    if second_of_three a b && is_cont c
    then some ((a - 0xE0) * 4096 + tail_bits b * 64 + tail_bits c, r)
    else none
decode_three a _ = none

second_of_four : ℕ → ℕ → Bool
second_of_four a b =
    if a == 0xF0 then within 0x90 0xBF b else if a == 0xF4 then within 0x80 0x8F b else is_cont b

decode_four : ℕ → Bytes → Option (ℕ × Bytes)
decode_four a (b ∷ c ∷ d ∷ r) =
    if second_of_four a b && (is_cont c && is_cont d)
    then some ((a - 0xF0) * 262144 + tail_bits b * 4096 + tail_bits c * 64 + tail_bits d, r)
    else none
decode_four a _ = none

-- the first `char` of a byte string, and the bytes after it
unfoldable pub decode_char : Bytes → Option (ℕ × Bytes)
unfolding decode_two second_of_three decode_three second_of_four decode_four
decode_char [] = none
decode_char (a ∷ r) =
    if ltb a 0x80
    then some (a, r)
    else if within 0xC2 0xDF a
    then decode_two a r
    else if within 0xE0 0xEF a
    then decode_three a r
    else if within 0xF0 0xF4 a
    then decode_four a r
    else none

decode_all : ℕ → Bytes → Option (List ℕ)
decode_all n [] = some []
decode_all zero (a ∷ r) = none
decode_all (suc n) (a ∷ r) = elim (decode_char (a ∷ r)) [
  | none ↦ none
  | some (c, rest) ↦ elim (decode_all n rest) [ none ↦ none | some cs ↦ some (c ∷ cs) ]
]

-- `core::str::from_utf8`, with the `char`s of the result. Every `char` has a byte at least, so
-- the fuel is enough.
unfoldable pub from_utf8 : Bytes → Option (List ℕ)
unfolding decode_all
from_utf8 bs = decode_all (length bs) bs
