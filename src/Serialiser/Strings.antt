-- ===== src/Serialiser/Strings.antt =====
-- The text that `write_string` of serialiser.rs appends, beside the grammar of strings.
use cjson_rs.Common.{
  ℕ, ◌/◌, ◌%◌, ◌≤◌, ◌<◌, List, [], ◌∷◌, ◌++◌, ◌≡◌, ◌≢◌, ◌⊎◌, inl, inr, refl, sym, ap, ◌∙◌, arith,
  Bytes, ◌==◌, if◌then◌else◌, append_assoc, append-nil, All,
}
use cjson_rs.Text.{encode_char, as_bytes}
use cjson_rs.Text.Utf8.{IsChar, IsText}
use cjson_rs.Tokeniser.StringGrammar.{
  HexDigit, Hex4, ShortEscape, CharText, plain, short, unicode, StringText, nil, cons, StringLexeme,
}
use cjson_rs.Serialiser.{hex_lower, fmt_04x, write_char, write_chars, write_string}

pub as_bytes-append : (x y : List ℕ) → as_bytes (x ++ y) ≡ as_bytes x ++ as_bytes y
unfolding as_bytes
as_bytes-append [] y = refl
as_bytes-append (c ∷ x) y =
    ap (◌++◌ (encode_char c)) (as_bytes-append x y)
    ∙ sym (append_assoc (encode_char c) (as_bytes x) (as_bytes y))

-- ASCII text is its own bytes
pub as_bytes_ascii : (x : List ℕ) → All (λ c. c < 0x80) x → as_bytes x ≡ x
unfolding as_bytes encode_char
as_bytes_ascii [] h = refl
as_bytes_ascii (c ∷ x) h = let k = h.0 in let ih = as_bytes_ascii x h.1 in ground arith

write_char_out : (out : List ℕ) (ch : ℕ) → write_char out ch ≡ out ++ write_char [] ch
unfolding write_char
write_char_out out ch = ground arith

-- the byte behind the backslash of a short escape
abbrev escape_byte : ℕ → ℕ
escape_byte ch =
    if ch == 0x0A
    then b'n'
    else if ch == 0x0D
    then b'r'
    else if ch == 0x09
    then b't'
    else if ch == 0x08
    then b'b'
    else if ch == 0x0C
    then b'f'
    else ch

-- the three forms in which a character is written
write_char_forms :
    (ch : ℕ)
    → (ShortEscape (escape_byte ch) ch × (write_char [] ch ≡ b'\\' ∷ escape_byte ch ∷ []))
      ⊎ (((ch < 0x20) × (write_char [] ch ≡ b'\\' ∷ b'u' ∷ fmt_04x ch))
          ⊎ ((0x20 ≤ ch) × (ch ≢ b'"') × (ch ≢ b'\\') × (write_char [] ch ≡ ch ∷ [])))
unfolding write_char
write_char_forms ch = ground arith

hex_lower-HexDigit : (d : ℕ) → d < 16 → HexDigit (hex_lower d) d × (hex_lower d < 0x80)
hex_lower-HexDigit d h = ground arith

fmt_04x-Hex4 : (c : ℕ) → c < 0x10000 → Hex4 c (fmt_04x c)
fmt_04x-Hex4 c h = record {
  b₁ = hex_lower (c / 4096 % 16);
  b₂ = hex_lower (c / 256 % 16);
  b₃ = hex_lower (c / 16 % 16);
  b₄ = hex_lower (c % 16);
  d₁ = c / 4096 % 16;
  d₂ = c / 256 % 16;
  d₃ = c / 16 % 16;
  d₄ = c % 16;
  hex₁ = (hex_lower-HexDigit (c / 4096 % 16) (omega arith)).0;
  hex₂ = (hex_lower-HexDigit (c / 256 % 16) (omega arith)).0;
  hex₃ = (hex_lower-HexDigit (c / 16 % 16) (omega arith)).0;
  hex₄ = (hex_lower-HexDigit (c % 16) (omega arith)).0;
  bytes = refl;
  value = omega arith;
}

write_char-CharText : (ch : ℕ) → IsChar ch → CharText ch (as_bytes (write_char [] ch))
write_char-CharText ch h = elim (write_char_forms ch) [
  | inl (s, e) ↦ short (escape_byte ch) s (ap as_bytes e ∙ as_bytes_ascii _ (ground arith))
  | inr (inl (s, e)) ↦ unicode (fmt_04x ch) (fmt_04x-Hex4 ch (omega arith)) h (
      ap as_bytes e
      ∙ as_bytes_ascii _ (
        omega arith,
        (
          omega arith,
          (
            (hex_lower-HexDigit (ch / 4096 % 16) (omega arith)).1,
            (
              (hex_lower-HexDigit (ch / 256 % 16) (omega arith)).1,
              (
                (hex_lower-HexDigit (ch / 16 % 16) (omega arith)).1,
                ((hex_lower-HexDigit (ch % 16) (omega arith)).1, tt),
              ),
            ),
          ),
        ),
      ))
  | inr (inr (s, q, b, e)) ↦
      plain h s q b (ap as_bytes e ∙ unfold as_bytes in append-nil (encode_char ch))
]

-- the text of all the characters
abbrev escaped : List ℕ → List ℕ
escaped [] = []
escaped (ch ∷ s) = write_char [] ch ++ escaped s

write_chars_out : (out s : List ℕ) → write_chars out s ≡ out ++ escaped s
unfolding write_chars
write_chars_out out [] = sym (append-nil out)
write_chars_out out (ch ∷ s) =
    rw (write_chars, write_char_out out ch)
      (write_chars_out (out ++ write_char [] ch) s
        ∙ append_assoc out (write_char [] ch) (escaped s))

escaped-StringText : (s : List ℕ) → IsText s → StringText s (as_bytes (escaped s))
escaped-StringText [] h = unfold as_bytes in nil
escaped-StringText (ch ∷ s) h =
    rw (as_bytes-append (write_char [] ch) (escaped s))
      (cons (write_char-CharText ch h.0) (escaped-StringText s h.1))

abbrev pub quoted : List ℕ → List ℕ
quoted s = b'"' ∷ (escaped s ++ b'"' ∷ [])

pub write_string_out : (out s : List ℕ) → write_string out s ≡ out ++ quoted s
unfolding write_string
write_string_out out s = rw (write_string, write_chars_out (out ++ b'"' ∷ []) s) (simp append_assoc)

pub quoted-StringLexeme : (s : List ℕ) → IsText s → StringLexeme s (as_bytes (quoted s))
quoted-StringLexeme s h = record {
  body = as_bytes (escaped s);
  text = escaped-StringText s h;
  bytes =
      as_bytes-append (b'"' ∷ []) (escaped s ++ b'"' ∷ [])
      ∙ ap (◌++◌ (as_bytes (b'"' ∷ []))) (as_bytes-append (escaped s) (b'"' ∷ []))
      ∙ ap (λ (z : Bytes). z ++ (as_bytes (escaped s) ++ z))
          (as_bytes_ascii (b'"' ∷ []) (omega arith));
}
