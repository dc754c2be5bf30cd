-- ===== src/Tokeniser/Strings.antt =====
-- tokeniser.rs: string tokens, their escapes, and the decoding of UTF-8.
use cjson_rs.Common.{
  ℕ, zero, suc, ◌+◌, ◌-◌, ◌*◌, ◌%◌, ◌^◌, Bool, false, ◌&&◌, Option, none, some, List, [], ◌∷◌, ◌++◌,
  ltb, leb, ◌==◌, within, if◌then◌else◌, length, take, drop, head?, bit_or, not,
}
use cjson_rs.Error.{
  Position, Result, ok, err, out_of_fuel, ok_or, ◌>>=◌, unexpected_char, unexpected_eof,
  invalid_escape, invalid_unicode_escape, invalid_surrogate_pair, invalid_utf8,
}
use cjson_rs.Text.{from_u32, from_utf8}
use cjson_rs.Tokeniser.Cursor.{Tokeniser, peek, peek_at, advance, rest}

-- `u32` arithmetic, with its wrap-around
abbrev pub add32 : ℕ → ℕ → ℕ
add32 a b = (a + b) % 2 ^ 32

abbrev pub sub32 : ℕ → ℕ → ℕ
sub32 a b = (a + 2 ^ 32 - b) % 2 ^ 32

abbrev pub shl32 : ℕ → ℕ → ℕ
shl32 a k = a * 2 ^ k % 2 ^ 32

-- the `match` on a digit in `read_hex4`
unfoldable pub hex_digit : ℕ → Option ℕ
hex_digit b =
    if within b'0' b'9' b
    then some (b - b'0')
    else if within b'a' b'f' b
    then some (b - b'a' + 10)
    else if within b'A' b'F' b
    then some (b - b'A' + 10)
    else none

unfoldable pub hex_loop : ℕ → ℕ → Position → Tokeniser → Result (ℕ × Tokeniser)
hex_loop zero val start t = ok (val, t)
hex_loop (suc n) val start t = do
  b ← ok_or (peek t) (unexpected_eof start)
  d ← ok_or (hex_digit b) (invalid_unicode_escape start)
  hex_loop n (bit_or (shl32 val 4) d) start (advance t)

unfoldable pub read_hex4 : Position → Tokeniser → Result (ℕ × Tokeniser)
read_hex4 start t = hex_loop 4 0 start t

-- the pattern `(Some(b'\\'), Some(b'u'))`
abbrev pub is_unicode_mark : Option ℕ → Option ℕ → Bool
is_unicode_mark (some a) (some b) = a == b'\\' && b == b'u'
is_unicode_mark _ _ = false

-- `0x10000 + ((high - 0xD800) << 10) + (low - 0xDC00)`
unfoldable pub combine : ℕ → ℕ → ℕ
combine high low = add32 (add32 0x10000 (shl32 (sub32 high 0xD800) 10)) (sub32 low 0xDC00)

unfoldable pub read_low_surrogate : Position → ℕ → Tokeniser → Result (ℕ × Tokeniser)
read_low_surrogate start high t = do
  (low, t') ← read_hex4 start (advance (advance t))
  if not (within 0xDC00 0xDFFF low)
      then err (invalid_surrogate_pair start)
      else do c ← ok_or (from_u32 (combine high low)) (invalid_surrogate_pair start); ok (c, t')

unfoldable pub read_unicode_escape : Position → Tokeniser → Result (ℕ × Tokeniser)
read_unicode_escape start t = do
  (high, t') ← read_hex4 start t
  if within 0xD800 0xDBFF high
      then (if is_unicode_mark (peek t') (peek_at t' 1)
          then read_low_surrogate start high t'
          else err (invalid_surrogate_pair start))
      else if within 0xDC00 0xDFFF high
      then err (invalid_surrogate_pair start)
      else do c ← ok_or (from_u32 high) (invalid_unicode_escape start); ok (c, t')

-- the `match` on the byte behind a backslash
unfoldable pub unescape : ℕ → Position → Tokeniser → Result (ℕ × Tokeniser)
unescape esc pos t =
    if esc == b'"'
    then ok (b'"', t)
    else if esc == b'\\'
    then ok (b'\\', t)
    else if esc == b'/'
    then ok (b'/', t)
    else if esc == b'b'
    then ok (0x08, t)
    else if esc == b'f'
    then ok (0x0C, t)
    else if esc == b'n'
    then ok (b'\n', t)
    else if esc == b'r'
    then ok (b'\r', t)
    else if esc == b't'
    then ok (b'\t', t)
    else if esc == b'u'
    then read_unicode_escape pos t
    else err (invalid_escape pos)

unfoldable pub read_escape : Tokeniser → Result (ℕ × Tokeniser)
read_escape t = do
  esc ← ok_or (peek (advance t)) (unexpected_eof t.pos)
  unescape esc t.pos (advance (advance t))

-- the length that the first byte of a sequence announces
unfoldable pub utf8_len : ℕ → Option ℕ
utf8_len first =
    if leb first 0x7F
    then some 1
    else if within 0xC2 0xDF first
    then some 2
    else if within 0xE0 0xEF first
    then some 3
    else if within 0xF0 0xF4 first
    then some 4
    else none

-- `Position` behind a character of `n` bytes: one column, `n` bytes of offset
abbrev pub jump : ℕ → Tokeniser → Tokeniser
jump n t = record t {
  pos = record { line = t.pos.line; column = t.pos.column + 1; offset = t.pos.offset + n };
}

unfoldable pub read_utf8_char : Tokeniser → Result (ℕ × Tokeniser)
read_utf8_char t = do
  first ← ok_or (peek t) (unexpected_eof t.pos)
  len ← ok_or (utf8_len first) (invalid_utf8 t.pos)
  if ltb (length t.input) (t.pos.offset + len) then err (invalid_utf8 t.pos) else do
    s ← ok_or (from_utf8 (take len (drop t.pos.offset t.input))) (invalid_utf8 t.pos)
    ch ← ok_or (head? s) (invalid_utf8 t.pos)
    ok (ch, jump len t)

-- One round of the loop in `read_string`: it returns, or it goes on with a longer `out`.
pub data Round : Type 0 where
  closed : List ℕ → Tokeniser → Round
  more : List ℕ → Tokeniser → Round

abbrev pub push_char : List ℕ → ℕ × Tokeniser → Result Round
push_char out (c, t) = ok (more (out ++ c ∷ []) t)

-- the `match` on the byte at the cursor
unfoldable pub string_byte : ℕ → List ℕ → Tokeniser → Result Round
string_byte b out t =
    if b == b'"'
    then ok (closed out (advance t))
    else if b == b'\\'
    then read_escape t >>= push_char out
    else if leb b 0x1F
    then err (unexpected_char b t.pos)
    else if leb b 0x7F
    then ok (more (out ++ b ∷ []) (advance t))
    else read_utf8_char t >>= push_char out

unfoldable pub string_loop : ℕ → Position → List ℕ → Tokeniser → Result (List ℕ × Tokeniser)
string_loop zero start out t = out_of_fuel
string_loop (suc f) start out t = do
  b ← ok_or (peek t) (unexpected_eof start)
  r ← string_byte b out t
  elim r [ closed s t' ↦ ok (s, t') | more out' t' ↦ string_loop f start out' t' ]

-- Every round takes a byte at least, so the bytes that are left are fuel enough.
unfoldable pub read_string : Tokeniser → Result (List ℕ × Tokeniser)
read_string t = string_loop (suc (length (rest t))) t.pos [] (advance t)
