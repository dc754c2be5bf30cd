-- ===== src/Tokeniser/Numbers.antt =====
-- tokeniser.rs: `read_number`, cut at the blank lines of its body.
use cjson_rs.Common.{ℕ, ◌-◌, Bool, ◌||◌, Bytes, ◌==◌, within, if◌then◌else◌, take, drop}
use cjson_rs.Error.{Position, Result, ok, err, ok_or, ◌>>=◌, invalid_number, number_out_of_range}
use cjson_rs.Number.{Float}
use cjson_rs.Number.Grammar.{is_digit, is_exp_mark, is_point}
use cjson_rs.Token.{Token, number}
use cjson_rs.Tokeniser.Cursor.{Tokeniser, peek, advance, peek_is, skip_all}

abbrev pub is_sign : ℕ → Bool
is_sign b = b == b'+' || b == b'-'

-- one byte, if the test holds of it
abbrev pub skip_if : (ℕ → Bool) → Tokeniser → Tokeniser
skip_if p t = if peek_is p (peek t) then advance t else t

-- the digits of a fraction or an exponent, of which there is one at least
unfoldable pub read_digits : Position → Tokeniser → Result Tokeniser
read_digits start t =
    if peek_is is_digit (peek t) then ok (skip_all is_digit t) else err (invalid_number start)

unfoldable pub read_int : Position → Tokeniser → Result Tokeniser
read_int start t =
    if peek_is (λ b. b == b'0') (peek t)
    then ok (advance t)
    else if peek_is (within b'1' b'9') (peek t)
    then ok (skip_all is_digit (advance t))
    else err (invalid_number start)

unfoldable pub read_frac : Position → Tokeniser → Result Tokeniser
read_frac start t = if peek_is is_point (peek t) then read_digits start (advance t) else ok t

unfoldable pub read_exp : Position → Tokeniser → Result Tokeniser
read_exp start t =
    if peek_is is_exp_mark (peek t) then read_digits start (skip_if is_sign (advance t)) else ok t

-- the cursor behind the longest number at `t`
unfoldable pub scan_number : Tokeniser → Result Tokeniser
scan_number t = do
  int ← read_int t.pos (skip_if (λ b. b == b'-') t)
  frac ← read_frac t.pos int
  read_exp t.pos frac

-- `&self.input[start_off..end_off]`
abbrev pub slice : Tokeniser → Tokeniser → Bytes
slice t t' = take (t'.pos.offset - t.pos.offset) (drop t.pos.offset t.input)

module _ {F : Type 0} (f64 : Float F) where
  open f64 use {is_finite, from_str}

  -- The slice is ASCII, so that `from_utf8` returns it; it goes to `parse` as it is.
  unfoldable pub convert : Position → Bytes → Result F
  convert start s = do
    n ← ok_or (from_str s) (invalid_number start)
    if is_finite n then ok n else err (number_out_of_range start)

  unfoldable pub read_number : Tokeniser → Result (Token F × Tokeniser)
  read_number t = do t' ← scan_number t; n ← convert t.pos (slice t t'); ok (number n, t')
