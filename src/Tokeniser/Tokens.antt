-- ===== src/Tokeniser/Tokens.antt =====
-- tokeniser.rs: literals, one token, and the loops of `tokenise` and `tokenise_prefix`.
use cjson_rs.Common.{
  ℕ, zero, suc, ◌||◌, List, [], ◌∷◌, ◌++◌, Bytes, ◌==◌, within, if◌then◌else◌, length,
}
use cjson_rs.Error.{
  Position, Result, ok, err, panicked, out_of_fuel, ok_or, ◌>>=◌, unexpected_char, unexpected_eof,
  invalid_literal,
}
use cjson_rs.Number.{Float}
use cjson_rs.Token.{
  Token, PositionedToken, begin_object, end_object, begin_array, end_array, name_separator,
  value_separator, null_lit, true_lit, false_lit, string,
}
use cjson_rs.Tokeniser.Cursor.{Tokeniser, new, is_at_end, peek, advance, peek_is, skip_ws}
use cjson_rs.Tokeniser.Strings.{read_string}
use cjson_rs.Tokeniser.Numbers.{read_number}

-- the loop over the bytes of `expected`
unfoldable pub match_bytes : Bytes → Position → Tokeniser → Result Tokeniser
match_bytes [] start t = ok t
match_bytes (exp ∷ expected) start t =
    if peek_is (λ b. b == exp) (peek t)
    then match_bytes expected start (advance t)
    else err (invalid_literal start)

abbrev pub true_bytes : Bytes
true_bytes = b't' ∷ b'r' ∷ b'u' ∷ b'e' ∷ []

abbrev pub false_bytes : Bytes
false_bytes = b'f' ∷ b'a' ∷ b'l' ∷ b's' ∷ b'e' ∷ []

abbrev pub null_bytes : Bytes
null_bytes = b'n' ∷ b'u' ∷ b'l' ∷ b'l' ∷ []

module _ {F : Type 0} where
  unfoldable pub read_literal : Bytes → Token F → Tokeniser → Result (Token F × Tokeniser)
  read_literal expected tok t = do t' ← match_bytes expected t.pos t; ok (tok, t')

  -- a token of one byte
  abbrev pub punctuation : Token F → Tokeniser → Result (Token F × Tokeniser)
  punctuation tok t = ok (tok, advance t)

  unfoldable pub read_string_token : Tokeniser → Result (Token F × Tokeniser)
  read_string_token t = do (s, t') ← read_string t; ok (string s, t')

module _ {F : Type 0} (f64 : Float F) where
  -- the `match` on the byte at the cursor
  unfoldable pub token_at : ℕ → Tokeniser → Result (Token F × Tokeniser)
  token_at b t =
      if b == b'{'
      then punctuation begin_object t
      else if b == b'}'
      then punctuation end_object t
      else if b == b'['
      then punctuation begin_array t
      else if b == b']'
      then punctuation end_array t
      else if b == b':'
      then punctuation name_separator t
      else if b == b','
      then punctuation value_separator t
      else if b == b'"'
      then read_string_token t
      else if b == b't'
      then read_literal true_bytes true_lit t
      else if b == b'f'
      then read_literal false_bytes false_lit t
      else if b == b'n'
      then read_literal null_bytes null_lit t
      else if b == b'-' || within b'0' b'9' b
      then read_number f64 t
      else err (unexpected_char b t.pos)

  unfoldable pub next_token : Tokeniser → Result (PositionedToken F × Tokeniser)
  next_token t = do
    b ← ok_or (peek t) (unexpected_eof t.pos)
    (tok, t') ← token_at b t
    ok (record { token = tok; pos = t.pos; end_pos = t'.pos }, t')

  unfoldable pub tokenise_loop :
      ℕ → Tokeniser → List (PositionedToken F) → Result (List (PositionedToken F))
  tokenise_loop zero t out = out_of_fuel
  tokenise_loop (suc f) t out =
      let next : Result (List (PositionedToken F)) = do
        (tok, t') ← next_token (skip_ws t)
        tokenise_loop f t' (out ++ tok ∷ [])
      in if is_at_end (skip_ws t) then ok out else next

  -- Every token has a byte at least, so the length of the input is fuel enough.
  unfoldable pub tokenise : Bytes → Result (List (PositionedToken F))
  tokenise input = tokenise_loop (suc (length input)) (new input) []

  -- An error of `next_token` ends the loop; it is no error of the loop.
  unfoldable pub prefix_loop :
      ℕ → Tokeniser → List (PositionedToken F) → ℕ → Result (List (PositionedToken F) × ℕ)
  prefix_loop zero t out last_token_end = out_of_fuel
  prefix_loop (suc f) t out last_token_end =
      let next : Result (List (PositionedToken F) × ℕ) = elim (next_token (skip_ws t)) [
        | ok (tok, t') ↦ prefix_loop f t' (out ++ tok ∷ []) t'.pos.offset
        | err _ ↦ ok (out, last_token_end)
        | panicked ↦ panicked
        | out_of_fuel ↦ out_of_fuel
      ] in
      if is_at_end (skip_ws t) then ok (out, last_token_end) else next

  unfoldable pub tokenise_prefix : Bytes → Result (List (PositionedToken F) × ℕ)
  tokenise_prefix input = prefix_loop (suc (length input)) (new input) [] 0
