-- ===== src/Parser.antt =====
-- parser.rs: recursive descent over the tokens, with a limit on the nesting.
pub mod Grammar
pub mod Reading
pub mod Complete
pub mod Sound
pub mod Accepts
pub mod Prefix
use cjson_rs.Common.{
  ℕ, zero, suc, ◌+◌, ◌-◌, ◌*◌, Bool, true, false, Option, none, some, List, Bytes, ltb, leb, ◌==◌,
  if◌then◌else◌, length, get_elem?, get_last?,
}
use cjson_rs.Error.{
  Position, start_pos, Result, ok, err, panicked, out_of_fuel, ok_or, ◌>>=◌, unexpected_eof,
  unexpected_token, nesting_limit_exceeded, trailing_data,
}
use cjson_rs.Number.{Float}
use cjson_rs.Token.{
  Token, PositionedToken, begin_object, end_object, begin_array, end_array, name_separator,
  value_separator, null_lit, true_lit, false_lit, number, string,
}
use cjson_rs.Tokeniser.Tokens.{tokenise, tokenise_prefix}
use cjson_rs.Value
use cjson_rs.Value.{
  Value, Items, Members, null, bool, array, object, no_items, item, no_members, member,
}

pub record ParserOptions : Type 0 where
  pub nesting_limit : ℕ

-- `ParserOptions::default`
abbrev pub default_options : ParserOptions
default_options = record { nesting_limit = 1000 }

pub record Parser (F : Type 0) : Type 0 where
  pub tokens : List (PositionedToken F)
  pub cursor : ℕ
  pub depth : ℕ
  pub limit : ℕ

module _ {F : Type 0} where
  abbrev pub token_of : Option (PositionedToken F) → Option (Token F)
  token_of none = none
  token_of (some q) = some q.token

  unfoldable pub peek : Parser F → Option (Token F)
  peek p = token_of (get_elem? p.tokens p.cursor)

  -- the position of the token at the cursor, or else of the last token, or else the start
  unfoldable pub peek_pos : Parser F → Position
  peek_pos p = elim (get_elem? p.tokens p.cursor) [
    | some q ↦ q.pos
    | none ↦ elim (get_last? p.tokens) [ some q ↦ q.pos | none ↦ start_pos ]
  ]

  abbrev pub advance : Parser F → Parser F
  advance p = record p { cursor = p.cursor + 1 }

  unfoldable pub enter : Position → Parser F → Result (Parser F)
  enter pos p =
      if leb p.limit p.depth
      then err (nesting_limit_exceeded pos)
      else ok (record p { depth = p.depth + 1 })

  -- `self.depth -= 1`, which would panic at 0
  unfoldable pub leave : Parser F → Result (Parser F)
  leave p = if p.depth == 0 then panicked else ok (record p { depth = p.depth - 1 })

  -- `matches!(self.peek(), Some(Token::EndArray))`
  abbrev pub is_end_array : Option (Token F) → Bool
  is_end_array (some end_array) = true
  is_end_array _ = false

  abbrev pub is_end_object : Option (Token F) → Bool
  is_end_object (some end_object) = true
  is_end_object _ = false

  -- the cursor behind the separator, unless the closing token `closes` follows it
  unfoldable pub pass_separator : (Option (Token F) → Bool) → Parser F → Result (Parser F)
  pass_separator closes p =
      if closes (peek (advance p)) then err (unexpected_token (peek_pos p)) else ok (advance p)

  -- a closing token
  unfoldable pub close : Parser F → Result (Parser F)
  close p = leave (advance p)

  unfoldable pub read_key : Parser F → Result (List ℕ × Parser F)
  read_key p = elim (peek p) [
    | some (string s) ↦ ok (s, advance p)
    | some _ ↦ err (unexpected_token (peek_pos p))
    | none ↦ err (unexpected_eof (peek_pos p))
  ]

  unfoldable pub read_name_separator : Parser F → Result (Parser F)
  read_name_separator p = elim (peek p) [
    | some name_separator ↦ ok (advance p)
    | some _ ↦ err (unexpected_token (peek_pos p))
    | none ↦ err (unexpected_eof (peek_pos p))
  ]

  -- The loops put the values in front of what the rounds after them return; each call costs a
  -- unit of fuel.
  unfoldable mutual
    pub parse_value : ℕ → Parser F → Result (Value F × Parser F)
    parse_value zero p = out_of_fuel
    parse_value (suc f) p = elim (peek p) [
      | none ↦ err (unexpected_eof (peek_pos p))
      | some null_lit ↦ ok (null, advance p)
      | some true_lit ↦ ok (bool true, advance p)
      | some false_lit ↦ ok (bool false, advance p)
      | some (number n) ↦ ok (Value.number n, advance p)
      | some (string s) ↦ ok (Value.string s, advance p)
      | some begin_array ↦ parse_array f p
      | some begin_object ↦ parse_object f p
      | some _ ↦ err (unexpected_token (peek_pos p))
    ]

    pub parse_array : ℕ → Parser F → Result (Value F × Parser F)
    parse_array zero p = out_of_fuel
    parse_array (suc f) p = do
      p₁ ← enter (peek_pos p) p
      elim (is_end_array (peek (advance p₁))) [
        | true ↦ do p₂ ← close (advance p₁); ok (array no_items, p₂)
        | false ↦ do (items, p₂) ← parse_items f (advance p₁); ok (array items, p₂)
      ]

    pub parse_items : ℕ → Parser F → Result (Items F × Parser F)
    parse_items zero p = out_of_fuel
    parse_items (suc f) p = do
      (v, p₁) ← parse_value f p
      elim (peek p₁) [
        | some value_separator ↦ do
          p₂ ← pass_separator is_end_array p₁
          (items, p₃) ← parse_items f p₂
          ok (item v items, p₃)
        | some end_array ↦ do p₂ ← close p₁; ok (item v no_items, p₂)
        | some _ ↦ err (unexpected_token (peek_pos p₁))
        | none ↦ err (unexpected_eof (peek_pos p₁))
      ]

    pub parse_object : ℕ → Parser F → Result (Value F × Parser F)
    parse_object zero p = out_of_fuel
    parse_object (suc f) p = do
      p₁ ← enter (peek_pos p) p
      elim (is_end_object (peek (advance p₁))) [
        | true ↦ do p₂ ← close (advance p₁); ok (object no_members, p₂)
        | false ↦ do (members, p₂) ← parse_members f (advance p₁); ok (object members, p₂)
      ]

    pub parse_members : ℕ → Parser F → Result (Members F × Parser F)
    parse_members zero p = out_of_fuel
    parse_members (suc f) p = do
      (k, p₁) ← read_key p
      p₂ ← read_name_separator p₁
      (v, p₃) ← parse_value f p₂
      elim (peek p₃) [
        | some value_separator ↦ do
          p₄ ← pass_separator is_end_object p₃
          (members, p₅) ← parse_members f p₄
          ok (member k v members, p₅)
        | some end_object ↦ do p₄ ← close p₃; ok (member k v no_members, p₄)
        | some _ ↦ err (unexpected_token (peek_pos p₃))
        | none ↦ err (unexpected_eof (peek_pos p₃))
      ]

  -- Three calls for a token, and one more, are enough.
  abbrev pub fuel : List (PositionedToken F) → ℕ
  fuel ts = 3 * length ts + 1

  abbrev pub start : ParserOptions → List (PositionedToken F) → Parser F
  start opts ts = record { tokens = ts; cursor = 0; depth = 0; limit = opts.nesting_limit }

  -- `tokens[i]`, which panics out of bounds
  abbrev pub token_at : List (PositionedToken F) → ℕ → Result (PositionedToken F)
  token_at ts i = elim (get_elem? ts i) [ none ↦ panicked | some q ↦ ok q ]

  -- a value, and nothing behind it
  unfoldable pub finish : Value F → Parser F → Result (Value F)
  finish v p =
      if ltb p.cursor (length p.tokens)
      then (token_at p.tokens p.cursor >>= λ q. err (trailing_data q.pos))
      else ok v

module _ {F : Type 0} (f64 : Float F) where
  unfoldable pub parse_with_options : Bytes → ParserOptions → Result (Value F)
  parse_with_options input opts = do
    ts ← tokenise f64 input
    (v, p) ← parse_value (fuel ts) (start opts ts)
    finish v p

  unfoldable pub parse : Bytes → Result (Value F)
  parse input = parse_with_options input default_options

  -- `a - b` on `usize`: below 0 it is a panic, or an index out of bounds where it wraps
  unfoldable pub usize_sub : ℕ → ℕ → Result ℕ
  usize_sub a b = if ltb a b then panicked else ok (a - b)

  unfoldable pub parse_prefix : Bytes → Result (Value F × ℕ)
  parse_prefix input = do
    (ts, _) ← tokenise_prefix f64 input
    (v, p) ← parse_value (fuel ts) (start default_options ts)
    last ← usize_sub p.cursor 1
    q ← token_at p.tokens last
    ok (v, q.end_pos.offset)
