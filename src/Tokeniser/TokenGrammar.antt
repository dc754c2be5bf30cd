-- ===== src/Tokeniser/TokenGrammar.antt =====
-- The lexical grammar of RFC 8259, section 2, as a relation between bytes and tokens, independent
-- of the code. A number is read as far as it goes.
use cjson_rs.Common.{ℕ, true, some, List, [], ◌∷◌, ◌++◌, ◌≡◌, ◌⊎◌, Bytes, All}
use cjson_rs.Number.{Float}
use cjson_rs.Number.Grammar.{NumberLexeme, NumberStops}
use cjson_rs.Token.{
  Token, begin_object, end_object, begin_array, end_array, name_separator, value_separator,
  null_lit, true_lit, false_lit, number, string,
}
use cjson_rs.Tokeniser.StringGrammar.{StringLexeme}

-- space, horizontal tab, line feed, carriage return
abbrev pub IsWs : ℕ → Type 0
IsWs b = (b ≡ 0x20) ⊎ ((b ≡ 0x09) ⊎ ((b ≡ 0x0A) ⊎ (b ≡ 0x0D)))

module _ {F : Type 0} (f64 : Float F) where
  open f64 use {is_finite, from_str}

  -- The bytes `x` write the token, with `r` behind them.
  abbrev pub TokenText : Token F → Bytes → Bytes → Type 0
  TokenText begin_object x r = x ≡ b'{' ∷ []
  TokenText end_object x r = x ≡ b'}' ∷ []
  TokenText begin_array x r = x ≡ b'[' ∷ []
  TokenText end_array x r = x ≡ b']' ∷ []
  TokenText name_separator x r = x ≡ b':' ∷ []
  TokenText value_separator x r = x ≡ b',' ∷ []
  TokenText null_lit x r = x ≡ b'n' ∷ b'u' ∷ b'l' ∷ b'l' ∷ []
  TokenText true_lit x r = x ≡ b't' ∷ b'r' ∷ b'u' ∷ b'e' ∷ []
  TokenText false_lit x r = x ≡ b'f' ∷ b'a' ∷ b'l' ∷ b's' ∷ b'e' ∷ []
  TokenText (number v) x r =
      (n : NumberLexeme x) × NumberStops n r × (from_str x ≡ some v) × (is_finite v ≡ true)
  TokenText (string s) x r = StringLexeme s x

  -- The whole input is tokens, with white space before, between and behind them.
  pub data Lexes : Bytes → List (Token F) → Type 0 where
    last : {w : Bytes} → All IsWs w → Lexes w []
    next :
        {i : Bytes} {k : Token F} {ks : List (Token F)} (w x s : Bytes)
        → All IsWs w
        → TokenText k x s
        → Lexes s ks
        → i ≡ w ++ (x ++ s)
        → Lexes i (k ∷ ks)
