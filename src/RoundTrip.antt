-- ===== src/RoundTrip.antt =====
-- serialiser.rs, tokeniser.rs and parser.rs together.
use cjson_rs.Common.{
  ℕ, ◌≤◌, true, false, Option, none, some, [], ◌∷◌, ◌++◌, ◌≡◌, refl, ap, ◌∙◌, arith, append-nil,
  subst,
}
use cjson_rs.Error.{ok}
use cjson_rs.Number.{Float}
use cjson_rs.Number.Laws.{FloatLaws}
use cjson_rs.Parser.{parse, default_options}
use cjson_rs.Parser.Accepts.{parse-Lexes}
use cjson_rs.Parser.Grammar.{emit, height}
use cjson_rs.Serialiser.{write_value, serialise, serialise_pretty}
use cjson_rs.Serialiser.Arrays.{ItemsAppend, no_items_append, item_append, array_appends}
use cjson_rs.Serialiser.Lexed.{
  ValueAppends, number_appends, true-Piece, false-Piece, null-Piece, quoted-Piece,
}
use cjson_rs.Serialiser.Normal.{normal, IsFinite, normal-finite, height-normal, HasText}
use cjson_rs.Serialiser.Objects.{MembersAppend, no_members_append, member_append, object_appends}
use cjson_rs.Serialiser.Pieces.{Closed-Piece}
use cjson_rs.Serialiser.Strings.{write_string_out, quoted}
use cjson_rs.Serialiser.{null_text, true_text, false_text}
use cjson_rs.Text.{as_bytes}
use cjson_rs.Token.{Token}
use cjson_rs.Tokeniser.TokenGrammar.{Lexes, last}
use cjson_rs.Value.{
  Value, null, bool, number, string, array, object, no_items, item, no_members, member,
}

module _ {F : Type 0} (f64 : Float F) (laws : FloatLaws f64) where
  value_appends : (v : Value F) → ValueAppends f64 v
  unfolding write_value normal emit
  value_appends v = elim v as (ValueAppends f64) (ItemsAppend f64) (MembersAppend f64) [
    | null ↦ λ text indent depth. (null_text, λ out. refl, null-Piece f64)
    | bool true ↦ λ text indent depth. (true_text, λ out. refl, true-Piece f64)
    | bool false ↦ λ text indent depth. (false_text, λ out. refl, false-Piece f64)
    | number n ↦ λ text indent depth. number_appends f64 laws n
    | string s ↦ λ text indent depth. (
      quoted s,
      λ out. write_string_out out s,
      Closed-Piece f64 (quoted s) (Token.string s ∷ []) (quoted-Piece f64 s text),
    )
    | array (items → ih) ↦ array_appends f64 items ih
    | object (members → ih) ↦ object_appends f64 members ih
    | no_items ↦ no_items_append f64
    | item (w → ih) (items → ihs) ↦ item_append f64 w items ih ihs
    | no_members ↦ no_members_append f64
    | member k (w → ih) (members → ihs) ↦ member_append f64 k w members ih ihs
  ]

  -- With `f64` as its laws say, the text of a value whose strings consist of Unicode scalar values, compact or with any
  -- indentation, lexes into the tokens of the value, with null for numbers that are not finite.
  pub write_value-Lexes :
      (v : Value F) (indent : Option ℕ)
      → HasText v
      → Lexes f64 (as_bytes (write_value f64 [] v indent 0)) (emit (normal f64 v))
  unfolding as_bytes
  write_value-Lexes v indent h =
      let (x, wx, p) = value_appends v h indent 0 in
      let whole : Lexes f64 (as_bytes x ++ []) (emit (normal f64 v) ++ []) = p [] [] tt (last tt) in
      rw (wx []) (
        subst (λ i. Lexes f64 i (emit (normal f64 v))) (append-nil (as_bytes x))
          (subst (Lexes f64 (as_bytes x ++ [])) (append-nil (emit (normal f64 v))) whole))

module _ {F : Type 0} (f64 : Float F) (laws : FloatLaws f64) where
  module _ (v : Value F) (text : HasText v) (shallow : height v ≤ 1000) where
    -- With `f64` as its laws say, what `write_value` writes, compact or with any indentation, of a value that is nested 1000
    -- deep at most and whose strings consist of Unicode scalar values, parses back to the value, but
    -- for numbers that are not finite, which come back as null.
    pub parse-write_value :
        (indent : Option ℕ)
        → parse f64 (as_bytes (write_value f64 [] v indent 0)) ≡ ok (normal f64 v)
    unfolding parse
    parse-write_value indent =
        parse-Lexes f64 (as_bytes (write_value f64 [] v indent 0)) (normal f64 v) default_options
          (write_value-Lexes f64 laws v indent text) (omega (arith, height-normal f64 v))

    -- With `f64` as its laws say, what `serialise` writes of a value that is nested 1000 deep at
    -- most, whose numbers are finite
    -- and whose strings consist of Unicode scalar values, parses back to the value.
    pub parse-serialise : IsFinite f64 v → parse f64 (as_bytes (serialise f64 v)) ≡ ok v
    unfolding serialise
    parse-serialise fin = parse-write_value none ∙ ap ok (normal-finite f64 v fin)

    -- With `f64` as its laws say, what `serialise_pretty` writes of a value that is nested 1000 deep at most, whose numbers are
    -- finite and whose strings consist of Unicode scalar values, parses back to the value.
    pub parse-serialise_pretty :
        IsFinite f64 v → parse f64 (as_bytes (serialise_pretty f64 v)) ≡ ok v
    unfolding serialise_pretty
    parse-serialise_pretty fin = parse-write_value (some 2) ∙ ap ok (normal-finite f64 v fin)
