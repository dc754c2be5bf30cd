-- ===== src/Parser/Grammar.antt =====
-- The grammar of JSON texts over tokens, RFC 8259 sections 2 to 5, as the tokens of a value, and
-- the nesting of a value. Both are independent of the parser.
use Prim.Native.Nat.{max}
use cjson_rs.Common.{
  ℕ, suc, ◌+◌, ◌<◌, ◌≡◌, true, false, List, [], ◌∷◌, ◌++◌, arith, length, length-append,
}
use cjson_rs.Token.{
  Token, begin_object, end_object, begin_array, end_array, name_separator, value_separator,
  null_lit, true_lit, false_lit,
}
use cjson_rs.Value.{
  Value, Items, Members, null, bool, number, string, array, object, no_items, item, no_members,
  member,
}

module _ {F : Type 0} where
  unfoldable mutual
    pub emit : Value F → List (Token F)
    emit null = null_lit ∷ []
    emit (bool true) = true_lit ∷ []
    emit (bool false) = false_lit ∷ []
    emit (number n) = Token.number n ∷ []
    emit (string s) = Token.string s ∷ []
    emit (array items) = begin_array ∷ emit_items items
    emit (object members) = begin_object ∷ emit_members members

    -- behind the opening bracket
    pub emit_items : Items F → List (Token F)
    emit_items no_items = end_array ∷ []
    emit_items (item v items) = emit v ++ emit_more_items items

    -- behind an element
    pub emit_more_items : Items F → List (Token F)
    emit_more_items no_items = end_array ∷ []
    emit_more_items (item v items) = value_separator ∷ (emit v ++ emit_more_items items)

    pub emit_members : Members F → List (Token F)
    emit_members no_members = end_object ∷ []
    emit_members (member k v members) =
        Token.string k ∷ name_separator ∷ (emit v ++ emit_more_members members)

    pub emit_more_members : Members F → List (Token F)
    emit_more_members no_members = end_object ∷ []
    emit_more_members (member k v members) =
        value_separator ∷ Token.string k ∷ name_separator ∷ (emit v ++ emit_more_members members)

  -- how many brackets are open at the deepest place
  unfoldable mutual
    pub height : Value F → ℕ
    height null = 0
    height (bool b) = 0
    height (number n) = 0
    height (string s) = 0
    height (array items) = suc (height_items items)
    height (object members) = suc (height_members members)

    pub height_items : Items F → ℕ
    height_items no_items = 0
    height_items (item v items) = max (height v) (height_items items)

    pub height_members : Members F → ℕ
    height_members no_members = 0
    height_members (member k v members) = max (height v) (height_members members)

  pub length-emit_pos : (v : Value F) → 0 < length (emit v)
  unfolding emit
  length-emit_pos null = omega arith
  length-emit_pos (bool true) = omega arith
  length-emit_pos (bool false) = omega arith
  length-emit_pos _ = omega arith

  pub length-append_tokens : (xs ys : List (Token F)) → length (xs ++ ys) ≡ length xs + length ys
  length-append_tokens = length-append
