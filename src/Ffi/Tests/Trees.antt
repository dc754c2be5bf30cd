-- ===== src/Ffi/Tests/Trees.antt =====
-- Trees of cjson-rs-ffi/src/lib.rs and convert.rs at concrete values.
use cjson_rs.Common.{◌==◌, if◌then◌else◌, none, true, ℕ, ◌≡◌, ◌∷◌, ◌++◌, [], some, refl, arith}
use cjson_rs.Ffi.Alloc.{free_cjson, value_to_cjson}
use cjson_rs.Ffi.Compare.{compare_values}
use cjson_rs.Ffi.Trees.Compared.{Holds, compare-compare_values}
use cjson_rs.Ffi.Trees.Shape.{array_content, number_content, element, last_element}
use cjson_rs.Ffi.Types.{cjson_number, cjson_array}
use cjson_rs.Ffi.Memory.{Node, Ptr, null, Memory, ok}
use cjson_rs.Ffi.Memory.Fresh.{Fresh, one_more, none_left}
use cjson_rs.Ffi.Parse.{cjson_parse}
use cjson_rs.Ffi.Print.{cjson_print_unformatted}
use cjson_rs.Ffi.Print.Parsed.{print_unformatted-parse}
use cjson_rs.Ffi.Tests.{memory, small, not_zero, text_zero, zero-Lexes, roomy, three-Fresh}
use cjson_rs.Ffi.Text.{strip_utf8_bom}
use cjson_rs.Ffi.Trees.{cjson_to_value, cjson_compare}
use cjson_rs.Ffi.Trees.Fails.{value_to_cjson-fails}
use cjson_rs.Ffi.Trees.Kinds.{Kinds, Holds-Kinds}
use cjson_rs.Ffi.Trees.Read.{cut_value}
use cjson_rs.Ffi.Trees.Whole.{cjson_to_value-value_to_cjson, free_cjson-value_to_cjson}
use cjson_rs.Serialiser.{serialise}
use cjson_rs.Serialiser.Normal.{HasText}
use cjson_rs.Tests.{digit}
use cjson_rs.Text.{as_bytes}
use cjson_rs.Value.{Value, item, no_items, member, no_members}

-- an allocator that serves four addresses
abbrev spacious : Memory ℕ
spacious = record memory { answers = 30 ∷ 31 ∷ 32 ∷ 33 ∷ [] }

four-Fresh : Fresh spacious (30 ∷ 31 ∷ 32 ∷ 33 ∷ [])
four-Fresh = one_more (not_zero 30 refl) refl refl refl (
    one_more (not_zero 31 refl) refl refl refl (
      one_more (not_zero 32 refl) refl refl refl
        (one_more (not_zero 33 refl) refl refl refl none_left)))

-- `{"b":[7]}`
abbrev nested : Value ℕ
nested = Value.object (member (b'b' ∷ []) (Value.array (item (Value.number 7) no_items)) no_members)

nested-HasText : HasText nested
unfolding HasText
nested-HasText = ((refl, tt), (tt, tt), tt)

cjson_to_value-value_to_cjson_example :
    (after : Memory ℕ) × (value_to_cjson small 9 nested spacious ≡ ok 30 after)
    × (cjson_to_value 9 30 after ≡ ok (some (cut_value nested)) after)
cjson_to_value-value_to_cjson_example =
    cjson_to_value-value_to_cjson small 9 nested spacious 30 (31 ∷ 32 ∷ 33 ∷ []) refl four-Fresh
      (ground arith) nested-HasText 9 (ground arith)

free_cjson-value_to_cjson_example :
    (after : Memory ℕ) × (freed : Memory ℕ) × (value_to_cjson small 9 nested spacious ≡ ok 30 after)
    × (free_cjson 9 30 after ≡ ok tt freed)
    × ((p : Ptr) → (freed.nodes p ≡ spacious.nodes p) × (freed.texts p ≡ spacious.texts p))
free_cjson-value_to_cjson_example =
    free_cjson-value_to_cjson small 9 nested spacious 30 (31 ∷ 32 ∷ 33 ∷ []) refl four-Fresh
      (ground arith) 9 (ground arith)

print_unformatted-parse_example :
    (after : Memory ℕ) × (b : Ptr) × (printed : Memory ℕ) × (cjson_parse digit small 9 22 roomy
      ≡ ok 30 after)
    × (cjson_print_unformatted digit 9 30 after ≡ ok b printed)
    × (printed.texts b ≡ some (as_bytes (serialise digit (cut_value (Value.number 0))) ++ 0 ∷ []))
unfolding strip_utf8_bom HasText
print_unformatted-parse_example =
    print_unformatted-parse digit small 9 22 roomy (b'0' ∷ 0 ∷ []) (b'0' ∷ []) (Value.number 0) 30
      (31 ∷ 32 ∷ []) (ground arith) refl text_zero zero-Lexes.0 zero-Lexes.1 tt refl three-Fresh
      (ground arith) (ground arith)

value_to_cjson-fails_example :
    value_to_cjson small 9 nested roomy ≡ ok null (record roomy { answers = [] })
value_to_cjson-fails_example =
    value_to_cjson-fails small 9 nested roomy (30 ∷ 31 ∷ 32 ∷ []) refl three-Fresh (ground arith)
      (ground arith)

-- `[7]` at 40
abbrev seven_node : Node ℕ
seven_node = record {
  next = null;
  prev = null;
  child = null;
  type_ = cjson_number;
  valuestring = null;
  valueint = 7;
  valuedouble = 7;
  string = null;
}

abbrev list_node : Node ℕ
list_node = record {
  next = null;
  prev = null;
  child = 41;
  type_ = cjson_array;
  valuestring = null;
  valueint = 0;
  valuedouble = 0;
  string = null;
}

abbrev one_tree : Memory ℕ
one_tree = record memory {
  nodes = λ a. if a == 40 then some list_node else if a == 41 then some seven_node else none;
}

abbrev sevens : Value ℕ
sevens = Value.array (item (Value.number 7) no_items)

unfoldable sevens_held : Holds one_tree 40 sevens
unfolding HasText
sevens_held = record {
  node = list_node;
  below = 41 ∷ [];
  ne_null = not_zero 40 refl;
  at = refl;
  content = array_content refl refl (
      element refl (record { ne_null = not_zero 41 refl; holds = refl; back = refl }) refl
        (number_content refl refl refl) (last_element refl) refl);
  text = (tt, tt);
}

compare-compare_values_example :
    cjson_compare (λ x y. x == y) 9 40 40 1 one_tree
    ≡ ok (compare_values (λ x y. x == y) true (cut_value sevens) (cut_value sevens)) one_tree
compare-compare_values_example =
    compare-compare_values (λ x y. x == y) 9 one_tree 40 40 1 sevens sevens sevens_held sevens_held
      (ground arith) (ground arith)

Holds-Kinds_example : Kinds cjson_array 3 sevens
unfolding sevens_held
Holds-Kinds_example = Holds-Kinds one_tree 40 sevens sevens_held 3
