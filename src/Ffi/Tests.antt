-- ===== src/Ffi/Tests.antt =====
-- The operations of cjson-rs-ffi on a small memory, and the theorems applied to it.
pub mod Trees
pub mod Buffers
use cjson_rs.Common.{
  get_elem?, ◌<◌, ◌⊎◌, drop, length, ℕ, ◌≤◌, true, false, Option, none, some, [], ◌∷◌, Bytes, ◌≡◌,
  ◌≢◌, refl, arith, ◌==◌, if◌then◌else◌, inl, inr, sym, subst, ◌∙◌, ap, Bool-cases,
}
use cjson_rs.Common.Int.{pos}
use cjson_rs.Error
use cjson_rs.Ffi.Memory.Fresh.{Fresh, one_more, none_left}
use cjson_rs.Ffi.Alloc.{Double, value_to_cjson}
use cjson_rs.Ffi.Create.{cjson_create_number, cjson_get_number_value}
use cjson_rs.Ffi.Create.Created.{get_number_value-create_number}
use cjson_rs.Ffi.Links.{
  attach_child, child_at_index, cjson_get_array_item, cjson_get_array_size, cjson_add_item_to_array,
  cjson_detach_item_from_array, cjson_insert_item_in_array,
}
use cjson_rs.Ffi.Links.Array.{add_item-append, detach_item-remove_at, Taken}
use cjson_rs.Ffi.Links.Attach.{attach_child-append}
use cjson_rs.Ffi.Links.Detach.{Detached, detach-remove}
use cjson_rs.Ffi.Links.Index.{
  child_at_index-get_elem?, get_array_item-get_elem?, get_array_size-length, nth_child,
}
use cjson_rs.Ffi.Links.Insert.{insert_item-insert_at}
use cjson_rs.Ffi.Memory.{Ptr, null, Node, Memory, ok, guard, update}
use cjson_rs.Ffi.Memory.Chain.{◌∈◌, nil, cons}
use cjson_rs.Ffi.Memory.Children.{Children, Becomes, Gives}
use cjson_rs.Ffi.Objects.{get_object_item_impl, relink}
use cjson_rs.Ffi.Objects.Lookup.{CString, Keyed, get_object_item_impl-first_match}
use cjson_rs.Ffi.Objects.Relink.{relink-replace}
use cjson_rs.Ffi.Parse.{
  cjson_parse, cjson_parse_with_length, cjson_parse_with_opts, cjson_parse_with_length_opts,
  until_nul,
}
use cjson_rs.Ffi.Parse.Options.{Accepted, Refused, parse_with_opts-required}
use cjson_rs.Ffi.Parse.Entry.{
  parse_with_opts-parse, parse_with_length_opts-parse_with_length,
  parse_with_opts-parse_with_length_opts, cjson_parse-reject, cjson_parse-Lexes,
}
use cjson_rs.Ffi.Types.{cjson_array, cjson_null}
use cjson_rs.Ffi.Compare.{keys_match, str_eq}
use cjson_rs.Ffi.Memory
use cjson_rs.Ffi.Print.{print_text, write_cjson_pretty, cjson_print_preallocated}
use cjson_rs.Ffi.Print.Preallocated.{filled, print_preallocated-filled}
use cjson_rs.Serialiser.{null_text}
use cjson_rs.Text.{as_bytes, encode_char}
use cjson_rs.Tests.{digit}
use cjson_rs.Text.{from_utf8, decode_char}
use cjson_rs.Ffi.Text.{strip_utf8_bom}
use cjson_rs.Parser
use cjson_rs.Parser.{parse_value, peek_pos, finish, parse_with_options, default_options}
use cjson_rs.Parser.Accepts.{parse_with_options-ok, parse-Lexes}
use cjson_rs.Parser.Grammar.{emit, height}
use cjson_rs.Tokeniser.Cursor.{peek, advance, is_at_end, skip_ws, skip_while}
use cjson_rs.Tokeniser.Numbers.{read_number, scan_number, read_int, read_frac, read_exp, convert}
use cjson_rs.Tokeniser.TokenGrammar.{Lexes}
use cjson_rs.Tokeniser.Tokens.{tokenise, tokenise_loop, next_token, token_at}
use cjson_rs.Value.{Value}

abbrev pub small : Double ℕ
small = record {
  zero_bytes = 0;
  is_nan = λ n. n == 10;
  at_least_max = λ n. false;
  at_most_min = λ n. false;
  as_c_int = λ n. n;
}

abbrev linked : (next prev child type_ string : ℕ) → Node ℕ
linked next prev child type_ string = record {
  next = next;
  prev = prev;
  child = child;
  type_ = type_;
  valuestring = null;
  valueint = 0;
  valuedouble = 0;
  string = string;
}

-- an array of two nulls, the second with the key "b", and a node that stands alone
abbrev nodes : Ptr → Option (Node ℕ)
nodes a =
    if a == 10
    then some (linked null null 11 cjson_array null)
    else if a == 11
    then some (linked 12 null null cjson_null null)
    else if a == 12
    then some (linked null 11 null cjson_null 20)
    else if a == 13
    then some (linked null null null cjson_null null)
    else none

abbrev buffer_bytes : Bytes
buffer_bytes = 1 ∷ 2 ∷ 3 ∷ 4 ∷ 5 ∷ 6 ∷ []

abbrev texts : Ptr → Option Bytes
texts a =
    if a == 20
    then some (b'b' ∷ 0 ∷ [])
    else if a == 21
    then some (b']' ∷ 0 ∷ [])
    else if a == 22
    then some (b'0' ∷ 0 ∷ [])
    else if a == 23
    then some buffer_bytes
    else none

abbrev pub memory : Memory ℕ
memory = record {
  nodes = nodes;
  texts = texts;
  ends = λ a. none;
  last_error = null;
  answers = 30 ∷ [];
}

pub not_zero : (a : ℕ) → (a == 0) ≡ false → a ≢ null
not_zero a h = ground arith

abbrev two_children : Children memory.nodes 10 (11 ∷ 12 ∷ [])
two_children = record {
  node = linked null null 11 cjson_array null;
  ne_null = not_zero 10 refl;
  holds = refl;
  apart = refl;
  chain =
      cons refl (record { ne_null = not_zero 11 refl; holds = refl; back = refl }) refl
        (cons refl (record { ne_null = not_zero 12 refl; holds = refl; back = refl }) refl
          (nil refl));
}

attach_child-append_example :
    Becomes 10 (10 ∷ 13 ∷ 11 ∷ 12 ∷ []) (11 ∷ 12 ∷ 13 ∷ []) memory (attach_child 2 10 13 memory)
attach_child-append_example =
    attach_child-append 2 memory 10 13 (linked null null null cjson_null null) (ground arith) refl
      (ground arith) (11 ∷ 12 ∷ []) two_children refl (ground arith)

detach-remove_example : Detached memory 10 11 [] (12 ∷ [])
detach-remove_example = detach-remove memory 10 11 [] (12 ∷ []) two_children

child_at_index-get_elem?_example : child_at_index 3 10 (pos 1) memory ≡ ok 12 memory
child_at_index-get_elem?_example =
    child_at_index-get_elem? 3 memory 10 (11 ∷ 12 ∷ []) two_children (ground arith) (pos 1)

get_array_size-length_example : cjson_get_array_size 3 10 memory ≡ ok 2 memory
get_array_size-length_example =
    get_array_size-length 3 memory 10 (11 ∷ 12 ∷ []) two_children (ground arith)

insert_item-insert_at_example :
    Gives true 10
      (10 ∷ 13 ∷ 11 ∷ 12 ∷ [])
      (11 ∷ 13 ∷ 12 ∷ [])
      memory
      (cjson_insert_item_in_array 3 10 (pos 1) 13 memory)
insert_item-insert_at_example =
    insert_item-insert_at memory 10 13 (linked null null null cjson_null null) (ground arith) refl 3
      1 (11 ∷ 12 ∷ []) two_children refl refl (ground arith)

add_item-append_example :
    Gives true 10
      (10 ∷ 13 ∷ 11 ∷ 12 ∷ [])
      (11 ∷ 12 ∷ 13 ∷ [])
      memory
      (cjson_add_item_to_array 2 10 13 memory)
add_item-append_example =
    add_item-append 2 memory 10 (11 ∷ 12 ∷ []) two_children 13
      (linked null null null cjson_null null) (ground arith) refl refl refl (ground arith)

detach_item-remove_at_example :
    ((k : ℕ) × (e : Ptr) × (pos 1 ≡ pos k)
      × (get_elem? (11 ∷ 12 ∷ []) k ≡ some e)
      × Taken 3 memory 10
          (11 ∷ 12 ∷ [])
          two_children
          k
          e
          (cjson_detach_item_from_array 3 10 (pos 1) memory))
    ⊎ ((nth_child (11 ∷ 12 ∷ []) (pos 1) ≡ null)
        × (cjson_detach_item_from_array 3 10 (pos 1) memory ≡ ok null memory))
detach_item-remove_at_example =
    detach_item-remove_at 3 memory 10 (11 ∷ 12 ∷ []) two_children (ground arith) (pos 1)

relink-replace_example :
    Becomes 10 (10 ∷ 13 ∷ 11 ∷ 12 ∷ []) (13 ∷ 12 ∷ []) memory (relink 10 11 13 memory)
relink-replace_example =
    relink-replace memory 10 11 13 (linked null null null cjson_null null) (ground arith) refl []
      (12 ∷ []) two_children refl

text_b : until_nul (b'b' ∷ 0 ∷ []) ≡ some (b'b' ∷ [])
unfolding until_nul
text_b = refl

abbrev key_b : CString memory 20
key_b = record { text = b'b' ∷ 0 ∷ []; bytes = b'b' ∷ []; holds = refl; ends = text_b }

abbrev string_of : Option (Node ℕ) → Ptr
string_of none = null
string_of (some n) = n.string

all-Keyed : (a : Ptr) (n : Node ℕ) → a ∈ (11 ∷ 12 ∷ []) → memory.nodes a ≡ some n → Keyed memory n
all-Keyed a n i e = elim (Bool-cases (a == 11)) [
  | inl y ↦
      let here : a ≡ 11 = ground arith in
      inl (ap string_of (sym e) ∙ ap (λ z. string_of (nodes z)) here)
  | inr k ↦
      let here : a ≡ 12 = ground arith in
      inr (subst (CString memory) (sym (ap (λ z. string_of (nodes z)) here) ∙ ap string_of e) key_b)
]

decode_b : from_utf8 (b'b' ∷ []) ≡ some (b'b' ∷ [])
unfolding from_utf8 decode_char
decode_b = refl

get_object_item_impl-first_match_example : get_object_item_impl 3 10 20 true memory ≡ ok 12 memory
unfolding until_nul from_utf8 decode_char keys_match str_eq
get_object_item_impl-first_match_example =
    get_object_item_impl-first_match true 3 memory 10 20 (11 ∷ 12 ∷ []) (b'b' ∷ []) key_b
      two_children all-Keyed (ground arith) decode_b (ground arith)

-- a place for the end of what is parsed
abbrev with_end : Memory ℕ
with_end = record memory { ends = λ a. if a == 60 then some null else none }

parse_with_opts-required_example :
    Accepted digit small 9 20 60 with_end
      (b'b' ∷ [])
      (cjson_parse_with_opts digit small 9 20 60 1 with_end)
      (cjson_parse_with_length_opts digit small 9 20 1 60 1 with_end)
    ⊎ Refused digit small 9 20 60 with_end
        (b'b' ∷ [])
        (cjson_parse_with_opts digit small 9 20 60 1 with_end)
        (cjson_parse_with_length_opts digit small 9 20 1 60 1 with_end)
parse_with_opts-required_example =
    parse_with_opts-required digit small 9 20 60 0 with_end (ground arith) key_b.holds key_b.ends
      (ground arith) refl

get_number_value-create_number_example :
    (after : Memory ℕ) × (cjson_create_number small 7 memory ≡ ok 30 after)
    × (cjson_get_number_value 10 30 after ≡ ok 7 after)
    × ((b : Ptr) → b ≢ 30 → after.nodes b ≡ memory.nodes b)
get_number_value-create_number_example =
    get_number_value-create_number small memory 30 [] refl (ground arith) refl refl 7 10

parse_with_options_b :
    (v : Value ℕ) → parse_with_options digit (b']' ∷ []) default_options ≢ Error.ok v
unfolding strip_utf8_bom parse_with_options tokenise tokenise_loop is_at_end skip_ws skip_while peek
    advance next_token token_at parse_value cjson_rs.Parser.peek peek_pos finish
parse_with_options_b v = λ e. cc

text_bracket : until_nul (b']' ∷ 0 ∷ []) ≡ some (b']' ∷ [])
unfolding until_nul
text_bracket = refl

cjson_parse-reject_example :
    (p : Ptr) × (21 ≤ p)
    × (cjson_parse digit small 9 21 memory ≡ ok null (record memory { last_error = p }))
unfolding strip_utf8_bom
cjson_parse-reject_example =
    cjson_parse-reject digit small 9 21 memory (b']' ∷ 0 ∷ []) (b']' ∷ []) (ground arith) refl
      text_bracket
      λ v g h. parse_with_options_b v (parse-Lexes digit (b']' ∷ []) v default_options g h)

pub text_zero : until_nul (b'0' ∷ 0 ∷ []) ≡ some (b'0' ∷ [])
unfolding until_nul
text_zero = refl

parse_zero : parse_with_options digit (b'0' ∷ []) default_options ≡ Error.ok (Value.number 0)
unfolding parse_with_options tokenise tokenise_loop is_at_end skip_ws skip_while peek advance
    next_token token_at read_number scan_number read_int read_frac read_exp convert parse_value
    cjson_rs.Parser.peek peek_pos finish
parse_zero = refl

pub zero-Lexes :
    Lexes digit (b'0' ∷ []) (emit (Value.number 0)) × (height {F = ℕ} (Value.number 0) ≤ 1000)
zero-Lexes = (parse_with_options-ok digit (b'0' ∷ []) (Value.number 0) default_options).0 parse_zero

cjson_parse-Lexes_example :
    cjson_parse digit small 9 22 memory
    ≡ guard null (value_to_cjson small 9 (Value.number 0)) (record memory { last_error = null })
unfolding strip_utf8_bom
cjson_parse-Lexes_example =
    cjson_parse-Lexes digit small 9 22 memory (b'0' ∷ 0 ∷ []) (b'0' ∷ []) (Value.number 0)
      (ground arith) refl text_zero zero-Lexes.0 zero-Lexes.1

prints_null : print_text digit 3 13 true memory ≡ ok (some null_text) memory
unfolding print_text write_cjson_pretty cjson_rs.Ffi.Memory.load
prints_null = refl

null_bytes : as_bytes null_text ≡ null_text
unfolding as_bytes encode_char
null_bytes = refl

print_preallocated-filled_example :
    ((length (as_bytes null_text) < 6)
      × (drop 6 (filled (as_bytes null_text) buffer_bytes) ≡ drop 6 buffer_bytes)
      × (cjson_print_preallocated digit 3 13 23 (pos 6) 1 memory
          ≡ ok true (record memory {
            texts = update texts 23 (some (filled (as_bytes null_text) buffer_bytes));
          })))
    ⊎ ((6 ≤ length (as_bytes null_text))
        × (cjson_print_preallocated digit 3 13 23 (pos 6) 1 memory ≡ ok false memory))
print_preallocated-filled_example =
    print_preallocated-filled digit 3 memory 13 23 6 1 null_text buffer_bytes (not_zero 13 refl)
      (not_zero 23 refl) (ground arith) prints_null refl (ground arith)

-- an allocator that serves three addresses
abbrev pub roomy : Memory ℕ
roomy = record memory { answers = 30 ∷ 31 ∷ 32 ∷ [] }

pub three-Fresh : Fresh roomy (30 ∷ 31 ∷ 32 ∷ [])
three-Fresh = one_more (not_zero 30 refl) refl refl refl (
    one_more (not_zero 31 refl) refl refl refl
      (one_more (not_zero 32 refl) refl refl refl none_left))
