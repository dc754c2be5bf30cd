-- ===== src/Serialiser.antt =====
-- serialiser.rs: compact and pretty text of a value. `out` is the `String` that the functions
-- append to, as the list of its `char`s; it is passed in and returned.
pub mod Strings
pub mod Pieces
pub mod Normal
pub mod Lexed
pub mod Arrays
pub mod Objects
use cjson_rs.Common.{
  ℕ, zero, suc, ◌+◌, ◌-◌, ◌*◌, ◌/◌, ◌%◌, Bool, true, false, Option, none, some, List, [], ◌∷◌, ◌++◌,
  ltb, ◌==◌, if◌then◌else◌,
}
use cjson_rs.Number.{Float}
use cjson_rs.Value.{
  Value, Items, Members, null, bool, number, string, array, object, no_items, item, no_members,
  member,
}

abbrev pub hex_lower : ℕ → ℕ
hex_lower d = if ltb d 10 then b'0' + d else b'a' + (d - 10)

-- `{:04x}`, of a number below 2^16
abbrev pub fmt_04x : ℕ → List ℕ
fmt_04x c =
    hex_lower (c / 4096 % 16)
    ∷ hex_lower (c / 256 % 16)
    ∷ hex_lower (c / 16 % 16)
    ∷ hex_lower (c % 16)
    ∷ []

-- the `match` on one character in `write_string`
unfoldable pub write_char : List ℕ → ℕ → List ℕ
write_char out ch =
    if ch == b'"'
    then out ++ b'\\' ∷ b'"' ∷ []
    else if ch == b'\\'
    then out ++ b'\\' ∷ b'\\' ∷ []
    else if ch == b'\n'
    then out ++ b'\\' ∷ b'n' ∷ []
    else if ch == b'\r'
    then out ++ b'\\' ∷ b'r' ∷ []
    else if ch == b'\t'
    then out ++ b'\\' ∷ b't' ∷ []
    else if ch == 0x08
    then out ++ b'\\' ∷ b'b' ∷ []
    else if ch == 0x0C
    then out ++ b'\\' ∷ b'f' ∷ []
    else if ltb ch 0x20
    then out ++ b'\\' ∷ b'u' ∷ fmt_04x ch
    else out ++ ch ∷ []

unfoldable pub write_chars : List ℕ → List ℕ → List ℕ
write_chars out [] = out
write_chars out (ch ∷ s) = write_chars (write_char out ch) s

unfoldable pub write_string : List ℕ → List ℕ → List ℕ
write_string out s = write_chars (out ++ b'"' ∷ []) s ++ b'"' ∷ []

-- `n` rounds of the loop in `write_indent`
unfoldable pub push_spaces : ℕ → List ℕ → List ℕ
push_spaces zero out = out
push_spaces (suc n) out = push_spaces n (out ++ b' ' ∷ [])

unfoldable pub write_indent : List ℕ → ℕ → ℕ → List ℕ
write_indent out step depth = push_spaces (step * depth) out

abbrev pub null_text : List ℕ
null_text = b'n' ∷ b'u' ∷ b'l' ∷ b'l' ∷ []

abbrev pub true_text : List ℕ
true_text = b't' ∷ b'r' ∷ b'u' ∷ b'e' ∷ []

abbrev pub false_text : List ℕ
false_text = b'f' ∷ b'a' ∷ b'l' ∷ b's' ∷ b'e' ∷ []

-- `if i > 0`: the comma in front of an element that is not the first
abbrev pub comma_before : Bool → List ℕ → List ℕ
comma_before first out = if first then out else out ++ b',' ∷ []

module _ {F : Type 0} where
  -- `if i + 1 < items.len()`: the comma behind an element that is not the last
  abbrev pub comma_after_item : List ℕ → Items F → List ℕ
  comma_after_item out no_items = out
  comma_after_item out (item _ _) = out ++ b',' ∷ []

  abbrev pub comma_after_member : List ℕ → Members F → List ℕ
  comma_after_member out no_members = out
  comma_after_member out (member _ _ _) = out ++ b',' ∷ []

  abbrev pub is_empty : Items F → Bool
  is_empty no_items = true
  is_empty (item _ _) = false

  abbrev pub is_empty_object : Members F → Bool
  is_empty_object no_members = true
  is_empty_object (member _ _ _) = false

module _ {F : Type 0} (f64 : Float F) where
  open f64 use {is_finite, display}

  unfoldable pub write_number : List ℕ → F → List ℕ
  write_number out n = if is_finite n then out ++ display n else out ++ null_text

  -- `write_array` and `write_object` are the clauses for the two modes; their loops are the
  -- functions behind `write_value`.
  unfoldable mutual
    pub write_value : List ℕ → Value F → Option ℕ → ℕ → List ℕ
    write_value out null indent depth = out ++ null_text
    write_value out (bool true) indent depth = out ++ true_text
    write_value out (bool false) indent depth = out ++ false_text
    write_value out (number n) indent depth = write_number out n
    write_value out (string s) indent depth = write_string out s
    write_value out (array items) (some step) depth =
        if is_empty items
        then out ++ b'[' ∷ b']' ∷ []
        else write_indent (write_pretty_items (out ++ b'[' ∷ b'\n' ∷ []) items step depth) step
            depth
          ++ b']' ∷ []
    write_value out (array items) none depth =
        if is_empty items
        then out ++ b'[' ∷ b']' ∷ []
        else write_compact_items true (out ++ b'[' ∷ []) items depth ++ b']' ∷ []
    write_value out (object members) (some step) depth =
        if is_empty_object members
        then out ++ b'{' ∷ b'}' ∷ []
        else write_indent (write_pretty_members (out ++ b'{' ∷ b'\n' ∷ []) members step depth) step
            depth
          ++ b'}' ∷ []
    write_value out (object members) none depth =
        if is_empty_object members
        then out ++ b'{' ∷ b'}' ∷ []
        else write_compact_members true (out ++ b'{' ∷ []) members depth ++ b'}' ∷ []

    pub write_pretty_items : List ℕ → Items F → ℕ → ℕ → List ℕ
    write_pretty_items out no_items step depth = out
    write_pretty_items out (item v items) step depth =
        write_pretty_items
          (comma_after_item
              (write_value (write_indent out step (depth + 1)) v (some step) (depth + 1)) items
            ++ b'\n' ∷ [])
          items step depth

    pub write_compact_items : Bool → List ℕ → Items F → ℕ → List ℕ
    write_compact_items first out no_items depth = out
    write_compact_items first out (item v items) depth =
        write_compact_items false (write_value (comma_before first out) v none (depth + 1)) items
          depth

    pub write_pretty_members : List ℕ → Members F → ℕ → ℕ → List ℕ
    write_pretty_members out no_members step depth = out
    write_pretty_members out (member k v members) step depth =
        write_pretty_members
          (comma_after_member
              (write_value (write_string (write_indent out step (depth + 1)) k ++ b':' ∷ b' ' ∷ [])
                v (some step) (depth + 1))
              members
            ++ b'\n' ∷ [])
          members step depth

    pub write_compact_members : Bool → List ℕ → Members F → ℕ → List ℕ
    write_compact_members first out no_members depth = out
    write_compact_members first out (member k v members) depth =
        write_compact_members false
          (write_value (write_string (comma_before first out) k ++ b':' ∷ []) v none (depth + 1))
          members depth

  unfoldable pub serialise : Value F → List ℕ
  serialise v = write_value [] v none 0

  unfoldable pub serialise_pretty : Value F → List ℕ
  serialise_pretty v = write_value [] v (some 2) 0
