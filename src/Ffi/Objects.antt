-- ===== src/Ffi/Objects.antt =====
-- cjson-rs-ffi/src/convert.rs and lib.rs: the members of an object by their keys. `rounds` is the fuel
-- of each loop and of each release.
pub mod Lookup
pub mod Relink
use cjson_rs.Common.{
  ℕ, zero, suc, ◌+◌, ◌-◌, Bool, true, false, ◌||◌, ◌&&◌, not, Option, none, some, List, ◌==◌,
  if◌then◌else◌,
}
use cjson_rs.Common.Int.{ℤ}
use cjson_rs.Ffi.Alloc.{Double, new_node, alloc_cstr, hook_free, free_cjson, has_flag}
use cjson_rs.Ffi.Compare.{keys_match}
use cjson_rs.Ffi.Create.{c_str}
use cjson_rs.Ffi.Links.{
  attach_child, detach, child_at_index, cjson_detach_item_from_array, set_prev_unless_null,
}
use cjson_rs.Ffi.Memory.{
  Ptr, null, Node, Cmd, ok, out_of_fuel, pure, ◌>>=◌, ◌>>◌, load, modify, guard, set_next, set_prev,
  set_child,
}
use cjson_rs.Ffi.Types.{tag, cjson_array, cjson_object, cjson_is_reference, cjson_string_is_const}

-- `type_ & !CJSON_STRING_IS_CONST` and `type_ | CJSON_STRING_IS_CONST`
abbrev without_const : ℕ → ℕ
without_const t = if has_flag cjson_string_is_const t then t - cjson_string_is_const else t

abbrev with_const : ℕ → ℕ
with_const t = if has_flag cjson_string_is_const t then t else t + cjson_string_is_const

module _ {F : Type 0} where
  -- whether the key of a node matches, for a key that is there and is UTF-8
  unfoldable pub has_key : Bool → List ℕ → Node F → Cmd F Bool
  has_key case_sensitive key n = if n.string == null then pure false else do
    text ← c_str n.string
    elim text [
      | none ↦ pure false
      | some child_key ↦ pure (keys_match case_sensitive child_key key)
    ]

  -- `while !cur.is_null() { …; cur = (*cur).next; }`
  unfoldable pub find_key : Bool → List ℕ → ℕ → Ptr → Cmd F Ptr
  find_key case_sensitive key zero cur = λ _. out_of_fuel
  find_key case_sensitive key (suc f) cur = if cur == null then pure null else do
    n ← load cur
    matched ← has_key case_sensitive key n
    if matched then pure cur else find_key case_sensitive key f n.next

  -- the key goes to a replacement that has none
  abbrev pub move_key : (item replacement : Ptr) → Cmd F (Unit {0})
  move_key item replacement = do
    n ← load item
    if n.string == null then pure tt else do
      r ← load replacement
      if r.string == null
          then (do
            modify replacement λ z. record z { string = n.string }
            modify item λ z. record z { string = null })
          else pure tt

  -- the links in `replace_via_pointer`
  unfoldable pub relink : (parent item replacement : Ptr) → Cmd F (Unit {0})
  relink parent item replacement = do
    n ← load item
    set_prev replacement n.prev
    set_next replacement n.next
    if n.prev == null then set_child parent replacement else set_next n.prev replacement
    i ← load item
    set_prev_unless_null i.next replacement

module _ {F : Type 0} (rounds : ℕ) where
  unfoldable pub get_object_item_impl : (object string : Ptr) → Bool → Cmd F Ptr
  get_object_item_impl object string case_sensitive =
      if object == null || string == null then pure null else do
        text ← c_str string
        elim text [
          | none ↦ pure null
          | some key ↦ do n ← load object; find_key case_sensitive key rounds n.child
        ]

  unfoldable pub cjson_get_object_item : (object string : Ptr) → Cmd F Ptr
  cjson_get_object_item object string = guard null (get_object_item_impl object string false)

  unfoldable pub cjson_get_object_item_case_sensitive : (object string : Ptr) → Cmd F Ptr
  cjson_get_object_item_case_sensitive object string =
      guard null (get_object_item_impl object string true)

  unfoldable pub cjson_has_object_item : (object string : Ptr) → Cmd F Bool
  cjson_has_object_item object string =
      guard false (do item ← get_object_item_impl object string false; pure (not (item == null)))

  -- `if !string.is_null() && type_ & CJSON_STRING_IS_CONST == 0 { hook_free(string); }`
  abbrev free_key : Node F → Cmd F (Unit {0})
  free_key n =
      if not (n.string == null) && not (has_flag cjson_string_is_const n.type_)
      then hook_free n.string
      else pure tt

  unfoldable pub attach_named_child : (parent key child : Ptr) → Cmd F Bool
  attach_named_child parent key child =
      if parent == null || (key == null || child == null) then pure false else do
        text ← c_str key
        elim text [
          | none ↦ pure false
          | some key_str ↦ do
            key_buf ← alloc_cstr key_str
            if key_buf == null then pure false else do
              n ← load child
              free_key n
              modify child λ z. record z { type_ = without_const z.type_; string = key_buf }
              attach_child rounds parent child
              pure true
        ]

  unfoldable pub cjson_add_item_to_object : (object name item : Ptr) → Cmd F Bool
  cjson_add_item_to_object object name item = guard false (
      if object == null || (name == null || item == null) then pure false else do
        n ← load object
        if not (tag n.type_ == cjson_object)
            then pure false
            else attach_named_child object name item)

  unfoldable pub cjson_add_item_to_object_cs : (object name item : Ptr) → Cmd F Bool
  cjson_add_item_to_object_cs object name item = guard false (
      if object == null || (name == null || item == null) then pure false else do
        n ← load object
        if not (tag n.type_ == cjson_object) then pure false else do
          i ← load item
          free_key i
          modify item λ z. record z { type_ = with_const z.type_; string = name }
          attach_child rounds object item
          pure true)

  unfoldable pub add_to_object : (object name item : Ptr) → Cmd F Ptr
  add_to_object object name item = if item == null then pure null else do
    added ← cjson_add_item_to_object object name item
    if added then pure item else do free_cjson rounds item; pure null

  unfoldable pub cjson_delete_item_from_array : Ptr → ℤ → Cmd F (Unit {0})
  cjson_delete_item_from_array array which = guard tt (do
    item ← cjson_detach_item_from_array rounds array which
    if item == null then pure tt else free_cjson rounds item)

  unfoldable pub detach_object_item : (object string : Ptr) → Bool → Cmd F Ptr
  detach_object_item object string case_sensitive = do
    item ← get_object_item_impl object string case_sensitive
    if item == null then pure null else do detach object item; pure item

  unfoldable pub cjson_detach_item_from_object : (object string : Ptr) → Cmd F Ptr
  cjson_detach_item_from_object object string = guard null (detach_object_item object string false)

  unfoldable pub cjson_detach_item_from_object_case_sensitive : (object string : Ptr) → Cmd F Ptr
  cjson_detach_item_from_object_case_sensitive object string =
      guard null (detach_object_item object string true)

  -- the body of both functions that delete an item of an object
  abbrev delete_object_item : (object string : Ptr) → Bool → Cmd F (Unit {0})
  delete_object_item object string case_sensitive = do
    item ← detach_object_item object string case_sensitive
    if item == null then pure tt else free_cjson rounds item

  unfoldable pub cjson_delete_item_from_object : (object string : Ptr) → Cmd F (Unit {0})
  cjson_delete_item_from_object object string = guard tt (delete_object_item object string false)

  unfoldable pub cjson_delete_item_from_object_case_sensitive :
      (object string : Ptr) → Cmd F (Unit {0})
  cjson_delete_item_from_object_case_sensitive object string =
      guard tt (delete_object_item object string true)

  unfoldable pub replace_via_pointer : (parent item replacement : Ptr) → Cmd F Bool
  replace_via_pointer parent item replacement =
      if parent == null || (item == null || replacement == null) then pure false else do
        relink parent item replacement
        move_key item replacement
        set_prev item null
        set_next item null
        free_cjson rounds item
        pure true

  unfoldable pub cjson_replace_item_via_pointer : (parent item replacement : Ptr) → Cmd F Bool
  cjson_replace_item_via_pointer parent item replacement =
      guard false (replace_via_pointer parent item replacement)

  unfoldable pub cjson_replace_item_in_array : Ptr → ℤ → Ptr → Cmd F Bool
  cjson_replace_item_in_array array which newitem = guard false (do
    item ← child_at_index rounds array which
    if item == null then pure false else replace_via_pointer array item newitem)

  unfoldable pub replace_object_item : (object string newitem : Ptr) → Bool → Cmd F Bool
  replace_object_item object string newitem case_sensitive = do
    item ← get_object_item_impl object string case_sensitive
    if item == null then pure false else replace_via_pointer object item newitem

  unfoldable pub cjson_replace_item_in_object : (object string newitem : Ptr) → Cmd F Bool
  cjson_replace_item_in_object object string newitem =
      guard false (replace_object_item object string newitem false)

  unfoldable pub cjson_replace_item_in_object_case_sensitive :
      (object string newitem : Ptr) → Cmd F Bool
  cjson_replace_item_in_object_case_sensitive object string newitem =
      guard false (replace_object_item object string newitem true)
