-- ===== src/Ffi/Links.antt =====
-- cjson-rs-ffi/src/convert.rs and lib.rs: the operations on the linked list of the children of a
-- node. `rounds` is the fuel of each loop over the children.
pub mod Attach
pub mod Open
pub mod Index
pub mod Place
pub mod Insert
pub mod Array
pub mod Detach
use cjson_rs.Common.{
  ℕ, zero, suc, ◌+◌, Bool, true, false, ◌||◌, not, ◌==◌, ltb, min, ◌^◌, ◌-◌, if◌then◌else◌,
}
use cjson_rs.Common.Int.{ℤ, pos, negsuc, is_negative, to_nat}
use cjson_rs.Ffi.Memory.{
  Ptr, null, Node, Cmd, out_of_fuel, pure, ◌>>=◌, ◌>>◌, load, set_next, set_prev, set_child, guard,
}
use cjson_rs.Ffi.Types.{cjson_array, tag}

abbrev pub c_int_max : ℕ
c_int_max = 2 ^ 31 - 1

module _ {F : Type 0} where
  -- `while !(*tail).next.is_null() { tail = (*tail).next; }`
  unfoldable pub find_tail : ℕ → Ptr → Cmd F Ptr
  find_tail zero tail = λ _. out_of_fuel
  find_tail (suc f) tail = do
    n ← load tail
    if n.next == null then pure tail else find_tail f n.next

  unfoldable pub attach_child : ℕ → (parent child : Ptr) → Cmd F (Unit {0})
  attach_child rounds parent child = do
    n ← load parent
    if n.child == null
        then (do set_child parent child; set_prev child null; set_next child null)
        else (do
          tail ← find_tail rounds n.child
          set_next tail child
          set_prev child tail
          set_next child null)

  -- `if !next.is_null() { (*next).prev = prev; }`
  abbrev pub set_prev_unless_null : Ptr → Ptr → Cmd F (Unit {0})
  set_prev_unless_null next prev = if next == null then pure tt else set_prev next prev

  unfoldable pub detach : (parent item : Ptr) → Cmd F (Unit {0})
  detach parent item = if item == null then pure tt else do
    n ← load item
    if not (n.prev == null)
        then set_next n.prev n.next
        else if not (parent == null)
        then set_child parent n.next
        else pure tt
    set_prev_unless_null n.next n.prev
    set_next item null
    set_prev item null

  -- `while !cur.is_null() { if i == which { return cur; } cur = (*cur).next; i += 1; }`
  unfoldable pub index_loop : ℕ → (which i : ℕ) → Ptr → Cmd F Ptr
  index_loop zero which i cur = λ _. out_of_fuel
  index_loop (suc f) which i cur =
      if cur == null
      then pure null
      else if i == which
      then pure cur
      else do n ← load cur; index_loop f which (i + 1) n.next

  unfoldable pub child_at_index : ℕ → Ptr → ℤ → Cmd F Ptr
  child_at_index rounds parent which =
      if parent == null || is_negative which
      then pure null
      else do n ← load parent; index_loop rounds (to_nat which) 0 n.child

  -- the body is that of `child_at_index`
  unfoldable pub cjson_get_array_item : ℕ → Ptr → ℤ → Cmd F Ptr
  cjson_get_array_item rounds array index = guard null (
      if array == null || is_negative index
      then pure null
      else do n ← load array; index_loop rounds (to_nat index) 0 n.child)

  -- `while !cur.is_null() { count = count.saturating_add(1); cur = (*cur).next; }`
  unfoldable pub count_loop : ℕ → (count : ℕ) → Ptr → Cmd F ℕ
  count_loop zero count cur = λ _. out_of_fuel
  count_loop (suc f) count cur =
      if cur == null
      then pure count
      else do n ← load cur; count_loop f (min (count + 1) c_int_max) n.next

  unfoldable pub cjson_get_array_size : ℕ → Ptr → Cmd F ℕ
  cjson_get_array_size rounds array =
      guard 0 (if array == null then pure 0 else do n ← load array; count_loop rounds 0 n.child)

  unfoldable pub cjson_add_item_to_array : ℕ → (array item : Ptr) → Cmd F Bool
  cjson_add_item_to_array rounds array item = guard false (
      if array == null || item == null then pure false else do
        n ← load array
        if not (tag n.type_ == cjson_array)
            then pure false
            else do attach_child rounds array item; pure true)

  unfoldable pub cjson_detach_item_via_pointer : (parent item : Ptr) → Cmd F Ptr
  cjson_detach_item_via_pointer parent item =
      guard null
        (if parent == null || item == null then pure null else do detach parent item; pure item)

  unfoldable pub cjson_detach_item_from_array : ℕ → Ptr → ℤ → Cmd F Ptr
  cjson_detach_item_from_array rounds array which = guard null (do
    item ← child_at_index rounds array which
    if item == null then pure null else do detach array item; pure item)

  -- the splice in `cJSON_InsertItemInArray`
  unfoldable pub splice : (array existing newitem : Ptr) → Cmd F (Unit {0})
  splice array existing newitem = do
    n ← load existing
    set_prev newitem n.prev
    set_next newitem existing
    if n.prev == null then set_child array newitem else set_next n.prev newitem
    set_prev existing newitem

  unfoldable pub cjson_insert_item_in_array : ℕ → Ptr → ℤ → Ptr → Cmd F Bool
  cjson_insert_item_in_array rounds array which newitem = guard false (
      if array == null || (newitem == null || is_negative which) then pure false else do
        n ← load array
        if not (tag n.type_ == cjson_array) then pure false else do
          existing ← child_at_index rounds array which
          if existing == null
              then (do attach_child rounds array newitem; pure true)
              else (do splice array existing newitem; pure true))
