-- ===== src/Ffi/Adding.antt =====
-- cjson-rs-ffi/src/lib.rs: references to items, and the functions that create a node and add it to an
-- object. `rounds` is the fuel of each loop and of each release.
use cjson_rs.Common.{ℕ, ◌+◌, Bool, true, false, ◌||◌, not, ◌==◌, if◌then◌else◌}
use cjson_rs.Ffi.Alloc.{Double, new_node, free_cjson}
use cjson_rs.Ffi.Create.{
  cjson_create_null, cjson_create_true, cjson_create_false, cjson_create_bool, cjson_create_number,
  cjson_create_string, cjson_create_raw, cjson_create_object, cjson_create_array,
}
use cjson_rs.Ffi.Links.{attach_child}
use cjson_rs.Ffi.Memory.{Ptr, null, Cmd, pure, ◌>>=◌, ◌>>◌, load, modify, guard}
use cjson_rs.Ffi.Objects.{attach_named_child, add_to_object}
use cjson_rs.Ffi.Types.{tag, cjson_array, cjson_object, cjson_is_reference}

module _ {F : Type 0} (f64 : Double F) (rounds : ℕ) where
  unfoldable pub cjson_delete : Ptr → Cmd F (Unit {0})
  cjson_delete item = guard tt (free_cjson rounds item)

  -- The tag has 8 bits, so that `|` with the flag is the sum.
  unfoldable pub wrap_as_reference : Ptr → Cmd F Ptr
  wrap_as_reference item = do
    i ← load item
    r ← new_node f64 (tag i.type_ + cjson_is_reference)
    if r == null then pure null else do
      modify r λ z. record z {
        valuestring = i.valuestring;
        valueint = i.valueint;
        valuedouble = i.valuedouble;
        child = i.child;
      }
      pure r

  unfoldable pub cjson_add_item_reference_to_array : (array item : Ptr) → Cmd F Bool
  cjson_add_item_reference_to_array array item = guard false (
      if array == null || item == null then pure false else do
        n ← load array
        if not (tag n.type_ == cjson_array) then pure false else do
          r ← wrap_as_reference item
          if r == null then pure false else do attach_child rounds array r; pure true)

  unfoldable pub cjson_add_item_reference_to_object : (object name item : Ptr) → Cmd F Bool
  cjson_add_item_reference_to_object object name item = guard false (
      if object == null || (name == null || item == null) then pure false else do
        n ← load object
        if not (tag n.type_ == cjson_object) then pure false else do
          r ← wrap_as_reference item
          if r == null then pure false else do
            added ← attach_named_child rounds object name r
            if added then pure true else do free_cjson rounds r; pure false)

  -- the body of each function below
  abbrev add_created : (object name : Ptr) → Cmd F Ptr → Cmd F Ptr
  add_created object name create =
      guard null (do item ← create; add_to_object rounds object name item)

  unfoldable pub cjson_add_null_to_object : (object name : Ptr) → Cmd F Ptr
  cjson_add_null_to_object object name = add_created object name (cjson_create_null f64)

  unfoldable pub cjson_add_true_to_object : (object name : Ptr) → Cmd F Ptr
  cjson_add_true_to_object object name = add_created object name (cjson_create_true f64)

  unfoldable pub cjson_add_false_to_object : (object name : Ptr) → Cmd F Ptr
  cjson_add_false_to_object object name = add_created object name (cjson_create_false f64)

  unfoldable pub cjson_add_bool_to_object : (object name boolean : ℕ) → Cmd F Ptr
  cjson_add_bool_to_object object name boolean =
      add_created object name (cjson_create_bool f64 boolean)

  unfoldable pub cjson_add_number_to_object : (object name : Ptr) → F → Cmd F Ptr
  cjson_add_number_to_object object name number =
      add_created object name (cjson_create_number f64 number)

  unfoldable pub cjson_add_string_to_object : (object name string : Ptr) → Cmd F Ptr
  cjson_add_string_to_object object name string =
      add_created object name (cjson_create_string f64 string)

  unfoldable pub cjson_add_raw_to_object : (object name raw : Ptr) → Cmd F Ptr
  cjson_add_raw_to_object object name raw = add_created object name (cjson_create_raw f64 raw)

  unfoldable pub cjson_add_object_to_object : (object name : Ptr) → Cmd F Ptr
  cjson_add_object_to_object object name = add_created object name (cjson_create_object f64)

  unfoldable pub cjson_add_array_to_object : (object name : Ptr) → Cmd F Ptr
  cjson_add_array_to_object object name = add_created object name (cjson_create_array f64)
