-- ===== src/Ffi/Create.antt =====
-- cjson-rs-ffi/src/lib.rs: the constructors of single nodes, and the getters and setters of their
-- values.
pub mod Created
use cjson_rs.Common.{
  ℕ, ◌+◌, Bool, true, false, ◌||◌, Option, none, some, List, Bytes, ◌==◌, not, if◌then◌else◌,
}
use cjson_rs.Ffi.Alloc.{Double, new_node, clamp_to_int, alloc_cstr, hook_free, has_flag}
use cjson_rs.Ffi.Memory.{
  Ptr, null, Node, Memory, Cmd, ok, pure, ◌>>=◌, ◌>>◌, load, modify, guard, set_child,
}
use cjson_rs.Ffi.Parse.{c_bytes}
use cjson_rs.Ffi.Types.{
  tag, cjson_null, cjson_true, cjson_false, cjson_number, cjson_string, cjson_raw, cjson_array,
  cjson_object, cjson_is_reference,
}
use cjson_rs.Text.{from_utf8}

module _ {F : Type 0} where
  -- `CStr::from_ptr(p).to_str()`
  unfoldable pub c_str : Ptr → Cmd F (Option (List ℕ))
  c_str p = do bytes ← c_bytes p; pure (from_utf8 bytes)

  unfoldable pub cjson_get_string_value : Ptr → Cmd F Ptr
  cjson_get_string_value item = guard null (
      if item == null then pure null else do
        n ← load item
        if not (tag n.type_ == cjson_string) then pure null else pure n.valuestring)

  unfoldable pub cjson_get_number_value : F → Ptr → Cmd F F
  cjson_get_number_value nan item = guard nan (
      if item == null then pure nan else do
        n ← load item
        if not (tag n.type_ == cjson_number) then pure nan else pure n.valuedouble)

module _ {F : Type 0} (f64 : Double F) where
  unfoldable pub cjson_create_null : Cmd F Ptr
  cjson_create_null = guard null (new_node f64 cjson_null)

  unfoldable pub cjson_create_true : Cmd F Ptr
  cjson_create_true = guard null (new_node f64 cjson_true)

  unfoldable pub cjson_create_false : Cmd F Ptr
  cjson_create_false = guard null (new_node f64 cjson_false)

  unfoldable pub cjson_create_bool : ℕ → Cmd F Ptr
  cjson_create_bool b = guard null (new_node f64 (if not (b == 0) then cjson_true else cjson_false))

  abbrev pub with_number : F → Node F → Node F
  with_number x z = record z { valuedouble = x; valueint = clamp_to_int f64 x }

  unfoldable pub cjson_create_number : F → Cmd F Ptr
  cjson_create_number num = guard null (do
    n ← new_node f64 cjson_number
    if n == null then pure null else do modify n (with_number num); pure n)

  abbrev pub with_valuestring : Ptr → Node F → Node F
  with_valuestring p z = record z { valuestring = p }

  unfoldable pub create_string_like : (s : Ptr) (type_tag : ℕ) → Cmd F Ptr
  create_string_like s type_tag = if s == null then pure null else do
    text ← c_str s
    elim text [
      | none ↦ pure null
      | some s_str ↦ do
        n ← new_node f64 type_tag
        if n == null then pure null else do
          buf ← alloc_cstr s_str
          modify n (with_valuestring buf)
          if buf == null then (do hook_free n; pure null) else pure n
    ]

  unfoldable pub cjson_create_string : Ptr → Cmd F Ptr
  cjson_create_string s = guard null (create_string_like s cjson_string)

  unfoldable pub cjson_create_raw : Ptr → Cmd F Ptr
  cjson_create_raw raw = guard null (create_string_like raw cjson_raw)

  unfoldable pub cjson_create_array : Cmd F Ptr
  cjson_create_array = guard null (new_node f64 cjson_array)

  unfoldable pub cjson_create_object : Cmd F Ptr
  cjson_create_object = guard null (new_node f64 cjson_object)

  -- The types in the three references have no bits in common, so that `|` is the sum.
  unfoldable pub cjson_create_string_reference : Ptr → Cmd F Ptr
  cjson_create_string_reference s = guard null (
      if s == null then pure null else do
        n ← new_node f64 (cjson_string + cjson_is_reference)
        if n == null then pure null else do modify n (with_valuestring s); pure n)

  unfoldable pub cjson_create_object_reference : Ptr → Cmd F Ptr
  cjson_create_object_reference child = guard null (do
    n ← new_node f64 (cjson_object + cjson_is_reference)
    if n == null then pure null else do set_child n child; pure n)

  unfoldable pub cjson_create_array_reference : Ptr → Cmd F Ptr
  cjson_create_array_reference child = guard null (do
    n ← new_node f64 (cjson_array + cjson_is_reference)
    if n == null then pure null else do set_child n child; pure n)

  unfoldable pub cjson_set_number_helper : Ptr → F → Cmd F F
  cjson_set_number_helper object number = guard number (
      if object == null then pure number else do
        n ← load object
        if not (tag n.type_ == cjson_number)
            then pure number
            else do modify object (with_number number); pure number)

module _ {F : Type 0} where
  unfoldable pub cjson_set_valuestring : (object valuestring : Ptr) → Cmd F Ptr
  cjson_set_valuestring object valuestring = guard null (
      if object == null || valuestring == null then pure null else do
        n ← load object
        if not (tag n.type_ == cjson_string) || has_flag cjson_is_reference n.type_
            then pure null
            else do
              text ← c_str valuestring
              elim text [
                | none ↦ pure null
                | some s ↦ do
                  new_buf ← alloc_cstr s
                  if new_buf == null then pure null else do
                    if n.valuestring == null then pure tt else hook_free n.valuestring
                    modify object λ z. record z { valuestring = new_buf }
                    pure new_buf
              ])
