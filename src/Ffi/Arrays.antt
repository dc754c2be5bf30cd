-- ===== src/Ffi/Arrays.antt =====
-- cjson-rs-ffi/src/lib.rs: the constructors of arrays from C arrays. `none` is the null pointer; a
-- read behind the end of a C array is a fault. `rounds` is the fuel of each loop over children and
-- of each release.
pub mod Numeric
use cjson_rs.Common.{
  ℕ, zero, suc, Bool, true, false, ◌||◌, not, Option, none, some, List, [], ◌∷◌, ◌==◌,
  if◌then◌else◌,
}
use cjson_rs.Common.Int.{ℤ, pos, negsuc, is_negative, to_nat}
use cjson_rs.Ffi.Alloc.{Double, new_node, free_cjson}
use cjson_rs.Ffi.Create.{with_number, create_string_like}
use cjson_rs.Ffi.Links.{attach_child}
use cjson_rs.Ffi.Memory.{Ptr, null, Node, Cmd, ok, fault, pure, ◌>>=◌, ◌>>◌, modify, guard}
use cjson_rs.Ffi.Types.{cjson_array, cjson_number, cjson_string}

module _ {F : Type 0} (f64 : Double F) (rounds : ℕ) where
  -- `for i in 0..count { … }`, then `arr`
  unfoldable pub numeric_loop : {T : Type 0} → (T → F) → Ptr → ℕ → List T → Cmd F Ptr
  numeric_loop mk arr zero values = pure arr
  numeric_loop mk arr (suc count) [] = λ _. fault
  numeric_loop mk arr (suc count) (v ∷ values) = do
    n ← new_node f64 cjson_number
    if n == null then (do free_cjson rounds arr; pure null) else (do
      modify n (with_number f64 (mk v))
      attach_child rounds arr n
      numeric_loop mk arr count values)

  unfoldable pub create_numeric_array : {T : Type 0} → (T → F) → Option (List T) → ℤ → Cmd F Ptr
  create_numeric_array mk none count = pure null
  create_numeric_array mk (some values) count = if is_negative count then pure null else do
    arr ← new_node f64 cjson_array
    if arr == null then pure null else numeric_loop mk arr (to_nat count) values

  -- `of_c_int` is `v as f64`
  unfoldable pub cjson_create_int_array : (of_c_int : ℕ → F) → Option (List ℕ) → ℤ → Cmd F Ptr
  cjson_create_int_array of_c_int numbers count =
      guard null (create_numeric_array of_c_int numbers count)

  unfoldable pub cjson_create_float_array :
      {F32 : Type 0} → (of_f32 : F32 → F) → Option (List F32) → ℤ → Cmd F Ptr
  cjson_create_float_array of_f32 numbers count =
      guard null (create_numeric_array of_f32 numbers count)

  unfoldable pub cjson_create_double_array : Option (List F) → ℤ → Cmd F Ptr
  cjson_create_double_array numbers count = guard null (create_numeric_array (λ v. v) numbers count)

  unfoldable pub string_array_loop : Ptr → ℕ → List Ptr → Cmd F Ptr
  string_array_loop arr zero strings = pure arr
  string_array_loop arr (suc count) [] = λ _. fault
  string_array_loop arr (suc count) (s_ptr ∷ strings) = do
    item ← create_string_like f64 s_ptr cjson_string
    if item == null
        then (do free_cjson rounds arr; pure null)
        else (do attach_child rounds arr item; string_array_loop arr count strings)

  unfoldable pub cjson_create_string_array : Option (List Ptr) → ℤ → Cmd F Ptr
  cjson_create_string_array none count = pure null
  cjson_create_string_array (some strings) count = guard null (
      if is_negative count then pure null else do
        arr ← new_node f64 cjson_array
        if arr == null then pure null else string_array_loop arr (to_nat count) strings)
