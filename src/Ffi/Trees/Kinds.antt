-- ===== src/Ffi/Trees/Kinds.antt =====
-- The type predicates of cjson-rs-ffi/src/lib.rs on the tree of a value, beside the predicates of
-- cjson-rs/src/value.rs on the value.
use cjson_rs.Common.{◌↔◌, ℕ, ◌+◌, ◌*◌, true, false, some, List, ◌≡◌, arith}
use cjson_rs.Ffi.Memory.{Ptr, Memory}
use cjson_rs.Ffi.Trees.Compared.{Holds}
use cjson_rs.Ffi.Trees.Shape.{
  Content, null_content, bool_content, number_content, string_content, array_content,
  object_content,
}
use cjson_rs.Ffi.Types.{
  type_eq, cjson_is_invalid, cjson_is_false, cjson_is_true, cjson_is_bool, cjson_is_null,
  cjson_is_number, cjson_is_string, cjson_is_array, cjson_is_object, cjson_is_raw,
}
use cjson_rs.Value.{
  Value, bool, number, string, array, object, is_null, is_bool, is_number, is_string, is_array,
  is_object, as_bool,
}

-- What the ten predicates say of a type with flags in front of its low byte.
pub record Kinds {F : Type 0} (t flags : ℕ) (v : Value F) : Type 0 where
  pub kind_null : cjson_is_null (some (t + 256 * flags)) ≡ is_null v
  pub kind_bool : cjson_is_bool (some (t + 256 * flags)) ≡ is_bool v
  pub kind_number : cjson_is_number (some (t + 256 * flags)) ≡ is_number v
  pub kind_string : cjson_is_string (some (t + 256 * flags)) ≡ is_string v
  pub kind_array : cjson_is_array (some (t + 256 * flags)) ≡ is_array v
  pub kind_object : cjson_is_object (some (t + 256 * flags)) ≡ is_object v
  pub kind_true : (cjson_is_true (some (t + 256 * flags)) ≡ true) ↔ (as_bool v ≡ some true)
  pub kind_false : (cjson_is_false (some (t + 256 * flags)) ≡ true) ↔ (as_bool v ≡ some false)
  pub kind_invalid : cjson_is_invalid (some (t + 256 * flags)) ≡ false
  pub kind_raw : cjson_is_raw (some (t + 256 * flags)) ≡ false

module _ {F : Type 0} where
  Content-Kinds :
      (flags : ℕ) {m : Memory F} {t text child : ℕ} {x : F} {cs : List Ptr} (v : Value F)
      → Content m t text child x cs v
      → Kinds t flags v
  unfolding type_eq cjson_is_invalid cjson_is_false cjson_is_true cjson_is_bool cjson_is_null
      cjson_is_number cjson_is_string cjson_is_array cjson_is_object cjson_is_raw is_null is_bool
      is_number is_string is_array is_object as_bool
  Content-Kinds flags Value.null (null_content e _ _) = ground (arith, e)
  Content-Kinds flags (bool true) (bool_content _ e _ _) = ground (arith, e)
  Content-Kinds flags (bool false) (bool_content _ e _ _) = ground (arith, e)
  Content-Kinds flags (number x) (number_content e _ _) = ground (arith, e)
  Content-Kinds flags (string s) (string_content e _ _ _) = ground (arith, e)
  Content-Kinds flags (array vs) (array_content e _ _) = ground (arith, e)
  Content-Kinds flags (object ms) (object_content e _ _) = ground (arith, e)

  -- Of the root of a tree that holds a value, whatever flags are added to its type, the predicates of the
  -- C interface say what those of `Value` say of the value; for true and false this is its Boolean, and
  -- the root is neither invalid nor raw.
  pub Holds-Kinds :
      (m : Memory F) (p : Ptr) (v : Value F) (h : Holds m p v) (flags : ℕ)
      → Kinds h.node.type_ flags v
  Holds-Kinds m p v h flags = Content-Kinds flags v h.content
