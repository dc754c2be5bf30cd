-- ===== src/Ffi/Types.antt =====
-- cjson-rs-ffi/src/types.rs and lib.rs: the type tags and the predicates on them. Of the node only
-- `type_` matters, which is taken as its 32 bits; `none` is the null pointer.
use cjson_rs.Common.{ℕ, ◌%◌, Bool, true, false, ◌||◌, Option, none, some, ◌==◌, if◌then◌else◌}

abbrev pub cjson_invalid : ℕ
cjson_invalid = 0

abbrev pub cjson_false : ℕ
cjson_false = 1

abbrev pub cjson_true : ℕ
cjson_true = 2

abbrev pub cjson_null : ℕ
cjson_null = 4

abbrev pub cjson_number : ℕ
cjson_number = 8

abbrev pub cjson_string : ℕ
cjson_string = 16

abbrev pub cjson_array : ℕ
cjson_array = 32

abbrev pub cjson_object : ℕ
cjson_object = 64

abbrev pub cjson_raw : ℕ
cjson_raw = 128

abbrev pub cjson_is_reference : ℕ
cjson_is_reference = 256

abbrev pub cjson_string_is_const : ℕ
cjson_string_is_const = 512

-- `& 0xFF`
abbrev pub tag : ℕ → ℕ
tag type_ = type_ % 256

unfoldable pub type_eq : Option ℕ → ℕ → Bool
type_eq none t = false
type_eq (some type_) t = if tag type_ == t then true else false

unfoldable pub cjson_is_invalid : Option ℕ → Bool
cjson_is_invalid item = type_eq item cjson_invalid

unfoldable pub cjson_is_false : Option ℕ → Bool
cjson_is_false item = type_eq item cjson_false

unfoldable pub cjson_is_true : Option ℕ → Bool
cjson_is_true item = type_eq item cjson_true

unfoldable pub cjson_is_bool : Option ℕ → Bool
cjson_is_bool none = false
cjson_is_bool (some type_) =
    if tag type_ == cjson_true || tag type_ == cjson_false then true else false

unfoldable pub cjson_is_null : Option ℕ → Bool
cjson_is_null item = type_eq item cjson_null

unfoldable pub cjson_is_number : Option ℕ → Bool
cjson_is_number item = type_eq item cjson_number

unfoldable pub cjson_is_string : Option ℕ → Bool
cjson_is_string item = type_eq item cjson_string

unfoldable pub cjson_is_array : Option ℕ → Bool
cjson_is_array item = type_eq item cjson_array

unfoldable pub cjson_is_object : Option ℕ → Bool
cjson_is_object item = type_eq item cjson_object

unfoldable pub cjson_is_raw : Option ℕ → Bool
cjson_is_raw item = type_eq item cjson_raw
