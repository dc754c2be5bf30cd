-- ===== src/Ffi/Compare.antt =====
-- cjson-rs-ffi/src/lib.rs: `compare_values`, what `cJSON_Compare` decides. Equality of `f64` is a
-- parameter.
use cjson_rs.Common.{
  ℕ, ◌+◌, Bool, true, false, ◌&&◌, ◌||◌, not, List, [], ◌∷◌, map, ◌==◌, within, if◌then◌else◌,
}
use cjson_rs.Value.{
  Value, Items, Members, null, bool, number, string, array, object, no_items, item, no_members,
  member,
}

-- equality of strings
unfoldable pub str_eq : List ℕ → List ℕ → Bool
str_eq [] [] = true
str_eq (c ∷ s) (d ∷ t) = c == d && str_eq s t
str_eq _ _ = false

-- `to_ascii_lowercase`
abbrev pub lower : ℕ → ℕ
lower c = if within b'A' b'Z' c then c + 32 else c

-- `k1 == k2` or `k1.eq_ignore_ascii_case(k2)`
unfoldable pub keys_match : Bool → List ℕ → List ℕ → Bool
keys_match case_sensitive k1 k2 =
    if case_sensitive then str_eq k1 k2 else str_eq (map lower k1) (map lower k2)

abbrev bool_eq : Bool → Bool → Bool
bool_eq true b = b
bool_eq false b = not b

module _ {F : Type 0} where
  unfoldable pub item_count : Items F → ℕ
  item_count no_items = 0
  item_count (item v vs) = 1 + item_count vs

  unfoldable pub member_count : Members F → ℕ
  member_count no_members = 0
  member_count (member k v ms) = 1 + member_count ms

  -- `y.iter().any(…)`, with `same` for the comparison of the value
  unfoldable pub any_member : Bool → List ℕ → (Value F → Bool) → Members F → Bool
  any_member case_sensitive k1 same no_members = false
  any_member case_sensitive k1 same (member k2 v2 ms) =
      (keys_match case_sensitive k1 k2 && same v2) || any_member case_sensitive k1 same ms

module _ {F : Type 0} (eq_f64 : F → F → Bool) (case_sensitive : Bool) where
  unfoldable mutual
    pub compare_values : Value F → Value F → Bool
    compare_values null null = true
    compare_values (bool x) (bool y) = bool_eq x y
    compare_values (number x) (number y) = eq_f64 x y
    compare_values (string x) (string y) = str_eq x y
    compare_values (array x) (array y) = item_count x == item_count y && compare_items x y
    compare_values (object x) (object y) =
        if not (member_count x == member_count y) then false else compare_members x y
    compare_values _ _ = false

    -- `x.iter().zip(y.iter()).all(…)`
    pub compare_items : Items F → Items F → Bool
    compare_items (item v vs) (item w ws) = compare_values v w && compare_items vs ws
    compare_items _ _ = true

    -- `x.iter().all(…)`
    pub compare_members : Members F → Members F → Bool
    compare_members no_members y = true
    compare_members (member k v ms) y =
        any_member case_sensitive k (compare_values v) y && compare_members ms y
