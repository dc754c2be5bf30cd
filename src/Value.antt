-- ===== src/Value.antt =====
-- value.rs: JSON values. `Items` is `Vec<Value>` and `Members` is `Vec<(String, Value)>`.
use cjson_rs.Common.{ℕ, List, Bool, true, false, Option, none, some}

mutual
  pub data Value (F : Type 0) : Type 0 where
    null : Value F
    bool : Bool → Value F
    number : F → Value F
    string : List ℕ → Value F
    array : Items F → Value F
    object : Members F → Value F

  pub data Items (F : Type 0) : Type 0 where
    no_items : Items F
    item : Value F → Items F → Items F

  pub data Members (F : Type 0) : Type 0 where
    no_members : Members F
    member : List ℕ → Value F → Members F → Members F

module _ {F : Type 0} where
  unfoldable pub is_null : Value F → Bool
  is_null null = true
  is_null _ = false

  unfoldable pub is_bool : Value F → Bool
  is_bool (bool _) = true
  is_bool _ = false

  unfoldable pub is_number : Value F → Bool
  is_number (number _) = true
  is_number _ = false

  unfoldable pub is_string : Value F → Bool
  is_string (string _) = true
  is_string _ = false

  unfoldable pub is_array : Value F → Bool
  is_array (array _) = true
  is_array _ = false

  unfoldable pub is_object : Value F → Bool
  is_object (object _) = true
  is_object _ = false

  unfoldable pub as_bool : Value F → Option Bool
  as_bool (bool b) = some b
  as_bool _ = none

  unfoldable pub as_number : Value F → Option F
  as_number (number n) = some n
  as_number _ = none

  unfoldable pub as_str : Value F → Option (List ℕ)
  as_str (string s) = some s
  as_str _ = none

  unfoldable pub as_array : Value F → Option (Items F)
  as_array (array a) = some a
  as_array _ = none

  unfoldable pub as_object : Value F → Option (Members F)
  as_object (object o) = some o
  as_object _ = none
