-- ===== src/Ffi/Alloc.antt =====
-- cjson-rs-ffi/src/convert.rs: the allocation of nodes and C strings, their release, and the
-- conversion of a value into a tree of nodes. `rounds` is the fuel of the release.
use cjson_rs.Common.{
  ℕ, zero, suc, Bool, true, false, ◌||◌, ◌&&◌, not, Option, none, some, List, [], ◌∷◌, ◌++◌, ◌==◌,
  ◌/◌, ◌%◌, if◌then◌else◌,
}
use cjson_rs.Ffi.Memory.{
  Ptr, null, Node, Memory, Cmd, ok, fault, out_of_fuel, pure, ◌>>=◌, ◌>>◌, load, store, modify,
  update, set_next, set_prev, set_child,
}
use cjson_rs.Ffi.Types.{
  cjson_null, cjson_true, cjson_false, cjson_number, cjson_string, cjson_array, cjson_object,
  cjson_is_reference, cjson_string_is_const,
}
use cjson_rs.Text.{as_bytes}
use cjson_rs.Value.{
  Value, Items, Members, bool, number, string, array, object, no_items, item, no_members, member,
}

-- what the code takes of `f64`
pub record Double (F : Type 0) : Type 0 where
  -- the number whose bytes are all 0
  pub zero_bytes : F
  pub is_nan : F → Bool
  -- `n >= c_int::MAX as f64` and `n <= c_int::MIN as f64`
  pub at_least_max : F → Bool
  pub at_most_min : F → Bool
  -- `n as c_int`, by its 32 bits
  pub as_c_int : F → ℕ

-- `type_ & flag != 0`, for a flag that is a power of two
abbrev pub has_flag : ℕ → ℕ → Bool
has_flag flag type_ = not ((type_ / flag) % 2 == 0)

abbrev is_some {ℓ} : {A : Type ℓ} → Option A → Bool
is_some none = false
is_some (some a) = true

module _ {F : Type 0} where
  abbrev used : Memory F → Ptr → Bool
  used m a = is_some (m.nodes a) || is_some (m.texts a)

  -- `hook_malloc`: the next answer of the allocator
  unfoldable pub alloc : Cmd F Ptr
  alloc m = elim m.answers [
    | [] ↦ ok null m
    | a ∷ rest ↦ ok (if a == null || used m a then null else a) (record m { answers = rest })
  ]

  -- `hook_free`: it takes a node or a text
  unfoldable pub hook_free : Ptr → Cmd F (Unit {0})
  hook_free p m =
      if p == null
      then ok tt m
      else if used m p
      then ok tt (record m { nodes = update m.nodes p none; texts = update m.texts p none })
      else fault

  -- `alloc_cstr`
  unfoldable pub alloc_cstr : List ℕ → Cmd F Ptr
  alloc_cstr s = do
    buf ← alloc
    if buf == null then pure null else λ m.
        ok buf (record m { texts = update m.texts buf (some (as_bytes s ++ 0 ∷ [])) })

  unfoldable pub free_children : (Ptr → Cmd F (Unit {0})) → ℕ → Ptr → Cmd F (Unit {0})
  free_children free zero cur = λ _. out_of_fuel
  free_children free (suc f) cur =
      if cur == null then pure tt else do n ← load cur; free cur; free_children free f n.next

  unfoldable pub free_cjson : ℕ → Ptr → Cmd F (Unit {0})
  free_cjson zero node = λ _. out_of_fuel
  free_cjson (suc f) node = if node == null then pure tt else do
    n ← load node
    if has_flag cjson_is_reference n.type_ then pure tt else do
      free_children (free_cjson f) f n.child
      if n.valuestring == null then pure tt else hook_free n.valuestring
    if not (n.string == null) && not (has_flag cjson_string_is_const n.type_)
        then hook_free n.string
        else pure tt
    hook_free node

module _ {F : Type 0} (f64 : Double F) where
  unfoldable pub clamp_to_int : F → ℕ
  clamp_to_int n =
      if f64.is_nan n
      then 0
      else if f64.at_least_max n
      then 0x7FFFFFFF
      else if f64.at_most_min n
      then 0x80000000
      else f64.as_c_int n

  -- what `memset` leaves
  abbrev pub zeroed : Node F
  zeroed = record {
    next = null;
    prev = null;
    child = null;
    type_ = 0;
    valuestring = null;
    valueint = 0;
    valuedouble = f64.zero_bytes;
    string = null;
  }

  unfoldable pub alloc_node : Cmd F Ptr
  alloc_node = do p ← alloc; if p == null then pure p else do store p zeroed; pure p

  unfoldable pub new_node : ℕ → Cmd F Ptr
  new_node t = do
    n ← alloc_node
    if n == null then pure n else do modify n λ z. record z { type_ = t }; pure n

  abbrev pub set_number : F → Node F → Node F
  set_number x z = record z { type_ = cjson_number; valuedouble = x; valueint = clamp_to_int x }

  module _ (rounds : ℕ) where
    -- `if` the children could not be appended, the partial tree is freed
    abbrev pub unless_failed : Ptr → Bool → Cmd F Ptr
    unless_failed node done = if done then pure node else do free_cjson rounds node; pure null

    -- a node that `fill` completes, unless the allocation fails
    abbrev pub allocated : (Ptr → Cmd F Ptr) → Cmd F Ptr
    allocated fill = do node ← alloc_node; if node == null then pure null else fill node

    -- The call of `value_to_cjson` on a child is written out.
    unfoldable mutual
      -- the `match` on the value
      pub fill_node : Ptr → Value F → Cmd F Ptr
      fill_node node Value.null = do modify node λ z. record z { type_ = cjson_null }; pure node
      fill_node node (bool true) = do modify node λ z. record z { type_ = cjson_true }; pure node
      fill_node node (bool false) = do modify node λ z. record z { type_ = cjson_false }; pure node
      fill_node node (number x) = do modify node (set_number x); pure node
      fill_node node (string s) = do
        modify node λ z. record z { type_ = cjson_string }
        text ← alloc_cstr s
        modify node λ z. record z { valuestring = text }
        if text == null then (do hook_free node; pure null) else pure node
      fill_node node (array items) = do
        modify node λ z. record z { type_ = cjson_array }
        done ← append_items node null items
        unless_failed node done
      fill_node node (object members) = do
        modify node λ z. record z { type_ = cjson_object }
        done ← append_members node null members
        unless_failed node done

      -- `append_children` without keys
      pub append_items : (parent prev : Ptr) → Items F → Cmd F Bool
      append_items parent prev no_items = pure true
      append_items parent prev (item value items) = do
        child ← allocated λ node. fill_node node value
        if child == null then pure false else do
          set_prev child prev
          if prev == null then set_child parent child else set_next prev child
          append_items parent child items

      -- `append_children` with keys
      pub append_members : (parent prev : Ptr) → Members F → Cmd F Bool
      append_members parent prev no_members = pure true
      append_members parent prev (member k value members) = do
        child ← allocated λ node. fill_node node value
        if child == null then pure false else do
          text ← alloc_cstr k
          modify child λ z. record z { string = text }
          if text == null then (do free_cjson rounds child; pure false) else do
            set_prev child prev
            if prev == null then set_child parent child else set_next prev child
            append_members parent child members

    unfoldable pub value_to_cjson : Value F → Cmd F Ptr
    value_to_cjson value = allocated λ node. fill_node node value
