-- ===== src/Ffi/Trees.antt =====
-- cjson-rs-ffi/src/lib.rs and convert.rs: the value of a tree of nodes, and the copy of a tree. The
-- first argument is the fuel.
pub mod Shape
pub mod Read
pub mod Join
pub mod Gone
pub mod Release
pub mod Free
pub mod Cells
pub mod Child
pub mod Keyed
pub mod Round
pub mod Build
pub mod Texts
pub mod Restored
pub mod Partial
pub mod Fails
pub mod Compared
pub mod Kinds
pub mod Whole
use mathlib.Core.Option
use cjson_rs.Common.{
  ℕ, zero, suc, ◌-◌, not, Bool, true, false, ◌||◌, Option, none, some, List, [], ◌==◌,
  if◌then◌else◌,
}
use cjson_rs.Ffi.Alloc.{Double, alloc_node, alloc_cstr, free_cjson, has_flag}
use cjson_rs.Ffi.Compare.{compare_values}
use cjson_rs.Ffi.Create.{c_str}
use cjson_rs.Ffi.Links.{attach_child}
use cjson_rs.Ffi.Memory.{Ptr, null, Cmd, out_of_fuel, pure, ◌>>=◌, ◌>>◌, load, modify, guard}
use cjson_rs.Ffi.Types.{
  tag, cjson_null, cjson_true, cjson_false, cjson_number, cjson_string, cjson_raw, cjson_array,
  cjson_object, cjson_is_reference, cjson_string_is_const,
}
use cjson_rs.Value.{
  Value, Items, Members, bool, number, string, array, object, no_items, item, no_members, member,
}

module _ {F : Type 0} where
  -- the empty string for null
  unfoldable pub str_or_empty : Ptr → Cmd F (Option (List ℕ))
  str_or_empty p = if p == null then pure (some []) else c_str p

  -- `items.push(…)` and `members.push(…)`, for the rest of the loop
  abbrev push_item : Value F → Option (Items F) → Option (Items F)
  push_item v = Option.map (item v)

  abbrev push_member : List ℕ → Value F → Option (Members F) → Option (Members F)
  push_member k v = Option.map (member k v)

  unfoldable mutual
    pub cjson_to_value : ℕ → Ptr → Cmd F (Option (Value F))
    cjson_to_value zero p = λ _. out_of_fuel
    cjson_to_value (suc f) p = if p == null then pure none else do
      n ← load p
      if tag n.type_ == cjson_null
          then pure (some Value.null)
          else if tag n.type_ == cjson_true
          then pure (some (bool true))
          else if tag n.type_ == cjson_false
          then pure (some (bool false))
          else if tag n.type_ == cjson_number
          then pure (some (number n.valuedouble))
          else if tag n.type_ == cjson_string || tag n.type_ == cjson_raw
          then (do s ← str_or_empty n.valuestring; pure (Option.map string s))
          else if tag n.type_ == cjson_array
          then (do items ← items_from f n.child; pure (Option.map array items))
          else if tag n.type_ == cjson_object
          then (do members ← members_from f n.child; pure (Option.map object members))
          else pure none

    pub items_from : ℕ → Ptr → Cmd F (Option (Items F))
    items_from zero cur = λ _. out_of_fuel
    items_from (suc f) cur = if cur == null then pure (some no_items) else do
      value ← cjson_to_value f cur
      elim value [
        | none ↦ pure none
        | some v ↦ do n ← load cur; rest ← items_from f n.next; pure (push_item v rest)
      ]

    pub members_from : ℕ → Ptr → Cmd F (Option (Members F))
    members_from zero cur = λ _. out_of_fuel
    members_from (suc f) cur = if cur == null then pure (some no_members) else do
      n ← load cur
      key ← str_or_empty n.string
      elim key [
        | none ↦ pure none
        | some k ↦ do
          value ← cjson_to_value f cur
          elim value [
            | none ↦ pure none
            | some v ↦ do rest ← members_from f n.next; pure (push_member k v rest)
          ]
      ]

module _ {F : Type 0} (eq_f64 : F → F → Bool) where
  -- the `match` on both values
  abbrev compare_options : Bool → Option (Value F) → Option (Value F) → Bool
  compare_options case_sensitive (some va) (some vb) = compare_values eq_f64 case_sensitive va vb
  compare_options case_sensitive _ _ = false

  unfoldable pub cjson_compare : ℕ → (a b case_sensitive : ℕ) → Cmd F Bool
  cjson_compare f a b case_sensitive = guard false (
      if a == null || b == null then pure false else do
        va ← cjson_to_value f a
        vb ← cjson_to_value f b
        pure (compare_options (not (case_sensitive == 0)) va vb))

module _ {F : Type 0} (f64 : Double F) where
  -- without `CJSON_IS_REFERENCE` and `CJSON_STRING_IS_CONST`
  abbrev without_flag : ℕ → ℕ → ℕ
  without_flag flag t = if has_flag flag t then t - flag else t

  abbrev owned_type : ℕ → ℕ
  owned_type t = without_flag cjson_string_is_const (without_flag cjson_is_reference t)

  -- A copy of the string at `text` goes to `put`, if `text` is not null and is UTF-8; `false` says that
  -- the allocation failed.
  unfoldable pub copy_text : Ptr → (Ptr → Cmd F (Unit {0})) → Cmd F Bool
  copy_text text put = if text == null then pure true else do
    s ← c_str text
    elim s [
      | none ↦ pure true
      | some s ↦ do buf ← alloc_cstr s; put buf; pure (if buf == null then false else true)
    ]

  -- `while !src_child.is_null() { … }`, with `copy` for the recursive call
  unfoldable pub duplicate_children :
      (Ptr → Cmd F Ptr) → (rounds f : ℕ) → (node src_child : Ptr) → Cmd F Bool
  duplicate_children copy rounds zero node src_child = λ _. out_of_fuel
  duplicate_children copy rounds (suc f) node src_child =
      if src_child == null then pure true else do
        dst_child ← copy src_child
        if dst_child == null then pure false else do
          attach_child rounds node dst_child
          n ← load src_child
          duplicate_children copy rounds f node n.next

  abbrev give_up : (rounds : ℕ) → Ptr → Cmd F Ptr
  give_up rounds node = do free_cjson rounds node; pure null

  unfoldable pub duplicate : (rounds f : ℕ) → Ptr → Bool → Cmd F Ptr
  duplicate rounds zero p recurse = λ _. out_of_fuel
  duplicate rounds (suc f) p recurse = if p == null then pure null else do
    node ← alloc_node f64
    if node == null then pure null else do
      i ← load p
      modify node λ z. record z {
        type_ = owned_type i.type_;
        valuedouble = i.valuedouble;
        valueint = i.valueint;
      }
      copied ← copy_text i.valuestring λ buf. modify node λ z. record z { valuestring = buf }
      if copied
          then (do
            named ← copy_text i.string λ buf. modify node λ z. record z { string = buf }
            if named
                then (if recurse
                    then (do
                      done ←
                          duplicate_children (λ c. duplicate rounds f c true) rounds rounds node
                            i.child
                      if done then pure node else give_up rounds node)
                    else pure node)
                else give_up rounds node)
          else give_up rounds node

  unfoldable pub cjson_duplicate : (rounds f : ℕ) → Ptr → ℕ → Cmd F Ptr
  cjson_duplicate rounds f p recurse =
      guard null (duplicate rounds f p (if recurse == 0 then false else true))
