-- ===== src/Ffi/Print.antt =====
-- cjson-rs-ffi/src/lib.rs: the functions that print a tree of nodes. `rounds` is the fuel of the
-- walk over the tree.
pub mod Preallocated
pub mod Parsed
use cjson_rs.Common.{
  ℕ, zero, suc, ◌+◌, Bool, true, false, ◌||◌, not, Option, none, some, List, [], ◌∷◌, ◌++◌, Bytes,
  ◌==◌, ltb, if◌then◌else◌, length, drop,
}
use cjson_rs.Common.Int.{ℤ, pos, negsuc, to_nat}
use cjson_rs.Ffi.Alloc.{alloc, hook_free}
use cjson_rs.Ffi.Create.{c_str}
use cjson_rs.Ffi.Memory.{
  Ptr, null, Node, Cmd, ok, fault, out_of_fuel, pure, ◌>>=◌, ◌>>◌, load, update, guard,
}
use cjson_rs.Ffi.Text.{write_escaped}
use cjson_rs.Ffi.Trees.{cjson_to_value}
use cjson_rs.Ffi.Types.{
  tag, cjson_null, cjson_true, cjson_false, cjson_number, cjson_string, cjson_raw, cjson_array,
  cjson_object,
}
use cjson_rs.Number.{Float}
use cjson_rs.Serialiser.{serialise, null_text, true_text, false_text}
use cjson_rs.Text.{as_bytes}

-- `for _ in 0..n { out.push('\t'); }`
unfoldable pub push_tabs : List ℕ → ℕ → List ℕ
push_tabs out zero = out
push_tabs out (suc n) = push_tabs (out ++ b'\t' ∷ []) n

-- two quotation marks
abbrev empty_text : List ℕ
empty_text = b'"' ∷ b'"' ∷ []

module _ {F : Type 0} where
  -- a string or a key, which is written as the empty string where it is null or not UTF-8
  unfoldable pub write_text_at : List ℕ → Ptr → Cmd F (List ℕ)
  write_text_at out p = if p == null then pure (out ++ empty_text) else do
    s ← c_str p
    elim s [ none ↦ pure (out ++ empty_text) | some s ↦ pure (write_escaped out s) ]

  unfoldable pub write_raw_at : List ℕ → Ptr → Cmd F (List ℕ)
  write_raw_at out p =
      if p == null
      then pure out
      else do s ← c_str p; elim s [ none ↦ pure out | some s ↦ pure (out ++ s) ]

  -- the copy of the text and its NUL to a buffer
  unfoldable pub fill_buffer : Ptr → Bytes → Cmd F (Unit {0})
  fill_buffer buffer bytes m = elim (m.texts buffer) [
    | none ↦ fault
    | some old ↦
        if ltb (length old) (length bytes + 1)
        then fault
        else ok tt (record m {
          texts = update m.texts buffer (some (bytes ++ 0 ∷ drop (length bytes + 1) old));
        })
  ]

  unfoldable pub cjson_free : Ptr → Cmd F (Unit {0})
  cjson_free object = guard tt (if not (object == null) then hook_free object else pure tt)

  -- the size goes to the allocator
  unfoldable pub cjson_malloc : (size : ℕ) → Cmd F Ptr
  cjson_malloc size = guard null alloc

module _ {F : Type 0} (f64 : Float F) where
  open f64 use {is_finite, display}

  unfoldable mutual
    pub write_cjson_pretty : ℕ → List ℕ → (item depth : ℕ) → Cmd F (List ℕ)
    write_cjson_pretty zero out item depth = λ _. out_of_fuel
    write_cjson_pretty (suc f) out item depth = if item == null then pure (out ++ null_text) else do
      n ← load item
      if tag n.type_ == cjson_null
          then pure (out ++ null_text)
          else if tag n.type_ == cjson_true
          then pure (out ++ true_text)
          else if tag n.type_ == cjson_false
          then pure (out ++ false_text)
          else if tag n.type_ == cjson_number
          then pure
              (if is_finite n.valuedouble then out ++ display n.valuedouble else out ++ null_text)
          else if tag n.type_ == cjson_string
          then write_text_at out n.valuestring
          else if tag n.type_ == cjson_raw
          then write_raw_at out n.valuestring
          else if tag n.type_ == cjson_array
          then (if n.child == null then pure (out ++ b'[' ∷ b']' ∷ []) else do
            inner ← pretty_items f true (out ++ b'[' ∷ []) n.child depth
            pure (inner ++ b']' ∷ []))
          else if tag n.type_ == cjson_object
          then (if n.child == null then pure (out ++ b'{' ∷ b'}' ∷ []) else do
            inner ← pretty_members f true (out ++ b'{' ∷ b'\n' ∷ []) n.child depth
            pure (push_tabs (inner ++ b'\n' ∷ []) depth ++ b'}' ∷ []))
          else pure (out ++ null_text)

    pub pretty_items : ℕ → (first_iter : Bool) → List ℕ → (cur depth : ℕ) → Cmd F (List ℕ)
    pretty_items zero first_iter out cur depth = λ _. out_of_fuel
    pretty_items (suc f) first_iter out cur depth = if cur == null then pure out else do
      next_out ←
          write_cjson_pretty f (if first_iter then out else out ++ b',' ∷ b' ' ∷ []) cur (depth + 1)
      n ← load cur
      pretty_items f false next_out n.next depth

    pub pretty_members : ℕ → (first_iter : Bool) → List ℕ → (cur depth : ℕ) → Cmd F (List ℕ)
    pretty_members zero first_iter out cur depth = λ _. out_of_fuel
    pretty_members (suc f) first_iter out cur depth = if cur == null then pure out else do
      n ← load cur
      named ←
          write_text_at
            (push_tabs (if first_iter then out else out ++ b',' ∷ b'\n' ∷ []) (depth + 1)) n.string
      next_out ← write_cjson_pretty f (named ++ b':' ∷ b'\t' ∷ []) cur (depth + 1)
      pretty_members f false next_out n.next depth

  module _ (rounds : ℕ) where
    -- the text of a tree, pretty or compact, which `print_impl` and `cJSON_PrintPreallocated` begin with
    unfoldable pub print_text : Ptr → (pretty : Bool) → Cmd F (Option (List ℕ))
    print_text item pretty =
        if pretty then (do out ← write_cjson_pretty rounds [] item 0; pure (some out)) else (do
          value ← cjson_to_value rounds item
          elim value [ none ↦ pure none | some v ↦ pure (some (serialise f64 v)) ])

    unfoldable pub print_impl : Ptr → (pretty : Bool) → Cmd F Ptr
    print_impl item pretty = guard null (
        if item == null then pure null else do
          text ← print_text item pretty
          elim text [
            | none ↦ pure null
            | some s ↦ do
              buf ← alloc
              if buf == null then pure null else λ m.
                  ok buf (record m { texts = update m.texts buf (some (as_bytes s ++ 0 ∷ [])) })
          ])

    unfoldable pub cjson_print : Ptr → Cmd F Ptr
    cjson_print item = print_impl item true

    unfoldable pub cjson_print_unformatted : Ptr → Cmd F Ptr
    cjson_print_unformatted item = print_impl item false

    unfoldable pub cjson_print_buffered : Ptr → ℤ → ℕ → Cmd F Ptr
    cjson_print_buffered item prebuffer fmt =
        if not (fmt == 0) then cjson_print item else cjson_print_unformatted item

    -- `length <= 0`
    abbrev pub not_positive : ℤ → Bool
    not_positive (pos n) = n == 0
    not_positive (negsuc n) = true

    unfoldable pub cjson_print_preallocated : (item buffer : Ptr) → ℤ → ℕ → Cmd F Bool
    cjson_print_preallocated item buffer len format = guard false (
        if item == null || (buffer == null || not_positive len) then pure false else do
          text ← print_text item (not (format == 0))
          elim text [
            | none ↦ pure false
            | some s ↦
                if ltb (to_nat len) (length (as_bytes s) + 1)
                then pure false
                else (do fill_buffer buffer (as_bytes s); pure true)
          ])
