-- ===== src/Ffi/Parse.antt =====
-- cjson-rs-ffi/src/lib.rs: the entry points that parse, with the pointer to the last error and the
-- end of what was parsed.
pub mod Entry
pub mod Options
use cjson_rs.Common.{
  ℕ, zero, suc, ◌+◌, Bool, true, false, Option, none, some, List, [], ◌∷◌, Bytes, ◌==◌, ltb, not,
  if◌then◌else◌, length, take,
}
use cjson_rs.Error
use cjson_rs.Error.{Error, Result}
use cjson_rs.Ffi.Alloc.{Double, value_to_cjson}
use cjson_rs.Ffi.Memory.{
  Ptr, null, Memory, Cmd, ok, panicked, fault, out_of_fuel, pure, ◌>>=◌, ◌>>◌, update, guard,
}
use cjson_rs.Ffi.Text.{strip_utf8_bom, error_byte_offset}
use cjson_rs.Number.{Float}
use cjson_rs.Parser.{parse, parse_prefix}
use cjson_rs.Value.{Value}

-- the bytes in front of the first 0
unfoldable pub until_nul : Bytes → Option Bytes
until_nul [] = none
until_nul (b ∷ bs) =
    let rest = until_nul bs in
    if b == 0 then some [] else elim rest [ none ↦ none | some s ↦ some (b ∷ s) ]

module _ {F : Type 0} where
  -- `CStr::from_ptr(p).to_bytes()`
  unfoldable pub c_bytes : Ptr → Cmd F Bytes
  c_bytes p m = elim (m.texts p) [
    | none ↦ fault
    | some text ↦ elim (until_nul text) [ none ↦ fault | some s ↦ ok s m ]
  ]

  -- `slice::from_raw_parts(p, n)`
  unfoldable pub raw_bytes : Ptr → ℕ → Cmd F Bytes
  raw_bytes p n m = elim (m.texts p) [
    | none ↦ fault
    | some text ↦ if ltb (length text) n then fault else ok (take n text) m
  ]

  unfoldable pub set_last_error : Ptr → Cmd F (Unit {0})
  set_last_error p m = ok tt (record m { last_error = p })

  unfoldable pub cjson_get_error_ptr : Cmd F Ptr
  cjson_get_error_ptr = guard null λ m. ok m.last_error m

  -- `if !return_parse_end.is_null() { *return_parse_end = p; }`
  unfoldable pub set_parse_end : (return_parse_end p : Ptr) → Cmd F (Unit {0})
  set_parse_end return_parse_end p m =
      if return_parse_end == null then ok tt m else elim (m.ends return_parse_end) [
        | none ↦ fault
        | some _ ↦ ok tt (record m { ends = update m.ends return_parse_end (some p) })
      ]

  -- the `match` on the result of the parser
  abbrev pub match_result :
      {A : Type 0} → Result A → (A → Cmd F Ptr) → (Error → Cmd F Ptr) → Cmd F Ptr
  match_result (Error.ok a) on_ok on_err = on_ok a
  match_result (Error.err e) on_ok on_err = on_err e
  match_result Error.panicked on_ok on_err = panicked
  match_result Error.out_of_fuel on_ok on_err = λ _. out_of_fuel

module _ {F : Type 0} (text_f64 : Float F) (f64 : Double F) (rounds : ℕ) where
  -- the body of `cJSON_Parse` from the bytes on
  abbrev pub parse_bytes : Ptr → Bytes → Cmd F Ptr
  parse_bytes value bytes =
      let (parsed_bytes, bom_skip) = strip_utf8_bom bytes in
      match_result (parse text_f64 parsed_bytes)
        (λ v. do set_last_error null; value_to_cjson f64 rounds v)
        (λ e. do
          set_last_error (value + (bom_skip + error_byte_offset e (length parsed_bytes)))
          pure null)

  unfoldable pub cjson_parse : Ptr → Cmd F Ptr
  cjson_parse value = guard null (
      if value == null
      then (do set_last_error null; pure null)
      else do bytes ← c_bytes value; parse_bytes value bytes)

  -- the body of `cJSON_ParseWithLength` from the bytes on
  abbrev pub parse_length_bytes : Ptr → Bytes → Cmd F Ptr
  parse_length_bytes value bytes =
      let (parsed_bytes, bom_skip) = strip_utf8_bom bytes in
      match_result (parse text_f64 parsed_bytes)
        (λ v. do set_last_error null; value_to_cjson f64 rounds v)
        (λ e. do
          set_last_error (value + (bom_skip + error_byte_offset e (length parsed_bytes)))
          pure null)

  unfoldable pub cjson_parse_with_length : Ptr → ℕ → Cmd F Ptr
  cjson_parse_with_length value buffer_length = guard null (
      if value == null
      then (do set_last_error null; pure null)
      else do bytes ← raw_bytes value buffer_length; parse_length_bytes value bytes)

  -- the branch on an error
  abbrev pub fail_at : (return_parse_end err_ptr : Ptr) → Cmd F Ptr
  fail_at return_parse_end err_ptr = do
    set_last_error err_ptr
    set_parse_end return_parse_end err_ptr
    pure null

  -- the branch on a value
  abbrev pub give : (return_parse_end end : Ptr) → Value F → Cmd F Ptr
  give return_parse_end end v = do
    set_last_error null
    set_parse_end return_parse_end end
    value_to_cjson f64 rounds v

  -- the body of `cJSON_ParseWithOpts` from the bytes on
  abbrev pub parse_opts_bytes :
      (value return_parse_end : Ptr) (require_null_terminated : ℕ) → Bytes → Cmd F Ptr
  parse_opts_bytes value return_parse_end require_null_terminated bytes =
      let (parsed_bytes, bom_skip) = strip_utf8_bom bytes in
      if not (require_null_terminated == 0)
      then match_result (parse text_f64 parsed_bytes) (give return_parse_end (value + length bytes))
          (λ e.
            fail_at return_parse_end
              (value + (bom_skip + error_byte_offset e (length parsed_bytes))))
      else match_result (parse_prefix text_f64 parsed_bytes)
          (λ (v, consumed). give return_parse_end (value + (bom_skip + consumed)) v)
          (λ e.
            fail_at return_parse_end
              (value + (bom_skip + error_byte_offset e (length parsed_bytes))))

  unfoldable pub cjson_parse_with_opts :
      (value return_parse_end : Ptr) (require_null_terminated : ℕ) → Cmd F Ptr
  cjson_parse_with_opts value return_parse_end require_null_terminated = guard null (
      if value == null
      then (do set_last_error null; set_parse_end return_parse_end null; pure null)
      else do
        bytes ← c_bytes value
        parse_opts_bytes value return_parse_end require_null_terminated bytes)

  -- the body of `cJSON_ParseWithLengthOpts` from the bytes on
  abbrev pub parse_length_opts_bytes :
      (value : Ptr) (buffer_length : ℕ) (return_parse_end : Ptr) (require_null_terminated : ℕ)
      → Bytes
      → Cmd F Ptr
  parse_length_opts_bytes value buffer_length return_parse_end require_null_terminated bytes =
      let (parsed_bytes, bom_skip) = strip_utf8_bom bytes in
      if not (require_null_terminated == 0)
      then match_result (parse text_f64 parsed_bytes)
          (give return_parse_end (value + buffer_length))
          (λ e.
            fail_at return_parse_end
              (value + (bom_skip + error_byte_offset e (length parsed_bytes))))
      else match_result (parse_prefix text_f64 parsed_bytes)
          (λ (v, consumed). give return_parse_end (value + (bom_skip + consumed)) v)
          (λ e.
            fail_at return_parse_end
              (value + (bom_skip + error_byte_offset e (length parsed_bytes))))

  unfoldable pub cjson_parse_with_length_opts :
      (value : Ptr) (buffer_length : ℕ) (return_parse_end : Ptr) (require_null_terminated : ℕ)
      → Cmd F Ptr
  cjson_parse_with_length_opts value buffer_length return_parse_end require_null_terminated =
      guard null (
        if value == null then (do set_last_error null; pure null) else do
          bytes ← raw_bytes value buffer_length
          parse_length_opts_bytes value buffer_length return_parse_end require_null_terminated
              bytes)
