-- ===== src/Ffi/Minify/Call.antt =====
-- cjson-rs-ffi/src/lib.rs: `cJSON_Minify`, on a text in the memory. Undefined behaviour in the buffer
-- is a fault.
use cjson_rs.Common.{none, some, Bytes, ◌==◌, if◌then◌else◌}
use cjson_rs.Error
use cjson_rs.Error.{Result}
use cjson_rs.Ffi.Memory.{Ptr, null, Cmd, ok, fault, out_of_fuel, pure, update, guard}
use cjson_rs.Ffi.Minify.{minify_in_place}

module _ {F : Type 0} where
  -- the buffer goes back to the memory
  abbrev pub put_buffer : Ptr → Result Bytes → Cmd F (Unit {0})
  put_buffer json (Error.ok buf) m = ok tt (record m { texts = update m.texts json (some buf) })
  put_buffer json (Error.err e) m = fault
  put_buffer json Error.panicked m = fault
  put_buffer json Error.out_of_fuel m = out_of_fuel

  -- `minify_in_place` with its test for null
  unfoldable pub minify_text : Ptr → Cmd F (Unit {0})
  minify_text json = if json == null then pure tt else λ m. elim (m.texts json) [
    | none ↦ fault
    | some buf ↦ put_buffer json (minify_in_place buf) m
  ]

  unfoldable pub cjson_minify : Ptr → Cmd F (Unit {0})
  cjson_minify json = guard tt (minify_text json)
