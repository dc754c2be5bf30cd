-- ===== src/Ffi/Parse/Options.antt =====
-- `cJSON_ParseWithOpts` and `cJSON_ParseWithLengthOpts` of cjson-rs-ffi/src/lib.rs with a place for the
-- end, where the end of the text is required.
use cjson_rs.Common.{
  ℕ, suc, ◌+◌, ◌≤◌, false, some, Bytes, ◌≡◌, ◌≢◌, ◌⊎◌, inl, inr, refl, sym, ◌∙◌, arith, ◌==◌,
  length,
}
use cjson_rs.Error
use cjson_rs.Error.{Error}
use cjson_rs.Ffi.Alloc.{Double, value_to_cjson}
use cjson_rs.Ffi.Memory.{Ptr, null, Memory, Run, ok, update, guard}
use cjson_rs.Ffi.Memory.Runs.{not_null, guard-ok}
use cjson_rs.Ffi.Parse.{
  until_nul, set_last_error, set_parse_end, cjson_parse, cjson_parse_with_opts,
  cjson_parse_with_length_opts, parse_opts_bytes,
}
use cjson_rs.Ffi.Parse.Entry.{c_bytes-ok, Result-cases, parse_with_opts-parse_with_length_opts}
use cjson_rs.Ffi.Text.{strip_utf8_bom, error_byte_offset}
use cjson_rs.Number.{Float}
use cjson_rs.Parser.{parse, default_options}
use cjson_rs.Parser.Accepts.{parse_with_options-Returns, parse-Lexes}
use cjson_rs.Parser.Grammar.{emit, height}
use cjson_rs.Tokeniser.TokenGrammar.{Lexes}
use cjson_rs.Value.{Value}

module _ {F : Type 0} (text_f64 : Float F) (f64 : Double F) (rounds : ℕ) where
  -- the string is the text of the value, behind a byte order mark, nested within the limit
  pub record TextOf (s : Bytes) (v : Value F) : Type 0 where
    pub lexes : Lexes text_f64 (strip_utf8_bom s).0 (emit v)
    pub shallow : height v ≤ 1000

  -- Both runs on the string at `value` build the tree of the value, with the last error cleared and
  -- the end set.
  pub record Accepted (value end : Ptr) (m : Memory F) (s : Bytes) (opts length_opts : Run F Ptr)
      : Type 0 where
    pub v : Value F
    pub is_text : TextOf s v
    pub returns :
        opts
        ≡ guard null
            (value_to_cjson f64 rounds v)
            (record m { last_error = null; ends = update m.ends end (some (value + length s)) })
    pub alike : length_opts ≡ opts

  -- Both return null, with the last error and the end set to the address to which `cJSON_Parse` sets the
  -- last error.
  pub record Refused (value end : Ptr) (m : Memory F) (s : Bytes) (opts length_opts : Run F Ptr)
      : Type 0 where
    pub no_value : (v : Value F) → ¬ (TextOf s v)
    pub at : Ptr
    pub behind_mark : value + (strip_utf8_bom s).1 ≤ at
    pub parse_returns :
        cjson_parse text_f64 f64 rounds value m ≡ ok null (record m { last_error = at })
    pub returns : opts ≡ ok null (record m { last_error = at; ends = update m.ends end (some at) })
    pub alike : length_opts ≡ opts

  module _ (value end r : ℕ) (m : Memory F) (s : Bytes) {old : Ptr} (end_null : end ≢ null)
      (cell : m.ends end ≡ some old) where
    parse_opts_bytes-ok :
        (v : Value F)
        → parse text_f64 (strip_utf8_bom s).0 ≡ Error.ok v
        → parse_opts_bytes text_f64 f64 rounds value end (suc r) s m
          ≡ value_to_cjson f64 rounds v
              (record m { last_error = null; ends = update m.ends end (some (value + length s)) })
    unfolding set_last_error set_parse_end
    parse_opts_bytes-ok v e =
        let yes : (suc r == 0) ≡ false = ground arith in
        rw yes (rw e (rw (not_null end_null) (rw cell refl)))

    parse_opts_bytes-err :
        (x : Error)
        → parse text_f64 (strip_utf8_bom s).0 ≡ Error.err x
        → let at =
            value + ((strip_utf8_bom s).1 + error_byte_offset x (length (strip_utf8_bom s).0)) in
          parse_opts_bytes text_f64 f64 rounds value end (suc r) s m
          ≡ ok null (record m { last_error = at; ends = update m.ends end (some at) })
    unfolding set_last_error set_parse_end
    parse_opts_bytes-err x e =
        let yes : (suc r == 0) ≡ false = ground arith in
        rw yes (rw e (rw (not_null end_null) (rw cell refl)))

  module _ (value end r : ℕ) (m : Memory F) {text s : Bytes} {old : Ptr} (ne_null : value ≢ null)
      (holds : m.texts value ≡ some text) (c_string : until_nul text ≡ some s)
      (end_null : end ≢ null) (cell : m.ends end ≡ some old) where
    accepted_run :
        (v : Value F)
        → parse text_f64 (strip_utf8_bom s).0 ≡ Error.ok v
        → cjson_parse_with_opts text_f64 f64 rounds value end (suc r) m
          ≡ guard null
              (value_to_cjson f64 rounds v)
              (record m { last_error = null; ends = update m.ends end (some (value + length s)) })
    unfolding cjson_parse_with_opts guard
    accepted_run v e =
        rw (cjson_parse_with_opts, guard, not_null ne_null)
          (rw (c_bytes-ok m value holds c_string)
            (rw (parse_opts_bytes-ok value end r m s end_null cell v e) refl))

    -- On a C string, with a place for the end and the end of the text required, `cJSON_ParseWithOpts`,
    -- and `cJSON_ParseWithLengthOpts` with the length of the string, do one of two things. If the
    -- string, behind a byte order mark, is the text of a value nested 1000 deep at most, they clear the
    -- last error, set the end behind the string and return the tree that `value_to_cjson` builds.
    -- Otherwise they return null and set the end and the last error to the address that `cJSON_Parse`
    -- leaves as the last error, which is not in front of what follows the mark; nothing else changes.
    pub parse_with_opts-required :
        Accepted value end m s
          (cjson_parse_with_opts text_f64 f64 rounds value end (suc r) m)
          (cjson_parse_with_length_opts text_f64 f64 rounds value (length s) end (suc r) m)
        ⊎ Refused value end m s
            (cjson_parse_with_opts text_f64 f64 rounds value end (suc r) m)
            (cjson_parse_with_length_opts text_f64 f64 rounds value (length s) end (suc r) m)
    unfolding cjson_parse_with_opts cjson_parse parse set_last_error
    parse_with_opts-required =
        let bytes = (strip_utf8_bom s).0 in
        let alike = sym (
          parse_with_opts-parse_with_length_opts text_f64 f64 rounds value end (suc r) m ne_null
            holds c_string) in
        elim (Result-cases (parse_with_options-Returns text_f64 bytes default_options)) [
          | inl (v, e, (g, h)) ↦ inl (record {
            v = v;
            is_text = record { lexes = g; shallow = h };
            returns = accepted_run v e;
            alike = alike;
          })
          | inr (e, q) ↦ inr (record {
            no_value = λ v t. absurd (
                let w = sym q ∙ parse-Lexes text_f64 bytes v default_options t.lexes t.shallow in
                cc);
            at = value + ((strip_utf8_bom s).1 + error_byte_offset e (length bytes));
            behind_mark = omega arith;
            parse_returns =
                guard-ok m null _
                  (rw (not_null ne_null) (rw (c_bytes-ok m value holds c_string) (rw q refl)));
            returns = guard-ok m null _ (
                rw (not_null ne_null) (
                  rw (c_bytes-ok m value holds c_string)
                    (parse_opts_bytes-err value end r m s end_null cell e q)));
            alike = alike;
          })
        ]
