-- ===== src/Ffi/Parse/Entry.antt =====
-- The entry points of cjson-rs-ffi/src/lib.rs that parse, beside each other.
use cjson_rs.Common.{
  ℕ, suc, ◌+◌, ◌≤◌, false, some, [], ◌∷◌, Bytes, ◌≡◌, ◌≢◌, refl, ap, arith, ◌==◌, ltb, length, take,
  Bool-cases, Option-cases, inl, inr, ◌⊎◌,
}
use cjson_rs.Error
use cjson_rs.Error.{Error, Result, Returns, returned, raised}
use cjson_rs.Ffi.Alloc.{Double, value_to_cjson}
use cjson_rs.Ffi.Memory.{
  Ptr, null, Memory, Cmd, Run, ok, panicked, fault, out_of_fuel, and_then, guard,
}
use cjson_rs.Ffi.Memory.Runs.{not_null, guard-ok}
use cjson_rs.Ffi.Parse.{
  until_nul, c_bytes, raw_bytes, set_last_error, set_parse_end, match_result, cjson_parse,
  cjson_parse_with_length, cjson_parse_with_opts, cjson_parse_with_length_opts, parse_bytes,
  parse_length_bytes, parse_opts_bytes, parse_length_opts_bytes,
}
use cjson_rs.Ffi.Text.{strip_utf8_bom, error_byte_offset}
use cjson_rs.Number.{Float}
use cjson_rs.Parser.{parse, default_options}
use cjson_rs.Parser.Accepts.{parse_with_options-Returns, parse-Lexes}
use cjson_rs.Parser.Grammar.{emit, height}
use cjson_rs.Tokeniser.TokenGrammar.{Lexes}
use cjson_rs.Value.{Value}

until_nul-prefix :
    (text : Bytes) {s : Bytes}
    → until_nul text ≡ some s
    → (length s ≤ length text) × (take (length s) text ≡ s)
unfolding until_nul
until_nul-prefix [] e = cc
until_nul-prefix (b ∷ bs) {s} e = elim (Option-cases (until_nul bs)) [
  | inl n ↦ ground arith
  | inr (r, y) ↦ let h = until_nul-prefix bs y in ground arith
]

and_then-cong :
    {F A B : Type 0} (r : Run F A) {k l : A → Cmd F B}
    → ((a : A) (m : Memory F) → k a m ≡ l a m)
    → and_then r k ≡ and_then r l
and_then-cong (ok a m) h = h a m
and_then-cong (panicked m) h = refl
and_then-cong fault h = refl
and_then-cong out_of_fuel h = refl

module _ {F A : Type 0} (k l : A → Cmd F Ptr) (e f : Error → Cmd F Ptr) (m : Memory F)
    (h : (a : A) → k a m ≡ l a m) (g : (x : Error) → e x m ≡ f x m) where
  match_result-cong : (r : Result A) → match_result r k e m ≡ match_result r l f m
  match_result-cong (Error.ok a) = h a
  match_result-cong (Error.err x) = g x
  match_result-cong Error.panicked = refl
  match_result-cong Error.out_of_fuel = refl

guard-cong :
    {F A : Type 0} (d : A) (f g : Cmd F A) (m : Memory F) → f m ≡ g m → guard d f m ≡ guard d g m
unfolding guard
guard-cong d f g m e = ap (λ z. guard d (λ _. z) m) e

module _ {F : Type 0} (m : Memory F) (value : Ptr) {text s : Bytes} (at : m.texts value ≡ some text)
    (c_string : until_nul text ≡ some s) where
  pub c_bytes-ok : c_bytes value m ≡ ok s m
  unfolding c_bytes
  c_bytes-ok = rw (c_bytes, at, c_string)

  raw_bytes-ok : raw_bytes value (length s) m ≡ ok s m
  unfolding raw_bytes
  raw_bytes-ok =
      let (fits, same) = until_nul-prefix text c_string in
      let inside : ltb (length text) (length s) ≡ false = ground arith in
      rw (raw_bytes, at, inside, same)

pub Result-cases :
    {A : Type 0} {P : A → Type 0} {r : Result A}
    → Returns P r
    → ((a : A) × (r ≡ Error.ok a) × P a) ⊎ ((e : Error) × (r ≡ Error.err e))
Result-cases (returned {a} h) = inl (a, refl, h)
Result-cases (raised e) = inr (e, refl)

module _ {F : Type 0} (text_f64 : Float F) (f64 : Double F) (rounds : ℕ) where
  opts_no_end :
      (value r : ℕ) (bytes : Bytes) (m : Memory F)
      → parse_opts_bytes text_f64 f64 rounds value null (suc r) bytes m
        ≡ parse_bytes text_f64 f64 rounds value bytes m
  unfolding set_last_error set_parse_end
  opts_no_end value r bytes m =
      let yes : (suc r == 0) ≡ false = ground arith in
      rw yes (
        match_result-cong _ _ _ _ m (λ v. refl) (λ e. refl)
          (parse text_f64 (strip_utf8_bom bytes).0))

  length_opts_no_end :
      (value n r : ℕ) (bytes : Bytes) (m : Memory F)
      → parse_length_opts_bytes text_f64 f64 rounds value n null (suc r) bytes m
        ≡ parse_length_bytes text_f64 f64 rounds value bytes m
  unfolding set_last_error set_parse_end
  length_opts_no_end value n r bytes m =
      let yes : (suc r == 0) ≡ false = ground arith in
      rw yes (
        match_result-cong _ _ _ _ m (λ v. refl) (λ e. refl)
          (parse text_f64 (strip_utf8_bom bytes).0))

  -- `cJSON_ParseWithOpts` without a place for the end, when it requires the end of the text, does
  -- what `cJSON_Parse` does, on every memory.
  pub parse_with_opts-parse :
      (value r : ℕ) (m : Memory F)
      → cjson_parse_with_opts text_f64 f64 rounds value null (suc r) m
        ≡ cjson_parse text_f64 f64 rounds value m
  unfolding cjson_parse_with_opts cjson_parse set_last_error set_parse_end
  parse_with_opts-parse value r m = elim (Bool-cases (value == null)) [
    | inl y ↦ guard-cong null _ _ m (rw y refl)
    | inr k ↦
        guard-cong null _ _ m
          (rw k (and_then-cong (c_bytes value m) λ bytes m'. opts_no_end value r bytes m'))
  ]

  -- The same of `cJSON_ParseWithLengthOpts` and `cJSON_ParseWithLength`.
  pub parse_with_length_opts-parse_with_length :
      (value n r : ℕ) (m : Memory F)
      → cjson_parse_with_length_opts text_f64 f64 rounds value n null (suc r) m
        ≡ cjson_parse_with_length text_f64 f64 rounds value n m
  unfolding cjson_parse_with_length_opts cjson_parse_with_length
  parse_with_length_opts-parse_with_length value n r m = elim (Bool-cases (value == null)) [
    | inl y ↦ guard-cong null _ _ m (rw y refl)
    | inr k ↦ guard-cong null _ _ m (
        rw k
          (and_then-cong (raw_bytes value n m) λ bytes m'. length_opts_no_end value n r bytes m'))
  ]

  -- On a C string, `cJSON_ParseWithOpts` does what `cJSON_ParseWithLengthOpts` does with the length of
  -- the string, whatever the options.
  pub parse_with_opts-parse_with_length_opts :
      (value return_parse_end required : ℕ) (m : Memory F) {text s : Bytes}
      → value ≢ null
      → m.texts value ≡ some text
      → until_nul text ≡ some s
      → cjson_parse_with_opts text_f64 f64 rounds value return_parse_end required m
        ≡ cjson_parse_with_length_opts text_f64 f64 rounds value
            (length s)
            return_parse_end
            required
            m
  unfolding cjson_parse_with_opts cjson_parse_with_length_opts
  parse_with_opts-parse_with_length_opts value return_parse_end required m nn at c =
      guard-cong null _ _ m
        (rw (not_null nn) (rw (c_bytes-ok m value at c) (rw (raw_bytes-ok m value at c) refl)))

  -- `cJSON_Parse` of a C string that, behind a byte order mark, is not the text of a value nested 1000
  -- deep at most returns null, leaves the last error pointing at an address from the beginning of the
  -- string on, and changes nothing else.
  pub cjson_parse-reject :
      (value : ℕ) (m : Memory F) (text s : Bytes)
      → value ≢ null
      → m.texts value ≡ some text
      → until_nul text ≡ some s
      → ((v : Value F) → Lexes text_f64 (strip_utf8_bom s).0 (emit v) → height v ≤ 1000 → ⊥)
      → (p : Ptr) × (value ≤ p)
        × (cjson_parse text_f64 f64 rounds value m ≡ ok null (record m { last_error = p }))
  unfolding cjson_parse parse set_last_error
  cjson_parse-reject value m text s nn at c reject =
      let bytes = (strip_utf8_bom s).0 in
      elim (Result-cases (parse_with_options-Returns text_f64 bytes default_options)) [
        | inl (v, y, (g, h)) ↦ absurd (reject v g h)
        | inr (e, y) ↦ (
          value + ((strip_utf8_bom s).1 + error_byte_offset e (length bytes)),
          omega arith,
          guard-ok m null _ (rw (not_null nn) (rw (c_bytes-ok m value at c) (rw y refl))),
        )
      ]

  -- `cJSON_Parse` of a C string that, behind a byte order mark, is the text of a value nested 1000 deep
  -- at most clears the last error and returns the tree that `value_to_cjson` builds of the value.
  pub cjson_parse-Lexes :
      (value : ℕ) (m : Memory F) (text s : Bytes) (v : Value F)
      → value ≢ null
      → m.texts value ≡ some text
      → until_nul text ≡ some s
      → Lexes text_f64 (strip_utf8_bom s).0 (emit v)
      → height v ≤ 1000
      → cjson_parse text_f64 f64 rounds value m
        ≡ guard null (value_to_cjson f64 rounds v) (record m { last_error = null })
  unfolding cjson_parse parse set_last_error guard
  cjson_parse-Lexes value m text s v nn at c g h =
      let e : parse text_f64 (strip_utf8_bom s).0 ≡ Error.ok v =
        parse-Lexes text_f64 (strip_utf8_bom s).0 v default_options g h in
      rw (cjson_parse, guard, not_null nn) (rw (c_bytes-ok m value at c) (rw e refl))
