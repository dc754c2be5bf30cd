-- ===== src/Tests.antt =====
-- Runs of the program on concrete inputs, with `f64` cut down to the numbers from 0 to 9 and one
-- that is not finite; and the theorems applied to such inputs.
use Prim.Native.Char.{code}
use Prim.Native.String.{String}
use cjson_rs.Common.{
  ℕ, ◌+◌, ◌-◌, ◌≤◌, true, false, some, List, [], ◌∷◌, ◌++◌, map, ◌≡◌, ◌↔◌, inl, inr, refl, arith,
  Bytes, ltb, ◌==◌, Bool-cases, ap,
}
use cjson_rs.Error.{
  start_pos, ok, err, Returns, unexpected_eof, unexpected_char, number_out_of_range,
  unexpected_token, trailing_data,
}
use cjson_rs.Ffi.Compare.{compare_values, any_member, keys_match, str_eq, member_count}
use cjson_rs.Ffi.CompareLaws.{compare_values_refl}
use cjson_rs.Ffi.Minify.{
  minify_in_place, minify_loop, minify_byte, load, store, copy_byte, copy_string, copy_unless_end,
  skip_line, skip_block,
}
use cjson_rs.Ffi.Text.{write_escaped}
use cjson_rs.Ffi.TextLaws.{write_escaped-write_string}
use cjson_rs.Number.{Float}
use cjson_rs.Number.Grammar.{
  NumberLexeme, IntText, zero_int, nonzero_int, no_frac, no_exp, NumberStops,
}
use cjson_rs.Number.Laws.{FloatLaws}
use cjson_rs.Parser
use cjson_rs.Parser.{
  Parser, parse_value, peek_pos, finish, parse, parse_with_options, default_options,
}
use cjson_rs.Parser.Accepts.{parse_with_options-Returns, parse_with_options-ok}
use cjson_rs.Parser.Complete.{parse_value-emit}
use cjson_rs.Parser.Grammar.{emit, height}
use cjson_rs.Parser.Reading as Tokens_read
use cjson_rs.Parser.Sound.{ReadsValue, parse_value_sound}
use cjson_rs.RoundTrip.{
  write_value-Lexes, parse-write_value, parse-serialise, parse-serialise_pretty,
}
use cjson_rs.Serialiser.{
  serialise, serialise_pretty, write_value, write_string, write_chars, write_char, write_number,
  write_indent, push_spaces,
}
use cjson_rs.Serialiser.Normal.{normal, HasText, IsFinite}
use cjson_rs.Text.{as_bytes, encode_char}
use cjson_rs.Text.Utf8.{IsChar}
use cjson_rs.Token.{Token, PositionedToken, begin_array, end_array, null_lit}
use cjson_rs.Tokeniser.Cursor.{new, rest, peek, advance, is_at_end, skip_ws, skip_while}
use cjson_rs.Tokeniser.NumberReads.{Scans, scan_number-NumberLexeme}
use cjson_rs.Tokeniser.NumberSound.{scan_number-Returns}
use cjson_rs.Tokeniser.Numbers.{read_number, scan_number, read_int, read_frac, read_exp, convert}
use cjson_rs.Tokeniser.Reading as Bytes_read
use cjson_rs.Tokeniser.StringGrammar.{StringLexeme, short, nil, cons}
use cjson_rs.Tokeniser.StringReads.{Reads, read_string-StringLexeme, combine_surrogates}
use cjson_rs.Tokeniser.StringSound.{ReadText, read_string-Returns}
use cjson_rs.Tokeniser.Strings.{read_string, combine}
use cjson_rs.Tokeniser.TokenGrammar.{Lexes, last, next}
use cjson_rs.Tokeniser.TokenReads.{tokenise-Lexes}
use cjson_rs.Tokeniser.TokenSound.{tokenise-Returns}
use cjson_rs.Tokeniser.Tokens.{tokenise, tokenise_loop, next_token, token_at}
use cjson_rs.Value.{
  Value, null, bool, number, string, array, object, no_items, item, no_members, member,
}

abbrev codes : String → Bytes
codes String.[] = []
codes (String.◌∷◌ c s) = code c ∷ codes s

abbrev pub digit : Float ℕ
digit = record {
  is_finite = λ n. ltb n 10;
  from_str =
      λ s. elim s [ [] ↦ some 10 | c ∷ r ↦ elim r [ [] ↦ some (c - b'0') | _ ∷ _ ↦ some 10 ] ];
  display = λ n. (b'0' + n) ∷ [];
}

abbrev sample : Value ℕ
sample = array (
    item (number 1)
      (item (string (codes "a\n")) (item (object (member (codes "k") null no_members)) no_items)))

abbrev sample_text : Bytes
sample_text = codes "[1,\"a\\n\",{\"k\":null}]"

serialise-sample : serialise digit sample ≡ sample_text
unfolding serialise write_value write_string write_chars write_char write_number
serialise-sample = refl

write_value-pretty :
    write_value digit [] (array (item (bool true) no_items)) (some 2) 0 ≡ codes "[\n  true\n]"
unfolding write_value write_indent push_spaces
write_value-pretty = refl

errors :
    (parse digit (codes "") ≡ err (unexpected_eof start_pos))
    × (parse digit (codes "x") ≡ err (unexpected_char b'x' start_pos))
    × (parse digit (codes "12") ≡ err (number_out_of_range start_pos))
    × (parse digit (codes "]") ≡ err (unexpected_token start_pos))
    × (parse digit (codes "1 2")
        ≡ err (trailing_data (record { line = 1; column = 3; offset = 2 })))
unfolding parse parse_with_options tokenise tokenise_loop is_at_end skip_ws skip_while peek advance
    next_token token_at read_number scan_number read_int read_frac read_exp convert parse_value
    cjson_rs.Parser.peek peek_pos finish
errors = (refl, refl, refl, refl, refl)

digit_lexeme : (n : ℕ) → ltb n 10 ≡ true → as_bytes ((b'0' + n) ∷ []) ≡ (b'0' + n) ∷ []
unfolding as_bytes encode_char
digit_lexeme n h = ground arith

digit-IntText : (n : ℕ) → ltb n 10 ≡ true → IntText ((b'0' + n) ∷ [])
digit-IntText n h = elim (Bool-cases (n == 0)) [
  | inl y ↦ let q : b'0' + n ≡ b'0' = ground arith in zero_int (ap (λ z. z ∷ []) q)
  | inr k ↦ nonzero_int (b'0' + n) [] (ground arith, ground arith) tt refl
]

digit_laws : FloatLaws digit
digit_laws = record {
  display_lexeme = λ n h. rw (digit_lexeme n h) (record {
    minus = [];
    int = (b'0' + n) ∷ [];
    fraction = [];
    exponent = [];
    minus_sign = inl refl;
    int_part = digit-IntText n h;
    frac_part = no_frac refl;
    exp_part = no_exp refl;
    bytes = refl;
  });
  from_str-display =
      λ n h. rw (digit_lexeme n h) (let q : b'0' + n - b'0' ≡ n = omega arith in ap some q);
}

sample-HasText : HasText sample
unfolding HasText
sample-HasText = ((tt, ((refl, (refl, tt)), (((refl, tt), tt, tt), tt))))

sample-IsFinite : IsFinite digit sample
unfolding IsFinite
sample-IsFinite = (refl, (tt, ((tt, tt), tt)))

sample_shallow : height sample ≤ 1000
unfolding height
sample_shallow = omega arith

parse-serialise_example : parse digit (as_bytes (serialise digit sample)) ≡ ok sample
parse-serialise_example =
    parse-serialise digit digit_laws sample sample-HasText sample_shallow sample-IsFinite

parse-serialise_pretty_example : parse digit (as_bytes (serialise_pretty digit sample)) ≡ ok sample
parse-serialise_pretty_example =
    parse-serialise_pretty digit digit_laws sample sample-HasText sample_shallow sample-IsFinite

parse-write_value_example :
    parse digit (as_bytes (write_value digit [] sample (some 4) 0)) ≡ ok (normal digit sample)
parse-write_value_example =
    parse-write_value digit digit_laws sample sample-HasText sample_shallow (some 4)

write_value-Lexes_example :
    Lexes digit (as_bytes (write_value digit [] sample (some 2) 0)) (emit (normal digit sample))
write_value-Lexes_example = write_value-Lexes digit digit_laws sample (some 2) sample-HasText

parse_with_options-ok_example :
    (parse_with_options digit sample_text default_options ≡ ok sample)
    ↔ (Lexes digit sample_text (emit sample) × (height sample ≤ 1000))
parse_with_options-ok_example = parse_with_options-ok digit sample_text sample default_options

parse_with_options-Returns_example :
    Returns
      (λ v. Lexes digit sample_text (emit v) × (height v ≤ 1000))
      (parse_with_options digit sample_text default_options)
parse_with_options-Returns_example = parse_with_options-Returns digit sample_text default_options

-- `[ ]`, as tokens
abbrev brackets : List (Token ℕ)
brackets = begin_array ∷ end_array ∷ []

brackets-Lexes : Lexes digit (codes "[ ]") brackets
brackets-Lexes =
    next [] (codes "[") (codes " ]") tt refl
      (next (codes " ") (codes "]") [] (inl refl, tt) refl (last tt) refl) refl

tokenise-Lexes_example :
    (ts : List (PositionedToken ℕ)) × (tokenise digit (codes "[ ]") ≡ ok ts)
    × (map (λ p. p.token) ts ≡ brackets)
tokenise-Lexes_example = tokenise-Lexes digit (codes "[ ]") brackets brackets-Lexes

tokenise-Returns_example :
    Returns
      (λ ts. Lexes digit (codes "[ 1") (map (λ (p : PositionedToken ℕ). p.token) ts))
      (tokenise digit (codes "[ 1"))
tokenise-Returns_example = tokenise-Returns digit (codes "[ 1")

abbrev positioned : Token ℕ → PositionedToken ℕ
positioned k = record { token = k; pos = start_pos; end_pos = start_pos }

abbrev at_brackets : Parser ℕ
at_brackets = record {
  tokens = map positioned (begin_array ∷ end_array ∷ null_lit ∷ []);
  cursor = 0;
  depth = 0;
  limit = 1;
}

parse_value-emit_example :
    (q : Parser ℕ) × (parse_value 7 at_brackets ≡ ok (array no_items, q))
    × Tokens_read.After at_brackets brackets (null_lit ∷ []) q
    × (q.depth ≡ 0)
parse_value-emit_example =
    unfold emit height in
    parse_value-emit (array no_items) 7 at_brackets (null_lit ∷ []) refl (omega arith) (omega arith)

parse_value_sound_example : Returns (ReadsValue at_brackets) (parse_value 10 at_brackets)
parse_value_sound_example = parse_value_sound ℕ 10 at_brackets (omega arith) (omega arith)

-- a string with an escape, and what follows it
abbrev quoted_text : Bytes
quoted_text = codes "\"\\n\",1"

newline-StringLexeme : StringLexeme (b'\n' ∷ []) (codes "\"\\n\"")
newline-StringLexeme = record {
  body = codes "\\n";
  text = cons (short b'n' (inr (inr (inr (inr (inr (inl (refl, refl))))))) refl) nil;
  bytes = refl;
}

read_string-StringLexeme_example :
    Reads
      (new quoted_text)
      (codes "\"\\n\"")
      (codes ",1")
      (read_string (new quoted_text))
      (b'\n' ∷ [])
read_string-StringLexeme_example =
    read_string-StringLexeme (new quoted_text) (b'\n' ∷ []) newline-StringLexeme refl

read_string-Returns_example :
    Returns (ReadText (new quoted_text) StringLexeme) (read_string (new quoted_text))
read_string-Returns_example = read_string-Returns (new quoted_text) refl

seven-NumberLexeme : NumberLexeme (codes "7")
seven-NumberLexeme = record {
  minus = [];
  int = codes "7";
  fraction = [];
  exponent = [];
  minus_sign = inl refl;
  int_part = nonzero_int b'7' [] (omega arith, omega arith) tt refl;
  frac_part = no_frac refl;
  exp_part = no_exp refl;
  bytes = refl;
}

scan_number-NumberLexeme_example :
    Scans (new (codes "7,")) (codes "7") (codes ",") (scan_number (new (codes "7,")))
unfolding seven-NumberLexeme
scan_number-NumberLexeme_example =
    scan_number-NumberLexeme (new (codes "7,")) seven-NumberLexeme refl (refl, refl, refl)

scan_number-Returns_example :
    Returns
      (λ t'.
        (x : Bytes) × Bytes_read.After (new (codes "7,")) x (rest t') t'
        × (n : NumberLexeme x) × NumberStops n (rest t'))
      (scan_number (new (codes "7,")))
scan_number-Returns_example = scan_number-Returns (new (codes "7,"))

combine_surrogates_example : (combine 0xD83D 0xDE00 ≡ 0x1F600) × IsChar (combine 0xD83D 0xDE00)
combine_surrogates_example = combine_surrogates 0xD83D 0xDE00 (omega arith)

eq_refl : (n : ℕ) → ltb n 10 ≡ true → (n == n) ≡ true
eq_refl n h = ground arith

compare_values_refl_example : compare_values ◌==◌ false sample sample ≡ true
compare_values_refl_example = compare_values_refl digit ◌==◌ false eq_refl sample sample-IsFinite

-- Comparison is not symmetric where a key is repeated.
abbrev twice : Value ℕ
twice = object (member (codes "a") (number 1) (member (codes "a") (number 1) no_members))

abbrev once : Value ℕ
once = object (member (codes "a") (number 1) (member (codes "b") (number 2) no_members))

compare_values_asymmetric :
    (compare_values ◌==◌ true twice once ≡ true) × (compare_values ◌==◌ true once twice ≡ false)
unfolding compare_values any_member keys_match str_eq member_count
compare_values_asymmetric = (refl, refl)

write_escaped-write_string_example : write_escaped [] (codes "a\n") ≡ write_string [] (codes "a\n")
write_escaped-write_string_example = write_escaped-write_string [] (codes "a\n")

minify :
    (minify_in_place (codes "[ 1, // one\n\" \" /* two */]" ++ 0 ∷ 7 ∷ [])
      ≡ ok (codes "[1,\" \"]" ++ 0 ∷ codes "one\n\" \" /* two */]" ++ 0 ∷ 7 ∷ []))
unfolding minify_in_place minify_loop minify_byte load store copy_byte copy_string copy_unless_end
    skip_line skip_block
minify = refl
