-- ===== src/Ffi/TextLaws.antt =====
-- `write_escaped` beside `write_string`, and the byte order mark: cjson-rs-ffi/src/lib.rs.
use cjson_rs.Common.{
  ℕ, List, [], ◌∷◌, ◌++◌, Bytes, ◌≡◌, ◌≢◌, ◌⊎◌, inl, inr, refl, arith, ap, ◌==◌, Bool-cases,
}
use cjson_rs.Ffi.Text.{strip_utf8_bom, push_escaped, push_all_escaped, write_escaped}
use cjson_rs.Serialiser.{write_char, write_chars, write_string}

push_escaped_lem : (out : List ℕ) (ch : ℕ) → push_escaped out ch ≡ write_char out ch
unfolding push_escaped write_char
push_escaped_lem out ch = refl

push_all_escaped_lem : (out s : List ℕ) → push_all_escaped out s ≡ write_chars out s
unfolding push_all_escaped write_chars
push_all_escaped_lem out [] = refl
push_all_escaped_lem out (ch ∷ s) =
    rw (push_all_escaped, write_chars, push_escaped_lem out ch)
      (push_all_escaped_lem (write_char out ch) s)

-- The printer of the C interface writes strings as the serialiser of the library does.
pub write_escaped-write_string : (out s : List ℕ) → write_escaped out s ≡ write_string out s
unfolding write_escaped write_string
write_escaped-write_string out s =
    ap (λ z. z ++ b'"' ∷ []) (push_all_escaped_lem (out ++ b'"' ∷ []) s)

abbrev pub bom : Bytes
bom = 0xEF ∷ 0xBB ∷ 0xBF ∷ []

-- A byte order mark is taken off the front of the input, and reported as three bytes; any other
-- input is left as it is.
pub strip_utf8_bom-cases :
    (bytes : Bytes)
    → ((r : Bytes) × (bytes ≡ bom ++ r) × (strip_utf8_bom bytes ≡ (r, 3)))
      ⊎ (((r : Bytes) → bytes ≢ bom ++ r) × (strip_utf8_bom bytes ≡ (bytes, 0)))
unfolding strip_utf8_bom
strip_utf8_bom-cases [] = inr (λ r e. cc, refl)
strip_utf8_bom-cases (a ∷ []) = inr (λ r e. cc, refl)
strip_utf8_bom-cases (a ∷ b ∷ []) = inr (λ r e. cc, refl)
strip_utf8_bom-cases (a ∷ b ∷ c ∷ r) = elim (Bool-cases (a == 0xEF)) [
  | inr n ↦ inr (λ s e. ground (arith), ground (arith))
  | inl y ↦ elim (Bool-cases (b == 0xBB)) [
    | inr n ↦ inr (λ s e. ground (arith), ground (arith))
    | inl y' ↦ elim (Bool-cases (c == 0xBF)) [
      | inr n ↦ inr (λ s e. ground (arith), ground (arith))
      | inl y'' ↦ inl (r, ground (arith), ground (arith))
    ]
  ]
]
