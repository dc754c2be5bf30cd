-- ===== src/Text/Utf8.antt =====
-- UTF-8 as the standard library has it: encoding beside decoding.
use cjson_rs.Common.{
  ℕ, zero, suc, ◌+◌, ◌-◌, ◌*◌, ◌/◌, ◌%◌, ◌≤◌, ◌<◌, true, none, some, List, [], ◌∷◌, ◌++◌, ◌≡◌, refl,
  arith, Bytes, All, length, length-append, ltb, within, Bool-cases, Option-cases, inl, inr,
  append-nil,
}
use cjson_rs.Text.{
  is_char, encode_char, decode_two, second_of_three, decode_three, second_of_four, decode_four,
  decode_char, decode_all, from_utf8, as_bytes,
}

abbrev pub IsChar : ℕ → Type 0
IsChar c = is_char c ≡ true

abbrev pub IsText : List ℕ → Type 0
IsText cs = All IsChar cs

pub decode_char-encode_char :
    (c : ℕ) (rest : Bytes) → IsChar c → decode_char (encode_char c ++ rest) ≡ some (c, rest)
unfolding decode_char encode_char
decode_char-encode_char c rest h = ground arith

-- `bs` begins with the encoding of the `char` that was decoded.
abbrev Decoded : Bytes → ℕ → Bytes → Type 0
Decoded bs c rest = (bs ≡ encode_char c ++ rest) × IsChar c

decode_two_sound :
    (a : ℕ) (bs : Bytes) {c : ℕ} {rest : Bytes}
    → within 0xC2 0xDF a ≡ true
    → decode_two a bs ≡ some (c, rest)
    → Decoded (a ∷ bs) c rest
unfolding decode_two encode_char
decode_two_sound a [] k h = cc
decode_two_sound a (b ∷ r) k h = ground arith

decode_three_sound :
    (a : ℕ) (bs : Bytes) {c : ℕ} {rest : Bytes}
    → within 0xE0 0xEF a ≡ true
    → decode_three a bs ≡ some (c, rest)
    → Decoded (a ∷ bs) c rest
unfolding decode_three second_of_three encode_char
decode_three_sound a (b ∷ d ∷ r) k h = ground arith
decode_three_sound a _ k h = cc

-- the four groups of six bits, read back from their sum
groups_of_four :
    (x y z u : ℕ)
    → y < 64
    → z < 64
    → u < 64
    → let c = x * 262144 + y * 4096 + z * 64 + u in
      (c / 262144 ≡ x) × (c / 4096 % 64 ≡ y) × (c / 64 % 64 ≡ z) × (c % 64 ≡ u)
groups_of_four x y z u hy hz hu = omega arith

encode_char_four :
    (a b d e : ℕ)
    → within 0xF0 0xF4 a ≡ true
    → second_of_four a b ≡ true
    → within 0x80 0xBF d ≡ true
    → within 0x80 0xBF e ≡ true
    → let c = (a - 0xF0) * 262144 + (b - 0x80) * 4096 + (d - 0x80) * 64 + (e - 0x80) in
      (encode_char c ≡ a ∷ b ∷ d ∷ e ∷ []) × IsChar c
unfolding encode_char second_of_four
encode_char_four a b d e ha hb hd he =
    let facts : (0x80 ≤ b) × (b ≤ 0xBF) × (0x80 ≤ d) × (d ≤ 0xBF) × (0x80 ≤ e) × (e ≤ 0xBF) =
      ground arith in
    let range : (0x10000 ≤ (a - 0xF0) * 262144 + (b - 0x80) * 4096 + (d - 0x80) * 64 + (e - 0x80))
        × ((a - 0xF0) * 262144 + (b - 0x80) * 4096 + (d - 0x80) * 64 + (e - 0x80) ≤ 0x10FFFF) =
      ground arith in
    ground (arith, groups_of_four (a - 0xF0) (b - 0x80) (d - 0x80) (e - 0x80))

decode_four_sound :
    (a : ℕ) (bs : Bytes) {c : ℕ} {rest : Bytes}
    → within 0xF0 0xF4 a ≡ true
    → decode_four a bs ≡ some (c, rest)
    → Decoded (a ∷ bs) c rest
unfolding decode_four
decode_four_sound a (b ∷ d ∷ e ∷ r) k h = elim (Bool-cases (second_of_four a b)) [
  | inl p ↦ elim (Bool-cases (within 0x80 0xBF d)) [
    | inl q ↦ elim (Bool-cases (within 0x80 0xBF e)) [
      | inl s ↦ ground (arith, encode_char_four a b d e k p q s)
      | inr s ↦ absurd (let x : none ≡ some _ = rw (p, q, s) at h in cc)
    ]
    | inr q ↦ absurd (let x : none ≡ some _ = rw (p, q) at h in cc)
  ]
  | inr p ↦ absurd (let x : none ≡ some _ = rw p at h in cc)
]
decode_four_sound a _ k h = cc

pub decode_char_sound :
    (bs : Bytes) {c : ℕ} {rest : Bytes} → decode_char bs ≡ some (c, rest) → Decoded bs c rest
unfolding decode_char
decode_char_sound [] h = cc
decode_char_sound (a ∷ r) h = elim (Bool-cases (ltb a 0x80)) [
  | inl k ↦ unfold encode_char in ground arith
  | inr k ↦ elim (Bool-cases (within 0xC2 0xDF a)) [
    | inl m ↦ decode_two_sound a r m (rw (k, m) at h)
    | inr m ↦ elim (Bool-cases (within 0xE0 0xEF a)) [
      | inl n ↦ decode_three_sound a r n (rw (k, m, n) at h)
      | inr n ↦ elim (Bool-cases (within 0xF0 0xF4 a)) [
        | inl o ↦ decode_four_sound a r o (rw (k, m, n, o) at h)
        | inr o ↦ absurd (let x : none ≡ some _ = rw (k, m, n, o) at h in cc)
      ]
    ]
  ]
]

-- the first byte tells the length of the encoding, as `read_utf8_char` uses it
pub length-encode_char :
    (c : ℕ) → IsChar c → (1 ≤ length (encode_char c)) × (length (encode_char c) ≤ 4)
unfolding encode_char
length-encode_char c h = ground arith

decode_char-nil : decode_char [] ≡ none
unfolding decode_char
decode_char-nil = refl

-- a byte string that holds one `char` and no more
pub from_utf8_one :
    (bs : Bytes) {c : ℕ} → decode_char bs ≡ some (c, []) → from_utf8 bs ≡ some (c ∷ [])
unfolding from_utf8
from_utf8_one [] h = cc decode_char-nil
from_utf8_one (a ∷ r) h = rw (h, decode_all)

pub from_utf8-encode_char : (c : ℕ) → IsChar c → from_utf8 (encode_char c) ≡ some (c ∷ [])
from_utf8-encode_char c h =
    from_utf8_one (encode_char c) (rw append-nil at (decode_char-encode_char c [] h))

pub from_utf8_first :
    (bs : Bytes) {c : ℕ} {cs : List ℕ}
    → from_utf8 bs ≡ some (c ∷ cs)
    → (rest : Bytes) × Decoded bs c rest
unfolding from_utf8 decode_all
from_utf8_first [] h = cc
from_utf8_first (a ∷ r) h = elim (Option-cases (decode_char (a ∷ r))) [
  | inl p ↦ cc (rw (p, decode_all) at h)
  | inr ((c', rest), p) ↦ (rest, ground (arith, p, decode_char_sound (a ∷ r) p))
]

decode_all_step :
    (n : ℕ) (bs : Bytes) {c : ℕ} {rest : Bytes} {cs : List ℕ}
    → decode_char bs ≡ some (c, rest)
    → decode_all n rest ≡ some cs
    → decode_all (suc n) bs ≡ some (c ∷ cs)
unfolding decode_all
decode_all_step n [] h k = cc decode_char-nil
decode_all_step n (a ∷ r) h k = rw (decode_all, h, k)

decode_all-as_bytes :
    (cs : List ℕ) (n : ℕ)
    → IsText cs
    → length (as_bytes cs) ≤ n
    → decode_all n (as_bytes cs) ≡ some cs
unfolding decode_all as_bytes
decode_all-as_bytes [] n t h = refl
decode_all-as_bytes (c ∷ cs) zero t h =
    absurd (omega (arith, length-append (encode_char c) (as_bytes cs), length-encode_char c t.0))
decode_all-as_bytes (c ∷ cs) (suc n) t h =
    decode_all_step n (encode_char c ++ as_bytes cs) (decode_char-encode_char c (as_bytes cs) t.0) (
      decode_all-as_bytes cs n t.1
        (omega (arith, length-append (encode_char c) (as_bytes cs), length-encode_char c t.0)))

pub from_utf8-as_bytes : (cs : List ℕ) → IsText cs → from_utf8 (as_bytes cs) ≡ some cs
unfolding from_utf8
from_utf8-as_bytes cs t = decode_all-as_bytes cs (length (as_bytes cs)) t (omega arith)
