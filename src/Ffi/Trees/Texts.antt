-- ===== src/Ffi/Trees/Texts.antt =====
-- What is read of the copies that `alloc_cstr` makes of strings: the characters in front of the
-- first NUL.
use cjson_rs.Common.{
  ℕ, false, Option, none, some, List, [], ◌∷◌, ◌++◌, Bytes, ◌≡◌, ◌≢◌, refl, ap, arith, ◌==◌, ltb,
  if◌then◌else◌, Bool-cases, Option-cases, inl, inr, All, append_assoc,
}
use cjson_rs.Ffi.Create.{c_str}
use cjson_rs.Ffi.Memory.{Ptr, Memory, ok}
use cjson_rs.Ffi.Memory.Runs.{not_null}
use cjson_rs.Ffi.Parse.{until_nul, c_bytes}
use cjson_rs.Ffi.Trees.{str_or_empty}
use cjson_rs.Ffi.Trees.Shape.{TextAt}
use cjson_rs.Text.{as_bytes, encode_char}
use cjson_rs.Text.Utf8.{IsText, from_utf8-as_bytes}

-- the characters in front of the first NUL
abbrev pub cut : List ℕ → List ℕ
cut [] = []
cut (c ∷ s) = if c == 0 then [] else c ∷ cut s

abbrev prepend : Bytes → Option Bytes → Option Bytes
prepend x none = none
prepend x (some y) = some (x ++ y)

until_nul-append :
    (x bs : Bytes) → All (λ b. b ≢ 0) x → until_nul (x ++ bs) ≡ prepend x (until_nul bs)
unfolding until_nul
until_nul-append [] bs h = elim (Option-cases (until_nul bs)) [ inl e ↦ rw e | inr (s, e) ↦ rw e ]
until_nul-append (b ∷ x) bs (ne, h) =
    let e : (b == 0) ≡ false = ground arith in
    rw (until_nul, e, until_nul-append x bs h)
      (elim (Option-cases (until_nul bs)) [ inl e ↦ rw e refl | inr (s, e) ↦ rw e refl ])

encode_char-ne_zero : (c : ℕ) → c ≢ 0 → All (λ b. b ≢ 0) (encode_char c)
unfolding encode_char
encode_char-ne_zero c ne = elim (Bool-cases (ltb c 0x80)) [
  | inl y ↦ rw y (ne, tt)
  | inr k ↦ rw k (elim (Bool-cases (ltb c 0x800)) [
    | inl y ↦ rw y ((λ z. omega arith), ((λ z. omega arith), tt))
    | inr k' ↦ rw k' (elim (Bool-cases (ltb c 0x10000)) [
      | inl y ↦ rw y ((λ z. omega arith), ((λ z. omega arith), ((λ z. omega arith), tt)))
      | inr k'' ↦
          rw k'' (
            (λ z. omega arith),
            ((λ z. omega arith), ((λ z. omega arith), ((λ z. omega arith), tt))),
          )
    ])
  ])
]

until_nul-as_bytes : (s : List ℕ) → until_nul (as_bytes s ++ 0 ∷ []) ≡ some (as_bytes (cut s))
unfolding as_bytes until_nul encode_char
until_nul-as_bytes [] = refl
until_nul-as_bytes (c ∷ s) = elim (Bool-cases (c == 0)) [
  | inl y ↦ let zero_char : c ≡ 0 = ground arith in rw (zero_char, encode_char) refl
  | inr k ↦
      let ne : c ≢ 0 = ground arith in
      rw (append_assoc (encode_char c) (as_bytes s) (0 ∷ [])) (
        rw (until_nul-append (encode_char c) (as_bytes s ++ 0 ∷ []) (encode_char-ne_zero c ne))
          (rw (until_nul-as_bytes s, k) refl))
]

cut-IsText : (s : List ℕ) → IsText s → IsText (cut s)
cut-IsText [] t = tt
cut-IsText (c ∷ s) t = elim (Bool-cases (c == 0)) [
  | inl y ↦ rw y tt
  | inr k ↦ rw k (t.0, cut-IsText s t.1)
]

-- A copy of a string is read as the string in front of its first NUL.
pub str_or_empty-cut :
    {F : Type 0} (m : Memory F) (p : Ptr) (s : List ℕ)
    → TextAt m p s
    → IsText s
    → str_or_empty p m ≡ ok (some (cut s)) m
unfolding str_or_empty c_str c_bytes
str_or_empty-cut m p s h t = rw (not_null h.ne_null) (
    rw (c_str, c_bytes, h.holds, until_nul-as_bytes s)
      (ap (λ z. ok z m) (from_utf8-as_bytes (cut s) (cut-IsText s t))))
