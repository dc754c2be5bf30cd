-- ===== src/Tokeniser/NumberSound.antt =====
-- `read_number` of tokeniser.rs, up to the conversion, on any bytes.
use cjson_rs.Common.{
  ℕ, Bool, true, false, [], ◌∷◌, ◌++◌, ◌≡◌, ◌⊎◌, inl, inr, refl, arith, Bytes, All, ap, sym, ◌∙◌,
  subst, within, ◌==◌, List-cases, Bool-cases,
}
use cjson_rs.Error.{Position, Returns, returned, raised, Returns-bind, Returns-map}
use cjson_rs.Number.Grammar.{
  Stops, is_digit, is_exp_mark, is_point, IsDigit, Digits, IntText, zero_int, nonzero_int, FracText,
  no_frac, frac, ExpText, no_exp, exp, NumberLexeme, IntStops, FracStops, ExpStops, NumberStops,
}
use cjson_rs.Tokeniser.Cursor.{Tokeniser, peek, advance, rest, peek_is, skip_all}
use cjson_rs.Tokeniser.Numbers.{
  is_sign, skip_if, read_digits, read_int, read_frac, read_exp, scan_number,
}
use cjson_rs.Tokeniser.Reading.{
  After, After-refl, After-advance, After-here, After-join, peek_cons, peek_nil,
}
use cjson_rs.Tokeniser.Skipping.{skip_all_lem, take_while, take_while-AllPass, drop_while-Stops}

-- Some bytes were read that the grammar allows, and the part ends where it has to.
abbrev ReadsPart :
    Tokeniser → (G : Bytes → Type 0) → ((x : Bytes) → G x → Bytes → Type 0) → Tokeniser → Type 0
ReadsPart t G S t' = (x : Bytes) × After t x (rest t') t' × (g : G x) × S x g (rest t')

-- a test on the next byte
pub data Next (p : ℕ → Bool) (t : Tokeniser) : Type 0 where
  passes : (b : ℕ) (r : Bytes) → rest t ≡ b ∷ r → p b ≡ true → peek_is p (peek t) ≡ true → Next p t
  stops : Stops p (rest t) → peek_is p (peek t) ≡ false → Next p t

pub Next-byte : (p : ℕ → Bool) (t : Tokeniser) → Next p t
Next-byte p t = elim (List-cases (rest t)) [
  | inl e ↦ stops (rw e tt) (rw (peek_nil t e))
  | inr (b, r, e) ↦ elim (Bool-cases (p b)) [
    | inl y ↦ passes b r e y (rw (peek_cons t e) y)
    | inr n ↦ stops (rw e n) (rw (peek_cons t e) n)
  ]
]

-- the digits from here on
skip_digits :
    (t : Tokeniser)
    → (x : Bytes) × After t x (rest (skip_all is_digit t)) (skip_all is_digit t)
      × All IsDigit x
      × Stops is_digit (rest (skip_all is_digit t))
skip_digits t =
    let a = skip_all_lem is_digit t in
    (
      take_while is_digit (rest t),
      After-here a,
      take_while-AllPass is_digit (rest t),
      subst (Stops is_digit) (sym a.left) (drop_while-Stops is_digit (rest t)),
    )

abbrev ReadsDigits : Tokeniser → Tokeniser → Type 0
ReadsDigits t = ReadsPart t Digits (λ x d r. Stops is_digit r)

abbrev ReadsInt : Tokeniser → Tokeniser → Type 0
ReadsInt t = ReadsPart t IntText (λ x i. IntStops i)

abbrev ReadsFrac : Tokeniser → Tokeniser → Type 0
ReadsFrac t = ReadsPart t FracText (λ x f. FracStops f)

abbrev ReadsExp : Tokeniser → Tokeniser → Type 0
ReadsExp t = ReadsPart t ExpText (λ x f. ExpStops f)

read_digits-Returns :
    (start : Position) (t : Tokeniser) → Returns (ReadsDigits t) (read_digits start t)
unfolding read_digits
read_digits-Returns start t = elim (Next-byte is_digit t) [
  | stops s e ↦ rw e (raised _)
  | passes b r w d e ↦ rw e (
      let a = skip_all_lem is_digit t in
      let first : take_while is_digit (rest t) ≡ b ∷ take_while is_digit r = rw (w, d) in
      returned (
        take_while is_digit (rest t),
        After-here a,
        record {
          first = b;
          others = take_while is_digit r;
          first_digit = d;
          other_digits = take_while-AllPass is_digit r;
          bytes = first;
        },
        subst (Stops is_digit) (sym a.left) (drop_while-Stops is_digit (rest t)),
      ))
]

read_int-Returns : (start : Position) (t : Tokeniser) → Returns (ReadsInt t) (read_int start t)
unfolding read_int
read_int-Returns start t = elim (Next-byte (λ b. b == b'0') t) [
  | passes b r w d e ↦ rw e (
      let zero_byte : b ≡ b'0' = ground arith in
      let part : ReadsInt t (advance t) =
        (b ∷ [], After-here (After-advance t w), zero_int (ap (λ z. z ∷ []) zero_byte), tt) in
      returned part)
  | stops s e ↦ rw e (elim (Next-byte (within b'1' b'9') t) [
    | stops s' e' ↦ rw e' (raised _)
    | passes b r w d e' ↦ rw e' (
        let (x, a, all, last) = skip_digits (advance t) in
        let part : ReadsInt t (skip_all is_digit (advance t)) = (
          b ∷ x,
          After-join (After-here (After-advance t w)) a,
          nonzero_int b x (ground arith, ground arith) all refl,
          last,
        ) in
        returned part)
  ])
]

read_frac-Returns : (start : Position) (t : Tokeniser) → Returns (ReadsFrac t) (read_frac start t)
unfolding read_frac
read_frac-Returns start t = elim (Next-byte is_point t) [
  | stops s e ↦
      rw e (let part : ReadsFrac t t = ([], After-refl t refl, no_frac refl, s) in returned part)
  | passes b r w d e ↦ rw e (
      Returns-map (read_digits-Returns start (advance t)) λ t' (x, a, digits, last).
        let point : b ≡ b'.' = ground arith in
        (
          b ∷ x,
          After-join (After-here (After-advance t w)) a,
          frac x digits (ap (λ z. z ∷ x) point),
          last,
        ))
]

Sign : Bytes → Type 0
Sign x = (x ≡ []) ⊎ ((x ≡ b'+' ∷ []) ⊎ (x ≡ b'-' ∷ []))

skip-Sign :
    (t : Tokeniser)
    → (x : Bytes) × After t x (rest (skip_if is_sign t)) (skip_if is_sign t) × Sign x
unfolding Sign
skip-Sign t = elim (Next-byte is_sign t) [
  | stops s e ↦ rw e ([], After-refl t refl, inl refl)
  | passes b r w d e ↦ rw e (
      (
        b ∷ [],
        After-here (After-advance t w),
        elim (Bool-cases (b == b'+')) [
          | inl plus ↦ let q : b ≡ b'+' = ground arith in inr (inl (ap (λ z. z ∷ []) q))
          | inr minus ↦ let q : b ≡ b'-' = ground arith in inr (inr (ap (λ z. z ∷ []) q))
        ],
      ))
]

read_exp-Returns : (start : Position) (t : Tokeniser) → Returns (ReadsExp t) (read_exp start t)
unfolding read_exp Sign
read_exp-Returns start t = elim (Next-byte is_exp_mark t) [
  | stops s e ↦
      rw e (let part : ReadsExp t t = ([], After-refl t refl, no_exp refl, s) in returned part)
  | passes b r w d e ↦
      let (sign, c, signed) = skip-Sign (advance t) in
      rw e (
        Returns-map (read_digits-Returns start (skip_if is_sign (advance t)))
          λ t' (x, a, digits, last). (
            b ∷ (sign ++ x),
            After-join (After-here (After-advance t w)) (After-join c a),
            exp b sign x d signed digits refl,
            last,
          ))
]

skip_minus :
    (t : Tokeniser)
    → let t' = skip_if (λ b. b == b'-') t in
      (x : Bytes) × After t x (rest t') t' × ((x ≡ []) ⊎ (x ≡ b'-' ∷ []))
skip_minus t = elim (Next-byte (λ b. b == b'-') t) [
  | stops s e ↦ rw e ([], After-refl t refl, inl refl)
  | passes b r w d e ↦ rw e (
      let q : b ≡ b'-' = ground arith in
      (b ∷ [], After-here (After-advance t w), inr (ap (λ z. z ∷ []) q)))
]

-- Whatever `read_number` scans is a number of the grammar, and no longer number could be read
-- there; else the scan returns an error.
pub scan_number-Returns :
    (t : Tokeniser)
    → Returns
        (λ t'.
          (x : Bytes) × After t x (rest t') t' × (n : NumberLexeme x) × NumberStops n (rest t'))
        (scan_number t)
unfolding scan_number
scan_number-Returns t =
    let (m, a, minus) = skip_minus t in
    Returns-bind (read_int-Returns t.pos (skip_if (λ b. b == b'-') t)) λ t₁ (x, a₁, int, s₁).
      Returns-bind (read_frac-Returns t.pos t₁) λ t₂ (y, a₂, fraction, s₂).
        Returns-map (read_exp-Returns t.pos t₂) λ t₃ (z, a₃, exponent, s₃). (
          m ++ (x ++ (y ++ z)),
          After-join a (After-join a₁ (After-join a₂ a₃)),
          record {
            minus = m;
            int = x;
            fraction = y;
            exponent = z;
            minus_sign = minus;
            int_part = int;
            frac_part = fraction;
            exp_part = exponent;
            bytes = refl;
          },
          (
            subst (IntStops int) (a₂.before ∙ ap (◌++◌ y) a₃.before) s₁,
            subst (FracStops fraction) a₃.before s₂,
            s₃,
          ),
        )
