-- ===== src/Tokeniser/NumberReads.antt =====
-- `read_number` of tokeniser.rs on numbers of the grammar.
use cjson_rs.Common.{
  ℕ, ◌-◌, Bool, true, false, some, [], ◌∷◌, ◌++◌, ◌≡◌, ◌⊎◌, inl, inr, refl, arith, Bytes, ap, ◌∙◌,
  append_assoc, ◌==◌, length, take, take-append,
}
use cjson_rs.Error.{Position, Result, ok}
use cjson_rs.Number.{Float}
use cjson_rs.Number.Grammar.{
  Stops, is_digit, is_exp_mark, is_point, Digits, IntText, zero_int, nonzero_int, FracText, no_frac,
  frac, ExpText, no_exp, exp, NumberLexeme, IntStops, FracStops, ExpStops, NumberStops,
}
use cjson_rs.Token.{number}
use cjson_rs.Tokeniser.Cursor.{Tokeniser, peek, advance, rest, peek_is, skip_all}
use cjson_rs.Tokeniser.Numbers.{
  is_sign, skip_if, read_digits, read_int, read_frac, read_exp, scan_number, slice, convert,
  read_number,
}
use cjson_rs.Tokeniser.Reading.{After, After-refl, After-trans, After-advance, peek_cons, peek_nil}
use cjson_rs.Tokeniser.Skipping.{skip_all-run}

-- `m` returns the cursor behind `x`, with `r` left.
abbrev pub Scans : Tokeniser → Bytes → Bytes → Result Tokeniser → Type 0
Scans t x r m = (t' : Tokeniser) × (m ≡ ok t') × After t x r t'

-- a test on the next byte fails if the bytes that are left stop there
pub peek_is-Stops :
    (p : ℕ → Bool) (t : Tokeniser) (r : Bytes) → rest t ≡ r → Stops p r → peek_is p (peek t) ≡ false
peek_is-Stops p t [] e h = rw (peek_nil t e)
peek_is-Stops p t (b ∷ r) e h = rw (peek_cons t e) h

pub peek_is_cons :
    (p : ℕ → Bool) (t : Tokeniser) {b : ℕ} {r : Bytes}
    → rest t ≡ b ∷ r
    → p b ≡ true
    → peek_is p (peek t) ≡ true
peek_is_cons p t e h = rw (peek_cons t e) h

read_digits-Digits :
    (start : Position) (t : Tokeniser) {x r : Bytes}
    → Digits x
    → rest t ≡ x ++ r
    → Stops is_digit r
    → Scans t x r (read_digits start t)
unfolding read_digits
read_digits-Digits start t {x} {r} d e s =
    let e' : rest t ≡ d.first ∷ (d.others ++ r) = e ∙ ap (λ (z : Bytes). z ++ r) d.bytes in
    let a = skip_all-run is_digit t x r e (rw d.bytes (d.first_digit, d.other_digits)) s in
    (skip_all is_digit t, rw (peek_is_cons is_digit t e' d.first_digit), a)

read_int-IntText :
    (start : Position) (t : Tokeniser) {x r : Bytes} (i : IntText x)
    → rest t ≡ x ++ r
    → IntStops i r
    → Scans t x r (read_int start t)
unfolding read_int
read_int-IntText start t {x} {r} (zero_int w) e s =
    let e' : rest t ≡ b'0' ∷ r = e ∙ ap (λ (z : Bytes). z ++ r) w in
    (advance t, ground (arith, peek_cons t e'), rw w (After-advance t e'))
read_int-IntText start t {x} {r} (nonzero_int d ds h all w) e s =
    let e' : rest t ≡ d ∷ (ds ++ r) = e ∙ ap (λ (z : Bytes). z ++ r) w in
    let a = After-advance t e' in
    let b = skip_all-run is_digit (advance t) ds r a.left all s in
    (
      skip_all is_digit (advance t),
      ground (arith, peek_cons t e'),
      rw w (After-trans (d ∷ []) ds a b),
    )

read_frac-FracText :
    (start : Position) (t : Tokeniser) {x r : Bytes} (f : FracText x)
    → rest t ≡ x ++ r
    → FracStops f r
    → Scans t x r (read_frac start t)
unfolding read_frac
read_frac-FracText start t {x} {r} (no_frac w) e s =
    let e' : rest t ≡ r = e ∙ ap (λ (z : Bytes). z ++ r) w in
    (t, rw (peek_is-Stops is_point t r e' s), rw w (After-refl t e'))
read_frac-FracText start t {x} {r} (frac ds d w) e s =
    let e' : rest t ≡ b'.' ∷ (ds ++ r) = e ∙ ap (λ (z : Bytes). z ++ r) w in
    let a = After-advance t e' in
    let (t', run, b) = read_digits-Digits start (advance t) d a.left s in
    (t', rw (peek_is_cons is_point t e' refl) run, rw w (After-trans (b'.' ∷ []) ds a b))

-- an optional byte that the test accepts, in front of bytes where it fails
skip_if-present :
    (p : ℕ → Bool) (t : Tokeniser) (b : ℕ) {r : Bytes}
    → p b ≡ true
    → rest t ≡ b ∷ r
    → After t (b ∷ []) r (skip_if p t)
skip_if-present p t b h e = rw (peek_is_cons p t e h) (After-advance t e)

skip_if-absent :
    (p : ℕ → Bool) (t : Tokeniser) (r : Bytes) → rest t ≡ r → Stops p r → After t [] r (skip_if p t)
skip_if-absent p t r e h = rw (peek_is-Stops p t r e h) (After-refl t e)

skip_sign :
    (t : Tokeniser) (sign ds r : Bytes)
    → (sign ≡ []) ⊎ ((sign ≡ b'+' ∷ []) ⊎ (sign ≡ b'-' ∷ []))
    → Digits ds
    → rest t ≡ sign ++ (ds ++ r)
    → After t sign (ds ++ r) (skip_if is_sign t)
skip_sign t sign ds r (inl w) d e = rw w (
    skip_if-absent is_sign t (ds ++ r) (e ∙ ap (λ (z : Bytes). z ++ (ds ++ r)) w)
      (rw d.bytes (let f = d.first_digit in ground arith)))
skip_sign t sign ds r (inr (inl w)) d e =
    rw w (skip_if-present is_sign t b'+' refl (e ∙ ap (λ (z : Bytes). z ++ (ds ++ r)) w))
skip_sign t sign ds r (inr (inr w)) d e =
    rw w (skip_if-present is_sign t b'-' refl (e ∙ ap (λ (z : Bytes). z ++ (ds ++ r)) w))

read_exp-ExpText :
    (start : Position) (t : Tokeniser) {x r : Bytes} (f : ExpText x)
    → rest t ≡ x ++ r
    → ExpStops f r
    → Scans t x r (read_exp start t)
unfolding read_exp
read_exp-ExpText start t {x} {r} (no_exp w) e s =
    let e' : rest t ≡ r = e ∙ ap (λ (z : Bytes). z ++ r) w in
    (t, rw (peek_is-Stops is_exp_mark t r e' s), rw w (After-refl t e'))
read_exp-ExpText start t {x} {r} (exp mark sign ds m g d w) e s =
    let e' : rest t ≡ mark ∷ (sign ++ (ds ++ r)) =
      e ∙ ap (λ (z : Bytes). z ++ r) w ∙ ap (◌∷◌ mark) (append_assoc sign ds r) in
    let a = After-advance t e' in
    let b = skip_sign (advance t) sign ds r g d a.left in
    let (t', run, c) = read_digits-Digits start (skip_if is_sign (advance t)) d b.left s in
    (
      t',
      rw (peek_is_cons is_exp_mark t e' m) run,
      rw w (After-trans (mark ∷ []) _ a (After-trans sign ds b c)),
    )

-- an integer part does not begin with a minus sign
IntText-Stops_minus : {x : Bytes} (r : Bytes) → IntText x → Stops (λ b. b == b'-') (x ++ r)
IntText-Stops_minus r (zero_int w) = rw w refl
IntText-Stops_minus r (nonzero_int d ds h all w) = rw w (ground arith)

skip_minus :
    (t : Tokeniser) {x : Bytes} (r : Bytes)
    → (x ≡ []) ⊎ (x ≡ b'-' ∷ [])
    → Stops (λ b. b == b'-') r
    → rest t ≡ x ++ r
    → After t x r (skip_if (λ b. b == b'-') t)
skip_minus t r (inl w) s e =
    rw w (skip_if-absent (λ b. b == b'-') t r (e ∙ ap (λ (z : Bytes). z ++ r) w) s)
skip_minus t r (inr w) s e =
    rw w (skip_if-present (λ b. b == b'-') t b'-' refl (e ∙ ap (λ (z : Bytes). z ++ r) w))

-- `scan_number` passes over a number of the grammar, and no further, if the bytes behind it do not
-- make it longer.
pub scan_number-NumberLexeme :
    (t : Tokeniser) {x r : Bytes} (n : NumberLexeme x)
    → rest t ≡ x ++ r
    → NumberStops n r
    → Scans t x r (scan_number t)
unfolding scan_number
scan_number-NumberLexeme t {x} {r} n e s =
    let split : rest t ≡ n.minus ++ (n.int ++ (n.fraction ++ (n.exponent ++ r))) =
      e ∙ rw n.bytes (simp append_assoc) in
    let a = skip_minus t _ n.minus_sign (IntText-Stops_minus _ n.int_part) split in
    let (t₁, run₁, a₁) =
      read_int-IntText t.pos (skip_if (λ b. b == b'-') t) n.int_part a.left s.0 in
    let (t₂, run₂, a₂) = read_frac-FracText t.pos t₁ n.frac_part a₁.left s.1 in
    let (t₃, run₃, a₃) = read_exp-ExpText t.pos t₂ n.exp_part a₂.left s.2 in
    (
      t₃,
      ground (arith, run₁, run₂, run₃),
      rw n.bytes (
          After-trans n.minus _ a
            (After-trans n.int _ a₁ (After-trans n.fraction n.exponent a₂ a₃))),
    )

-- the slice between two cursors is what was read between them
pub slice-After : {t t' : Tokeniser} {r : Bytes} (x : Bytes) → After t x r t' → slice t t' ≡ x
slice-After {t} {t'} {r} x a =
    let n : t'.pos.offset - t.pos.offset ≡ length x = omega (arith, a.offset) in
    ap (λ k. take k (rest t)) n ∙ ap (take (length x)) a.before ∙ take-append x r

module _ {F : Type 0} (f64 : Float F) where
  open f64 use {is_finite, from_str}

  -- `read_number` reads a number that stands alone, if the library gives it a finite value.
  pub read_number-NumberLexeme :
      (t : Tokeniser) {x r : Bytes} {v : F} (n : NumberLexeme x)
      → from_str x ≡ some v
      → is_finite v ≡ true
      → rest t ≡ x ++ r
      → NumberStops n r
      → (t' : Tokeniser) × (read_number f64 t ≡ ok (number v, t')) × After t x r t'
  unfolding read_number convert
  read_number-NumberLexeme t {x} n p fin e s =
      let (t', run, a) = scan_number-NumberLexeme t n e s in
      (t', ground (arith, run, slice-After x a), a)
