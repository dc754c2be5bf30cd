-- ===== src/Number/Grammar.antt =====
-- The numbers of RFC 8259, section 6, as predicates on bytes, independent of the code that reads
-- them; and where a reader that takes the longest number stops.
use cjson_rs.Common.{
  ℕ, ◌≤◌, Bool, true, false, ◌||◌, [], ◌∷◌, ◌++◌, ◌≡◌, ◌⊎◌, Bytes, All, ◌==◌, within,
}

-- `r` is empty, or its first byte fails the test
abbrev pub Stops : (ℕ → Bool) → Bytes → Type 0
Stops p [] = Unit
Stops p (b ∷ bs) = p b ≡ false

abbrev pub is_digit : ℕ → Bool
is_digit b = within b'0' b'9' b

abbrev pub is_exp_mark : ℕ → Bool
is_exp_mark b = b == b'e' || b == b'E'

abbrev pub is_point : ℕ → Bool
is_point b = b == b'.'

abbrev pub IsDigit : ℕ → Type 0
IsDigit b = is_digit b ≡ true

-- one digit or more
pub record Digits (x : Bytes) : Type 0 where
  pub first : ℕ
  pub others : Bytes
  pub first_digit : IsDigit first
  pub other_digits : All IsDigit others
  pub bytes : x ≡ first ∷ others

pub data IntText (x : Bytes) : Type 0 where
  zero_int : x ≡ b'0' ∷ [] → IntText x
  nonzero_int :
      (d : ℕ) (ds : Bytes) → (b'1' ≤ d) × (d ≤ b'9') → All IsDigit ds → x ≡ d ∷ ds → IntText x

pub data FracText (x : Bytes) : Type 0 where
  no_frac : x ≡ [] → FracText x
  frac : (ds : Bytes) → Digits ds → x ≡ b'.' ∷ ds → FracText x

pub data ExpText (x : Bytes) : Type 0 where
  no_exp : x ≡ [] → ExpText x
  exp :
      (mark : ℕ) (sign ds : Bytes)
      → is_exp_mark mark ≡ true
      → (sign ≡ []) ⊎ ((sign ≡ b'+' ∷ []) ⊎ (sign ≡ b'-' ∷ []))
      → Digits ds
      → x ≡ mark ∷ (sign ++ ds)
      → ExpText x

-- number = [ minus ] int [ frac ] [ exp ]
pub record NumberLexeme (x : Bytes) : Type 0 where
  pub minus : Bytes
  pub int : Bytes
  pub fraction : Bytes
  pub exponent : Bytes
  pub minus_sign : (minus ≡ []) ⊎ (minus ≡ b'-' ∷ [])
  pub int_part : IntText int
  pub frac_part : FracText fraction
  pub exp_part : ExpText exponent
  pub bytes : x ≡ minus ++ (int ++ (fraction ++ exponent))

-- what may stand behind each part, so that the part was read as far as it goes
abbrev pub IntStops : {x : Bytes} → IntText x → Bytes → Type 0
IntStops (zero_int _) r = Unit
IntStops (nonzero_int _ _ _ _ _) r = Stops is_digit r

abbrev pub FracStops : {x : Bytes} → FracText x → Bytes → Type 0
FracStops (no_frac _) r = Stops is_point r
FracStops (frac _ _ _) r = Stops is_digit r

abbrev pub ExpStops : {x : Bytes} → ExpText x → Bytes → Type 0
ExpStops (no_exp _) r = Stops is_exp_mark r
ExpStops (exp _ _ _ _ _ _ _) r = Stops is_digit r

-- With `r` behind it the number is the longest that can be read.
abbrev pub NumberStops : {x : Bytes} → NumberLexeme x → Bytes → Type 0
NumberStops n r =
    IntStops n.int_part (n.fraction ++ (n.exponent ++ r))
    × FracStops n.frac_part (n.exponent ++ r)
    × ExpStops n.exp_part r
