-- ===== src/Number/Laws.antt =====
-- What the standard library documents of `f64`: the text of a finite number is a JSON number, and
-- parsing that text gives the number back.
use cjson_rs.Common.{ℕ, Bool, true, ◌||◌, some, [], ◌∷◌, ◌++◌, ◌≡◌, Bytes, refl, arith}
use cjson_rs.Number.{Float}
use cjson_rs.Number.Grammar.{
  NumberLexeme, is_digit, is_exp_mark, is_point, Stops, NumberStops, IntText, zero_int, nonzero_int,
  FracText, no_frac, frac, ExpText, no_exp, exp, IntStops, FracStops, ExpStops,
}
use cjson_rs.Text.{as_bytes}

pub record FloatLaws {F : Type 0} (f64 : Float F) : Type 0 where
  pub display_lexeme : (v : F) → f64.is_finite v ≡ true → NumberLexeme (as_bytes (f64.display v))
  pub from_str-display :
      (v : F) → f64.is_finite v ≡ true → f64.from_str (as_bytes (f64.display v)) ≡ some v

-- a byte with which a number could go on
abbrev pub is_number_byte : ℕ → Bool
is_number_byte b = is_digit b || (is_point b || is_exp_mark b)

module _ (r : Bytes) (s : Stops is_number_byte r) where
  weaker-Stops : Stops is_digit r × Stops is_point r × Stops is_exp_mark r
  weaker-Stops = go r s
    where
      go :
          (x : Bytes)
          → Stops is_number_byte x
          → Stops is_digit x × Stops is_point x × Stops is_exp_mark x
      go [] h = (tt, tt, tt)
      go (b ∷ x) h = ground arith

  exp_stops : {x : Bytes} (e : ExpText x) → ExpStops e r
  exp_stops (no_exp w) = weaker-Stops.2
  exp_stops (exp m sign ds h g d w) = weaker-Stops.0

  frac_stops : {x y : Bytes} (f : FracText x) → ExpText y → FracStops f (y ++ r)
  frac_stops (no_frac w) (no_exp v) = rw v weaker-Stops.1
  frac_stops (no_frac w) (exp m sign ds h g d v) = rw v (ground arith)
  frac_stops (frac ds d w) (no_exp v) = rw v weaker-Stops.0
  frac_stops (frac ds d w) (exp m sign ds' h g d' v) = rw v (ground arith)

  int_stops : {x y z : Bytes} (i : IntText x) → FracText y → ExpText z → IntStops i (y ++ (z ++ r))
  int_stops (zero_int u) f e = tt
  int_stops (nonzero_int d ds h all u) (no_frac w) (no_exp v) = rw (w, v) weaker-Stops.0
  int_stops (nonzero_int d ds h all u) (no_frac w) (exp m sign es k g d' v) =
      rw (w, v) (ground arith)
  int_stops (nonzero_int d ds h all u) (frac fs d' w) e = rw w refl

  -- A number stops in front of any other byte, whatever its parts.
  pub NumberStops-other : {x : Bytes} (n : NumberLexeme x) → NumberStops n r
  NumberStops-other n = (
    int_stops n.int_part n.frac_part n.exp_part,
    frac_stops n.frac_part n.exp_part,
    exp_stops n.exp_part,
  )
