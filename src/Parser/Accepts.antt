-- ===== src/Parser/Accepts.antt =====
-- `parse_with_options` of parser.rs: tokeniser and parser together.
use cjson_rs.Common.{
  ℕ, zero, suc, ◌∷◌, length-append, length-nil, ◌≤◌, ◌<◌, false, List, ◌++◌, [], ◌≡◌, ◌↔◌, inl, inr,
  refl, sym, ap, ◌∙◌, arith, Bytes, length, append-nil, subst, Bool-cases, ltb,
}
use cjson_rs.Error.{
  Result, ok, ◌>>=◌, Returns, returned, raised, Returns-bind, Returns-ok, Returns-map,
}
use cjson_rs.Number.{Float}
use cjson_rs.Parser.{
  Parser, ParserOptions, fuel, start, parse_value, finish, parse_with_options, token_at,
}
use cjson_rs.Parser.Complete.{parse_value-emit}
use cjson_rs.Parser.Grammar.{emit, height}
use cjson_rs.Parser.Reading.{kinds, left, length-kinds}
use cjson_rs.Parser.Sound.{parse_value_sound, ReadsValue}
use cjson_rs.Token.{Token, PositionedToken}
use cjson_rs.Tokeniser.TokenGrammar.{Lexes}
use cjson_rs.Tokeniser.TokenReads.{tokenise-Lexes}
use cjson_rs.Tokeniser.TokenSound.{tokenise-Returns}
use cjson_rs.Value.{Value}

pub token_at_in_bounds :
    {F : Type 0} (ts : List (PositionedToken F)) (i : ℕ)
    → i < length ts
    → (q : PositionedToken F) × (token_at ts i ≡ ok q)
token_at_in_bounds [] i h = absurd (omega arith)
token_at_in_bounds (q ∷ ts) zero h = (q, refl)
token_at_in_bounds (q ∷ ts) (suc i) h = token_at_in_bounds ts i (omega arith)

module _ {F : Type 0} (opts : ParserOptions) (ts : List (PositionedToken F)) where
  -- the tokens are those of a value that is nested within the limit
  abbrev Accepted : Value F → Type 0
  Accepted v = (kinds ts ≡ emit v) × (height v ≤ opts.nesting_limit)

  parse_and_finish : Result (Value F)
  parse_and_finish = parse_value (fuel ts) (start opts ts) >>= λ (v, p). finish v p

  parse_and_finish-emit : (v : Value F) → Accepted v → parse_and_finish ≡ ok v
  unfolding parse_and_finish finish
  parse_and_finish-emit v (kinds_eq, h) =
      let p = start opts ts in
      let b : left p ≡ emit v ++ [] = kinds_eq ∙ sym (append-nil (emit v)) in
      let lengths = ap length kinds_eq in
      let counted = length-kinds ts in
      let (q, run, a, same) = parse_value-emit v (fuel ts) p [] b (omega arith) (omega arith) in
      let at_end : ltb q.cursor (length q.tokens) ≡ false =
        let n = ap length a.same_tokens in let c = a.cursor in ground arith in
      ground (arith, run, at_end)

  finish-Returns :
      (v : Value F) (q : Parser F)
      → ReadsValue (start opts ts) (v, q)
      → Returns Accepted (finish v q)
  unfolding finish
  finish-Returns v q (a, same, h) =
      let tokens = length-kinds ts in
      let counted = ap length a.before in
      let parts = length-append {0} {A = Token F} (emit v) (left q) in
      let total = ap length a.same_tokens in
      elim (Bool-cases (ltb q.cursor (length q.tokens))) [
        | inl more ↦
            let (w, e) = token_at_in_bounds q.tokens q.cursor (ground arith) in
            rw (more, e) (raised _)
        | inr last ↦
            let nothing = length-nil (left q) (ground (arith, a.cursor)) in
            rw last
              (returned (a.before ∙ ap (◌++◌ (emit v)) nothing ∙ append-nil (emit v), omega arith))
      ]

  parse_and_finish-Returns : Returns Accepted parse_and_finish
  unfolding parse_and_finish
  parse_and_finish-Returns =
      Returns-bind
        (parse_value_sound F (fuel ts) (start opts ts) (omega arith)
          (omega (arith, length-kinds ts)))
        λ (v, q) reads. finish-Returns v q reads

module _ {F : Type 0} (f64 : Float F) where
  -- `parse_with_options` returns on every input: a value whose tokens the input lexes into and that
  -- is nested within the limit, or an error. It does not panic, and no loop is without an end.
  pub parse_with_options-Returns :
      (i : Bytes) (opts : ParserOptions)
      → Returns
          (λ v. Lexes f64 i (emit v) × (height v ≤ opts.nesting_limit))
          (parse_with_options f64 i opts)
  unfolding parse_with_options parse_and_finish
  parse_with_options-Returns i opts = Returns-bind (tokenise-Returns f64 i) λ ts lexes.
      Returns-map (parse_and_finish-Returns opts ts)
        λ v (kinds_eq, h). (subst (Lexes f64 i) kinds_eq lexes, h)

  -- If the input lexes into the tokens of a value that is nested within the limit, that value is
  -- what is parsed.
  pub parse-Lexes :
      (i : Bytes) (v : Value F) (opts : ParserOptions)
      → Lexes f64 i (emit v)
      → height v ≤ opts.nesting_limit
      → parse_with_options f64 i opts ≡ ok v
  unfolding parse_with_options parse_and_finish
  parse-Lexes i v opts g h =
      let (ts, tokenised, kinds_eq) = tokenise-Lexes f64 i (emit v) g in
      rw tokenised (parse_and_finish-emit opts ts v (kinds_eq, h))

  -- The parser accepts an input with a value if and only if the input lexes into the tokens of the
  -- value and the value is nested within the limit.
  pub parse_with_options-ok :
      (i : Bytes) (v : Value F) (opts : ParserOptions)
      → (parse_with_options f64 i opts ≡ ok v)
        ↔ (Lexes f64 i (emit v) × (height v ≤ opts.nesting_limit))
  parse_with_options-ok i v opts =
      (λ e. Returns-ok (parse_with_options-Returns i opts) e, λ (g, h). parse-Lexes i v opts g h)
