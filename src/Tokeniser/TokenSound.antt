-- ===== src/Tokeniser/TokenSound.antt =====
-- `tokenise` of tokeniser.rs on any input.
use cjson_rs.Common.{
  ℕ, zero, suc, ◌<◌, true, ◌||◌, some, List, [], ◌∷◌, ◌++◌, map, ◌≡◌, inl, inr, refl, arith, Bytes,
  All, ap, sym, ◌∙◌, subst, within, ◌==◌, List-cases, length, length-append, append-nil,
  append_assoc,
}
use cjson_rs.Error.{Position, Returns, returned, raised, Returns-bind, Returns-map}
use cjson_rs.Number.{Float}
use cjson_rs.Token.{
  Token, PositionedToken, begin_object, end_object, begin_array, end_array, name_separator,
  value_separator, null_lit, true_lit, false_lit, number,
}
use cjson_rs.Tokeniser.Cursor.{Tokeniser, new, advance, rest, is_ws, skip_ws}
use cjson_rs.Tokeniser.NumberReads.{slice-After}
use cjson_rs.Tokeniser.NumberSound.{passes, stops, Next-byte, scan_number-Returns}
use cjson_rs.Tokeniser.Numbers.{convert, read_number}
use cjson_rs.Tokeniser.Reading.{
  After, After-refl, After-advance, After-here, After-join, peek_cons, peek_nil, is_at_end_nil,
  is_at_end_cons,
}
use cjson_rs.Tokeniser.Skipping.{skip_all_lem, take_while, take_while-AllPass}
use cjson_rs.Tokeniser.StringSound.{if-Returns, option-Returns, read_string-Returns}
use cjson_rs.Tokeniser.TokenGrammar.{IsWs, TokenText, Lexes, last, next}
use cjson_rs.Tokeniser.TokenReads.{TokenText-first}
use cjson_rs.Tokeniser.Tokens.{
  match_bytes, read_literal, read_string_token, punctuation, true_bytes, false_bytes, null_bytes,
  token_at, next_token, tokenise_loop, tokenise,
}

match_bytes-Returns :
    (expected : Bytes) (start : Position) (t : Tokeniser)
    → Returns (λ t'. After t expected (rest t') t') (match_bytes expected start t)
unfolding match_bytes
match_bytes-Returns [] start t = returned (After-refl t refl)
match_bytes-Returns (c ∷ cs) start t = elim (Next-byte (λ b. b == c) t) [
  | stops s e ↦ rw (match_bytes, e) (raised _)
  | passes b r w d e ↦
      rw (match_bytes, e)
        (let same : b ≡ c = ground arith in
          Returns-map (match_bytes-Returns cs start (advance t))
            λ t' a. After-join (After-here (After-advance t (w ∙ ap (λ z. z ∷ r) same))) a)
]

is_ws-IsWs : (b : ℕ) → is_ws b ≡ true → IsWs b
is_ws-IsWs b h = ground arith

pub All-IsWs : (w : Bytes) → All (λ b. is_ws b ≡ true) w → All IsWs w
All-IsWs [] h = tt
All-IsWs (b ∷ w) h = let x = h.0 in (is_ws-IsWs b h.0, All-IsWs w h.1)

module _ {F : Type 0} (f64 : Float F) where
  open f64 use {is_finite, from_str}

  abbrev pub ReadsToken : Tokeniser → Token F × Tokeniser → Type 0
  ReadsToken t (k, t') = (x : Bytes) × After t x (rest t') t' × TokenText f64 k x (rest t')

  read_literal-Returns :
      (expected : Bytes) (k : Token F) (t : Tokeniser)
      → ((r : Bytes) → TokenText f64 k expected r)
      → Returns (ReadsToken t) (read_literal expected k t)
  unfolding read_literal
  read_literal-Returns expected k t text =
      Returns-bind (match_bytes-Returns expected t.pos t)
        λ t' a. returned (expected, a, text (rest t'))

  convert-Returns :
      (start : Position) (x : Bytes)
      → Returns (λ v. (from_str x ≡ some v) × (is_finite v ≡ true)) (convert f64 start x)
  unfolding convert
  convert-Returns start x =
      option-Returns (from_str x) _ _
        λ v parsed. if-Returns (is_finite v) (λ fin. returned (parsed, fin)) (λ _. raised _)

  read_number-Returns : (t : Tokeniser) → Returns (ReadsToken t) (read_number f64 t)
  unfolding read_number
  read_number-Returns t = Returns-bind (scan_number-Returns t) λ t' (x, a, n, longest).
      rw (slice-After x a) (
        Returns-bind (convert-Returns t.pos x) λ v (parsed, fin).
          let reads : ReadsToken t (number v, t') = (x, a, (n, longest, parsed, fin)) in
          returned reads)

  read_string_token-Returns :
      (t : Tokeniser) {r : Bytes} → rest t ≡ b'"' ∷ r → Returns (ReadsToken t) (read_string_token t)
  unfolding read_string_token
  read_string_token-Returns t e = Returns-bind (read_string-Returns t e) λ (s, t') (x, a, g).
      let reads : ReadsToken t (Token.string s, t') = (x, a, g) in returned reads

  token_at-Returns :
      (b : ℕ) (t : Tokeniser) {r : Bytes}
      → rest t ≡ b ∷ r
      → Returns (ReadsToken t) (token_at f64 b t)
  unfolding token_at
  token_at-Returns b t {r} e =
      let single : (k : Token F) (c : ℕ)
          → (b == c) ≡ true
          → ((s : Bytes) → TokenText f64 k (c ∷ []) s)
          → Returns (ReadsToken t) (punctuation k t) =
        λ k c h text.
          let same : b ≡ c = ground arith in
          returned (
            c ∷ [],
            After-here (After-advance t (e ∙ ap (λ z. z ∷ r) same)),
            text (rest (advance t)),
          ) in
      if-Returns (b == b'{') (λ h. single begin_object b'{' h (λ s. refl))
        λ _.
          if-Returns (b == b'}') (λ h. single end_object b'}' h (λ s. refl))
            λ _.
              if-Returns (b == b'[') (λ h. single begin_array b'[' h (λ s. refl))
                λ _.
                  if-Returns (b == b']') (λ h. single end_array b']' h (λ s. refl))
                    λ _.
                      if-Returns (b == b':') (λ h. single name_separator b':' h (λ s. refl))
                        λ _.
                          if-Returns (b == b',') (λ h. single value_separator b',' h (λ s. refl))
                            λ _.
                              if-Returns (b == b'"')
                                (λ h.
                                  let same : b ≡ b'"' = ground arith in
                                  read_string_token-Returns t (e ∙ ap (λ z. z ∷ r) same))
                                λ _.
                                  if-Returns (b == b't')
                                    (λ _. read_literal-Returns true_bytes true_lit t (λ s. refl))
                                    λ _.
                                      if-Returns (b == b'f')
                                        (λ _.
                                          read_literal-Returns false_bytes false_lit t (λ s. refl))
                                        λ _.
                                          if-Returns (b == b'n')
                                            (λ _.
                                              read_literal-Returns null_bytes null_lit t
                                                (λ s. refl))
                                            λ _.
                                              if-Returns (b == b'-' || within b'0' b'9' b)
                                                (λ _. read_number-Returns t) (λ _. raised _)

  pub next_token-Returns :
      (t : Tokeniser) → Returns (λ (p, t'). ReadsToken t (p.token, t')) (next_token f64 t)
  unfolding next_token
  next_token-Returns t = elim (List-cases (rest t)) [
    | inl w ↦ rw (peek_nil t w) (raised _)
    | inr (b, r, w) ↦
        rw (peek_cons t w) (Returns-bind (token_at-Returns b t w) λ (k, t') reads. returned reads)
  ]

  -- The end of a token is where the tokeniser stands behind it.
  pub next_token-end : (t : Tokeniser) → Returns (λ (p, t'). p.end_pos ≡ t'.pos) (next_token f64 t)
  unfolding next_token
  next_token-end t = elim (List-cases (rest t)) [
    | inl w ↦ rw (peek_nil t w) (raised _)
    | inr (b, r, w) ↦
        rw (peek_cons t w) (Returns-bind (token_at-Returns b t w) λ (k, t') reads. returned refl)
  ]

  -- The tokens that are put behind `out` are those of the bytes that are left.
  abbrev LoopReads : List (PositionedToken F) → Tokeniser → List (PositionedToken F) → Type 0
  LoopReads out t all =
      (ts : List (PositionedToken F)) × (all ≡ out ++ ts)
      × Lexes f64 (rest t) (map (λ p. p.token) ts)

  tokenise_loop-Returns :
      (f : ℕ) (t : Tokeniser) (out : List (PositionedToken F))
      → length (rest t) < f
      → Returns (LoopReads out t) (tokenise_loop f64 f t out)
  unfolding tokenise_loop skip_ws
  tokenise_loop-Returns zero t out h = absurd (omega arith)
  tokenise_loop-Returns (suc f) t out h =
      let a = After-here (skip_all_lem is_ws t) in
      let w = take_while is_ws (rest t) in
      let ws = All-IsWs w (take_while-AllPass is_ws (rest t)) in
      let total = ap length a.before in
      let parts = length-append w (rest (skip_ws t)) in
      elim (List-cases (rest (skip_ws t))) [
        | inl e ↦
            rw (tokenise_loop, is_at_end_nil (skip_ws t) e)
              (let all : rest t ≡ w = a.before ∙ ap (◌++◌ w) e ∙ append-nil w in
                returned
                  ([], sym (append-nil out), subst (λ i. Lexes f64 i []) (sym all) (last ws)))
        | inr (b, r, e) ↦
            rw (tokenise_loop, is_at_end_cons (skip_ws t) e)
              (Returns-bind (next_token-Returns (skip_ws t)) λ (p, t') (x, a', text).
                let (_, some_byte) = TokenText-first f64 p.token x (rest t') text in
                let total' = ap length a'.before in
                let parts' = length-append x (rest t') in
                Returns-map (tokenise_loop-Returns f t' (out ++ p ∷ []) (omega arith))
                  λ all (ts, e', lexes). (
                    p ∷ ts,
                    e' ∙ append_assoc out (p ∷ []) ts,
                    next w x (rest t') ws text lexes (a.before ∙ ap (◌++◌ w) a'.before),
                  ))
      ]

  -- On every input `tokenise` returns, the tokens of the input in the lexical grammar or an error:
  -- it does not panic, and its loop ends.
  pub tokenise-Returns :
      (i : Bytes)
      → Returns (λ ts. Lexes f64 i (map (λ (p : PositionedToken F). p.token) ts)) (tokenise f64 i)
  unfolding tokenise
  tokenise-Returns i =
      Returns-map (tokenise_loop-Returns (suc (length i)) (new i) [] (omega arith))
        λ all (ts, e, lexes).
          subst (λ us. Lexes f64 i (map (λ (p : PositionedToken F). p.token) us)) (sym e) lexes
