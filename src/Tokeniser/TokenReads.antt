-- ===== src/Tokeniser/TokenReads.antt =====
-- `tokenise` of tokeniser.rs on inputs of the lexical grammar.
use cjson_rs.Common.{
  ℕ, zero, suc, ◌<◌, true, false, ◌||◌, some, List, [], ◌∷◌, ◌++◌, ◌≡◌, ◌⊎◌, inl, inr, refl, arith,
  Bytes, All, ap, sym, ◌∙◌, append_assoc, append-nil, within, ◌==◌, length, length-append, map,
}
use cjson_rs.Error.{Position, ok}
use cjson_rs.Number.{Float}
use cjson_rs.Number.Grammar.{Stops, IntText, zero_int, nonzero_int, NumberLexeme}
use cjson_rs.Token.{
  Token, PositionedToken, begin_object, end_object, begin_array, end_array, name_separator,
  value_separator, null_lit, true_lit, false_lit, number, string,
}
use cjson_rs.Tokeniser.Cursor.{Tokeniser, new, peek, advance, rest, is_ws, skip_ws}
use cjson_rs.Tokeniser.Tokens.{
  match_bytes, read_literal, read_string_token, token_at, next_token, tokenise_loop, tokenise,
}
use cjson_rs.Tokeniser.Reading.{
  After, After-refl, After-trans, After-advance, peek_cons, is_at_end_nil, is_at_end_cons,
}
use cjson_rs.Tokeniser.Skipping.{AllPass, skip_all-run}
use cjson_rs.Tokeniser.StringReads.{read_string-StringLexeme}
use cjson_rs.Tokeniser.NumberReads.{Scans, peek_is_cons, read_number-NumberLexeme}
use cjson_rs.Tokeniser.TokenGrammar.{IsWs, TokenText, Lexes, last, next}

nonempty : (x : Bytes) → 0 < length x → (b : ℕ) × (y : Bytes) × (x ≡ b ∷ y)
nonempty [] h = absurd (omega arith)
nonempty (b ∷ y) h = (b, y, refl)

All-ws : (w : Bytes) → All IsWs w → AllPass is_ws w
All-ws [] h = tt
All-ws (b ∷ w) h = (let k = h.0 in ground arith, All-ws w h.1)

match_bytes_lem :
    (lit : Bytes) (start : Position) (t : Tokeniser) {r : Bytes}
    → rest t ≡ lit ++ r
    → Scans t lit r (match_bytes lit start t)
unfolding match_bytes
match_bytes_lem [] start t e = (t, refl, After-refl t e)
match_bytes_lem (b ∷ lit) start t e =
    let a = After-advance t e in
    let (t', run, c) = match_bytes_lem lit start (advance t) a.left in
    (
      t',
      rw (match_bytes, peek_is_cons (λ d. d == b) t e (ground arith)) run,
      After-trans (b ∷ []) lit a c,
    )

-- a number begins with a minus sign or a digit
NumberLexeme-first :
    {x : Bytes}
    → NumberLexeme x
    → (b : ℕ) × (y : Bytes) × (x ≡ b ∷ y) × ((b == b'-' || within b'0' b'9' b) ≡ true)
NumberLexeme-first n = go n.minus n.int (n.fraction ++ n.exponent) n.bytes n.minus_sign n.int_part
  where
    go :
        (m i y : Bytes) {x : Bytes}
        → x ≡ m ++ (i ++ y)
        → (m ≡ []) ⊎ (m ≡ b'-' ∷ [])
        → IntText i
        → (b : ℕ) × (z : Bytes) × (x ≡ b ∷ z) × ((b == b'-' || within b'0' b'9' b) ≡ true)
    go m i y e (inr w) k = (b'-', i ++ y, e ∙ ap (λ (z : Bytes). z ++ (i ++ y)) w, refl)
    go m i y e (inl w) (zero_int v) = (b'0', y, e ∙ rw (w, v) refl, refl)
    go m i y e (inl w) (nonzero_int d ds h all v) = (d, ds ++ y, e ∙ rw (w, v) refl, ground arith)

module _ {F : Type 0} (f64 : Float F) where
  -- the token at the cursor, which begins with the byte `b`
  abbrev Begins : Token F → Tokeniser → Bytes → Bytes → Type 0
  Begins k t x r =
      (b : ℕ) × (y : Bytes) × (t' : Tokeniser) × (x ≡ b ∷ y)
      × (is_ws b ≡ false)
      × (token_at f64 b t ≡ ok (k, t'))
      × After t x r t'

  literal_Begins :
      (k : Token F) (b : ℕ) (lit : Bytes) (t : Tokeniser) {x r : Bytes}
      → x ≡ b ∷ lit
      → is_ws b ≡ false
      → token_at f64 b t ≡ read_literal (b ∷ lit) k t
      → rest t ≡ x ++ r
      → Begins k t x r
  unfolding read_literal
  literal_Begins k b lit t {x} {r} w nws dispatch e =
      let (t', run, a) = match_bytes_lem (b ∷ lit) t.pos t (e ∙ ap (λ (z : Bytes). z ++ r) w) in
      (b, lit, t', w, nws, ground (arith, dispatch, run), rw w a)

  punctuation_Begins :
      (k : Token F) (b : ℕ) (t : Tokeniser) {x r : Bytes}
      → x ≡ b ∷ []
      → is_ws b ≡ false
      → token_at f64 b t ≡ ok (k, advance t)
      → rest t ≡ x ++ r
      → Begins k t x r
  punctuation_Begins k b t {x} {r} w nws dispatch e = (
    b,
    [],
    advance t,
    w,
    nws,
    dispatch,
    rw w (After-advance t (e ∙ ap (λ (z : Bytes). z ++ r) w)),
  )

  TokenText-Begins :
      (k : Token F) (t : Tokeniser) {x r : Bytes}
      → TokenText f64 k x r
      → rest t ≡ x ++ r
      → Begins k t x r
  unfolding token_at
  TokenText-Begins begin_object t w e = punctuation_Begins begin_object b'{' t w refl refl e
  TokenText-Begins end_object t w e = punctuation_Begins end_object b'}' t w refl refl e
  TokenText-Begins begin_array t w e = punctuation_Begins begin_array b'[' t w refl refl e
  TokenText-Begins end_array t w e = punctuation_Begins end_array b']' t w refl refl e
  TokenText-Begins name_separator t w e = punctuation_Begins name_separator b':' t w refl refl e
  TokenText-Begins value_separator t w e = punctuation_Begins value_separator b',' t w refl refl e
  TokenText-Begins null_lit t w e = literal_Begins null_lit b'n' _ t w refl refl e
  TokenText-Begins true_lit t w e = literal_Begins true_lit b't' _ t w refl refl e
  TokenText-Begins false_lit t w e = literal_Begins false_lit b'f' _ t w refl refl e
  TokenText-Begins (number v) t (n, stops, parsed, fin) e =
      let (b, y, w, first) = NumberLexeme-first n in
      let (t', run, a) = read_number-NumberLexeme f64 t n parsed fin e stops in
      (b, y, t', w, ground arith, ground (arith, run), a)
  TokenText-Begins (string s) t g e =
      let (t', run, a) = read_string-StringLexeme t s g e in
      (b'"', _, t', g.bytes, refl, unfold read_string_token in ground (arith, run), a)

  next_token-TokenText :
      (t : Tokeniser) (k : Token F) {x r : Bytes}
      → TokenText f64 k x r
      → rest t ≡ x ++ r
      → (p : PositionedToken F) × (t' : Tokeniser) × (next_token f64 t ≡ ok (p, t'))
        × (p.token ≡ k)
        × (0 < length x)
        × Stops is_ws (x ++ r)
        × After t x r t'
  unfolding next_token
  next_token-TokenText t k {x} {r} g e =
      let (b, y, t', w, nws, run, a) = TokenText-Begins k t g e in
      let seen : peek t ≡ some b = peek_cons t (e ∙ ap (λ (z : Bytes). z ++ r) w) in
      (
        record { token = k; pos = t.pos; end_pos = t'.pos },
        t',
        ground (arith, seen, run),
        refl,
        omega (arith, ap length w),
        rw w nws,
        a,
      )

  -- white space in front of bytes where it ends
  skip_ws-run :
      (t : Tokeniser) (w r : Bytes)
      → All IsWs w
      → Stops is_ws r
      → rest t ≡ w ++ r
      → After t w r (skip_ws t)
  unfolding skip_ws
  skip_ws-run t w r h s e = skip_all-run is_ws t w r e (All-ws w h) s

  -- a token does not begin with white space, and has a byte at least
  pub TokenText-first :
      (k : Token F) (x r : Bytes) → TokenText f64 k x r → Stops is_ws (x ++ r) × (0 < length x)
  TokenText-first k x r g =
      let (p, t', run, same, some_byte, stops, a) = next_token-TokenText (new (x ++ r)) k g refl in
      (stops, some_byte)

  -- The loop appends the tokens of the bytes that are left.
  tokenise_loop-Lexes :
      (f : ℕ) (t : Tokeniser) (out : List (PositionedToken F)) {i : Bytes} {ks : List (Token F)}
      → Lexes f64 i ks
      → rest t ≡ i
      → length i < f
      → (ts : List (PositionedToken F)) × (tokenise_loop f64 f t out ≡ ok (out ++ ts))
        × (map (λ p. p.token) ts ≡ ks)
  unfolding tokenise_loop
  tokenise_loop-Lexes zero t out g e h = absurd (omega arith)
  tokenise_loop-Lexes (suc f) t out (last {w} ws) e h =
      let a = skip_ws-run t w [] ws tt (e ∙ sym (append-nil w)) in
      ([], rw (tokenise_loop, is_at_end_nil (skip_ws t) a.left) (rw append-nil), refl)
  tokenise_loop-Lexes (suc f) t out (next {k = k} w x s ws g more_text split) e h =
      let (stops, some_byte) = TokenText-first k x s g in
      let a = skip_ws-run t w (x ++ s) ws stops (e ∙ split) in
      let (p, t', run, same, _, _, b) = next_token-TokenText (skip_ws t) k g a.left in
      let shorter : length s < f =
        omega (arith, ap length split, length-append w (x ++ s), length-append x s) in
      let (ts, later, kinds) = tokenise_loop-Lexes f t' (out ++ p ∷ []) more_text b.left shorter in
      let (c, y, first) = nonempty (x ++ s) (omega (arith, length-append x s)) in
      (
        p ∷ ts,
        rw (tokenise_loop, is_at_end_cons (skip_ws t) (a.left ∙ first))
            (rw run (later ∙ ap ok (append_assoc out (p ∷ []) ts))),
        cc,
      )

  -- Every input of the lexical grammar is tokenised, into the tokens that the grammar says.
  pub tokenise-Lexes :
      (i : Bytes) (ks : List (Token F))
      → Lexes f64 i ks
      → (ts : List (PositionedToken F)) × (tokenise f64 i ≡ ok ts) × (map (λ p. p.token) ts ≡ ks)
  unfolding tokenise
  tokenise-Lexes i ks g = tokenise_loop-Lexes (suc (length i)) (new i) [] g refl (omega arith)
