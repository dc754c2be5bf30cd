-- ===== src/Serialiser/Pieces.antt =====
-- Pieces of text and the tokens that they are, with any input behind them.
use cjson_rs.Common.{
  ℕ, ◌<◌, false, List, [], ◌∷◌, ◌++◌, ◌≡◌, refl, sym, ap, ◌∙◌, arith, Bytes, All, append_assoc,
}
use cjson_rs.Number.{Float}
use cjson_rs.Number.Grammar.{Stops}
use cjson_rs.Number.Laws.{is_number_byte}
use cjson_rs.Text.{encode_char, as_bytes}
use cjson_rs.Token.{Token}
use cjson_rs.Tokeniser.TokenGrammar.{IsWs, TokenText, Lexes, last, next}
use cjson_rs.Serialiser.Strings.{as_bytes-append, as_bytes_ascii}

IsWs-append : (x y : Bytes) → All IsWs x → All IsWs y → All IsWs (x ++ y)
IsWs-append [] y h k = k
IsWs-append (a ∷ x) y h k = (h.0, IsWs-append x y h.1 k)

module _ {F : Type 0} (f64 : Float F) where
  -- The text `x` is the tokens `ks`, if the input behind it does not go on with a number.
  abbrev pub Piece : List ℕ → List (Token F) → Type 0
  Piece x ks =
      (r : Bytes) (js : List (Token F))
      → Stops is_number_byte r
      → Lexes f64 r js
      → Lexes f64 (as_bytes x ++ r) (ks ++ js)

  -- So it is whatever stands behind it; and a number in front of it would stop.
  abbrev pub Closed : List ℕ → List (Token F) → Type 0
  Closed x ks =
      (r : Bytes) (js : List (Token F)) → Lexes f64 r js → Lexes f64 (as_bytes x ++ r) (ks ++ js)

  abbrev pub Fences : List ℕ → Type 0
  Fences x = (r : Bytes) → Stops is_number_byte (as_bytes x ++ r)

  Lexes-ws :
      (w : Bytes) {r : Bytes} {ks : List (Token F)}
      → All IsWs w
      → Lexes f64 r ks
      → Lexes f64 (w ++ r) ks
  Lexes-ws w h (last {w = v} k) = last (IsWs-append w v h k)
  Lexes-ws w h (next v x s k g more e) =
      next (w ++ v) x s (IsWs-append w v h k) g more
        (ap (◌++◌ w) e ∙ sym (append_assoc w v (x ++ s)))

  -- white space
  pub Closed-ws : (w : List ℕ) → All IsWs w → Closed w []
  Closed-ws w h r js g = rw (as_bytes_ascii w (ascii w h)) (Lexes-ws w h g)
    where
      ascii : (x : List ℕ) → All IsWs x → All (λ c. c < 0x80) x
      ascii [] k = tt
      ascii (c ∷ x) k = (let d = k.0 in omega arith, ascii x k.1)

  -- a token that does not look at what follows it
  pub Closed-token :
      (x : List ℕ) (k : Token F)
      → ((r : Bytes) → TokenText f64 k (as_bytes x) r)
      → Closed x (k ∷ [])
  Closed-token x k h r js g = next [] (as_bytes x) r tt (h r) g refl

  pub Closed-Piece : (x : List ℕ) (ks : List (Token F)) → Closed x ks → Piece x ks
  Closed-Piece x ks h r js s g = h r js g

  regroup :
      (x y : List ℕ) (r : Bytes) (ks js hs : List (Token F))
      → Lexes f64 (as_bytes x ++ (as_bytes y ++ r)) (ks ++ (js ++ hs))
      → Lexes f64 (as_bytes (x ++ y) ++ r) ((ks ++ js) ++ hs)
  regroup x y r ks js hs g = rw (as_bytes-append x y) (simp append_assoc g)

  pub Closed-append :
      (x y : List ℕ) (ks js : List (Token F))
      → Closed x ks
      → Closed y js
      → Closed (x ++ y) (ks ++ js)
  Closed-append x y ks js h k r hs g =
      regroup x y r ks js hs (h (as_bytes y ++ r) (js ++ hs) (k r hs g))

  pub Closed-append-Piece :
      (x y : List ℕ) (ks js : List (Token F)) → Closed x ks → Piece y js → Piece (x ++ y) (ks ++ js)
  Closed-append-Piece x y ks js h k r hs s g =
      regroup x y r ks js hs (h (as_bytes y ++ r) (js ++ hs) (k r hs s g))

  pub Piece-append :
      (x y : List ℕ) (ks js : List (Token F))
      → Piece x ks
      → Fences y
      → Closed y js
      → Closed (x ++ y) (ks ++ js)
  Piece-append x y ks js h s k r hs g =
      regroup x y r ks js hs (h (as_bytes y ++ r) (js ++ hs) (s r) (k r hs g))

  -- a text that begins with such a byte fences, whatever stands behind it
  pub Fences-cons : (c : ℕ) (x : List ℕ) → c < 0x80 → is_number_byte c ≡ false → Fences (c ∷ x)
  unfolding as_bytes encode_char
  Fences-cons c x h k r = ground arith
