-- ===== src/Serialiser/Lexed.antt =====
-- The text that `write_value` of serialiser.rs appends for a value, as pieces of the lexical
-- grammar.
use cjson_rs.Common.{
  ℕ, zero, suc, ◌*◌, Option, List, [], ◌∷◌, ◌++◌, ◌≡◌, inl, inr, refl, sym, ◌∙◌, arith, Bytes, All,
  subst, append_assoc, append-nil, Bool-cases,
}
use cjson_rs.Number.{Float}
use cjson_rs.Number.Laws.{FloatLaws, NumberStops-other}
use cjson_rs.Text.{as_bytes}
use cjson_rs.Parser.Grammar.{emit}
use cjson_rs.Token.{
  Token, begin_object, end_object, begin_array, end_array, name_separator, value_separator,
  null_lit, true_lit, false_lit,
}
use cjson_rs.Tokeniser.TokenGrammar.{IsWs, TokenText, next}
use cjson_rs.Value.{Value, number, string}
use cjson_rs.Serialiser.{
  push_spaces, write_indent, null_text, true_text, false_text, write_number, write_value,
}
use cjson_rs.Serialiser.Strings.{as_bytes_ascii, quoted, quoted-StringLexeme}
use cjson_rs.Serialiser.Pieces.{
  Piece, Closed, Fences, Closed-ws, Closed-token, Closed-Piece, Closed-append, Piece-append,
}
use cjson_rs.Serialiser.Normal.{normal, HasText}

pub spaces : ℕ → List ℕ
spaces zero = []
spaces (suc n) = b' ' ∷ spaces n

pub spaces-IsWs : (n : ℕ) → All IsWs (spaces n)
unfolding spaces
spaces-IsWs zero = tt
spaces-IsWs (suc n) = (inl refl, spaces-IsWs n)

pub push_spaces_out : (n : ℕ) (out : List ℕ) → push_spaces n out ≡ out ++ spaces n
unfolding push_spaces spaces
push_spaces_out zero out = sym (append-nil out)
push_spaces_out (suc n) out =
    push_spaces_out n (out ++ b' ' ∷ []) ∙ append_assoc out (b' ' ∷ []) (spaces n)

abbrev pub indent_text : ℕ → ℕ → List ℕ
indent_text step depth = spaces (step * depth)

pub write_indent_out :
    (out : List ℕ) (step depth : ℕ) → write_indent out step depth ≡ out ++ indent_text step depth
unfolding write_indent
write_indent_out out step depth = push_spaces_out (step * depth) out

-- What a function that appends to `out` has appended, and that `P` holds of it.
abbrev pub Appends : (List ℕ → List ℕ) → (List ℕ → Type 0) → Type 0
Appends write P = (x : List ℕ) × ((out : List ℕ) → write out ≡ out ++ x) × P x

module _ {F : Type 0} (f64 : Float F) where
  -- one byte of punctuation
  pub token_piece :
      (b : ℕ) (k : Token F)
      → as_bytes (b ∷ []) ≡ b ∷ []
      → ((r : Bytes) → TokenText f64 k (b ∷ []) r)
      → Closed f64 (b ∷ []) (k ∷ [])
  token_piece b k e h =
      Closed-token f64 (b ∷ []) k (λ r. subst (λ (x : Bytes). TokenText f64 k x r) (sym e) (h r))

  pub comma : Closed f64 (b',' ∷ []) (value_separator ∷ [])
  comma = token_piece b',' value_separator (as_bytes_ascii _ (omega arith)) (λ r. refl)

  pub colon : Closed f64 (b':' ∷ []) (name_separator ∷ [])
  colon = token_piece b':' name_separator (as_bytes_ascii _ (omega arith)) (λ r. refl)

  pub open_array : Closed f64 (b'[' ∷ []) (begin_array ∷ [])
  open_array = token_piece b'[' begin_array (as_bytes_ascii _ (omega arith)) (λ r. refl)

  pub close_array : Closed f64 (b']' ∷ []) (end_array ∷ [])
  close_array = token_piece b']' end_array (as_bytes_ascii _ (omega arith)) (λ r. refl)

  pub open_object : Closed f64 (b'{' ∷ []) (begin_object ∷ [])
  open_object = token_piece b'{' begin_object (as_bytes_ascii _ (omega arith)) (λ r. refl)

  pub close_object : Closed f64 (b'}' ∷ []) (end_object ∷ [])
  close_object = token_piece b'}' end_object (as_bytes_ascii _ (omega arith)) (λ r. refl)

  pub newline : Closed f64 (b'\n' ∷ []) []
  newline = Closed-ws f64 (b'\n' ∷ []) (inr (inr (inl refl)), tt)

  pub blank : Closed f64 (b' ' ∷ []) []
  blank = Closed-ws f64 (b' ' ∷ []) (inl refl, tt)

  pub indentation : (step depth : ℕ) → Closed f64 (indent_text step depth) []
  indentation step depth = Closed-ws f64 (indent_text step depth) (spaces-IsWs (step * depth))

  pub quoted-Piece :
      (s : List ℕ) → HasText {F = F} (string s) → Closed f64 (quoted s) (Token.string s ∷ [])
  unfolding HasText
  quoted-Piece s h = Closed-token f64 (quoted s) (Token.string s) (λ r. quoted-StringLexeme s h)

  pub literal-Piece :
      (x : List ℕ) (k : Token F)
      → as_bytes x ≡ x
      → ((r : Bytes) → TokenText f64 k x r)
      → Piece f64 x (k ∷ [])
  literal-Piece x k e h =
      Closed-Piece f64 x (k ∷ [])
        (Closed-token f64 x k (λ r. subst (λ (y : Bytes). TokenText f64 k y r) (sym e) (h r)))

  pub null-Piece : Piece f64 null_text (null_lit ∷ [])
  null-Piece = literal-Piece null_text null_lit (as_bytes_ascii _ (omega arith)) (λ r. refl)

  pub true-Piece : Piece f64 true_text (true_lit ∷ [])
  true-Piece = literal-Piece true_text true_lit (as_bytes_ascii _ (omega arith)) (λ r. refl)

  pub false-Piece : Piece f64 false_text (false_lit ∷ [])
  false-Piece = literal-Piece false_text false_lit (as_bytes_ascii _ (omega arith)) (λ r. refl)

  abbrev pub ValueAppends : Value F → Type 0
  ValueAppends v =
      HasText v
      → (indent : Option ℕ) (depth : ℕ)
      → Appends (λ out. write_value f64 out v indent depth) (λ x. Piece f64 x (emit (normal f64 v)))

  -- the text of a piece, an end that fences, grouped the other way
  pub fenced :
      (x y z : List ℕ) (ks js : List (Token F))
      → Piece f64 x ks
      → Fences f64 (y ++ z)
      → Closed f64 (y ++ z) js
      → Closed f64 ((x ++ y) ++ z) (ks ++ js)
  fenced x y z ks js h s k = rw (append_assoc x y z) (Piece-append f64 x (y ++ z) ks js h s k)

  -- white space and the closing bracket
  pub ending :
      (b : ℕ) (k : Token F) (w : List ℕ)
      → Closed f64 (b ∷ []) (k ∷ [])
      → All IsWs w
      → Closed f64 (w ++ b ∷ []) (k ∷ [])
  ending b k w c ws = Closed-append f64 w (b ∷ []) [] (k ∷ []) (Closed-ws f64 w ws) c

  -- One line of the pretty form: an indentation, a piece, and what stands behind it.
  pub line :
      (i x y z : List ℕ) (ks js : List (Token F))
      → Closed f64 i []
      → Piece f64 x ks
      → Fences f64 (y ++ z)
      → Closed f64 (y ++ z) js
      → Closed f64 ((i ++ (x ++ y)) ++ z) (ks ++ js)
  line i x y z ks js c h s k =
      rw (append_assoc i (x ++ y) z)
        (Closed-append f64 i ((x ++ y) ++ z) [] (ks ++ js) c (fenced x y z ks js h s k))

module _ {F : Type 0} (f64 : Float F) (laws : FloatLaws f64) where
  -- A finite number is its own text; the library's laws say that it is read back.
  pub number_appends :
      (n : F)
      → Appends (λ out. write_number f64 out n) (λ y. Piece f64 y (emit (normal f64 (number n))))
  unfolding write_number normal emit
  number_appends n = elim (Bool-cases (f64.is_finite n)) [
    | inl fin ↦ (
      f64.display n,
      λ out. rw (write_number, fin),
      rw fin (λ r js s g.
          next [] _ r tt
            (
              laws.display_lexeme n fin,
              NumberStops-other r s (laws.display_lexeme n fin),
              laws.from_str-display n fin,
              fin,
            )
            g refl),
    )
    | inr inf ↦ (null_text, λ out. rw (write_number, inf), rw inf (null-Piece f64))
  ]
