-- ===== src/Parser/Reading.antt =====
-- What it means that the parser has passed over some tokens.
use cjson_rs.Common.{
  ℕ, zero, suc, ◌+◌, none, some, List, [], ◌∷◌, ◌++◌, ◌≡◌, refl, sym, ap, ◌∙◌, arith, length,
  get_elem?, drop, head?, map, get_elem?-head, drop-drop, length-append, append_assoc,
}
use cjson_rs.Token.{Token, PositionedToken}
use cjson_rs.Parser.{Parser, token_of, peek, advance}

module _ {F : Type 0} where
  abbrev pub kinds : List (PositionedToken F) → List (Token F)
  kinds ts = map (λ q. q.token) ts

  -- the tokens at the cursor and behind it
  abbrev pub left : Parser F → List (Token F)
  left p = drop p.cursor (kinds p.tokens)

  -- From `p` the tokens `x` were passed, and `r` is left at `q`, at the same depth.
  pub record After (p : Parser F) (x r : List (Token F)) (q : Parser F) : Type 0 where
    pub same_tokens : q.tokens ≡ p.tokens
    pub same_limit : q.limit ≡ p.limit
    pub cursor : q.cursor ≡ p.cursor + length x
    pub before : left p ≡ x ++ r
    pub rest : left q ≡ r

  pub After-refl : {r : List (Token F)} (p : Parser F) → left p ≡ r → After p [] r p
  After-refl p e = record {
    same_tokens = refl;
    same_limit = refl;
    cursor = omega arith;
    before = e;
    rest = e;
  }

  pub After-trans :
      {p q o : Parser F} (x y : List (Token F)) {s r : List (Token F)}
      → After p x s q
      → After q y r o
      → After p (x ++ y) r o
  After-trans x y a b = record {
    same_tokens = b.same_tokens ∙ a.same_tokens;
    same_limit = b.same_limit ∙ a.same_limit;
    cursor = omega (arith, a.cursor, b.cursor, length-append {0} {A = Token F} x y);
    before = a.before ∙ ap (◌++◌ x) (sym a.rest ∙ b.before) ∙ sym (append_assoc x y _);
    rest = b.rest;
  }

  token_of-kinds :
      (ts : List (PositionedToken F)) (i : ℕ) → token_of (get_elem? ts i) ≡ get_elem? (kinds ts) i
  token_of-kinds [] i = refl
  token_of-kinds (q ∷ ts) zero = refl
  token_of-kinds (q ∷ ts) (suc i) = token_of-kinds ts i

  pub peek-left : (p : Parser F) → peek p ≡ head? (left p)
  unfolding peek
  peek-left p = token_of-kinds p.tokens p.cursor ∙ get_elem?-head (kinds p.tokens) p.cursor

  pub peek_cons :
      (p : Parser F) {k : Token F} {r : List (Token F)} → left p ≡ k ∷ r → peek p ≡ some k
  peek_cons p e = peek-left p ∙ ap head? e

  pub peek_nil : (p : Parser F) → left p ≡ [] → peek p ≡ none
  peek_nil p e = peek-left p ∙ ap head? e

  pub After-advance :
      (p : Parser F) {k : Token F} {r : List (Token F)}
      → left p ≡ k ∷ r
      → After p (k ∷ []) r (advance p)
  After-advance p e = record {
    same_tokens = refl;
    same_limit = refl;
    cursor = refl;
    before = e;
    rest = sym (drop-drop p.cursor 1 (kinds p.tokens)) ∙ ap (drop 1) e;
  }

  -- Only the depth differs.
  pub After-depth :
      {p q : Parser F} {x r : List (Token F)} (d : ℕ)
      → After p x r q
      → After p x r (record q { depth = d })
  After-depth d a = record {
    same_tokens = a.same_tokens;
    same_limit = a.same_limit;
    cursor = a.cursor;
    before = a.before;
    rest = a.rest;
  }

  pub After-from_depth :
      {p q : Parser F} {x r : List (Token F)} (d : ℕ)
      → After (record p { depth = d }) x r q
      → After p x r q
  After-from_depth d a = record {
    same_tokens = a.same_tokens;
    same_limit = a.same_limit;
    cursor = a.cursor;
    before = a.before;
    rest = a.rest;
  }

  pub length-kinds : (ts : List (PositionedToken F)) → length (kinds ts) ≡ length ts
  length-kinds [] = refl
  length-kinds (q ∷ ts) = ap suc (length-kinds ts)
