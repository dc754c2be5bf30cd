-- ===== src/Tokeniser/Reading.antt =====
-- What it means that a method has read some bytes, and that it stays within its fuel. The cursor
-- is an offset into the input; these lemmas turn it into the list of bytes that is left.
use cjson_rs.Common.{
  ℕ, suc, ◌+◌, ◌≤◌, ◌<◌, true, false, none, some, [], ◌∷◌, ◌++◌, ◌≡◌, refl, sym, ap, subst, ◌∙◌,
  arith, Bytes, ◌==◌, if◌then◌else◌, length, get_elem?, drop, head?, append_assoc, length-append,
  length-drop, get_elem?-drop, get_elem?-head, drop-drop, drop-append,
}
use cjson_rs.Error.{Position}
use cjson_rs.Tokeniser.Cursor.{Tokeniser, peek, peek_at, is_at_end, advance, rest, pass}

abbrev pub newlines : Bytes → ℕ
newlines [] = 0
newlines (b ∷ bs) = (if b == b'\n' then 1 else 0) + newlines bs

pub newlines-append : (x y : Bytes) → newlines (x ++ y) ≡ newlines x + newlines y
newlines-append [] y = omega arith
newlines-append (b ∷ x) y = omega (arith, newlines-append x y)

-- From `t` the bytes `x` were read, and `r` is left at `t'`.
pub record After (t : Tokeniser) (x r : Bytes) (t' : Tokeniser) : Type 0 where
  pub same_input : t'.input ≡ t.input
  pub offset : t'.pos.offset ≡ t.pos.offset + length x
  pub line : t'.pos.line ≡ t.pos.line + newlines x
  pub before : rest t ≡ x ++ r
  pub left : rest t' ≡ r

pub After-refl : {r : Bytes} (t : Tokeniser) → rest t ≡ r → After t [] r t
After-refl t e = record {
  same_input = refl;
  offset = omega arith;
  line = omega arith;
  before = e;
  left = e;
}

pub After-trans :
    {t t' t'' : Tokeniser} (x y : Bytes) {s r : Bytes}
    → After t x s t'
    → After t' y r t''
    → After t (x ++ y) r t''
After-trans x y a b = record {
  same_input = b.same_input ∙ a.same_input;
  offset = omega (arith, a.offset, b.offset, length-append x y);
  line = omega (arith, a.line, b.line, newlines-append x y);
  before = a.before ∙ ap (◌++◌ x) (sym a.left ∙ b.before) ∙ sym (append_assoc x y _);
  left = b.left;
}

pub peek-rest : (t : Tokeniser) → peek t ≡ head? (rest t)
unfolding peek
peek-rest t = get_elem?-head t.input t.pos.offset

pub peek_at-rest : (t : Tokeniser) (n : ℕ) → peek_at t n ≡ get_elem? (rest t) n
unfolding peek_at
peek_at-rest t n =
    let e : t.pos.offset + n ≡ n + t.pos.offset = omega arith in
    ap (get_elem? t.input) e ∙ get_elem?-drop t.pos.offset n t.input

pub peek_cons : (t : Tokeniser) {c : ℕ} {r : Bytes} → rest t ≡ c ∷ r → peek t ≡ some c
peek_cons t e = peek-rest t ∙ ap head? e

pub peek_nil : (t : Tokeniser) → rest t ≡ [] → peek t ≡ none
peek_nil t e = peek-rest t ∙ ap head? e

pub is_at_end_nil : (t : Tokeniser) → rest t ≡ [] → is_at_end t ≡ true
unfolding is_at_end
is_at_end_nil t e =
    let l : length (rest t) ≡ 0 = ap length e in
    let m = length-drop t.pos.offset t.input in ground (arith)

pub is_at_end_cons : (t : Tokeniser) {c : ℕ} {r : Bytes} → rest t ≡ c ∷ r → is_at_end t ≡ false
unfolding is_at_end
is_at_end_cons t {c} {r} e =
    let l : length (rest t) ≡ suc (length r) = ap length e in
    let m = length-drop t.pos.offset t.input in ground (arith)

-- `n` bytes further on
pub After-jump :
    (t : Tokeniser) (p : Position) (x : Bytes) {r : Bytes}
    → rest t ≡ x ++ r
    → p.offset ≡ t.pos.offset + length x
    → p.line ≡ t.pos.line + newlines x
    → After t x r (record t { pos = p })
After-jump t p x e o l = record {
  same_input = refl;
  offset = o;
  line = l;
  before = e;
  left =
      ap (λ k. drop k t.input) o
      ∙ sym (drop-drop t.pos.offset (length x) t.input)
      ∙ ap (drop (length x)) e
      ∙ drop-append x _;
}

pub After-advance :
    (t : Tokeniser) {c : ℕ} {r : Bytes} → rest t ≡ c ∷ r → After t (c ∷ []) r (advance t)
unfolding advance
After-advance t {c} e =
    rw (advance, peek_cons t e)
      (After-jump t (pass c t.pos) (c ∷ []) e (ground arith) (ground arith))

-- bytes that are left lie within the input
pub within_input :
    (t : Tokeniser) (x r : Bytes)
    → rest t ≡ x ++ r
    → 0 < length x
    → t.pos.offset + length x ≤ length t.input
within_input t x r e h =
    omega (arith, length-drop t.pos.offset t.input, ap length e, length-append x r)

-- What is left is what the cursor shows.
pub After-here : {t t' : Tokeniser} {x r : Bytes} → After t x r t' → After t x (rest t') t'
After-here {t} {t'} {x} a = subst (λ s. After t x s t') (sym a.left) a

pub After-join :
    {t t' t'' : Tokeniser} {x y : Bytes}
    → After t x (rest t') t'
    → After t' y (rest t'') t''
    → After t (x ++ y) (rest t'') t''
After-join {t} {t'} {t''} {x} {y} a b = After-trans x y (subst (λ s. After t x s t') b.before a) b
