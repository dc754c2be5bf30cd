-- ===== src/Tokeniser/StringReads.antt =====
-- `read_string` of tokeniser.rs, and the methods it calls, on strings of the grammar.
use cjson_rs.Common.{
  ℕ, zero, suc, ◌+◌, ◌-◌, ◌*◌, ◌/◌, ◌%◌, ◌^◌, ◌≤◌, ◌<◌, false, some, List, [], ◌∷◌, ◌++◌, ◌≡◌, ◌≢◌,
  inl, inr, refl, arith, Bytes, Bool-cases, length, ap, sym, ◌∙◌, subst, ltb, take, bit_or,
  take-append, append_assoc, length-append, append-nil,
}
use cjson_rs.Common.Bits.{bit_or_nibble}
use cjson_rs.Error.{Position, Result, ok}
use cjson_rs.Text.{encode_char}
use cjson_rs.Text.Utf8.{IsChar, length-encode_char, from_utf8-encode_char}
use cjson_rs.Tokeniser.Cursor.{Tokeniser, peek, advance, rest}
use cjson_rs.Tokeniser.Strings.{
  hex_digit, hex_loop, read_hex4, combine, read_low_surrogate, read_unicode_escape, unescape,
  read_escape, utf8_len, jump, read_utf8_char, closed, more, string_byte, string_loop, read_string,
  add32, sub32, shl32,
}
use cjson_rs.Tokeniser.Reading.{
  newlines, After, After-refl, After-trans, After-advance, After-jump, peek_cons, peek_at-rest,
  within_input,
}
use cjson_rs.Tokeniser.StringGrammar.{
  HexDigit, Hex4, ShortEscape, CharText, plain, short, unicode, surrogates, StringText, nil, cons,
  StringLexeme,
}

-- `r` is what is left of the input when `m` has read `x` and returned `a`.
abbrev pub Reads {ℓ} :
    {A : Type ℓ} → Tokeniser → Bytes → Bytes → Result (A × Tokeniser) → A → Type ℓ
Reads t x r m a = (t' : Tokeniser) × (m ≡ ok (a, t')) × After t x r t'

hex_digit-HexDigit : (b d : ℕ) → HexDigit b d → (hex_digit b ≡ some d) × (d < 16)
unfolding hex_digit
hex_digit-HexDigit b d h = ground arith

-- no bit is lost while `val` has 28 bits at most
pub shift_nibble : (val d : ℕ) → val < 2 ^ 28 → d < 16 → bit_or (shl32 val 4) d ≡ val * 16 + d
shift_nibble val d lt h =
    let e : shl32 val 4 ≡ val * 16 = omega arith in
    ap (λ (x : ℕ). bit_or x d) e ∙ bit_or_nibble val d h

-- one round of the loop
hex_loop_step :
    (n val b d : ℕ) (start : Position) (t : Tokeniser) {r : Bytes}
    → rest t ≡ b ∷ r
    → HexDigit b d
    → val < 2 ^ 28
    → hex_loop (suc n) val start t ≡ hex_loop n (val * 16 + d) start (advance t)
unfolding hex_loop
hex_loop_step n val b d start t e h lt =
    let (digit, small) = hex_digit-HexDigit b d h in
    rw (hex_loop, peek_cons t e, digit, shift_nibble val d lt small)

read_hex4-Hex4 :
    (t : Tokeniser) (start : Position) {v : ℕ} {x r : Bytes}
    → Hex4 v x
    → rest t ≡ x ++ r
    → Reads t x r (read_hex4 start t) v
unfolding read_hex4 hex_loop
read_hex4-Hex4 t start {v} {x} {r} h e =
    let e₀ : rest t ≡ h.b₁ ∷ h.b₂ ∷ h.b₃ ∷ h.b₄ ∷ r = rw h.bytes at e in
    let a₁ = After-advance t e₀ in
    let a₂ = After-advance (advance t) a₁.left in
    let a₃ = After-advance (advance (advance t)) a₂.left in
    let a₄ = After-advance (advance (advance (advance t))) a₃.left in
    let l₁ = (hex_digit-HexDigit h.b₁ h.d₁ h.hex₁).1 in
    let l₂ = (hex_digit-HexDigit h.b₂ h.d₂ h.hex₂).1 in
    let l₃ = (hex_digit-HexDigit h.b₃ h.d₃ h.hex₃).1 in
    let run : hex_loop 4 0 start t ≡ ok (v, advance (advance (advance (advance t)))) =
      hex_loop_step 3 0 h.b₁ h.d₁ start t e₀ h.hex₁ (omega arith)
      ∙ hex_loop_step 2 _ h.b₂ h.d₂ start (advance t) a₁.left h.hex₂ (omega arith)
      ∙ hex_loop_step 1 _ h.b₃ h.d₃ start (advance (advance t)) a₂.left h.hex₃ (omega arith)
      ∙ hex_loop_step 0 _ h.b₄ h.d₄ start (advance (advance (advance t))) a₃.left h.hex₄
          (omega arith)
      ∙ ap (λ w. ok (w, advance (advance (advance (advance t))))) (omega arith) in
    let all =
      After-trans (h.b₁ ∷ []) _ a₁
        (After-trans (h.b₂ ∷ []) _ a₂ (After-trans (h.b₃ ∷ []) _ a₃ a₄)) in
    (advance (advance (advance (advance t))), run, rw h.bytes all)

-- `\uXXXX` behind its `u`, for a character outside the surrogates
read_unicode_escape_single :
    (t : Tokeniser) (start : Position) {c : ℕ} {x r : Bytes}
    → Hex4 c x
    → IsChar c
    → rest t ≡ x ++ r
    → Reads t x r (read_unicode_escape start t) c
unfolding read_unicode_escape
read_unicode_escape_single t start h k e =
    let (t', run, a) = read_hex4-Hex4 t start h e in (t', ground (arith, run), a)

-- A high and a low surrogate are combined, in arithmetic that wraps at 2^32, into the code point
-- above U+FFFF that the two stand for in UTF-16, which is a Unicode scalar value.
pub combine_surrogates :
    (hi lo : ℕ)
    → (0xD800 ≤ hi) × (hi ≤ 0xDBFF) × (0xDC00 ≤ lo) × (lo ≤ 0xDFFF)
    → (combine hi lo ≡ 0x10000 + (hi - 0xD800) * 0x400 + (lo - 0xDC00)) × IsChar (combine hi lo)
unfolding combine
combine_surrogates hi lo h =
    let value : add32 (add32 0x10000 (shl32 (sub32 hi 0xD800) 10)) (sub32 lo 0xDC00)
        ≡ 0x10000 + (hi - 0xD800) * 0x400 + (lo - 0xDC00) =
      omega arith in
    (value, rw value (ground arith))

read_unicode_escape_pair :
    (t : Tokeniser) (start : Position) {hi lo : ℕ} {x y r : Bytes}
    → Hex4 hi x
    → Hex4 lo y
    → (0xD800 ≤ hi) × (hi ≤ 0xDBFF) × (0xDC00 ≤ lo) × (lo ≤ 0xDFFF)
    → rest t ≡ (x ++ b'\\' ∷ b'u' ∷ y) ++ r
    → Reads t (x ++ b'\\' ∷ b'u' ∷ y) r (read_unicode_escape start t) (combine hi lo)
unfolding read_unicode_escape read_low_surrogate
read_unicode_escape_pair t start {x = x} {y = y} h l range e =
    let (t₁, run₁, a₁) = read_hex4-Hex4 t start h (e ∙ append_assoc x (b'\\' ∷ b'u' ∷ y) _) in
    let a₂ = After-advance t₁ a₁.left in
    let a₃ = After-advance (advance t₁) a₂.left in
    let (t₄, run₄, a₄) = read_hex4-Hex4 (advance (advance t₁)) start l a₃.left in
    let all =
      After-trans x _ a₁ (After-trans (b'\\' ∷ []) _ a₂ (After-trans (b'u' ∷ []) _ a₃ a₄)) in
    (
      t₄,
      ground (
        arith,
        run₁,
        run₄,
        peek_cons t₁ a₁.left,
        peek_at-rest t₁ 1,
        a₁.left,
        combine_surrogates _ _ range,
      ),
      all,
    )

unescape-ShortEscape :
    (e c : ℕ) (pos : Position) (t : Tokeniser) → ShortEscape e c → unescape e pos t ≡ ok (c, t)
unfolding unescape
unescape-ShortEscape e c pos t h = ground arith

unescape_u : (pos : Position) (t : Tokeniser) → unescape b'u' pos t ≡ read_unicode_escape pos t
unfolding unescape
unescape_u pos t = refl

-- a backslash and the byte behind it, then what `unescape` reads
read_escape-unescape :
    (t : Tokeniser) {e c : ℕ} {x r : Bytes}
    → rest t ≡ b'\\' ∷ e ∷ (x ++ r)
    → ((t₂ : Tokeniser) → rest t₂ ≡ x ++ r → Reads t₂ x r (unescape e t.pos t₂) c)
    → Reads t (b'\\' ∷ e ∷ x) r (read_escape t) c
unfolding read_escape
read_escape-unescape t {e} b k =
    let a₁ = After-advance t b in
    let a₂ = After-advance (advance t) a₁.left in
    let (t₃, run, a₃) = k (advance (advance t)) a₂.left in
    (
      t₃,
      ground (arith, run, peek_cons (advance t) a₁.left),
      After-trans (b'\\' ∷ []) _ a₁ (After-trans (e ∷ []) _ a₂ a₃),
    )

-- A character from U+0080 on: its first byte announces the length of its encoding.
pub encode_char-utf8_len :
    (c : ℕ)
    → IsChar c
    → 0x80 ≤ c
    → (a : ℕ) × (y : Bytes) × (encode_char c ≡ a ∷ y)
      × (utf8_len a ≡ some (length (encode_char c)))
      × (0x80 ≤ a)
unfolding encode_char utf8_len
encode_char-utf8_len c h k = elim (Bool-cases (ltb c 0x800)) [
  | inl two ↦ (0xC0 + c / 64, (0x80 + c % 64) ∷ [], ground arith, ground arith, omega arith)
  | inr wide ↦ elim (Bool-cases (ltb c 0x10000)) [
    | inl three ↦ (
      0xE0 + c / 4096,
      (0x80 + c / 64 % 64) ∷ (0x80 + c % 64) ∷ [],
      ground arith,
      ground arith,
      omega arith,
    )
    | inr four ↦ (
      0xF0 + c / 262144,
      (0x80 + c / 4096 % 64) ∷ (0x80 + c / 64 % 64) ∷ (0x80 + c % 64) ∷ [],
      ground arith,
      ground arith,
      omega arith,
    )
  ]
]

pub newlines-encode_char : (c : ℕ) → 0x80 ≤ c → newlines (encode_char c) ≡ 0
unfolding encode_char
newlines-encode_char c h = ground arith

read_utf8_char-encode_char :
    (t : Tokeniser) {c : ℕ} {r : Bytes}
    → IsChar c
    → 0x80 ≤ c
    → rest t ≡ encode_char c ++ r
    → Reads t (encode_char c) r (read_utf8_char t) c
unfolding read_utf8_char
read_utf8_char-encode_char t {c} {r} h k e =
    let (a, y, cons_eq, len, high) = encode_char-utf8_len c h k in
    let n = length (encode_char c) in
    let first : peek t ≡ some a = peek_cons t (e ∙ ap (λ (z : Bytes). z ++ r) cons_eq) in
    let cut : take n (rest t) ≡ encode_char c = ap (take n) e ∙ take-append (encode_char c) r in
    let fits : ltb (length t.input) (t.pos.offset + n) ≡ false =
      let w = within_input t (encode_char c) r e ((length-encode_char c h).0) in ground arith in
    let after =
      After-jump t (jump n t).pos (encode_char c) e refl
        (omega (arith, newlines-encode_char c k)) in
    (jump n t, ground (arith, first, len, cut, fits, from_utf8-encode_char c h), after)

-- A round of the string loop that reads `x` and puts `c` behind `out`.
abbrev Continues : Tokeniser → Bytes → Bytes → ℕ → Type 0
Continues t x r c =
    (out : List ℕ)
    → (b : ℕ) × (t' : Tokeniser) × (peek t ≡ some b)
      × (string_byte b out t ≡ ok (more (out ++ c ∷ []) t'))
      × After t x r t'

string_byte_plain :
    (t : Tokeniser) {c : ℕ} {r : Bytes}
    → IsChar c
    → 0x20 ≤ c
    → c ≢ b'"'
    → c ≢ b'\\'
    → rest t ≡ encode_char c ++ r
    → Continues t (encode_char c) r c
unfolding string_byte
string_byte_plain t {c} {r} h k nq nb e out = elim (Bool-cases (ltb c 0x80)) [
  | inl ascii ↦
      let one : encode_char c ≡ c ∷ [] = unfold encode_char in ground arith in
      let e' : rest t ≡ c ∷ r = e ∙ ap (λ (z : Bytes). z ++ r) one in
      (c, advance t, peek_cons t e', ground arith, rw one (After-advance t e'))
  | inr wide ↦
      let (a, y, cons_eq, len, high) = encode_char-utf8_len c h (ground arith) in
      let (t', run, after) = read_utf8_char-encode_char t h (ground arith) e in
      (a, t', peek_cons t (e ∙ ap (λ (z : Bytes). z ++ r) cons_eq), ground (arith, run), after)
]

string_byte_escape :
    (t : Tokeniser) {e c : ℕ} {x r : Bytes}
    → rest t ≡ b'\\' ∷ e ∷ (x ++ r)
    → ((t₂ : Tokeniser) → rest t₂ ≡ x ++ r → Reads t₂ x r (unescape e t.pos t₂) c)
    → Continues t (b'\\' ∷ e ∷ x) r c
unfolding string_byte
string_byte_escape t b k out =
    let (t', run, after) = read_escape-unescape t b k in
    (b'\\', t', peek_cons t b, ground (arith, run), after)

string_byte-CharText :
    (t : Tokeniser) {c : ℕ} {x r : Bytes} → CharText c x → rest t ≡ x ++ r → Continues t x r c
string_byte-CharText t {c = c} {r = r} (plain h k nq nb w) e =
    subst (λ y. Continues t y r c) (sym w)
      (string_byte_plain t h k nq nb (e ∙ ap (λ (z : Bytes). z ++ r) w))
string_byte-CharText t {c = c} {r = r} (short d s w) e =
    subst (λ y. Continues t y r c) (sym w)
      (string_byte_escape t {x = []} (e ∙ ap (λ (z : Bytes). z ++ r) w)
        (λ t₂ e₂. (t₂, unescape-ShortEscape d _ t.pos t₂ s, After-refl t₂ e₂)))
string_byte-CharText t {c = c} {r = r} (unicode y h k w) e =
    subst (λ y. Continues t y r c) (sym w)
      (string_byte_escape t (e ∙ ap (λ (z : Bytes). z ++ r) w)
        (λ t₂ e₂. rw (unescape_u t.pos t₂) (read_unicode_escape_single t₂ t.pos h k e₂)))
string_byte-CharText t {c = c} {r = r} (surrogates hi lo y l h k range v w) e =
    subst (λ y. Continues t y r c) (sym w)
      (string_byte_escape t (e ∙ ap (λ (z : Bytes). z ++ r) w) (λ t₂ e₂. rw (unescape_u t.pos t₂) (
        subst (λ d. Reads t₂ (y ++ b'\\' ∷ b'u' ∷ l) r (read_unicode_escape t.pos t₂) d)
          ((combine_surrogates hi lo range).0 ∙ sym v)
          (read_unicode_escape_pair t₂ t.pos h k range e₂))))

-- a character takes a byte at least
pub length-CharText : {c : ℕ} {x : Bytes} → CharText c x → 0 < length x
length-CharText {c} (plain h k nq nb w) = omega (arith, ap length w, length-encode_char c h)
length-CharText (short d s w) = omega (arith, ap length w)
length-CharText (unicode y h k w) = omega (arith, ap length w)
length-CharText (surrogates hi lo y l h k range v w) = omega (arith, ap length w)

-- Every character takes a round, and the closing quotation mark one more.
string_loop-StringText :
    (f : ℕ) (start : Position) (out : List ℕ) (t : Tokeniser) {s : List ℕ} {x r : Bytes}
    → StringText s x
    → rest t ≡ x ++ b'"' ∷ r
    → length x < f
    → Reads t (x ++ b'"' ∷ []) r (string_loop f start out t) (out ++ s)
unfolding string_loop
string_loop-StringText zero start out t g e h = absurd (omega arith)
string_loop-StringText (suc f) start out t nil e h =
    let close : string_byte b'"' out t ≡ ok (closed out (advance t)) = unfold string_byte in refl in
    (advance t, rw (append-nil, string_loop, peek_cons t e) (rw close), After-advance t e)
string_loop-StringText (suc f) start out t {r = r} (cons {c} {cs} {x} {y} d g) e h =
    let (b, t₁, seen, run, a) = string_byte-CharText t d (e ∙ append_assoc x y (b'"' ∷ r)) out in
    let (t₂, later, a₂) =
      string_loop-StringText f start (out ++ c ∷ []) t₁ g a.left
        (omega (arith, length-append x y, length-CharText d)) in
    (
      t₂,
      rw (string_loop, seen) (rw run (later ∙ ap (λ z. ok (z, t₂)) (append_assoc out (c ∷ []) cs))),
      rw append_assoc (After-trans x _ a a₂),
    )

-- The tokeniser reads every string of the grammar, and takes its bytes and no more.
pub read_string-StringLexeme :
    (t : Tokeniser) (s : List ℕ) {x r : Bytes}
    → StringLexeme s x
    → rest t ≡ x ++ r
    → Reads t x r (read_string t) s
unfolding read_string
read_string-StringLexeme t s {r = r} g e =
    let e' : rest t ≡ b'"' ∷ (g.body ++ b'"' ∷ r) =
      e ∙ ap (λ (z : Bytes). z ++ r) g.bytes ∙ ap (◌∷◌ b'"') (append_assoc g.body (b'"' ∷ []) r) in
    let a = After-advance t e' in
    let (t', run, b) =
      string_loop-StringText (suc (length (rest t))) t.pos [] (advance t) g.text a.left
        (omega (arith, ap length e', length-append g.body (b'"' ∷ r))) in
    (t', run, rw (g.bytes) (After-trans (b'"' ∷ []) _ a b))
