-- ===== src/Tokeniser/StringSound.antt =====
-- `read_string` of tokeniser.rs, and the methods it calls, on any bytes.
use cjson_rs.Common.{
  ℕ, zero, suc, ◌+◌, ◌*◌, ◌^◌, ◌≤◌, ◌<◌, Bool, true, false, Option, none, some, List, [], ◌∷◌, ◌++◌,
  ◌≡◌, ◌≢◌, inl, inr, refl, arith, Bytes, Bool-cases, List-cases, length, ap, sym, ◌∙◌, subst, ltb,
  leb, ◌==◌, within, take, take-drop, length-take, length-nil, length-drop, head?, get_elem?,
  append_assoc, length-append, append-nil, if◌then◌else◌,
}
use cjson_rs.Error.{
  Position, Result, ok, err, ok_or, ◌>>=◌, Returns, returned, raised, Returns-bind, Returns-map,
}
use cjson_rs.Text.{is_char, encode_char, from_u32, from_utf8}
use cjson_rs.Text.Utf8.{IsChar, from_utf8_first}
use cjson_rs.Tokeniser.Cursor.{Tokeniser, peek, peek_at, advance, rest}
use cjson_rs.Tokeniser.Strings.{
  hex_digit, hex_loop, read_hex4, combine, is_unicode_mark, read_low_surrogate, read_unicode_escape,
  unescape, read_escape, utf8_len, jump, read_utf8_char, Round, closed, more, string_byte,
  string_loop, read_string,
}
use cjson_rs.Tokeniser.Reading.{
  newlines, After, After-refl, After-advance, After-jump, After-here, After-join, peek_cons,
  peek_nil, peek-rest, peek_at-rest,
}
use cjson_rs.Tokeniser.StringGrammar.{
  HexDigit, Hex4, ShortEscape, CharText, plain, short, unicode, surrogates, StringText, nil, cons,
  StringLexeme,
}
use cjson_rs.Tokeniser.StringReads.{
  shift_nibble, combine_surrogates, newlines-encode_char, length-CharText, encode_char-utf8_len,
}

-- The method read some bytes `x`, which write what it returned.
abbrev pub ReadText {ℓ} : {A : Type ℓ} → Tokeniser → (A → Bytes → Type 0) → A × Tokeniser → Type 0
ReadText t G (a, t') = (x : Bytes) × After t x (rest t') t' × G a x

-- a method that looks at the next byte first
pub peek-Returns {ℓ κ} :
    {A : Type ℓ} {P : A → Type κ} (t : Tokeniser) (e : cjson_rs.Error.Error) (f : ℕ → Result A)
    → ((b : ℕ)
        → After t (b ∷ []) (rest (advance t)) (advance t)
        → peek t ≡ some b
        → Returns P (f b))
    → Returns P (ok_or (peek t) e >>= f)
peek-Returns t e f k = elim (List-cases (rest t)) [
  | inl w ↦ rw (peek_nil t w) (raised e)
  | inr (b, r, w) ↦ rw (peek_cons t w) (k b (After-here (After-advance t w)) (peek_cons t w))
]

hex_digit_sound : (b d : ℕ) → hex_digit b ≡ some d → HexDigit b d × (d < 16)
unfolding hex_digit
hex_digit_sound b d h = ground arith

pub option-Returns {ℓ κ κ'} :
    {A : Type ℓ} {B : Type κ} {P : B → Type κ'} (o : Option A) (e : cjson_rs.Error.Error)
    (f : A → Result B)
    → ((a : A) → o ≡ some a → Returns P (f a))
    → Returns P (ok_or o e >>= f)
option-Returns none e f k = raised e
option-Returns (some a) e f k = k a refl

hex_step :
    {P : ℕ × Tokeniser → Type 0} (n val : ℕ) (start : Position) (t : Tokeniser)
    → val < 2 ^ 28
    → ((b d : ℕ)
        → HexDigit b d
        → d < 16
        → After t (b ∷ []) (rest (advance t)) (advance t)
        → Returns P (hex_loop n (val * 16 + d) start (advance t)))
    → Returns P (hex_loop (suc n) val start t)
unfolding hex_loop
hex_step n val start t small k = peek-Returns t _ _ λ b a seen.
    option-Returns (hex_digit b) _ _ λ d digit.
      let (hex, lt) = hex_digit_sound b d digit in rw (shift_nibble val d small lt) (k b d hex lt a)

read_hex4-Returns :
    (start : Position) (t : Tokeniser) → Returns (ReadText t Hex4) (read_hex4 start t)
unfolding read_hex4 hex_loop
read_hex4-Returns start t = hex_step 3 0 start t (omega arith) λ b₁ d₁ h₁ l₁ a₁.
    hex_step 2 _ start _ (omega arith) λ b₂ d₂ h₂ l₂ a₂.
      hex_step 1 _ start _ (omega arith) λ b₃ d₃ h₃ l₃ a₃.
        hex_step 0 _ start _ (omega arith) λ b₄ d₄ h₄ l₄ a₄. returned (
          b₁ ∷ b₂ ∷ b₃ ∷ b₄ ∷ [],
          After-join a₁ (After-join a₂ (After-join a₃ a₄)),
          record {
            b₁ = b₁;
            b₂ = b₂;
            b₃ = b₃;
            b₄ = b₄;
            d₁ = d₁;
            d₂ = d₂;
            d₃ = d₃;
            d₄ = d₄;
            hex₁ = h₁;
            hex₂ = h₂;
            hex₃ = h₃;
            hex₄ = h₄;
            bytes = refl;
            value = omega arith;
          },
        )

unicode_mark_rest :
    (xs : Bytes)
    → is_unicode_mark (head? xs) (get_elem? xs 1) ≡ true
    → (r : Bytes) × (xs ≡ b'\\' ∷ b'u' ∷ r)
unicode_mark_rest [] h = cc
unicode_mark_rest (a ∷ []) h = cc
unicode_mark_rest (a ∷ b ∷ r) h = (r, ground arith)

read_low_surrogate-Returns :
    (start : Position) (hi : ℕ) (t : Tokeniser) (h r : Bytes)
    → Hex4 hi h
    → (0xD800 ≤ hi) × (hi ≤ 0xDBFF)
    → rest t ≡ b'\\' ∷ b'u' ∷ r
    → Returns
        (ReadText t (λ c x. CharText c (b'\\' ∷ b'u' ∷ (h ++ x))))
        (read_low_surrogate start hi t)
unfolding read_low_surrogate
read_low_surrogate-Returns start hi t h r hex range e =
    let a₁ = After-advance t e in
    let a₂ = After-advance (advance t) a₁.left in
    let a = After-join (After-here a₁) (After-here a₂) in
    Returns-bind (read_hex4-Returns start (advance (advance t))) λ (lo, t') (l, a₃, hex').
      elim (Bool-cases (within 0xDC00 0xDFFF lo)) [
        | inr n ↦ rw n (raised _)
        | inl y ↦ rw y (
            option-Returns (from_u32 (combine hi lo)) _ _ λ c picked.
              let bounds : (0xD800 ≤ hi) × (hi ≤ 0xDBFF) × (0xDC00 ≤ lo) × (lo ≤ 0xDFFF) =
                (range.0, range.1, ground arith, ground arith) in
              let (value, legal) = combine_surrogates hi lo bounds in
              returned (
                b'\\' ∷ b'u' ∷ l,
                After-join a a₃,
                surrogates hi lo h l hex hex' bounds (ground (arith, value, legal)) refl,
              ))
      ]

read_unicode_escape-Returns :
    (start : Position) (t : Tokeniser)
    → Returns (ReadText t (λ c x. CharText c (b'\\' ∷ b'u' ∷ x))) (read_unicode_escape start t)
unfolding read_unicode_escape
read_unicode_escape-Returns start t =
    Returns-bind (read_hex4-Returns start t) λ (hi, t') (h, a, hex).
      elim (Bool-cases (within 0xD800 0xDBFF hi)) [
        | inl y ↦ rw y (elim (Bool-cases (is_unicode_mark (peek t') (peek_at t' 1))) [
          | inr n ↦ rw n (raised _)
          | inl m ↦ rw m (
              let (r, e) =
                unicode_mark_rest (rest t') (rw (peek-rest t', peek_at-rest t' 1) at m) in
              Returns-map
                (read_low_surrogate-Returns start hi t' h r hex (ground arith, ground arith) e)
                λ (c, t'') (x, b, text). (h ++ x, After-join a b, text))
        ])
        | inr n ↦ rw n (elim (Bool-cases (within 0xDC00 0xDFFF hi)) [
          | inl low ↦ rw low (raised _)
          | inr high ↦ rw high (
              option-Returns (from_u32 hi) _ _ λ c picked. elim (Bool-cases (is_char hi)) [
                | inr bad ↦ absurd (cc (rw bad at picked))
                | inl good ↦
                    let same : hi ≡ c = ground arith in
                    returned (
                      h,
                      a,
                      unicode h (subst (λ d. Hex4 d h) same hex) (subst IsChar same good) refl,
                    )
              ])
        ])
      ]

abbrev IsWide : ℕ → Type 0
IsWide b = leb b 0x7F ≡ false

ascii_first : (c a : ℕ) (x y : Bytes) → c < 0x80 → a ∷ x ≡ encode_char c ++ y → a ≡ c
unfolding encode_char
ascii_first c a x y h e = ground arith

wide_first :
    (c a len : ℕ) (x y : Bytes)
    → IsWide a
    → IsChar c
    → a ∷ x ≡ encode_char c ++ y
    → (0x80 ≤ c) × (utf8_len a ≡ some (length (encode_char c)))
wide_first c a len x y wide h e = elim (Bool-cases (ltb c 0x80)) [
  | inl low ↦ let same = ascii_first c a x y (ground arith) e in absurd (ground arith)
  | inr high ↦
      let (b, z, cons_eq, l, k) = encode_char-utf8_len c h (ground arith) in
      let first : some a ≡ some b = ap head? (e ∙ ap (λ (w : Bytes). w ++ y) cons_eq) in
      let same : a ≡ b = ground arith in (ground arith, rw same l)
]

no_empty_char : (a : ℕ) → utf8_len a ≢ some 0
unfolding utf8_len
no_empty_char a h = ground arith

-- the bytes that the first one announces, when they decode
utf8_sound :
    (a len c : ℕ) (r : Bytes) (cs : List ℕ)
    → IsWide a
    → utf8_len a ≡ some len
    → len ≤ length (a ∷ r)
    → from_utf8 (take len (a ∷ r)) ≡ some (c ∷ cs)
    → (take len (a ∷ r) ≡ encode_char c) × IsChar c × (0x80 ≤ c)
utf8_sound a zero c r cs wide l fits h = absurd (no_empty_char a l)
utf8_sound a (suc len) c r cs wide l fits h =
    let (y, (e, legal)) = from_utf8_first (a ∷ take len r) h in
    let (high, l') = wide_first c a len (take len r) y wide legal e in
    let same : suc len ≡ length (encode_char c) = ground arith in
    let counted = ap length e in
    let parts = length-append {0} {A = ℕ} (encode_char c) y in
    let taken = length-take len r (omega arith) in
    let nothing = length-nil y (omega arith) in
    (e ∙ ap (◌++◌ (encode_char c)) nothing ∙ append-nil (encode_char c), legal, high)

abbrev WideText : ℕ → Bytes → Type 0
WideText c x = IsChar c × (0x80 ≤ c) × (x ≡ encode_char c)

read_wide :
    (t : Tokeniser) (a len c : ℕ) (r : Bytes) (s : List ℕ)
    → rest t ≡ a ∷ r
    → IsWide a
    → utf8_len a ≡ some len
    → ltb (length t.input) (t.pos.offset + len) ≡ false
    → from_utf8 (take len (rest t)) ≡ some s
    → head? s ≡ some c
    → ReadText t WideText (c, jump len t)
read_wide t a len c r [] w wide l fits decoded first = cc
read_wide t a len c r (c' ∷ cs) w wide l fits decoded first =
    let all = length-drop t.pos.offset t.input in
    let counted = ap length w in
    let (e, legal, high) = utf8_sound a len c' r cs wide l (ground arith) (rw w at decoded) in
    let same : c' ≡ c = ground arith in
    let taken = length-take len (a ∷ r) (ground arith) in
    let x = take len (a ∷ r) in
    let lines : newlines x ≡ 0 = ap newlines e ∙ newlines-encode_char c' high in
    let a =
      After-jump t (jump len t).pos x (w ∙ take-drop len (a ∷ r)) (omega arith) (omega arith) in
    (
      x,
      After-here a,
      (subst IsChar same legal, subst (λ d. 0x80 ≤ d) same high, e ∙ ap encode_char same),
    )

read_utf8_char-Returns :
    (t : Tokeniser) (b : ℕ)
    → IsWide b
    → peek t ≡ some b
    → Returns (ReadText t WideText) (read_utf8_char t)
unfolding read_utf8_char
read_utf8_char-Returns t b wide seen = elim (List-cases (rest t)) [
  | inl w ↦ cc (peek_nil t w)
  | inr (a, r, w) ↦
      let same : some a ≡ some b = sym (peek_cons t w) ∙ seen in
      let wide' : IsWide a = ground arith in
      rw (peek_cons t w) (
        option-Returns (utf8_len a) _ _ λ len l.
          elim (Bool-cases (ltb (length t.input) (t.pos.offset + len))) [
            | inl over ↦ rw over (raised _)
            | inr fits ↦ rw fits (
                option-Returns (from_utf8 (take len (rest t))) _ _ λ s decoded.
                  option-Returns (head? s) _ _
                    λ c first. returned (read_wide t a len c r s w wide' l fits decoded first))
          ])
]

pub if-Returns {ℓ κ} :
    {A : Type ℓ} {P : A → Type κ} (b : Bool) {m n : Result A}
    → (b ≡ true → Returns P m)
    → (b ≡ false → Returns P n)
    → Returns P (if b then m else n)
if-Returns true k l = k refl
if-Returns false k l = l refl

unescape-Returns :
    (e : ℕ) (pos : Position) (t : Tokeniser)
    → Returns (ReadText t (λ c x. CharText c (b'\\' ∷ e ∷ x))) (unescape e pos t)
unfolding unescape
unescape-Returns e pos t =
    let Goal : ℕ × Tokeniser → Type 0 = ReadText t (λ c x. CharText c (b'\\' ∷ e ∷ x)) in
    let single : (c : ℕ) → ShortEscape e c → Returns Goal (ok (c, t)) =
      λ c d. returned ([], After-here (After-refl t refl), short e d refl) in
    if-Returns (e == b'"') (λ k. single 0x22 (inl (ground arith, refl)))
      λ _.
        if-Returns (e == b'\\') (λ k. single 0x5C (inr (inl (ground arith, refl))))
          λ _.
            if-Returns (e == b'/') (λ k. single 0x2F (inr (inr (inl (ground arith, refl)))))
              λ _.
                if-Returns (e == b'b')
                  (λ k. single 0x08 (inr (inr (inr (inl (ground arith, refl))))))
                  λ _.
                    if-Returns (e == b'f')
                      (λ k. single 0x0C (inr (inr (inr (inr (inl (ground arith, refl)))))))
                      λ _.
                        if-Returns (e == b'n')
                          (λ k.
                            single 0x0A (inr (inr (inr (inr (inr (inl (ground arith, refl))))))))
                          λ _.
                            if-Returns (e == b'r')
                              (λ k.
                                single 0x0D
                                  (inr (inr (inr (inr (inr (inr (inl (ground arith, refl)))))))))
                              λ _.
                                if-Returns (e == b't')
                                  (λ k.
                                    single 0x09 (
                                      inr (inr (inr (inr (inr (inr (inr (ground arith, refl)))))))))
                                  λ _.
                                    if-Returns (e == b'u')
                                      (λ k.
                                        let u : b'u' ≡ e = ground arith in
                                        subst
                                          (λ d.
                                            Returns (ReadText t (λ c x. CharText c (b'\\' ∷ d ∷ x)))
                                              (read_unicode_escape pos t))
                                          u (read_unicode_escape-Returns pos t))
                                      (λ _. raised _)

read_escape-Returns :
    (t : Tokeniser) {r : Bytes} → rest t ≡ b'\\' ∷ r → Returns (ReadText t CharText) (read_escape t)
unfolding read_escape
read_escape-Returns t e =
    let a = After-here (After-advance t e) in
    peek-Returns (advance t) _ _ λ esc b seen.
      Returns-map (unescape-Returns esc t.pos (advance (advance t)))
        λ (c, t') (x, d, text). (b'\\' ∷ esc ∷ x, After-join a (After-join b d), text)

-- A round closes the string, or it reads the text of one character.
abbrev RoundReads : List ℕ → Tokeniser → Round → Type 0
RoundReads out t (closed s t') = (s ≡ out) × After t (b'"' ∷ []) (rest t') t'
RoundReads out t (more out' t') =
    (c : ℕ) × (x : Bytes) × (out' ≡ out ++ c ∷ []) × After t x (rest t') t' × CharText c x

string_byte-Returns :
    (b : ℕ) (out : List ℕ) (t : Tokeniser) {r : Bytes}
    → rest t ≡ b ∷ r
    → Returns (RoundReads out t) (string_byte b out t)
unfolding string_byte
string_byte-Returns b out t {r} e =
    let a = After-here (After-advance t e) in
    if-Returns (b == b'"')
      (λ k.
        let quote : b ≡ b'"' = ground arith in
        let reads : RoundReads out t (closed out (advance t)) =
          (refl, subst (λ d. After t (d ∷ []) (rest (advance t)) (advance t)) quote a) in
        returned reads)
      λ n.
        if-Returns (b == b'\\')
          (λ k.
            let slash : b ≡ b'\\' = ground arith in
            Returns-bind (read_escape-Returns t (e ∙ ap (λ d. d ∷ r) slash)) λ (c, t') (x, d, text).
              let reads : RoundReads out t (more (out ++ c ∷ []) t') = (c, x, refl, d, text) in
              returned reads)
          λ m.
            if-Returns (leb b 0x1F) (λ k. raised _)
              λ o.
                if-Returns (leb b 0x7F)
                  (λ k.
                    let text : CharText b (b ∷ []) =
                      unfold encode_char in
                      plain (ground arith) (ground arith) (ground arith) (ground arith)
                        (ground arith) in
                    let reads : RoundReads out t (more (out ++ b ∷ []) (advance t)) =
                      (b, b ∷ [], refl, a, text) in
                    returned reads)
                  λ wide.
                    Returns-bind (read_utf8_char-Returns t b wide (peek_cons t e))
                      λ (c, t') (x, d, (legal, high, same)).
                        let text : CharText c x =
                          plain legal (omega arith) (ground arith) (ground arith) same in
                        let reads : RoundReads out t (more (out ++ c ∷ []) t') =
                          (c, x, refl, d, text) in
                        returned reads

-- The rounds put the characters of a text behind `out`, up to the closing quotation mark.
abbrev LoopReads : List ℕ → Tokeniser → List ℕ × Tokeniser → Type 0
LoopReads out t (s, t') =
    (cs : List ℕ) × (x : Bytes) × (s ≡ out ++ cs)
    × After t (x ++ b'"' ∷ []) (rest t') t'
    × StringText cs x

string_loop-Returns :
    (f : ℕ) (start : Position) (out : List ℕ) (t : Tokeniser)
    → length (rest t) < f
    → Returns (LoopReads out t) (string_loop f start out t)
unfolding string_loop
string_loop-Returns zero start out t h = absurd (omega arith)
string_loop-Returns (suc f) start out t h = elim (List-cases (rest t)) [
  | inl w ↦ rw (peek_nil t w) (raised _)
  | inr (b, r, w) ↦ rw (peek_cons t w) (
      Returns-bind (string_byte-Returns b out t w) λ o.
        elim o
          as (λ o.
            RoundReads out t o
            → Returns (LoopReads out t) (elim o [
              | closed s t' ↦ ok (s, t')
              | more out' t' ↦ string_loop f start out' t'
            ])) [
              | closed s t' ↦ λ (e, a).
                  let reads : LoopReads out t (s, t') =
                    ([], [], e ∙ sym (append-nil out), a, nil) in
                  returned reads
              | more out' t' ↦ λ (c, x, e, a, text).
                  let counted = ap length a.before in
                  let parts = length-append x (rest t') in
                  Returns-map
                    (string_loop-Returns f start out' t' (omega (arith, length-CharText text)))
                    λ (s, t'') (cs, y, e', a', texts). (
                      c ∷ cs,
                      x ++ y,
                      e' ∙ ap (λ z. z ++ cs) e ∙ append_assoc out (c ∷ []) cs,
                      subst (λ z. After t z (rest t'') t'') (sym (append_assoc x y (b'"' ∷ [])))
                          (After-join a a'),
                      cons text texts,
                    )
            ])
]

-- Behind a quotation mark, whatever `read_string` returns is the string that the bytes read write
-- in the grammar of strings; else it returns an error. It does not panic, and its loop ends.
pub read_string-Returns :
    (t : Tokeniser) {r : Bytes}
    → rest t ≡ b'"' ∷ r
    → Returns (ReadText t StringLexeme) (read_string t)
unfolding read_string
read_string-Returns t e =
    let a = After-here (After-advance t e) in
    Returns-map
      (string_loop-Returns (suc (length (rest t))) t.pos [] (advance t)
        (omega (arith, ap length a.before)))
      λ (s, t') (cs, x, e', b, text). (
        b'"' ∷ (x ++ b'"' ∷ []),
        After-join a b,
        record { body = x; text = subst (λ z. StringText z x) (sym e') text; bytes = refl },
      )
