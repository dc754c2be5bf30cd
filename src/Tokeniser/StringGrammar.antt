-- ===== src/Tokeniser/StringGrammar.antt =====
-- The strings of RFC 8259, section 7, as relations between text and bytes, independent of the code.
use cjson_rs.Common.{ℕ, ◌+◌, ◌-◌, ◌*◌, ◌≤◌, ◌<◌, List, [], ◌∷◌, ◌++◌, ◌≡◌, ◌≢◌, ◌⊎◌, Bytes}
use cjson_rs.Text.{encode_char}
use cjson_rs.Text.Utf8.{IsChar}

-- the byte `b` is the hexadecimal digit `d`
abbrev pub HexDigit : ℕ → ℕ → Type 0
HexDigit b d =
    ((b ≡ b'0' + d) × (d < 10))
    ⊎ (((b + 10 ≡ b'a' + d) × (10 ≤ d) × (d < 16)) ⊎ ((b + 10 ≡ b'A' + d) × (10 ≤ d) × (d < 16)))

-- four such digits and their value
pub record Hex4 (v : ℕ) (x : Bytes) : Type 0 where
  pub b₁ : ℕ
  pub b₂ : ℕ
  pub b₃ : ℕ
  pub b₄ : ℕ
  pub d₁ : ℕ
  pub d₂ : ℕ
  pub d₃ : ℕ
  pub d₄ : ℕ
  pub hex₁ : HexDigit b₁ d₁
  pub hex₂ : HexDigit b₂ d₂
  pub hex₃ : HexDigit b₃ d₃
  pub hex₄ : HexDigit b₄ d₄
  pub bytes : x ≡ b₁ ∷ b₂ ∷ b₃ ∷ b₄ ∷ []
  pub value : v ≡ d₁ * 4096 + d₂ * 256 + d₃ * 16 + d₄

-- the byte behind a backslash, and the character that the two stand for
abbrev pub ShortEscape : ℕ → ℕ → Type 0
ShortEscape e c =
    ((e ≡ b'"') × (c ≡ 0x22))
    ⊎ (((e ≡ b'\\') × (c ≡ 0x5C))
        ⊎ (((e ≡ b'/') × (c ≡ 0x2F))
            ⊎ (((e ≡ b'b') × (c ≡ 0x08))
                ⊎ (((e ≡ b'f') × (c ≡ 0x0C))
                    ⊎ (((e ≡ b'n') × (c ≡ 0x0A))
                        ⊎ (((e ≡ b'r') × (c ≡ 0x0D)) ⊎ ((e ≡ b't') × (c ≡ 0x09))))))))

-- the bytes `x` write the character `c` inside a string
pub data CharText (c : ℕ) (x : Bytes) : Type 0 where
  plain : IsChar c → 0x20 ≤ c → c ≢ b'"' → c ≢ b'\\' → x ≡ encode_char c → CharText c x
  short : (e : ℕ) → ShortEscape e c → x ≡ b'\\' ∷ e ∷ [] → CharText c x
  unicode : (h : Bytes) → Hex4 c h → IsChar c → x ≡ b'\\' ∷ b'u' ∷ h → CharText c x
  surrogates :
      (hi lo : ℕ) (h l : Bytes)
      → Hex4 hi h
      → Hex4 lo l
      → (0xD800 ≤ hi) × (hi ≤ 0xDBFF) × (0xDC00 ≤ lo) × (lo ≤ 0xDFFF)
      → c ≡ 0x10000 + (hi - 0xD800) * 0x400 + (lo - 0xDC00)
      → x ≡ b'\\' ∷ b'u' ∷ (h ++ b'\\' ∷ b'u' ∷ l)
      → CharText c x

-- the bytes between the quotation marks
pub data StringText : List ℕ → Bytes → Type 0 where
  nil : StringText [] []
  cons :
      {c : ℕ} {cs : List ℕ} {x y : Bytes}
      → CharText c x
      → StringText cs y
      → StringText (c ∷ cs) (x ++ y)

-- a whole string token
pub record StringLexeme (s : List ℕ) (x : Bytes) : Type 0 where
  pub body : Bytes
  pub text : StringText s body
  pub bytes : x ≡ b'"' ∷ (body ++ b'"' ∷ [])
