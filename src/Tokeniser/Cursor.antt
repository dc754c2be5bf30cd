-- ===== src/Tokeniser/Cursor.antt =====
-- tokeniser.rs: the `Tokeniser` and the methods that look at one byte or pass over it.
use cjson_rs.Common.{
  ℕ, zero, suc, ◌+◌, Bool, true, false, ◌||◌, Option, none, some, Bytes, leb, ◌==◌, if◌then◌else◌,
  length, get_elem?, drop,
}
use cjson_rs.Error.{Position, start_pos}

pub record Tokeniser : Type 0 where
  pub input : Bytes
  pub pos : Position

abbrev pub new : Bytes → Tokeniser
new input = record { input = input; pos = start_pos }

unfoldable pub is_at_end : Tokeniser → Bool
is_at_end t = leb (length t.input) t.pos.offset

unfoldable pub peek : Tokeniser → Option ℕ
peek t = get_elem? t.input t.pos.offset

unfoldable pub peek_at : Tokeniser → ℕ → Option ℕ
peek_at t n = get_elem? t.input (t.pos.offset + n)

-- the position behind byte `b`
abbrev pub pass : ℕ → Position → Position
pass b p =
    if b == b'\n'
    then record { line = p.line + 1; column = 1; offset = p.offset + 1 }
    else record { line = p.line; column = p.column + 1; offset = p.offset + 1 }

-- No caller uses the byte that `advance` returns, so it is left out.
unfoldable pub advance : Tokeniser → Tokeniser
advance t = elim (peek t) [ none ↦ t | some b ↦ record t { pos = pass b t.pos } ]

-- the bytes at the cursor and after it; what loops take their fuel from
abbrev pub rest : Tokeniser → Bytes
rest t = drop t.pos.offset t.input

abbrev pub is_ws : ℕ → Bool
is_ws b = b == b' ' || (b == b'\t' || (b == b'\n' || b == b'\r'))

-- `if let Some(b) = self.peek()` with a test on `b`
abbrev pub peek_is : (ℕ → Bool) → Option ℕ → Bool
peek_is p none = false
peek_is p (some b) = p b

-- `while let Some(b) = self.peek()` with a test on `b`, and `advance` for its body
unfoldable pub skip_while : (ℕ → Bool) → ℕ → Tokeniser → Tokeniser
skip_while p zero t = t
skip_while p (suc f) t = elim (peek_is p (peek t)) [ true ↦ skip_while p f (advance t) | false ↦ t ]

abbrev pub skip_all : (ℕ → Bool) → Tokeniser → Tokeniser
skip_all p t = skip_while p (length (rest t)) t

unfoldable pub skip_ws : Tokeniser → Tokeniser
skip_ws t = skip_all is_ws t
