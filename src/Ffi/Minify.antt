-- ===== src/Ffi/Minify.antt =====
-- cjson-rs-ffi/src/convert.rs: `minify_in_place`, on a buffer with the two pointers as indices. A
-- read or a write outside of the buffer, undefined behaviour in the code, is `panicked`.
pub mod Call
pub mod Safe
use cjson_rs.Common.{
  ℕ, zero, suc, ◌+◌, false, ◌||◌, not, none, some, [], ◌∷◌, Bytes, ◌==◌, ltb, if◌then◌else◌, length,
  get_elem?,
}
use cjson_rs.Error.{Result, ok, panicked, out_of_fuel, ◌>>=◌}

pub record Pointers : Type 0 where
  pub buf : Bytes
  pub read : ℕ
  pub write : ℕ

-- `*(buf + i)`
unfoldable pub load : Bytes → ℕ → Result ℕ
load buf i = elim (get_elem? buf i) [ none ↦ panicked | some b ↦ ok b ]

abbrev pub set : Bytes → ℕ → ℕ → Bytes
set [] i b = []
set (c ∷ buf) zero b = b ∷ buf
set (c ∷ buf) (suc i) b = c ∷ set buf i b

-- `*(buf + i) = b`
unfoldable pub store : Bytes → ℕ → ℕ → Result Bytes
store buf i b = if ltb i (length buf) then ok (set buf i b) else panicked

-- `*write = *read`, and both pointers one further
unfoldable pub copy_byte : Pointers → Result Pointers
copy_byte m = do
  b ← load m.buf m.read
  buf ← store m.buf m.write b
  ok (record { buf = buf; read = m.read + 1; write = m.write + 1 })

abbrev pub skip_bytes : ℕ → Pointers → Pointers
skip_bytes n m = record m { read = m.read + n }

-- the loop over the bytes of a string
unfoldable pub copy_string : ℕ → Pointers → Result Pointers
copy_string zero m = out_of_fuel
copy_string (suc f) m = do
  b ← load m.buf m.read
  if b == 0 || b == b'"' then ok m else do
    pair ← (if b == b'\\' then (load m.buf (m.read + 1) >>= λ n. ok (not (n == 0))) else ok false)
    m₁ ← copy_byte m
    m₂ ← (if pair then copy_byte m₁ else ok m₁)
    copy_string f m₂

-- a byte, unless it is the end
unfoldable pub copy_unless_end : Pointers → Result Pointers
copy_unless_end m = do b ← load m.buf m.read; if b == 0 then ok m else copy_byte m

-- the loop over a line comment
unfoldable pub skip_line : ℕ → Pointers → Result Pointers
skip_line zero m = out_of_fuel
skip_line (suc f) m = do
  b ← load m.buf m.read
  if b == 0 || b == b'\n' then ok m else skip_line f (skip_bytes 1 m)

-- the loop over a block comment, and the two bytes behind it
unfoldable pub skip_block : ℕ → Pointers → Result Pointers
skip_block zero m = out_of_fuel
skip_block (suc f) m = do
  b ← load m.buf m.read
  if b == 0 then ok m else do
    closes ← (if b == b'*' then (load m.buf (m.read + 1) >>= λ n. ok (n == b'/')) else ok false)
    if closes then ok (skip_bytes 2 m) else skip_block f (skip_bytes 1 m)

-- the byte behind a slash
abbrev pub comment_byte : ℕ → Pointers → Result ℕ
comment_byte b m = if b == b'/' then load m.buf (m.read + 1) else ok 0

-- one round of the outer loop, on the byte `b`; the fuel is for the loops in it
unfoldable pub minify_byte : ℕ → ℕ → Pointers → Result Pointers
minify_byte f b m =
    if b == b' ' || (b == b'\t' || (b == b'\n' || b == b'\r'))
    then ok (skip_bytes 1 m)
    else if b == b'"'
    then (do m₁ ← copy_byte m; m₂ ← copy_string f m₁; copy_unless_end m₂)
    else do
      n ← comment_byte b m
      if n == b'/'
          then skip_line f m
          else if n == b'*'
          then skip_block f (skip_bytes 2 m)
          else copy_byte m

unfoldable pub minify_loop : ℕ → Pointers → Result Bytes
minify_loop zero m = out_of_fuel
minify_loop (suc f) m = do
  b ← load m.buf m.read
  if b == 0 then store m.buf m.write 0 else do m' ← minify_byte f b m; minify_loop f m'

-- `minify_in_place`, of a pointer that is not null. Every round of a loop passes a byte.
unfoldable pub minify_in_place : Bytes → Result Bytes
minify_in_place buf = minify_loop (suc (length buf)) (record { buf = buf; read = 0; write = 0 })
