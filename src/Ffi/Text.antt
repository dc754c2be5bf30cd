-- ===== src/Ffi/Text.antt =====
-- cjson-rs-ffi/src/lib.rs: the byte order mark, the offset of an error, and `write_escaped`, the
-- printer's own copy of `write_string`.
use cjson_rs.Common.{
  ℕ, Bool, false, ◌&&◌, List, [], ◌∷◌, ◌++◌, Bytes, ◌==◌, ltb, leb, if◌then◌else◌, length, drop,
  get_elem?, none, some,
}
use cjson_rs.Error.{Error, position, unexpected_eof}
use cjson_rs.Serialiser.{fmt_04x}

-- `bytes[i] == b`, behind a test of the length
abbrev byte_is : Bytes → ℕ → ℕ → Bool
byte_is bytes i b = elim (get_elem? bytes i) [ none ↦ false | some c ↦ c == b ]

unfoldable pub strip_utf8_bom : Bytes → Bytes × ℕ
strip_utf8_bom bytes =
    if leb 3 (length bytes)
      && (byte_is bytes 0 0xEF && (byte_is bytes 1 0xBB && byte_is bytes 2 0xBF))
    then (drop 3 bytes, 3)
    else (bytes, 0)

unfoldable pub error_byte_offset : Error → ℕ → ℕ
error_byte_offset (unexpected_eof _) input_len = input_len
error_byte_offset e input_len = (position e).offset

-- the `match` on one character in `write_escaped`
unfoldable pub push_escaped : List ℕ → ℕ → List ℕ
push_escaped out ch =
    if ch == b'"'
    then out ++ b'\\' ∷ b'"' ∷ []
    else if ch == b'\\'
    then out ++ b'\\' ∷ b'\\' ∷ []
    else if ch == b'\n'
    then out ++ b'\\' ∷ b'n' ∷ []
    else if ch == b'\r'
    then out ++ b'\\' ∷ b'r' ∷ []
    else if ch == b'\t'
    then out ++ b'\\' ∷ b't' ∷ []
    else if ch == 0x08
    then out ++ b'\\' ∷ b'b' ∷ []
    else if ch == 0x0C
    then out ++ b'\\' ∷ b'f' ∷ []
    else if ltb ch 0x20
    then out ++ b'\\' ∷ b'u' ∷ fmt_04x ch
    else out ++ ch ∷ []

unfoldable pub push_all_escaped : List ℕ → List ℕ → List ℕ
push_all_escaped out [] = out
push_all_escaped out (ch ∷ s) = push_all_escaped (push_escaped out ch) s

unfoldable pub write_escaped : List ℕ → List ℕ → List ℕ
write_escaped out s = push_all_escaped (out ++ b'"' ∷ []) s ++ b'"' ∷ []
