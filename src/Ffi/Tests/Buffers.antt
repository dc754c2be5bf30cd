-- ===== src/Ffi/Tests/Buffers.antt =====
-- `minify_in_place` of cjson-rs-ffi/src/convert.rs at a concrete text.
use cjson_rs.Common.{ℕ, ◌≡◌, ◌<◌, ◌∷◌, [], refl, Bytes, length, get_elem?}
use cjson_rs.Error.{ok}
use cjson_rs.Ffi.Minify.{minify_in_place}
use cjson_rs.Ffi.Minify.Safe.{minify_in_place-inside}

-- a text with a space, and a byte behind its end
abbrev spaced : Bytes
spaced = b'[' ∷ b' ' ∷ b']' ∷ 0 ∷ 9 ∷ []

minify_in_place-inside_example :
    (after : Bytes) × (minify_in_place spaced ≡ ok after)
    × (length after ≡ length spaced)
    × ((i : ℕ) → 3 < i → get_elem? after i ≡ get_elem? spaced i)
minify_in_place-inside_example = minify_in_place-inside spaced 3 refl
