-- ===== src/Parser/Prefix.antt =====
-- `parse_prefix` of parser.rs, with `tokenise_prefix` of tokeniser.rs, on any input.
use cjson_rs.Common.{ℕ, ◌≤◌, List, All}
use cjson_rs.Error.{Result, Returns}
use cjson_rs.Number.{Float}
use cjson_rs.Token.{Token, PositionedToken}
use cjson_rs.Tokeniser.Cursor.{Tokeniser}

module _ {F : Type 0} (f64 : Float F) (size : ℕ) where
  -- the token ends within the input
  abbrev Bounded : PositionedToken F → Type 0
  Bounded p = p.end_pos.offset ≤ size

  abbrev Ends : Result (List (PositionedToken F) × ℕ) → Type 0
  Ends = Returns λ (ts, n). All Bounded ts
