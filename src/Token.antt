-- ===== src/Token.antt =====
-- token.rs: tokens, and tokens with the positions of their first byte and of their end. A Rust
-- `String` is the list of its code points, and `F` stands for `f64`.
use cjson_rs.Common.{ℕ, List}
use cjson_rs.Error.{Position}

pub data Token (F : Type 0) : Type 0 where
  begin_object end_object begin_array end_array name_separator value_separator : Token F
  null_lit true_lit false_lit : Token F
  number : F → Token F
  string : List ℕ → Token F

pub record PositionedToken (F : Type 0) : Type 0 where
  pub token : Token F
  pub pos : Position
  pub end_pos : Position
