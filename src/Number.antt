-- ===== src/Number.antt =====
-- What the code uses of `f64`, which has no counterpart here: its type is a parameter `F`, with the
-- operations of the standard library that the tokeniser and the serialiser call.
pub mod Grammar
pub mod Laws
use cjson_rs.Common.{Bool, Option, List, ℕ, Bytes}

pub record Float (F : Type 0) : Type 0 where
  -- `f64::is_finite`
  pub is_finite : F → Bool
  -- `str::parse::<f64>`
  pub from_str : Bytes → Option F
  -- the text of `{n}`, by `Display`
  pub display : F → List ℕ
