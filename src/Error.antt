-- ===== src/Error.antt =====
-- error.rs: source positions and errors. `Result` is Rust's, with two more outcomes: a panic, and
-- what the program does not have, a loop of the model that has used up its fuel.
use cjson_rs.Common.{ℕ, ◌≡◌, ◌≢◌, subst, Option, none, some}

pub record Position : Type 0 where
  pub line : ℕ
  pub column : ℕ
  pub offset : ℕ

-- `Position::START`
abbrev pub start_pos : Position
start_pos = record { line = 1; column = 1; offset = 0 }

pub data Error : Type 0 where
  unexpected_char : ℕ → Position → Error
  unexpected_eof : Position → Error
  invalid_escape : Position → Error
  invalid_unicode_escape : Position → Error
  invalid_surrogate_pair : Position → Error
  invalid_number : Position → Error
  number_out_of_range : Position → Error
  invalid_literal : Position → Error
  nesting_limit_exceeded : Position → Error
  invalid_utf8 : Position → Error
  trailing_data : Position → Error
  unexpected_token : Position → Error

-- `Error::position`
unfoldable pub position : Error → Position
position (unexpected_char _ pos) = pos
position (unexpected_eof pos) = pos
position (invalid_escape pos) = pos
position (invalid_unicode_escape pos) = pos
position (invalid_surrogate_pair pos) = pos
position (invalid_number pos) = pos
position (number_out_of_range pos) = pos
position (invalid_literal pos) = pos
position (nesting_limit_exceeded pos) = pos
position (invalid_utf8 pos) = pos
position (trailing_data pos) = pos
position (unexpected_token pos) = pos

pub data Result {ℓ} (A : Type ℓ) : Type ℓ where
  ok : A → Result A
  err : Error → Result A
  panicked : Result A
  out_of_fuel : Result A

module _ {ℓ κ} {A : Type ℓ} {B : Type κ} where
  -- the `?` operator
  infixl 5 ◌>>=◌
  abbrev pub ◌>>=◌ : Result A → (A → Result B) → Result B
  ok a >>= f = f a
  err e >>= f = err e
  panicked >>= f = panicked
  out_of_fuel >>= f = out_of_fuel

-- `ok_or`
abbrev pub ok_or {ℓ} : {A : Type ℓ} → Option A → Error → Result A
ok_or none e = err e
ok_or (some a) e = ok a

-- The code returns, with a value of which `P` holds or with an error: no panic, and no loop that
-- uses up its fuel.
pub data Returns {ℓ κ} {A : Type ℓ} (P : A → Type κ) : Result A → Type (ℓ ⊔ κ) where
  returned : {a : A} → P a → Returns P (ok a)
  raised : (e : Error) → Returns P (err e)

module _ {ℓ κ ℓ' κ'} {A : Type ℓ} {B : Type ℓ'} {P : A → Type κ} {Q : B → Type κ'} where
  pub Returns-bind :
      {m : Result A} {f : A → Result B}
      → Returns P m
      → ((a : A) → P a → Returns Q (f a))
      → Returns Q (m >>= f)
  Returns-bind (returned {a} h) k = k a h
  Returns-bind (raised e) k = raised e

module _ {ℓ κ κ'} {A : Type ℓ} {P : A → Type κ} {Q : A → Type κ'} where
  pub Returns-map : {m : Result A} → Returns P m → ((a : A) → P a → Q a) → Returns Q m
  Returns-map (returned {a} h) k = returned (k a h)
  Returns-map (raised e) k = raised e

module _ {ℓ κ} {A : Type ℓ} {P : A → Type κ} where
  pub Returns-ok : {m : Result A} {a : A} → Returns P m → m ≡ ok a → P a
  Returns-ok (returned h) e = subst P (cc) h
  Returns-ok (raised _) e = cc

  pub Returns-not_panicked : {m : Result A} → Returns P m → m ≢ panicked
  Returns-not_panicked (returned h) = cc
  Returns-not_panicked (raised _) = cc

  pub Returns-not_out_of_fuel : {m : Result A} → Returns P m → m ≢ out_of_fuel
  Returns-not_out_of_fuel (returned h) = cc
  Returns-not_out_of_fuel (raised _) = cc
