-- ===== src/Ffi/Memory.antt =====
-- The memory that cjson-rs-ffi works on: nodes (types.rs) and bytes at addresses, and the
-- commands that read and write them. The allocator is any list of answers to come; an answer that
-- is null, or an address in use, is a failed allocation. `panic_guard.rs` catches a panic.
pub mod Chain
pub mod Runs
pub mod Children
pub mod Fresh
use cjson_rs.Common.{
  ℕ, ◌+◌, Bool, true, false, ◌||◌, Option, none, some, List, [], ◌∷◌, Bytes, ◌==◌, if◌then◌else◌,
}

abbrev pub Ptr : Type 0
Ptr = ℕ

abbrev pub null : Ptr
null = 0

-- `struct cJSON`; `valueint` is a `c_int` by its 32 bits
pub record Node (F : Type 0) : Type 0 where
  pub next : Ptr
  pub prev : Ptr
  pub child : Ptr
  pub type_ : ℕ
  pub valuestring : Ptr
  pub valueint : ℕ
  pub valuedouble : F
  pub string : Ptr

abbrev pub Nodes : Type 0 → Type 0
Nodes F = Ptr → Option (Node F)

-- `texts` holds the bytes that can be read from an address on; a C string is those in front of the
-- first 0. `ends` holds the cells for `return_parse_end`, and `last_error` is the thread-local
-- `LAST_ERROR_PTR`.
pub record Memory (F : Type 0) : Type 0 where
  pub nodes : Nodes F
  pub texts : Ptr → Option Bytes
  pub ends : Ptr → Option Ptr
  pub last_error : Ptr
  pub answers : List Ptr

-- A fault is undefined behaviour, such as a read through null or a dangling pointer.
pub data Run (F A : Type 0) : Type 0 where
  ok : A → Memory F → Run F A
  panicked : Memory F → Run F A
  fault : Run F A
  out_of_fuel : Run F A

abbrev pub Cmd : Type 0 → Type 0 → Type 0
Cmd F A = Memory F → Run F A

abbrev pub update {ℓ} : {A : Type ℓ} → (Ptr → Option A) → Ptr → Option A → Ptr → Option A
update h p c a = if a == p then c else h a

module _ {F : Type 0} where
  abbrev pub pure : {A : Type 0} → A → Cmd F A
  pure = ok

  module _ {A B : Type 0} where
    abbrev pub and_then : Run F A → (A → Cmd F B) → Run F B
    and_then (ok a m) k = k a m
    and_then (panicked m) k = panicked m
    and_then fault k = fault
    and_then out_of_fuel k = out_of_fuel

    infixl 5 ◌>>=◌ ◌>>◌
    abbrev pub ◌>>=◌ : Cmd F A → (A → Cmd F B) → Cmd F B
    c >>= k = λ m. and_then (c m) k

    abbrev pub ◌>>◌ : Cmd F A → Cmd F B → Cmd F B
    c >> d = c >>= λ _. d

  -- `*p`
  unfoldable pub load : Ptr → Cmd F (Node F)
  load p m = if p == null then fault else elim (m.nodes p) [ none ↦ fault | some n ↦ ok n m ]

  abbrev pub write : Memory F → Ptr → Node F → Memory F
  write m p n = record m { nodes = update m.nodes p (some n) }

  abbrev pub store : Ptr → Node F → Cmd F (Unit {0})
  store p n m = ok tt (write m p n)

  unfoldable pub modify : Ptr → (Node F → Node F) → Cmd F (Unit {0})
  modify p f = do n ← load p; store p (f n)

  abbrev pub with_next : Ptr → Node F → Node F
  with_next q n = record n { next = q }

  abbrev pub with_prev : Ptr → Node F → Node F
  with_prev q n = record n { prev = q }

  abbrev pub with_child : Ptr → Node F → Node F
  with_child q n = record n { child = q }

  -- `(*p).next = q`, and so on
  abbrev pub set_next : Ptr → Ptr → Cmd F (Unit {0})
  set_next p q = modify p (with_next q)

  abbrev pub set_prev : Ptr → Ptr → Cmd F (Unit {0})
  set_prev p q = modify p (with_prev q)

  abbrev pub set_child : Ptr → Ptr → Cmd F (Unit {0})
  set_child p q = modify p (with_child q)

  -- `guard`: a panic in the body becomes the value for it
  unfoldable pub guard : {A : Type 0} → A → Cmd F A → Cmd F A
  guard on_panic f m = elim (f m) [
    | ok value m' ↦ ok value m'
    | panicked m' ↦ ok on_panic m'
    | fault ↦ fault
    | out_of_fuel ↦ out_of_fuel
  ]
