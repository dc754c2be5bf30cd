-- ===== src/Ffi/Memory/Runs.antt =====
-- What the memory commands do at an address that holds a node.
use cjson_rs.Common.{◌≡◌, ap, ◌≢◌, some, arith, ◌==◌, false}
use cjson_rs.Ffi.Memory.{Ptr, null, Node, Memory, Cmd, ok, load, modify, write, guard}

pub not_null : {p : Ptr} → p ≢ null → (p == null) ≡ false
not_null nn = ground arith

module _ {F : Type 0} (m : Memory F) {p : Ptr} {n : Node F} (nn : p ≢ null)
    (at : m.nodes p ≡ some n) where
  pub load-ok : load p m ≡ ok n m
  unfolding load
  load-ok = rw (not_null nn, at)

  pub modify-ok : (f : Node F → Node F) → modify p f m ≡ ok tt (write m p (f n))
  unfolding modify
  modify-ok f = rw load-ok

module _ {F : Type 0} (m : Memory F) (p : Ptr) (n : Node F) where
  pub write-at : (write m p n).nodes p ≡ some n
  write-at = ground arith

  pub write-other : {a : Ptr} → a ≢ p → (write m p n).nodes a ≡ m.nodes a
  write-other ne = ground arith

module _ {F A : Type 0} (m : Memory F) {m' : Memory F} {a : A} where
  pub guard-ok : (on_panic : A) (f : Cmd F A) → f m ≡ ok a m' → guard on_panic f m ≡ ok a m'
  unfolding guard
  guard-ok on_panic f e = ap (λ z. guard on_panic (λ _. z) m) e
