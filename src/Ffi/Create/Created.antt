-- ===== src/Ffi/Create/Created.antt =====
-- `new_node` of cjson-rs-ffi/src/convert.rs and the constructors of lib.rs.
use cjson_rs.Common.{ℕ, none, some, List, [], ◌∷◌, ◌++◌, ◌≡◌, ◌≢◌, refl, arith}
use cjson_rs.Ffi.Alloc.{Double, alloc, alloc_node, alloc_cstr, new_node, zeroed}
use cjson_rs.Ffi.Create.{cjson_create_number, cjson_get_number_value, with_number}
use cjson_rs.Ffi.Types.{cjson_number}
use cjson_rs.Ffi.Memory.{Ptr, null, Node, Memory, ok, write, update}
use cjson_rs.Text.{as_bytes}
use cjson_rs.Ffi.Memory.Runs.{not_null, modify-ok, guard-ok, write-at, load-ok}

-- what `new_node` leaves
abbrev pub blank : {F : Type 0} → Double F → ℕ → Node F
blank f64 t = record (zeroed f64) { type_ = t }

module _ {F : Type 0} (f64 : Double F) (m : Memory F) (a : Ptr) (rest : List Ptr)
    (next : m.answers ≡ a ∷ rest) (ne_null : a ≢ null) (fresh : m.nodes a ≡ none)
    (no_text : m.texts a ≡ none) where
  -- what is left to the allocator
  abbrev pub served : Memory F
  served = record m { answers = rest }

  alloc-ok : alloc m ≡ ok a served
  unfolding alloc
  alloc-ok = rw (alloc, next) (rw (not_null ne_null) (rw (fresh, no_text) refl))

  pub alloc_node-ok : alloc_node f64 m ≡ ok a (write served a (zeroed f64))
  unfolding alloc_node
  alloc_node-ok = rw alloc-ok (rw (not_null ne_null) refl)

  pub alloc_cstr-ok :
      (s : List ℕ)
      → alloc_cstr s m
        ≡ ok a (record served { texts = update m.texts a (some (as_bytes s ++ 0 ∷ [])) })
  unfolding alloc_cstr
  alloc_cstr-ok s = rw alloc-ok (rw (not_null ne_null) refl)

  pub new_node-ok :
      (t : ℕ) → new_node f64 t m ≡ ok a (write (write served a (zeroed f64)) a (blank f64 t))
  unfolding new_node alloc_node
  new_node-ok t = rw alloc-ok (
      rw (not_null ne_null) (
        rw (not_null ne_null) (
          rw
            (modify-ok (write served a (zeroed f64)) ne_null (write-at served a (zeroed f64))
              λ z. record z { type_ = t })
            refl)))

  -- Where the allocator serves a fresh address, `cJSON_CreateNumber` returns it, from which
  -- `cJSON_GetNumberValue` then gets the number back; no other node changes.
  pub get_number_value-create_number :
      (x nan : F)
      → (after : Memory F) × (cjson_create_number f64 x m ≡ ok a after)
        × (cjson_get_number_value nan a after ≡ ok x after)
        × ((b : Ptr) → b ≢ a → after.nodes b ≡ m.nodes b)
  unfolding cjson_create_number cjson_get_number_value
  get_number_value-create_number x nan =
      let m₁ = write (write served a (zeroed f64)) a (blank f64 cjson_number) in
      let at₁ = write-at (write served a (zeroed f64)) a (blank f64 cjson_number) in
      let done = with_number f64 x (blank f64 cjson_number) in
      (
        write m₁ a done,
        guard-ok m null _ (
            rw (new_node-ok cjson_number)
              (rw (not_null ne_null) (rw (modify-ok m₁ ne_null at₁ (with_number f64 x)) refl))),
        guard-ok (write m₁ a done) nan _ (
            rw (not_null ne_null)
              (rw (load-ok (write m₁ a done) ne_null (write-at m₁ a done)) refl)),
        λ b ne. ground (arith, ne),
      )
