-- ===== src/Ffi/Print/Preallocated.antt =====
-- `cJSON_PrintPreallocated` of cjson-rs-ffi/src/lib.rs and its buffer.
use cjson_rs.Common.{
  ℕ, suc, ◌+◌, ◌≤◌, ◌<◌, true, false, not, some, List, [], ◌∷◌, ◌++◌, Bytes, ◌≡◌, ◌≢◌, ◌⊎◌, inl,
  inr, refl, ◌∙◌, ap, arith, ◌==◌, ltb, length, drop, drop-drop, ◌-◌, Bool-cases,
}
use cjson_rs.Common.Int.{pos}
use cjson_rs.Ffi.Memory.{null, Memory, ok, update}
use cjson_rs.Ffi.Memory.Runs.{not_null, guard-ok}
use cjson_rs.Ffi.Print.{print_text, fill_buffer, cjson_print_preallocated}
use cjson_rs.Number.{Float}
use cjson_rs.Text.{as_bytes}

-- the buffer behind a text and its NUL
abbrev pub filled : Bytes → Bytes → Bytes
filled bytes old = bytes ++ 0 ∷ drop (length bytes + 1) old

drop-text :
    (bytes rest : Bytes) (k : ℕ) → drop (suc (length bytes + k)) (bytes ++ 0 ∷ rest) ≡ drop k rest
drop-text [] rest k = let e : 0 + k ≡ k = omega arith in ap (λ z. drop z rest) e
drop-text (x ∷ bytes) rest k =
    let e : suc (length bytes) + k ≡ suc (length bytes + k) = omega arith in
    ap (λ z. drop z (bytes ++ 0 ∷ rest)) e ∙ drop-text bytes rest k

drop-filled :
    (n : ℕ) (bytes old : Bytes) → length bytes < n → drop n (filled bytes old) ≡ drop n old
drop-filled n bytes old h =
    let k = n - suc (length bytes) in
    let e : n ≡ suc (length bytes + k) = omega arith in
    let e' : (length bytes + 1) + k ≡ n = omega arith in
    ap (λ z. drop z (filled bytes old)) e
    ∙ drop-text bytes (drop (length bytes + 1) old) k
    ∙ drop-drop (length bytes + 1) k old
    ∙ ap (λ z. drop z old) e'

module _ {F : Type 0} (f64 : Float F) (rounds : ℕ) (m : Memory F) (item buffer n format : ℕ)
    (s : List ℕ) (old : Bytes) (ne_null : item ≢ null) (buffer_null : buffer ≢ null)
    (positive : 0 < n) (prints : print_text f64 rounds item (not (format == 0)) m ≡ ok (some s) m)
    (holds : m.texts buffer ≡ some old) (room : n ≤ length old) where
  -- Where the tree prints as `s` and `n` bytes can be written, `cJSON_PrintPreallocated` with `n` for
  -- the length puts the bytes of `s` and a NUL at the beginning of the buffer, leaves what is behind
  -- the `n` bytes and returns true; or, if they do not fit, it changes nothing and returns false.
  pub print_preallocated-filled :
      ((length (as_bytes s) < n)
        × (drop n (filled (as_bytes s) old) ≡ drop n old)
        × (cjson_print_preallocated f64 rounds item buffer (pos n) format m
            ≡ ok true
                (record m { texts = update m.texts buffer (some (filled (as_bytes s) old)) })))
      ⊎ ((n ≤ length (as_bytes s))
          × (cjson_print_preallocated f64 rounds item buffer (pos n) format m ≡ ok false m))
  unfolding cjson_print_preallocated fill_buffer
  print_preallocated-filled =
      let size : (n == 0) ≡ false = ground arith in
      elim (Bool-cases (ltb n (length (as_bytes s) + 1))) [
        | inl y ↦ inr (
          ground arith,
          guard-ok m false _
              (rw (not_null ne_null) (rw (not_null buffer_null) (rw size (rw prints (rw y refl))))),
        )
        | inr k ↦
            let fits : ltb (length old) (length (as_bytes s) + 1) ≡ false = ground arith in
            inl (
              ground arith,
              drop-filled n (as_bytes s) old (ground arith),
              guard-ok m false _ (
                  rw (not_null ne_null) (
                    rw (not_null buffer_null)
                      (rw size (rw prints (rw k (rw (fill_buffer, holds, fits))))))),
            )
      ]
