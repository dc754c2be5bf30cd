-- ===== src/Ffi/Links/Index.antt =====
-- `child_at_index`, `cJSON_GetArrayItem` and `cJSON_GetArraySize` of cjson-rs-ffi.
use cjson_rs.Common.{
  ℕ, zero, suc, ◌+◌, ◌≤◌, ◌<◌, min, true, false, Option, none, some, List, [], ◌∷◌, ◌≡◌, refl, sym,
  subst, ◌∙◌, ap, arith, ◌==◌, length, get_elem?,
}
use cjson_rs.Common.Int.{ℤ, pos, negsuc}
use cjson_rs.Ffi.Links.{
  index_loop, child_at_index, cjson_get_array_item, count_loop, cjson_get_array_size, c_int_max,
}
use cjson_rs.Ffi.Memory.{Ptr, null, Memory, ok, guard}
use cjson_rs.Ffi.Memory.Chain.{Chain, Chain-Uncons, Chain-ne_null, Chain-first}
use cjson_rs.Ffi.Memory.Children.{Children}
use cjson_rs.Ffi.Memory.Runs.{not_null, load-ok, guard-ok}

-- the element at an index, or null
abbrev pub child_or_null : Option Ptr → Ptr
child_or_null none = null
child_or_null (some a) = a

-- the same for a `c_int`, which may be negative
abbrev pub nth_child : List Ptr → ℤ → Ptr
nth_child xs (pos i) = child_or_null (get_elem? xs i)
nth_child xs (negsuc i) = null

module _ {F : Type 0} where
  index_loop_lem :
      (f k i : ℕ) (m : Memory F) {before p : Ptr} (xs : List Ptr)
      → Chain m.nodes null before p xs
      → length xs < f
      → index_loop f (i + k) i p m ≡ ok (child_or_null (get_elem? xs k)) m
  unfolding index_loop
  index_loop_lem zero k i m xs c h = absurd (omega arith)
  index_loop_lem (suc f) k i m [] c h = let e = Chain-first c in ground arith
  index_loop_lem (suc f) zero i m {p = p} (x ∷ xs) c h =
      let u = Chain-Uncons c in
      let here : (i == i + 0) ≡ true = ground arith in
      rw (index_loop, not_null (Chain-ne_null c)) (rw here (ap (λ z. ok z m) u.here))
  index_loop_lem (suc f) (suc k) i m {p = p} (x ∷ xs) c h =
      let u = Chain-Uncons c in
      let later : (i == i + suc k) ≡ false = ground arith in
      let shift : i + suc k ≡ (i + 1) + k = omega arith in
      let at : m.nodes p ≡ some u.node = ap m.nodes u.here ∙ u.link.holds in
      rw (index_loop, not_null (Chain-ne_null c))
        (rw later (
          rw (load-ok m (Chain-ne_null c) at) (
            subst
              (λ z. index_loop f z (i + 1) u.node.next m ≡ ok (child_or_null (get_elem? xs k)) m)
              (sym shift) (index_loop_lem f k (i + 1) m xs u.rest (omega arith)))))

  count_loop_lem :
      (f n : ℕ) (m : Memory F) {before p : Ptr} (xs : List Ptr)
      → Chain m.nodes null before p xs
      → length xs < f
      → n ≤ c_int_max
      → count_loop f n p m ≡ ok (min (n + length xs) c_int_max) m
  unfolding count_loop
  count_loop_lem zero n m xs c h k = absurd (omega arith)
  count_loop_lem (suc f) n m {p = p} [] c h k =
      let done : (p == null) ≡ true = let e = Chain-first c in ground arith in
      let all : n ≡ min (n + 0) c_int_max = omega arith in
      rw (count_loop, done) (ap (λ z. ok z m) all)
  count_loop_lem (suc f) n m {p = p} (x ∷ xs) c h k =
      let u = Chain-Uncons c in
      let at : m.nodes p ≡ some u.node = ap m.nodes u.here ∙ u.link.holds in
      let shift : min (min (n + 1) c_int_max + length xs) c_int_max
          ≡ min (n + suc (length xs)) c_int_max =
        omega arith in
      rw (count_loop, not_null (Chain-ne_null c))
        (rw (load-ok m (Chain-ne_null c) at) (
          count_loop_lem f (min (n + 1) c_int_max) m xs u.rest (omega arith) (omega arith)
          ∙ ap (λ z. ok z m) shift))

  module _ (rounds : ℕ) (m : Memory F) (parent : Ptr) (xs : List Ptr)
      (c : Children m.nodes parent xs) (enough : length xs < rounds) where
    -- With a round for each child and one more, `child_at_index` returns the child at the index, or
    -- null if the index is negative or too large, and changes nothing.
    pub child_at_index-get_elem? :
        (which : ℤ) → child_at_index rounds parent which m ≡ ok (nth_child xs which) m
    unfolding child_at_index
    child_at_index-get_elem? (pos k) =
        let start : 0 + k ≡ k = omega arith in
        rw (not_null c.ne_null) (
          rw (load-ok m c.ne_null c.holds) (
            subst
              (λ z. index_loop rounds z 0 c.node.child m ≡ ok (child_or_null (get_elem? xs k)) m)
              start (index_loop_lem rounds k 0 m xs c.chain enough)))
    child_at_index-get_elem? (negsuc k) = rw (not_null c.ne_null) refl

    get_array_item_lem :
        (which : ℤ)
        → cjson_get_array_item rounds parent which m
          ≡ guard null (child_at_index rounds parent which) m
    unfolding cjson_get_array_item child_at_index
    get_array_item_lem which = refl

    -- With a round for each child and one more, `cJSON_GetArrayItem` returns the child at the index,
    -- or null if the index is negative or too large, and changes nothing.
    pub get_array_item-get_elem? :
        (which : ℤ) → cjson_get_array_item rounds parent which m ≡ ok (nth_child xs which) m
    get_array_item-get_elem? which =
        get_array_item_lem which
        ∙ guard-ok m null (child_at_index rounds parent which) (child_at_index-get_elem? which)

    -- `cJSON_GetArraySize` counts the children, up to the largest `c_int`, if it has a round for each
    -- and one more; it changes nothing.
    pub get_array_size-length :
        cjson_get_array_size rounds parent m ≡ ok (min (length xs) c_int_max) m
    unfolding cjson_get_array_size
    get_array_size-length = guard-ok m 0 _ (
        rw (not_null c.ne_null) (
          rw (load-ok m c.ne_null c.holds) (
            count_loop_lem rounds 0 m xs c.chain enough (omega arith)
            ∙ let e : 0 + length xs ≡ length xs = omega arith in
              ap (λ z. ok (min z c_int_max) m) e)))
