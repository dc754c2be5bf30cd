-- ===== src/Ffi/Trees/Whole.antt =====
-- The tree that `value_to_cjson` of cjson-rs-ffi/src/convert.rs builds, for `cjson_to_value` of
-- cjson-rs-ffi/src/lib.rs and for `free_cjson`.
use cjson_rs.Common.{
  ℕ, suc, ◌≤◌, some, List, [], ◌∷◌, append-nil, Bool-cases, inl, inr, ◌++◌, ◌≡◌, ◌≢◌, refl, sym,
  ◌∙◌, ap, arith, subst, length,
}
use cjson_rs.Ffi.Alloc.{Double, zeroed, fill_node, value_to_cjson, free_cjson}
use cjson_rs.Ffi.Create.Created.{alloc_node-ok}
use cjson_rs.Ffi.Memory.{Ptr, Memory, ok, write}
use cjson_rs.Ffi.Memory.Fresh.{
  Fresh, fresh_head, Distinct, Distinct-append, DistinctParts, Fresh-Distinct, Fresh-Within,
  Fresh-rear, Within-trans, Fresh-no_node, Fresh-no_text,
}
use cjson_rs.Ffi.Memory.Chain.{has, has-append, ◌∈◌, ◌∉◌}
use cjson_rs.Ffi.Memory.Runs.{not_null, write-at}
use cjson_rs.Ffi.Trees.{cjson_to_value}
use cjson_rs.Ffi.Trees.Build.{fill_node-Filled}
use cjson_rs.Ffi.Trees.Cells.{content_cells, Filled}
use cjson_rs.Ffi.Trees.Child.{served-Fresh, serve, Within-serve}
use cjson_rs.Ffi.Trees.Free.{free_cjson-Content}
use cjson_rs.Ffi.Trees.Release.{without_key}
use cjson_rs.Ffi.Trees.Read.{cut_value, rounds_of, cjson_to_value-Content}
use cjson_rs.Serialiser.Normal.{HasText}
use cjson_rs.Value.{Value}

module _ {F : Type 0} (f64 : Double F) (rounds : ℕ) (v : Value F) (m : Memory F) (a : Ptr)
    (bs : List Ptr) (answers : m.answers ≡ a ∷ bs) (fresh : Fresh m (a ∷ bs))
    (enough : content_cells v ≤ length bs) where
  -- the run of `value_to_cjson`
  pub value_to_cjson-Filled :
      Filled (write (serve m bs) a (zeroed f64)) a bs v (value_to_cjson f64 rounds v m)
  unfolding value_to_cjson
  value_to_cjson-Filled =
      let s = fresh_head fresh in
      let f =
        fill_node-Filled f64 rounds v a (write (serve m bs) a (zeroed f64)) bs refl s.ne_null
          (write-at (serve m bs) a (zeroed f64)) s.out (served-Fresh f64 m a bs fresh) enough in
      let run : value_to_cjson f64 rounds v m
          ≡ fill_node f64 rounds a v (write (serve m bs) a (zeroed f64)) =
        rw (alloc_node-ok f64 m a bs answers s.ne_null s.free s.no_text)
          (rw (not_null s.ne_null) refl) in
      subst (Filled (write (serve m bs) a (zeroed f64)) a bs v) (sym run) f

  -- what is left for the allocator
  pub left-Fresh : Fresh value_to_cjson-Filled.after value_to_cjson-Filled.left
  left-Fresh =
      let r = value_to_cjson-Filled in
      let fr = subst (λ z. Fresh m (a ∷ z)) r.split fresh in
      let parts = DistinctParts.parts (Distinct-append (a ∷ r.used) r.left (Fresh-Distinct fr)) in
      let all =
        Within-trans {es = a ∷ r.used} (Within-serve m bs a (zeroed f64)) r.within
          (λ d i. ground (arith, i)) (λ d i. i) in
      Fresh-Within all (λ d i. let q = parts d in ground (arith, q)) (Fresh-rear (a ∷ r.used) fr)

  -- If the allocator serves as many addresses that are not in use as the value takes, and the strings
  -- and the keys of the value consist of characters, then `value_to_cjson` returns the first of them,
  -- and `cjson_to_value` reads from there the value with each string and key cut at its first NUL, and
  -- changes nothing, on any fuel from the rounds of the walk on.
  pub cjson_to_value-value_to_cjson :
      HasText v
      → (f : ℕ) → rounds_of v ≤ f
      → (after : Memory F) × (value_to_cjson f64 rounds v m ≡ ok a after)
        × (cjson_to_value f a after ≡ ok (some (cut_value v)) after)
  cjson_to_value-value_to_cjson t f h =
      let r = value_to_cjson-Filled in
      let s = fresh_head fresh in
      (r.after, r.returns, cjson_to_value-Content v f r.after a s.ne_null r.holds r.content t h)

  -- On such a memory, `value_to_cjson` and then `free_cjson` of its result run without a fault, and in
  -- the end no address holds anything else than before: all that was allocated is freed, once, and
  -- nothing else is.
  pub free_cjson-value_to_cjson :
      (f : ℕ)
      → suc (rounds_of v) ≤ f
      → (after : Memory F) × (freed : Memory F) × (value_to_cjson f64 rounds v m ≡ ok a after)
        × (free_cjson f a after ≡ ok tt freed)
        × ((p : Ptr) → (freed.nodes p ≡ m.nodes p) × (freed.texts p ≡ m.texts p))
  free_cjson-value_to_cjson f h =
      let r = value_to_cjson-Filled in
      let s = fresh_head fresh in
      let owned : Distinct (a ∷ (r.used ++ [])) =
        subst Distinct (ap (λ z. a ∷ z) (sym (append-nil r.used))) (
          DistinctParts.front (
            Distinct-append (a ∷ r.used) r.left
              (subst (λ z. Distinct (a ∷ z)) r.split (Fresh-Distinct fresh)))) in
      let x =
        free_cjson-Content v f r.after a s.ne_null r.holds (without_key r.string) r.content refl
          owned h in
      (
        r.after,
        x.after,
        r.returns,
        x.returns,
        λ p. elim (Bool-cases (has p (a ∷ (r.used ++ [])))) [
          | inl i ↦
              let i' : p ∈ (a ∷ bs) =
                let q = has-append p r.used r.left in
                let w = has-append p r.used [] in let z = ap (has p) r.split in ground arith in
              (
                x.gone.no_node p i ∙ sym (Fresh-no_node fresh p i'),
                x.gone.no_text p i ∙ sym (Fresh-no_text fresh p i'),
              )
          | inr o ↦
              let o' : p ∉ (a ∷ r.used) = let w = has-append p r.used [] in ground arith in
              let e : p ≢ a = λ z. ground (arith, o, z) in
              (
                x.gone.nodes p o ∙ r.within.nodes p o' ∙ (let q = e in ground arith),
                x.gone.texts p o ∙ r.within.texts p o',
              )
        ],
      )
