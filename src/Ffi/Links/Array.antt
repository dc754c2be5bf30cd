-- ===== src/Ffi/Links/Array.antt =====
-- `cJSON_AddItemToArray` and `cJSON_DetachItemFromArray` of cjson-rs-ffi/src/lib.rs.
use cjson_rs.Common.{
  ℕ, true, false, some, List, [], ◌∷◌, ◌++◌, ◌≡◌, ◌≢◌, refl, sym, subst, ◌∙◌, ap, arith, ◌==◌,
  length, get_elem?, ◌≤◌, ◌<◌, inl, inr, ◌⊎◌,
}
use cjson_rs.Common.Int.{ℤ, pos, negsuc}
use cjson_rs.Ffi.Links.{child_at_index, cjson_add_item_to_array, cjson_detach_item_from_array}
use cjson_rs.Ffi.Links.Attach.{attach_child-append}
use cjson_rs.Ffi.Links.Detach.{detach-remove}
use cjson_rs.Ffi.Links.Index.{child_at_index-get_elem?, child_or_null, nth_child}
use cjson_rs.Ffi.Links.Open.{child_at}
use cjson_rs.Ffi.Links.Place.{inside, past, place, remove_at}
use cjson_rs.Ffi.Memory.{Ptr, null, Node, Memory, Run, ok, with_prev, with_next}
use cjson_rs.Ffi.Memory.Chain.{◌∉◌}
use cjson_rs.Ffi.Memory.Children.{Children, Gives, Relinks}
use cjson_rs.Ffi.Memory.Runs.{not_null, load-ok, guard-ok}
use cjson_rs.Ffi.Types.{tag, cjson_array}

module _ {F : Type 0} (rounds : ℕ) (m : Memory F) (array : Ptr) (xs : List Ptr)
    (c : Children m.nodes array xs) where
  module _ (item : Ptr) (w : Node F) (ne_null : item ≢ null) (holds : m.nodes item ≡ some w)
      (is_array : tag c.node.type_ ≡ cjson_array) (new : item ∉ (array ∷ xs))
      (enough : length xs ≤ rounds) where
    -- With a round for each child, `cJSON_AddItemToArray` of a node that is neither the array nor in it
    -- puts the node at the end of the array, returns true, and writes to links of these nodes only.
    pub add_item-append :
        Gives true array
          (array ∷ item ∷ xs)
          (xs ++ item ∷ [])
          m
          (cjson_add_item_to_array rounds array item m)
    unfolding cjson_add_item_to_array
    add_item-append =
        let b =
          attach_child-append rounds m array item w ne_null holds (λ z. ground (arith, new, z)) xs c
            (ground (arith, new)) enough in
        let same_tag : (tag c.node.type_ == cjson_array) ≡ true = ground (arith, is_array) in
        record {
          after = b.after;
          returns = guard-ok m false _ (
              rw (not_null c.ne_null) (
                rw (not_null ne_null)
                  (rw (load-ok m c.ne_null c.holds) (rw same_tag (rw b.returns refl)))));
          children = b.children;
          relinks = b.relinks;
        }

  -- The run takes the child `e` at the index out, returns it and makes its links null.
  pub record Taken (k : ℕ) (e : Ptr) (run : Run F Ptr) : Type 0 where
    pub gives : Gives e array (array ∷ xs) (remove_at k xs) m run
    pub node : Node F
    pub held : m.nodes e ≡ some node
    pub alone : gives.after.nodes e ≡ some (with_prev null (with_next null node))

  module _ (enough : length xs < rounds) where
    found : (which : ℤ) → child_at_index rounds array which m ≡ ok (nth_child xs which) m
    found which = child_at_index-get_elem? rounds m array xs c enough which

    nothing_found :
        (which : ℤ)
        → nth_child xs which ≡ null
        → cjson_detach_item_from_array rounds array which m ≡ ok null m
    unfolding cjson_detach_item_from_array
    nothing_found which none_there =
        guard-ok m null _ (rw (found which ∙ ap (λ z. ok z m) none_there) refl)

    -- With a round for each child and one more, `cJSON_DetachItemFromArray` takes out the child at the
    -- index, makes its links null and returns it; or, if the index is negative or too large, it returns
    -- null and leaves the memory as it is.
    pub detach_item-remove_at :
        (which : ℤ)
        → ((k : ℕ) × (e : Ptr) × (which ≡ pos k)
            × (get_elem? xs k ≡ some e)
            × Taken k e (cjson_detach_item_from_array rounds array which m))
          ⊎ ((nth_child xs which ≡ null)
              × (cjson_detach_item_from_array rounds array which m ≡ ok null m))
    unfolding cjson_detach_item_from_array
    detach_item-remove_at (negsuc k) = inr (refl, nothing_found (negsuc k) refl)
    detach_item-remove_at (pos k) = elim (place k xs) [
      | inside e at i ↦
          let c' = subst (Children m.nodes array) i.whole c in
          let d = detach-remove m array e i.front i.rear c' in
          let b = d.becomes in
          let h = child_at i.front i.rear c' in
          let at_e : child_at_index rounds array (pos k) m ≡ ok e m =
            found (pos k) ∙ ap (λ z. ok (child_or_null z) m) at in
          inl (
            k,
            e,
            refl,
            at,
            record {
              gives = record {
                after = b.after;
                returns = guard-ok m null _ (rw at_e (rw (not_null h.ne_null) (rw b.returns refl)));
                children = subst (Children b.after.nodes array) (sym i.removed) b.children;
                relinks = subst (λ z. Relinks array (array ∷ z) m b.after) (sym i.whole) b.relinks;
              };
              node = h.node;
              held = h.holds;
              alone = d.alone h.node h.holds;
            },
          )
      | past at i ↦ inr (ap child_or_null at, nothing_found (pos k) (ap child_or_null at))
    ]
