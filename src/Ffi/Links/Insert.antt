-- ===== src/Ffi/Links/Insert.antt =====
-- `cJSON_InsertItemInArray` of cjson-rs-ffi/src/lib.rs.
use cjson_rs.Common.{
  ℕ, true, false, some, List, ◌∷◌, ◌++◌, ◌≡◌, ◌≢◌, refl, sym, subst, ◌∙◌, ap, arith, ◌==◌,
  if◌then◌else◌, length, ◌<◌,
}
use cjson_rs.Common.Int.{pos}
use cjson_rs.Ffi.Links.{
  splice, attach_child, set_prev_unless_null, child_at_index, cjson_insert_item_in_array,
}
use cjson_rs.Ffi.Links.Attach.{attach_child-append}
use cjson_rs.Ffi.Links.Index.{child_at_index-get_elem?, child_or_null}
use cjson_rs.Ffi.Links.Open.{
  Opened-frame, open_at, close_up, child_ne_null, forward, forward-Step, backward-Step,
}
use cjson_rs.Ffi.Links.Place.{inside, past, place, insert_at}
use cjson_rs.Ffi.Memory.{
  Ptr, null, Node, Memory, Run, ok, pure, write, with_next, with_prev, set_next, set_prev,
  set_child,
}
use cjson_rs.Ffi.Memory.Chain.{◌∈◌, ◌∉◌, has-append, cons, Chain, Chain-Uncons}
use cjson_rs.Ffi.Memory.Children.{
  Children, Becomes, Gives, Relinks, Relinks-refl, Relinks-next, Relinks-prev,
}
use cjson_rs.Ffi.Memory.Runs.{not_null, guard-ok, load-ok, modify-ok, write-at, write-other}
use cjson_rs.Ffi.Types.{tag, cjson_array}

module _ {F : Type 0} (m : Memory F) (array newitem : Ptr) (w : Node F) (ne_null : newitem ≢ null)
    (holds : m.nodes newitem ≡ some w) where
  splice-between :
      (existing : Ptr) (xs ys : List Ptr)
      → Children m.nodes array (xs ++ existing ∷ ys)
      → newitem ∉ (array ∷ (xs ++ existing ∷ ys))
      → Becomes array
          (array ∷ newitem ∷ (xs ++ existing ∷ ys))
          (xs ++ newitem ∷ existing ∷ ys)
          m
          (splice array existing newitem m)
  unfolding splice
  splice-between existing xs ys c new =
      let zs = existing ∷ ys in
      let cut = open_at xs zs c in
      let o = cut.opened in
      let k = cut.apart in
      let u = Chain-Uncons o.rear in
      let n = u.node in
      let m₁ = write m newitem (with_prev n.prev w) in
      let at₁ = write-at m newitem (with_prev n.prev w) in
      let done = with_next existing (with_prev n.prev w) in
      let m₂ = write m₁ newitem done in
      let in_new : newitem ∈ (array ∷ newitem ∷ (xs ++ zs)) = ground arith in
      let r₂ =
        Relinks-next newitem existing (with_prev n.prev w)
          (Relinks-prev newitem n.prev w (Relinks-refl array (array ∷ newitem ∷ (xs ++ zs)) m) holds
            in_new)
          at₁ in_new in
      let inside_ : (a : Ptr) → a ∈ (array ∷ (xs ++ zs)) → a ∈ (array ∷ newitem ∷ (xs ++ zs)) =
        λ a i. ground arith in
      let o₂ = Opened-frame o λ a i.
        let ne : a ≢ newitem = λ z. ground (arith, new, i, z) in
        write-other m₁ newitem done ne ∙ write-other m newitem (with_prev n.prev w) ne in
      let s₁ = forward-Step m₂ newitem r₂ xs k o₂ inside_ in
      let s₂ = backward-Step s₁.after newitem s₁.relinks xs zs k s₁.opened inside_ in
      let run₁ : (if n.prev == null then set_child array newitem else set_next n.prev newitem) m₂
          ≡ ok tt s₁.after =
        subst (λ z. forward array z newitem m₂ ≡ ok tt s₁.after) (sym u.link.back) s₁.returns in
      let run₂ : set_prev existing newitem s₁.after ≡ ok tt s₂.after =
        ap (λ z. (if z then pure tt else set_prev existing newitem) s₁.after)
          (sym (not_null u.link.ne_null))
        ∙ subst (λ z. set_prev_unless_null z newitem s₁.after ≡ ok tt s₂.after) u.here s₂.returns in
      let at₂ : s₂.after.nodes newitem ≡ some done =
        s₂.kept newitem new ∙ s₁.kept newitem new ∙ write-at m₁ newitem done in
      let q = s₂.opened in
      let parts = has-append newitem xs zs in
      record {
        after = s₂.after;
        returns =
            rw (load-ok m u.link.ne_null u.link.holds)
              (rw (modify-ok m ne_null holds) (rw (modify-ok m₁ ne_null at₁) (rw run₁ run₂)));
        children =
            close_up
              (record {
                front = k.front;
                rear = let out = k.rear in ground arith;
                parts = λ a i. let out = k.parts a i in ground arith;
              })
              (record {
                node = q.node;
                ne_null = q.ne_null;
                holds = q.holds;
                front = q.front;
                rear =
                    cons refl (record { ne_null = ne_null; holds = at₂; back = u.link.back })
                      (ground arith)
                      (subst (λ z. Chain s₂.after.nodes null newitem z zs) u.here q.rear);
              });
        relinks = s₂.relinks;
      }

  module _ (rounds k : ℕ) (xs : List Ptr) (c : Children m.nodes array xs)
      (is_array : tag c.node.type_ ≡ cjson_array) (new : newitem ∉ (array ∷ xs))
      (enough : length xs < rounds) where
    same_tag : (tag c.node.type_ == cjson_array) ≡ true
    same_tag = ground (arith, is_array)

    insert_past :
        {run : Run F (Unit {0})}
        → child_at_index rounds array (pos k) m ≡ ok null m
        → attach_child rounds array newitem m ≡ run
        → (after : Memory F) → run ≡ ok tt after
        → cjson_insert_item_in_array rounds array (pos k) newitem m ≡ ok true after
    unfolding cjson_insert_item_in_array
    insert_past e r after done = guard-ok m false _ (
        rw (not_null c.ne_null) (
          rw (not_null ne_null)
            (rw (load-ok m c.ne_null c.holds) (rw same_tag (rw e (rw r (rw done refl)))))))

    insert_inside :
        {run : Run F (Unit {0})} (existing : Ptr)
        → existing ≢ null
        → child_at_index rounds array (pos k) m ≡ ok existing m
        → splice array existing newitem m ≡ run
        → (after : Memory F) → run ≡ ok tt after
        → cjson_insert_item_in_array rounds array (pos k) newitem m ≡ ok true after
    unfolding cjson_insert_item_in_array
    insert_inside existing nn e r after done = guard-ok m false _ (
        rw (not_null c.ne_null) (
          rw (not_null ne_null) (
            rw (load-ok m c.ne_null c.holds)
              (rw same_tag (rw e (rw (not_null nn) (rw r (rw done refl))))))))

    -- With a round for each child and one more, `cJSON_InsertItemInArray` of a node that is neither the
    -- array nor in it, at an index that is not negative, puts the node in front of the child at that
    -- index, or at the end if there is none, returns true, and writes to links of these nodes only.
    pub insert_item-insert_at :
        Gives true array
          (array ∷ newitem ∷ xs)
          (insert_at k newitem xs)
          m
          (cjson_insert_item_in_array rounds array (pos k) newitem m)
    insert_item-insert_at = elim (place k xs) [
      | inside e at i ↦
          let b =
            splice-between e i.front i.rear (subst (Children m.nodes array) i.whole c)
              (subst (λ z. newitem ∉ (array ∷ z)) i.whole new) in
          let nn = child_ne_null i.front i.rear (subst (Children m.nodes array) i.whole c) in
          record {
            after = b.after;
            returns =
                insert_inside e nn
                  (child_at_index-get_elem? rounds m array xs c enough (pos k)
                    ∙ ap (λ z. ok (child_or_null z) m) at)
                  refl b.after b.returns;
            children = subst (Children b.after.nodes array) (sym (i.inserted newitem)) b.children;
            relinks =
                subst (λ z. Relinks array (array ∷ newitem ∷ z) m b.after) (sym i.whole) b.relinks;
          }
      | past at i ↦
          let b =
            attach_child-append rounds m array newitem w ne_null holds (λ z. ground (arith, new, z))
              xs c (ground (arith, new)) (omega arith) in
          record {
            after = b.after;
            returns =
                insert_past
                  (child_at_index-get_elem? rounds m array xs c enough (pos k)
                    ∙ ap (λ z. ok (child_or_null z) m) at)
                  refl b.after b.returns;
            children = subst (Children b.after.nodes array) (sym (i.inserted newitem)) b.children;
            relinks = b.relinks;
          }
    ]
