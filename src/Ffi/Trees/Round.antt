-- ===== src/Ffi/Trees/Round.antt =====
-- One round of `append_children` of cjson-rs-ffi/src/convert.rs whose allocations succeed.
use cjson_rs.Common.{
  ℕ, Bool, false, List, [], ◌∷◌, ◌++◌, ◌≡◌, refl, subst, ◌∙◌, append_assoc, ap, arith, length,
}
use cjson_rs.Ffi.Alloc.{Double, alloc_node, zeroed, fill_node, append_items, append_members}
use cjson_rs.Ffi.Create.Created.{alloc_node-ok}
use cjson_rs.Ffi.Memory.{Run, ok, Ptr, Node, Memory, write, with_prev}
use cjson_rs.Ffi.Memory.Fresh.{fresh_head, FreshHead, Fresh-Distinct, Within}
use cjson_rs.Ffi.Memory.Runs.{not_null, modify-ok}
use cjson_rs.Ffi.Trees.Join.{owner, with_slot, Chained, joined}
use cjson_rs.Ffi.Trees.Shape.{Elements, element, Fields, field, Content-frame, Agree-part}
use cjson_rs.Ffi.Trees.Cells.{item_cells, member_cells, Filled}
use cjson_rs.Ffi.Trees.Child.{
  Child, last_mem, front_mem, Ready, serve, linked, slot_run, filled-Child,
}
use cjson_rs.Ffi.Trees.Keyed.{KeyedChild, named, keyed, keyed-KeyedChild}
use cjson_rs.Value.{Value, Items, Members, item, member}

module _ {F : Type 0} (f64 : Double F) (rounds : ℕ) where
  -- the run that fills the node of the child
  abbrev pub filling : Memory F → Ptr → List Ptr → Value F → Run F Ptr
  filling m a bs v = fill_node f64 rounds a v (write (serve m bs) a (zeroed f64))

  module _ {b : Bool} {parent prev : Ptr} {m : Memory F} {a : Ptr} {bs : List Ptr} {w₀ : Node F}
      {v : Value F} (k : Ready b parent prev m (a ∷ bs) w₀)
      (f : Filled (write (serve m bs) a (zeroed f64)) a bs v (filling m a bs v)) where
    -- the node is there
    pub served_run : alloc_node f64 m ≡ ok a (write (serve m bs) a (zeroed f64))
    served_run =
        let s = fresh_head k.fresh in alloc_node-ok f64 m a bs k.answers s.ne_null s.free s.no_text

    pub round-Child : Child b parent prev m a bs w₀ f.after f.n f.used f.left
    round-Child = filled-Child f64 k (FreshHead.ne_null (fresh_head k.fresh)) f

    pub append_items_round :
        (vs : Items F)
        → append_items f64 rounds parent prev (item v vs) m
          ≡ append_items f64 rounds parent a vs
              (linked (owner b parent prev) prev a b w₀ f.after f.n)
    unfolding fill_node
    append_items_round vs =
        let c = round-Child in
        rw served_run (
          rw (not_null c.ne_null) (
            rw f.returns (
              rw (not_null c.ne_null) (
                rw (modify-ok f.after c.ne_null f.holds (with_prev prev)) (rw (slot_run c) refl)))))

    pub append_items_more :
        (vs : Items F) {run : Run F Bool}
        → Chained
            (λ m p cs. Elements m a p cs vs)
            (linked (owner b parent prev) prev a b w₀ f.after f.n)
            a
            (λ q. with_slot false q (with_prev prev f.n))
            f.left
            (item_cells vs)
            run
        → Chained
            (λ m p cs. Elements m prev p cs (item v vs))
            m
            (owner b parent prev)
            (λ q. with_slot b q w₀)
            (a ∷ bs)
            (item_cells (item v vs))
            run
    append_items_more vs r =
        let c = round-Child in
        let j =
          joined m f.after (owner b parent prev) a (with_prev prev f.n) (with_slot b a w₀) bs f.used
            f.left k.out (Fresh-Distinct k.fresh) f.split c.within r in
        record {
          used = a ∷ (f.used ++ r.used);
          left = r.left;
          after = r.after;
          first = a;
          returns = r.returns;
          split = j.split;
          size = omega (arith, f.size, r.size);
          answers = r.answers;
          children =
              element refl (record { ne_null = c.ne_null; holds = r.slot; back = refl }) f.string
                (Content-frame v f.content j.agree) r.children refl;
          slot = j.slot;
          within = j.within;
        }

    module _ (t : Ptr) (ls : List Ptr) (key : List ℕ) (e : f.left ≡ t ∷ ls) where
      -- the memory with the key of the child
      abbrev pub with_key_at : Memory F
      with_key_at = write (keyed f.after t ls key) a (named t f.n)

      pub round-KeyedChild : KeyedChild b parent prev m a bs w₀ f.after f.n f.used v t ls key
      round-KeyedChild =
          keyed-KeyedChild f64 k (FreshHead.ne_null (fresh_head k.fresh)) f t ls key e

      pub append_members_round :
          (ms : Members F)
          → append_members f64 rounds parent prev (member key v ms) m
            ≡ append_members f64 rounds parent a ms
                (linked (owner b parent prev) prev a b w₀ with_key_at (named t f.n))
      unfolding fill_node
      append_members_round ms =
          let kc = round-KeyedChild in
          let c = kc.child in
          rw served_run (
            rw (not_null c.ne_null) (
              rw f.returns (
                rw (not_null c.ne_null) (
                  rw kc.copied (
                    rw
                      (modify-ok (keyed f.after t ls key) c.ne_null f.holds
                        λ z. record z { string = t })
                      (rw (not_null kc.t_null) (
                        rw (modify-ok with_key_at c.ne_null c.holds (with_prev prev))
                          (rw (slot_run c) refl))))))))

      pub append_members_more :
          (ms : Members F) {run : Run F Bool}
          → Chained
              (λ m p cs. Fields m a p cs ms)
              (linked (owner b parent prev) prev a b w₀ with_key_at (named t f.n))
              a
              (λ q. with_slot false q (with_prev prev (named t f.n)))
              ls
              (member_cells ms)
              run
          → Chained
              (λ m p cs. Fields m prev p cs (member key v ms))
              m
              (owner b parent prev)
              (λ q. with_slot b q w₀)
              (a ∷ bs)
              (member_cells (member key v ms))
              run
      append_members_more ms r =
          let kc = round-KeyedChild in
          let c = kc.child in
          let o = owner b parent prev in
          let j =
            joined m with_key_at o a (with_prev prev (named t f.n)) (with_slot b a w₀) bs
              (f.used ++ t ∷ []) ls k.out (Fresh-Distinct k.fresh) c.split c.within r in
          let flat : (f.used ++ t ∷ []) ++ r.used ≡ f.used ++ t ∷ r.used =
            append_assoc f.used (t ∷ []) r.used in
          record {
            used = a ∷ (f.used ++ t ∷ r.used);
            left = r.left;
            after = r.after;
            first = a;
            returns = r.returns;
            split = j.split ∙ ap (λ z. (a ∷ z) ++ r.left) flat;
            size = omega (arith, f.size, ap length e, r.size);
            answers = r.answers;
            children =
                field refl (record { ne_null = c.ne_null; holds = r.slot; back = refl })
                  (record {
                    ne_null = kc.t_null;
                    holds = j.agree.texts t (last_mem f.used t) ∙ kc.text;
                  })
                  (Content-frame v kc.content (Agree-part j.agree (front_mem f.used t))) r.children
                  refl;
            slot = j.slot;
            within = subst (λ z. Within (o ∷ a ∷ z) m r.after) flat j.within;
          }
