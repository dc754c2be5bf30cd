-- ===== src/Ffi/Objects/Relink.antt =====
-- The links in `replace_via_pointer` of cjson-rs-ffi/src/lib.rs.
use cjson_rs.Common.{
  some, List, ◌∷◌, ◌++◌, ◌≡◌, ◌≢◌, refl, sym, subst, ◌∙◌, arith, ◌==◌, if◌then◌else◌,
}
use cjson_rs.Ffi.Links.Detach.{Apart-drop, middle_out, middle_inside}
use cjson_rs.Ffi.Links.Open.{
  Opened, Opened-frame, open_at, close_up, forward, forward-Step, backward-Step,
}
use cjson_rs.Ffi.Memory.{
  Ptr, null, Node, Memory, ok, write, with_next, with_prev, set_next, set_child,
}
use cjson_rs.Ffi.Memory.Chain.{◌∈◌, ◌∉◌, has-append, cons, Chain-Uncons}
use cjson_rs.Ffi.Memory.Children.{Children, Becomes, Relinks-refl, Relinks-next, Relinks-prev}
use cjson_rs.Ffi.Memory.Runs.{load-ok, modify-ok, write-at, write-other}
use cjson_rs.Ffi.Objects.{relink}

module _ {F : Type 0} (m : Memory F) (parent item replacement : Ptr) (w : Node F)
    (ne_null : replacement ≢ null) (holds : m.nodes replacement ≡ some w) where
  -- The links in `replace_via_pointer` put a node that is neither the parent nor among its children in
  -- the place of the child, wherever that stands, and write to links of these nodes only.
  pub relink-replace :
      (xs ys : List Ptr)
      → Children m.nodes parent (xs ++ item ∷ ys)
      → replacement ∉ (parent ∷ (xs ++ item ∷ ys))
      → Becomes parent
          (parent ∷ replacement ∷ (xs ++ item ∷ ys))
          (xs ++ replacement ∷ ys)
          m
          (relink parent item replacement m)
  unfolding relink
  relink-replace xs ys c new =
      let cut = open_at xs (item ∷ ys) c in
      let o = cut.opened in
      let k = Apart-drop cut.apart in
      let u = Chain-Uncons o.rear in
      let n = u.node in
      let item_out = middle_out xs ys cut.apart u.out in
      let ne : item ≢ replacement =
        λ z. let p = has-append replacement xs (item ∷ ys) in ground arith in
      let out : replacement ∉ (parent ∷ (xs ++ ys)) =
        let p = has-append replacement xs (item ∷ ys) in
        let p' = has-append replacement xs ys in ground arith in
      let new_node = with_prev n.prev w in
      let done = with_next n.next new_node in
      let m₁ = write m replacement new_node in
      let at₁ = write-at m replacement new_node in
      let item₁ : m₁.nodes item ≡ some n = write-other m replacement new_node ne ∙ u.link.holds in
      let m₂ = write m₁ replacement done in
      let item₂ : m₂.nodes item ≡ some n = write-other m₁ replacement done ne ∙ item₁ in
      let in_new : replacement ∈ (parent ∷ replacement ∷ (xs ++ item ∷ ys)) = ground arith in
      let r₂ =
        Relinks-next replacement n.next new_node
          (Relinks-prev replacement n.prev w
            (Relinks-refl parent (parent ∷ replacement ∷ (xs ++ item ∷ ys)) m) holds in_new)
          at₁ in_new in
      let inside : (a : Ptr)
          → a ∈ (parent ∷ (xs ++ ys))
          → a ∈ (parent ∷ replacement ∷ (xs ++ item ∷ ys)) =
        λ a i. let j = middle_inside parent a xs item ys i in ground arith in
      let o₂ : Opened m₂.nodes parent xs cut.middle n.next item ys =
        Opened-frame
          (record {
            node = o.node;
            ne_null = o.ne_null;
            holds = o.holds;
            front = o.front;
            rear = u.rest;
          })
          (λ a i.
            let other : a ≢ replacement = λ z. ground (arith, out, i, z) in
            write-other m₁ replacement done other ∙ write-other m replacement new_node other) in
      let s₁ = forward-Step m₂ replacement r₂ xs k o₂ inside in
      let s₂ = backward-Step s₁.after replacement s₁.relinks xs ys k s₁.opened inside in
      let run₁ : (if n.prev == null
              then set_child parent replacement
              else set_next n.prev replacement)
            m₂
          ≡ ok tt s₁.after =
        subst (λ z. forward parent z replacement m₂ ≡ ok tt s₁.after) (sym u.link.back)
          s₁.returns in
      let item₃ : s₁.after.nodes item ≡ some n = s₁.kept item item_out ∙ item₂ in
      let at₃ : s₂.after.nodes replacement ≡ some done =
        s₂.kept replacement out ∙ s₁.kept replacement out ∙ write-at m₁ replacement done in
      let q = s₂.opened in
      record {
        after = s₂.after;
        returns = rw (load-ok m u.link.ne_null u.link.holds) (
            rw (modify-ok m ne_null holds) (
              rw (modify-ok m₁ ne_null at₁)
                (rw run₁ (rw (load-ok s₁.after u.link.ne_null item₃) s₂.returns))));
        children =
            close_up
              (record {
                front = k.front;
                rear = let p_out = k.rear in ground arith;
                parts =
                    λ a i. let a_out = k.parts a i in let p = has-append a xs ys in ground arith;
              })
              (record {
                node = q.node;
                ne_null = q.ne_null;
                holds = q.holds;
                front = q.front;
                rear =
                    cons refl (record { ne_null = ne_null; holds = at₃; back = u.link.back })
                      (let p = has-append replacement xs ys in ground arith) q.rear;
              });
        relinks = s₂.relinks;
      }
