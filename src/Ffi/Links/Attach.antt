-- ===== src/Ffi/Links/Attach.antt =====
-- `attach_child` of cjson-rs-ffi/src/convert.rs.
use mathlib.Core.Option
use cjson_rs.Common.{
  ℕ, zero, suc, ◌<◌, ◌≤◌, true, false, some, List, [], ◌∷◌, ◌++◌, ◌≡◌, ◌≢◌, refl, sym, ◌∙◌, ap,
  arith, ◌==◌, length,
}
use cjson_rs.Ffi.Links.{find_tail, attach_child}
use cjson_rs.Ffi.Memory.{Ptr, null, Node, Memory, ok, with_next, with_prev, with_child, write}
use cjson_rs.Ffi.Memory.Chain.{
  ◌∉◌, last_or, last_or-mem, has-append, Chain, nil, cons, Chain-first, Chain-last, Chain-ne_null,
  Chain-retarget, Chain-append,
}
use cjson_rs.Ffi.Memory.Children.{
  Children, Becomes, Relinks-refl, Relinks-next, Relinks-prev, Relinks-child,
}
use cjson_rs.Ffi.Memory.Runs.{not_null, load-ok, modify-ok, write-at, write-other}

module _ {F : Type 0} where
  pub find_tail_lem :
      (f : ℕ) (m : Memory F) {before p x : Ptr} {xs : List Ptr}
      → Chain m.nodes null before p (x ∷ xs)
      → length xs < f
      → find_tail f p m ≡ ok (last_or x xs) m
  unfolding find_tail
  find_tail_lem zero m c h = absurd (omega arith)
  find_tail_lem (suc f) m {p} (cons {n} e l out (nil e')) h =
      let at : m.nodes p ≡ some n = ap m.nodes e ∙ l.holds in
      rw (find_tail, load-ok m (λ z. l.ne_null (sym e ∙ z)) at) (rw (e', e))
  find_tail_lem (suc f) m {p} (cons {n} e l out (cons e' l' out' c)) h =
      let at : m.nodes p ≡ some n = ap m.nodes e ∙ l.holds in
      let further : (n.next == null) ≡ false = not_null (λ z. l'.ne_null (sym e' ∙ z)) in
      rw (find_tail, load-ok m (λ z. l.ne_null (sym e ∙ z)) at)
        (rw further (find_tail_lem f m (cons e' l' out' c) (omega arith)))

  module _ (rounds : ℕ) (m : Memory F) (parent child : Ptr) (n : Node F) (ne_null : child ≢ null)
      (holds : m.nodes child ≡ some n) (ne : child ≢ parent) where
    attach_first :
        Children m.nodes parent []
        → Becomes parent (parent ∷ child ∷ []) (child ∷ []) m (attach_child rounds parent child m)
    unfolding attach_child
    attach_first c =
        let first : (c.node.child == null) ≡ true = let e = Chain-first c.chain in ground arith in
        let m₁ = write m parent (with_child child c.node) in
        let at₁ : m₁.nodes child ≡ some n =
          write-other m parent (with_child child c.node) ne ∙ holds in
        let m₂ = write m₁ child (with_prev null n) in
        let at₂ = write-at m₁ child (with_prev null n) in
        let done = with_next null (with_prev null n) in
        let m₃ = write m₂ child done in
        record {
          after = m₃;
          returns = rw (load-ok m c.ne_null c.holds) (
              rw first (
                rw (modify-ok m c.ne_null c.holds)
                  (rw (modify-ok m₁ ne_null at₁) (modify-ok m₂ ne_null at₂ _))));
          children = record {
            node = with_child child c.node;
            ne_null = c.ne_null;
            holds = ground (arith);
            apart = ground (arith);
            chain =
                cons refl
                  (record { ne_null = ne_null; holds = write-at m₂ child done; back = refl }) refl
                  (nil refl);
          };
          relinks =
              Relinks-next child null (with_prev null n)
                (Relinks-prev child null n
                  (Relinks-child child c.node (Relinks-refl parent _ m) c.holds (ground arith)) at₁
                  (ground arith))
                at₂ (ground arith);
        }

    attach_last :
        (x : Ptr) (xs : List Ptr)
        → Children m.nodes parent (x ∷ xs)
        → child ∉ (x ∷ xs)
        → length xs < rounds
        → Becomes parent
            (parent ∷ child ∷ x ∷ xs)
            ((x ∷ xs) ++ child ∷ [])
            m
            (attach_child rounds parent child m)
    unfolding attach_child
    attach_last x xs c new h =
        let t = last_or x xs in
        let there = last_or-mem x xs in
        let more : (c.node.child == null) ≡ false = not_null (Chain-ne_null c.chain) in
        let tail = Chain-last c.chain in
        let w = tail.node in
        let t_null = tail.ne_null in
        let t_holds = tail.holds in
        let t_ne : child ≢ t = λ z. ground (arith, new, there, z) in
        let p_ne : parent ≢ t = λ z. ground (arith, c.apart, there, z) in
        let m₁ = write m t (with_next child w) in
        let at₁ : m₁.nodes child ≡ some n = write-other m t (with_next child w) t_ne ∙ holds in
        let m₂ = write m₁ child (with_prev t n) in
        let at₂ = write-at m₁ child (with_prev t n) in
        let done = with_next null (with_prev t n) in
        let m₃ = write m₂ child done in
        let elsewhere : (a : Ptr) → a ≢ child → a ≢ t → m₃.nodes a ≡ m.nodes a =
          λ a k l. ground (arith, k, l) in
        let front : Chain m₃.nodes child null c.node.child (x ∷ xs) =
          Chain-retarget c.chain (record {
            last = λ w' e.
                write-other m₂ child done (λ z. t_ne (sym z))
                ∙ write-other m₁ child (with_prev t n) (λ z. t_ne (sym z))
                ∙ write-at m t (with_next child w)
                ∙ ap (Option.map (with_next child)) (sym t_holds ∙ e);
            others = λ a i k. elsewhere a (λ z. ground (arith, new, i, z)) k;
          }) in
        let rear : Chain m₃.nodes null t child (child ∷ []) =
          cons refl (record { ne_null = ne_null; holds = write-at m₂ child done; back = refl }) refl
            (nil refl) in
        record {
          after = m₃;
          returns = rw (load-ok m c.ne_null c.holds) (
              rw more (
                rw (find_tail_lem rounds m c.chain h) (
                  rw (modify-ok m t_null t_holds)
                    (rw (modify-ok m₁ ne_null at₁) (modify-ok m₂ ne_null at₂ _)))));
          children = record {
            node = c.node;
            ne_null = c.ne_null;
            holds = elsewhere parent (λ z. ne (sym z)) p_ne ∙ c.holds;
            apart =
                let parts = has-append parent (x ∷ xs) (child ∷ []) in
                let k = c.apart in ground (arith, ne, parts);
            chain = Chain-append front rear (λ a i. ground (arith, new, i));
          };
          relinks =
              Relinks-next child null (with_prev t n)
                (Relinks-prev child t n
                  (Relinks-next t child w (Relinks-refl parent _ m) t_holds (ground (arith, there)))
                  at₁ (ground arith))
                at₂ (ground arith);
        }

    -- With a round for each child that there is, `attach_child` of a node that is not among them
    -- puts it behind the children of the parent, and writes to links of these nodes only.
    pub attach_child-append :
        (xs : List Ptr)
        → Children m.nodes parent xs
        → child ∉ xs
        → length xs ≤ rounds
        → Becomes parent
            (parent ∷ child ∷ xs)
            (xs ++ child ∷ [])
            m
            (attach_child rounds parent child m)
    attach_child-append [] c new h = attach_first c
    attach_child-append (x ∷ xs) c new h = attach_last x xs c new (omega arith)
