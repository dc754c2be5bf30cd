-- ===== src/Ffi/Links/Open.antt =====
-- A list of children cut in two, while an operation of cjson-rs-ffi relinks its ends.
use mathlib.Core.Option
use cjson_rs.Common.{
  true, some, List, [], ◌∷◌, ◌++◌, ◌≡◌, ◌≢◌, refl, sym, subst, ◌∙◌, ap, arith, ◌==◌, if◌then◌else◌,
}
use cjson_rs.Ffi.Links.{set_prev_unless_null}
use cjson_rs.Ffi.Memory.{
  Ptr, null, Node, Nodes, Memory, Cmd, Run, ok, write, with_next, with_prev, with_child, set_next,
  set_child, set_prev,
}
use cjson_rs.Ffi.Memory.Chain.{
  ◌∈◌, ◌∉◌, NodeAt, last_or, last_or-mem, has-append, Disjoint, Chain, nil, Chain-first, Chain-last,
  Chain-head, Chain-head_out, Chain-ne_null, Chain-frame, Chain-retarget, Chain-back, Chain-append,
  Chain-Cut,
}
use cjson_rs.Ffi.Memory.Children.{Children, Relinks, Relinks-next, Relinks-prev, Relinks-child}
use cjson_rs.Ffi.Memory.Runs.{not_null, modify-ok, write-at, write-other}

-- The addresses do not overlap.
pub record Apart (parent : Ptr) (xs zs : List Ptr) : Type 0 where
  pub front : parent ∉ xs
  pub rear : parent ∉ zs
  pub parts : Disjoint xs zs

module _ {F : Type 0} where
  -- The front of the children leads to `q`; the rear begins at `r`, with `back` in front of it.
  pub record Opened (h : Nodes F) (parent : Ptr) (xs : List Ptr) (q r back : Ptr) (zs : List Ptr)
      : Type 0 where
    pub node : Node F
    pub ne_null : parent ≢ null
    pub holds : h parent ≡ some node
    pub front : Chain h q null node.child xs
    pub rear : Chain h null back r zs

  pub Opened-frame :
      {h g : Nodes F} {parent q r back : Ptr} {xs zs : List Ptr}
      → Opened h parent xs q r back zs
      → ((a : Ptr) → a ∈ (parent ∷ (xs ++ zs)) → g a ≡ h a)
      → Opened g parent xs q r back zs
  Opened-frame {parent} {xs} {zs} o same = record {
    node = o.node;
    ne_null = o.ne_null;
    holds = same parent (ground arith) ∙ o.holds;
    front = Chain-frame o.front λ a i. same a (ground (arith, has-append a xs zs));
    rear = Chain-frame o.rear λ a i. same a (ground (arith, has-append a xs zs));
  }

  pub record Cut (h : Nodes F) (parent : Ptr) (xs zs : List Ptr) : Type 0 where
    pub middle : Ptr
    pub opened : Opened h parent xs middle middle (last_or null xs) zs
    pub apart : Apart parent xs zs

  pub open_at :
      {h : Nodes F} {parent : Ptr} (xs zs : List Ptr)
      → Children h parent (xs ++ zs)
      → Cut h parent xs zs
  open_at {parent = parent} xs zs c =
      let k = Chain-Cut xs c.chain in
      let parts = has-append parent xs zs in
      let out = c.apart in
      record {
        middle = k.middle;
        opened = record {
          node = c.node;
          ne_null = c.ne_null;
          holds = c.holds;
          front = k.front;
          rear = k.rear;
        };
        apart = record { front = ground arith; rear = ground arith; parts = k.apart };
      }

  pub child_at :
      {h : Nodes F} {parent z : Ptr} (xs zs : List Ptr)
      → Children h parent (xs ++ z ∷ zs)
      → NodeAt h z
  child_at {z = z} xs zs c = Chain-head (open_at xs (z ∷ zs) c).opened.rear

  pub child_ne_null :
      {h : Nodes F} {parent z : Ptr} (xs zs : List Ptr)
      → Children h parent (xs ++ z ∷ zs)
      → z ≢ null
  child_ne_null {z = z} xs zs c = (Chain-head (open_at xs (z ∷ zs) c).opened.rear).ne_null

  pub close_up :
      {h : Nodes F} {parent q : Ptr} {xs zs : List Ptr}
      → Apart parent xs zs
      → Opened h parent xs q q (last_or null xs) zs
      → Children h parent (xs ++ zs)
  close_up {parent = parent} {xs} {zs} k o = record {
    node = o.node;
    ne_null = o.ne_null;
    holds = o.holds;
    apart =
        let parts = has-append parent xs zs in let a = k.front in let b = k.rear in ground arith;
    chain = Chain-append o.front o.rear k.parts;
  }

  -- A step from `m` to an open list; so far the writes from `m₀` on are those of a relinking.
  pub record Step (m₀ m : Memory F) (written : List Ptr) (parent : Ptr) (xs : List Ptr)
      (q r back : Ptr) (zs : List Ptr) (run : Run F (Unit {0})) : Type 0 where
    pub after : Memory F
    pub returns : run ≡ ok tt after
    pub opened : Opened after.nodes parent xs q r back zs
    pub relinks : Relinks parent written m₀ after
    pub kept : (a : Ptr) → a ∉ (parent ∷ (xs ++ zs)) → after.nodes a ≡ m.nodes a

  -- what leads to the rear: the `next` of the last in front, or the `child` of the parent
  abbrev pub forward : (parent prev q : Ptr) → Cmd F (Unit {0})
  forward parent prev q = if prev == null then set_child parent q else set_next prev q

  module _ {m₀ : Memory F} {written : List Ptr} (m : Memory F) {parent : Ptr} {q r back : Ptr}
      {zs : List Ptr} (to : Ptr) (relinks : Relinks parent written m₀ m) where
    pub forward-Step :
        (xs : List Ptr)
        → Apart parent xs zs
        → Opened m.nodes parent xs q r back zs
        → ((a : Ptr) → a ∈ (parent ∷ (xs ++ zs)) → a ∈ written)
        → Step m₀ m written parent xs to r back zs (forward parent (last_or null xs) to m)
    forward-Step [] k o inside =
        let m₁ = write m parent (with_child to o.node) in
        record {
          after = m₁;
          returns = modify-ok m o.ne_null o.holds (with_child to);
          opened = record {
            node = with_child to o.node;
            ne_null = o.ne_null;
            holds = write-at m parent (with_child to o.node);
            front = nil refl;
            rear = Chain-frame o.rear λ a i. let out = k.rear in ground arith;
          };
          relinks = Relinks-child to o.node relinks o.holds (inside parent (ground arith));
          kept = λ a out. ground arith;
        }
    forward-Step (x ∷ xs) k o inside =
        let t = last_or x xs in
        let there = last_or-mem x xs in
        let tail = Chain-last o.front in
        let w = tail.node in
        let m₁ = write m t (with_next to w) in
        let p_ne : parent ≢ t = λ z. let out = k.front in ground (arith, there, z) in
        let t_out = k.parts t there in
        record {
          after = m₁;
          returns = rw (not_null tail.ne_null) (modify-ok m tail.ne_null tail.holds (with_next to));
          opened = record {
            node = o.node;
            ne_null = o.ne_null;
            holds = write-other m t (with_next to w) p_ne ∙ o.holds;
            front = Chain-retarget o.front (record {
              last = λ w' e.
                  write-at m t (with_next to w)
                  ∙ ap (Option.map (with_next to)) (sym tail.holds ∙ e);
              others = λ a i ne. write-other m t (with_next to w) ne;
            });
            rear = Chain-frame o.rear λ a i. ground arith;
          };
          relinks =
              Relinks-next t to w relinks tail.holds
                (inside t (let parts = has-append t (x ∷ xs) zs in ground (arith, there)));
          kept = λ a out. let parts = has-append t (x ∷ xs) zs in ground (arith, there);
        }

  module _ {m₀ : Memory F} {written : List Ptr} (m : Memory F) {parent : Ptr} {q r back : Ptr}
      (to : Ptr) (relinks : Relinks parent written m₀ m) where
    -- The rear begins at the first of `zs`, or at null.
    pub backward-Step :
        (xs zs : List Ptr)
        → Apart parent xs zs
        → Opened m.nodes parent xs q r back zs
        → ((a : Ptr) → a ∈ (parent ∷ (xs ++ zs)) → a ∈ written)
        → Step m₀ m written parent xs q r to zs (set_prev_unless_null r to m)
    backward-Step xs [] k o inside =
        let none_left : (r == null) ≡ true = let e = Chain-first o.rear in ground arith in
        record {
          after = m;
          returns = rw none_left refl;
          opened = record {
            node = o.node;
            ne_null = o.ne_null;
            holds = o.holds;
            front = o.front;
            rear = nil (Chain-first o.rear);
          };
          relinks = relinks;
          kept = λ a out. refl;
        }
    backward-Step xs (z ∷ zs) k o inside =
        let e = Chain-first o.rear in
        let head = Chain-head o.rear in
        let w = head.node in
        let m₁ = write m z (with_prev to w) in
        let z_in : z ∈ (xs ++ z ∷ zs) = let parts = has-append z xs (z ∷ zs) in ground arith in
        let p_ne : parent ≢ z = λ y. let out = k.rear in ground (arith, y) in
        let run : set_prev z to m ≡ ok tt m₁ = modify-ok m head.ne_null head.holds (with_prev to) in
        record {
          after = m₁;
          returns =
              rw (not_null (Chain-ne_null o.rear))
                (subst (λ y. set_prev y to m ≡ ok tt m₁) (sym e) run);
          opened = record {
            node = o.node;
            ne_null = o.ne_null;
            holds = write-other m z (with_prev to w) p_ne ∙ o.holds;
            front = Chain-frame o.front λ a i. let out = k.parts a i in ground arith;
            rear =
                Chain-back to o.rear
                  (λ n at.
                    write-at m z (with_prev to w)
                    ∙ ap (Option.map (with_prev to)) (sym head.holds ∙ at))
                  (λ a i. let out = Chain-head_out o.rear in ground arith);
          };
          relinks = Relinks-prev z to w relinks head.holds (inside z (ground arith));
          kept = λ a out. ground arith;
        }
