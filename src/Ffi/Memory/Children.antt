-- ===== src/Ffi/Memory/Children.antt =====
-- The children of a node as the list of their addresses, and what an operation on the links leaves
-- alone.
use mathlib.Core.Option
use cjson_rs.Common.{
  Bool, true, false, some, List, ◌≡◌, ◌≢◌, refl, sym, ◌∙◌, ap, arith, inl, inr, subst, Bool-cases,
  ◌==◌,
}
use cjson_rs.Ffi.Memory.{
  Ptr, null, Node, Nodes, Memory, Run, Cmd, ok, and_then, guard, update, write, with_next,
  with_prev, with_child,
}
use cjson_rs.Ffi.Memory.Runs.{guard-ok}
use cjson_rs.Ffi.Memory.Chain.{◌∈◌, ◌∉◌, Chain}

module _ {F : Type 0} where
  pub record Children (h : Nodes F) (parent : Ptr) (xs : List Ptr) : Type 0 where
    pub node : Node F
    pub ne_null : parent ≢ null
    pub holds : h parent ≡ some node
    pub apart : parent ∉ xs
    pub chain : Chain h null null node.child xs

  -- a node without its links; `child` counts as a link for the parent only
  abbrev pub unlinked : Bool → Node F → Node F
  unlinked true n = record n { next = null; prev = null; child = null }
  unlinked false n = record n { next = null; prev = null }

  -- What the nodes hold is the same, but for the links among the children of `parent`.
  pub record SameValues (parent : Ptr) (h g : Nodes F) : Type 0 where
    pub same :
        (a : Ptr)
        → Option.map (unlinked (a == parent)) (g a) ≡ Option.map (unlinked (a == parent)) (h a)

  pub SameValues-refl : (parent : Ptr) (h : Nodes F) → SameValues parent h h
  SameValues-refl parent h = record { same = λ a. refl }

  pub SameValues-update :
      {parent : Ptr} {h g : Nodes F} (a : Ptr) (n n' : Node F)
      → SameValues parent h g
      → g a ≡ some n
      → unlinked (a == parent) n' ≡ unlinked (a == parent) n
      → SameValues parent h (update g a (some n'))
  SameValues-update {parent} {h} {g} a n n' s at e = record {
    same = λ b. elim (Bool-cases (b == a)) [
      | inl y ↦
          let eq : b ≡ a = ground arith in
          rw y (
            ap some (subst (λ z. unlinked (z == parent) n' ≡ unlinked (z == parent) n) (sym eq) e)
            ∙ sym (ap (Option.map (unlinked (b == parent))) (ap g eq ∙ at))
            ∙ s.same b)
      | inr k ↦ rw k (s.same b)
    ];
  }

  -- The operation on the links of `parent` wrote to nodes of `xs` only, and there to links only.
  pub record Relinks (parent : Ptr) (xs : List Ptr) (m m' : Memory F) : Type 0 where
    pub values : SameValues parent m.nodes m'.nodes
    pub outside : (a : Ptr) → a ∉ xs → m'.nodes a ≡ m.nodes a
    pub same_texts : m'.texts ≡ m.texts
    pub same_ends : m'.ends ≡ m.ends
    pub same_error : m'.last_error ≡ m.last_error
    pub same_answers : m'.answers ≡ m.answers

  pub Relinks-refl : (parent : Ptr) (xs : List Ptr) (m : Memory F) → Relinks parent xs m m
  Relinks-refl parent xs m = record {
    values = SameValues-refl parent m.nodes;
    outside = λ a o. refl;
    same_texts = refl;
    same_ends = refl;
    same_error = refl;
    same_answers = refl;
  }

  pub Relinks-update :
      {parent : Ptr} {xs : List Ptr} {m m' : Memory F} (a : Ptr) (n n' : Node F)
      → Relinks parent xs m m'
      → m'.nodes a ≡ some n
      → a ∈ xs
      → unlinked (a == parent) n' ≡ unlinked (a == parent) n
      → Relinks parent xs m (write m' a n')
  Relinks-update {xs} {m} {m'} a n n' r at i e = record {
    values = SameValues-update a n n' r.values at e;
    outside = λ b o. let kept = r.outside b o in ground (arith, i);
    same_texts = r.same_texts;
    same_ends = r.same_ends;
    same_error = r.same_error;
    same_answers = r.same_answers;
  }

  unlinked-next : (b : Bool) (q : Ptr) (n : Node F) → unlinked b (with_next q n) ≡ unlinked b n
  unlinked-next true q n = refl
  unlinked-next false q n = refl

  unlinked-prev : (b : Bool) (q : Ptr) (n : Node F) → unlinked b (with_prev q n) ≡ unlinked b n
  unlinked-prev true q n = refl
  unlinked-prev false q n = refl

  unlinked-child :
      (p q : Ptr) (n : Node F) → unlinked (p == p) (with_child q n) ≡ unlinked (p == p) n
  unlinked-child p q n = let same : (p == p) ≡ true = ground arith in rw same

  module _ {parent : Ptr} {xs : List Ptr} {m m' : Memory F} (a q : Ptr) (n : Node F)
      (r : Relinks parent xs m m') (at : m'.nodes a ≡ some n) where
    pub Relinks-next : a ∈ xs → Relinks parent xs m (write m' a (with_next q n))
    Relinks-next i = Relinks-update a n (with_next q n) r at i (unlinked-next (a == parent) q n)

    pub Relinks-prev : a ∈ xs → Relinks parent xs m (write m' a (with_prev q n))
    Relinks-prev i = Relinks-update a n (with_prev q n) r at i (unlinked-prev (a == parent) q n)

  pub Relinks-child :
      {parent : Ptr} {xs : List Ptr} {m m' : Memory F} (q : Ptr) (n : Node F)
      → Relinks parent xs m m'
      → m'.nodes parent ≡ some n
      → parent ∈ xs
      → Relinks parent xs m (write m' parent (with_child q n))
  Relinks-child {parent} q n r at i =
      Relinks-update parent n (with_child q n) r at i (unlinked-child parent q n)

  -- what an operation on the links of `parent` makes of its children
  pub record Becomes (parent : Ptr) (written ys : List Ptr) (m : Memory F) (run : Run F (Unit {0}))
      : Type 0 where
    pub after : Memory F
    pub returns : run ≡ ok tt after
    pub children : Children after.nodes parent ys
    pub relinks : Relinks parent written m after

  -- the same for an operation that returns `value`
  pub record Gives {A : Type 0} (value : A) (parent : Ptr) (written ys : List Ptr) (m : Memory F)
      (run : Run F A) : Type 0 where
    pub after : Memory F
    pub returns : run ≡ ok value after
    pub children : Children after.nodes parent ys
    pub relinks : Relinks parent written m after

  pub Becomes-Gives :
      {A : Type 0} {value : A} {parent : Ptr} {written ys : List Ptr} {m : Memory F}
      {part : Run F (Unit {0})} {run : Run F A}
      → Becomes parent written ys m part
      → run ≡ and_then part (λ _. ok value)
      → Gives value parent written ys m run
  Becomes-Gives {value} b e = record {
    after = b.after;
    returns = e ∙ ap (λ z. and_then z λ _. ok value) b.returns;
    children = b.children;
    relinks = b.relinks;
  }

  pub Gives-guard :
      {A : Type 0} {value : A} {parent : Ptr} {written ys : List Ptr} {m : Memory F} (on_panic : A)
      (body : Cmd F A)
      → Gives value parent written ys m (body m)
      → Gives value parent written ys m (guard on_panic body m)
  Gives-guard {m} on_panic body g = record {
    after = g.after;
    returns = guard-ok m on_panic body g.returns;
    children = g.children;
    relinks = g.relinks;
  }
