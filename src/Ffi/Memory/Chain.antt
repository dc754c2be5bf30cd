-- ===== src/Ffi/Memory/Chain.antt =====
-- The doubly linked list of the children of a node, as the list of their addresses.
use cjson_rs.Common.{
  Bool, true, false, ◌||◌, some, List, [], ◌∷◌, ◌++◌, ◌≡◌, ◌≢◌, refl, sym, subst, ◌∙◌, arith, ◌==◌,
}
use cjson_rs.Ffi.Memory.{Ptr, null, Node, Nodes, with_next, with_prev}

abbrev pub has : Ptr → List Ptr → Bool
has a [] = false
has a (b ∷ xs) = (a == b) || has a xs

infix 40 ◌∈◌ ◌∉◌
abbrev pub ◌∈◌ : Ptr → List Ptr → Type 0
a ∈ xs = has a xs ≡ true

abbrev pub ◌∉◌ : Ptr → List Ptr → Type 0
a ∉ xs = has a xs ≡ false

-- the last of `xs`, or `a`
abbrev pub last_or : Ptr → List Ptr → Ptr
last_or a [] = a
last_or a (x ∷ xs) = last_or x xs

-- the first of `xs`, or `a`
abbrev pub first_or : Ptr → List Ptr → Ptr
first_or a [] = a
first_or a (x ∷ xs) = x

pub has-append : (a : Ptr) (xs ys : List Ptr) → has a (xs ++ ys) ≡ (has a xs || has a ys)
has-append a [] ys = refl
has-append a (x ∷ xs) ys = ground (arith, has-append a xs ys)

pub last_or-mem : (a : Ptr) (xs : List Ptr) → last_or a xs ∈ (a ∷ xs)
last_or-mem a [] = ground arith
last_or-mem a (x ∷ xs) = ground (arith, last_or-mem x xs)

pub last_or-append :
    (a : Ptr) (xs : List Ptr) (y : Ptr) (ys : List Ptr) → last_or a (xs ++ y ∷ ys) ≡ last_or y ys
last_or-append a [] y ys = refl
last_or-append a (x ∷ xs) y ys = last_or-append x xs y ys

abbrev pub Disjoint : List Ptr → List Ptr → Type 0
Disjoint xs ys = (a : Ptr) → a ∈ xs → a ∉ ys

module _ {F : Type 0} where
  -- At `a` is the node `n`, behind `before`.
  pub record Link (h : Nodes F) (before a : Ptr) (n : Node F) : Type 0 where
    pub ne_null : a ≢ null
    pub holds : h a ≡ some n
    pub back : n.prev ≡ before

  -- From `p` the distinct nodes `xs` lead to `stop`, each with the one before it in `prev`; in front
  -- of the first stands `before`.
  pub data Chain (h : Nodes F) (stop : Ptr) : Ptr → Ptr → List Ptr → Type 0 where
    nil : {before p : Ptr} → p ≡ stop → Chain h stop before p []
    cons :
        {before p a : Ptr} {n : Node F} {xs : List Ptr}
        → p ≡ a
        → Link h before a n
        → a ∉ xs
        → Chain h stop a n.next xs
        → Chain h stop before p (a ∷ xs)

  pub Chain-first :
      {h : Nodes F} {before p stop : Ptr} {xs : List Ptr}
      → Chain h stop before p xs
      → p ≡ first_or stop xs
  Chain-first (nil e) = e
  Chain-first (cons e l out c) = e

  pub Link-same :
      {h g : Nodes F} {before a : Ptr} {n : Node F}
      → Link h before a n
      → g a ≡ h a
      → Link g before a n
  Link-same l same = record { ne_null = l.ne_null; holds = same ∙ l.holds; back = l.back }

  pub Chain-frame :
      {h g : Nodes F} {stop before p : Ptr} {xs : List Ptr}
      → Chain h stop before p xs
      → ((a : Ptr) → a ∈ xs → g a ≡ h a)
      → Chain g stop before p xs
  Chain-frame (nil e) same = nil e
  Chain-frame (cons {a} e l out c) same =
      cons e (Link-same l (same a (ground arith))) out (Chain-frame c λ b i. same b (ground arith))

  -- `g` is `h` on `x ∷ xs`, but for the `next` of the last
  pub record Retargets (h g : Nodes F) (x : Ptr) (xs : List Ptr) (q : Ptr) : Type 0 where
    pub last : (n : Node F) → h (last_or x xs) ≡ some n → g (last_or x xs) ≡ some (with_next q n)
    pub others : (a : Ptr) → a ∈ (x ∷ xs) → a ≢ last_or x xs → g a ≡ h a

  pub Chain-retarget :
      {h g : Nodes F} {stop before p x q : Ptr} {xs : List Ptr}
      → Chain h stop before p (x ∷ xs)
      → Retargets h g x xs q
      → Chain g q before p (x ∷ xs)
  Chain-retarget (cons {n} e l out (nil _)) r =
      cons e (record { ne_null = l.ne_null; holds = r.last n l.holds; back = l.back }) out
        (nil refl)
  Chain-retarget {x} {q} (cons {n} e l out (cons {a = y} {xs} e' l' out' c)) r =
      let further = last_or-mem y xs in
      let ne : x ≢ last_or y xs = λ same. ground (arith, out, further, same) in
      cons e (Link-same l (r.others x (ground arith) ne)) out (
        Chain-retarget (cons e' l' out' c)
          (record { last = r.last; others = λ a i k. r.others a (ground arith) k }))

  -- only the `prev` of the first changes
  pub Chain-back :
      {h g : Nodes F} {stop before p x : Ptr} {xs : List Ptr} (q : Ptr)
      → Chain h stop before p (x ∷ xs)
      → ((n : Node F) → h x ≡ some n → g x ≡ some (with_prev q n))
      → ((a : Ptr) → a ∈ xs → g a ≡ h a)
      → Chain g stop q p (x ∷ xs)
  Chain-back q (cons {n} e l out c) r same =
      cons e (record { ne_null = l.ne_null; holds = r n l.holds; back = refl }) out
        (Chain-frame c same)

  pub Chain-append :
      {h : Nodes F} {q stop before p : Ptr} {ys xs : List Ptr}
      → Chain h q before p xs
      → Chain h stop (last_or before xs) q ys
      → Disjoint xs ys
      → Chain h stop before p (xs ++ ys)
  Chain-append {h} {stop} {before} {ys} (nil e) d apart =
      subst (λ z. Chain h stop before z ys) (sym e) d
  Chain-append {ys} (cons {a = x} {xs} e l out c) d apart =
      cons e l (ground (arith, has-append x xs ys, apart x (ground arith)))
        (Chain-append c d λ a i. apart a (ground arith))

  -- where a chain is cut
  pub record Cut (h : Nodes F) (stop before p : Ptr) (xs ys : List Ptr) : Type 0 where
    pub middle : Ptr
    pub front : Chain h middle before p xs
    pub rear : Chain h stop (last_or before xs) middle ys
    pub apart : Disjoint xs ys

  pub Chain-Cut :
      (xs : List Ptr) {h : Nodes F} {stop before p : Ptr} {ys : List Ptr}
      → Chain h stop before p (xs ++ ys)
      → Cut h stop before p xs ys
  Chain-Cut [] {p} c = record { middle = p; front = nil refl; rear = c; apart = λ a i. cc }
  Chain-Cut (x ∷ xs) {ys} (cons e l out c) =
      let k = Chain-Cut xs c in
      let parts = has-append x xs ys in
      record {
        middle = k.middle;
        front = cons e l (ground arith) k.front;
        rear = k.rear;
        apart = λ a i. let t = k.apart a in ground (arith, t);
      }

  -- the node at an address
  pub record NodeAt (h : Nodes F) (a : Ptr) : Type 0 where
    pub node : Node F
    pub ne_null : a ≢ null
    pub holds : h a ≡ some node

  pub Chain-last :
      {h : Nodes F} {stop before p x : Ptr} {xs : List Ptr}
      → Chain h stop before p (x ∷ xs)
      → NodeAt h (last_or x xs)
  Chain-last (cons {n} e l out (nil _)) = record { node = n; ne_null = l.ne_null; holds = l.holds }
  Chain-last (cons e l out (cons e' l' out' c)) = Chain-last (cons e' l' out' c)

  pub Chain-ne_null :
      {h : Nodes F} {stop before p x : Ptr} {xs : List Ptr}
      → Chain h stop before p (x ∷ xs)
      → p ≢ null
  Chain-ne_null (cons e l out c) = λ z. l.ne_null (sym e ∙ z)

  pub Chain-head :
      {h : Nodes F} {stop before p x : Ptr} {xs : List Ptr}
      → Chain h stop before p (x ∷ xs)
      → NodeAt h x
  Chain-head (cons {n} e l out c) = record { node = n; ne_null = l.ne_null; holds = l.holds }

  pub Chain-head_out :
      {h : Nodes F} {stop before p x : Ptr} {xs : List Ptr}
      → Chain h stop before p (x ∷ xs)
      → x ∉ xs
  Chain-head_out (cons e l out c) = out

  pub record Uncons (h : Nodes F) (stop before p x : Ptr) (xs : List Ptr) : Type 0 where
    pub node : Node F
    pub here : p ≡ x
    pub link : Link h before x node
    pub out : x ∉ xs
    pub rest : Chain h stop x node.next xs

  pub Chain-Uncons :
      {h : Nodes F} {stop before p x : Ptr} {xs : List Ptr}
      → Chain h stop before p (x ∷ xs)
      → Uncons h stop before p x xs
  Chain-Uncons (cons {n} e l out c) = record { node = n; here = e; link = l; out = out; rest = c }
