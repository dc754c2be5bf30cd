-- ===== src/Ffi/Links/Detach.antt =====
-- `detach` of cjson-rs-ffi/src/convert.rs.
use mathlib.Core.Option
use cjson_rs.Common.{
  not, some, List, ◌∷◌, ◌++◌, ◌≡◌, ◌≢◌, refl, sym, subst, ◌∙◌, ap, arith, ◌==◌, if◌then◌else◌,
  Bool-cases, inl, inr,
}
use cjson_rs.Ffi.Links.{detach, set_prev_unless_null}
use cjson_rs.Ffi.Links.Open.{
  Opened, Opened-frame, Apart, open_at, close_up, forward, forward-Step, backward-Step,
}
use cjson_rs.Ffi.Memory.{
  Ptr, null, Node, Memory, ok, pure, write, with_next, with_prev, set_next, set_child,
}
use cjson_rs.Ffi.Memory.Chain.{has, ◌∈◌, ◌∉◌, last_or, has-append, Chain-Uncons}
use cjson_rs.Ffi.Memory.Children.{Children, Becomes, Relinks-refl, Relinks-next, Relinks-prev}
use cjson_rs.Ffi.Memory.Runs.{not_null, load-ok, modify-ok, write-at, write-other}

-- without an element in the middle
pub Apart-drop :
    {parent : Ptr} {xs : List Ptr} {z : Ptr} {zs : List Ptr}
    → Apart parent xs (z ∷ zs)
    → Apart parent xs zs
Apart-drop {parent} {z} {zs} k = record {
  front = k.front;
  rear = let out = k.rear in ground arith;
  parts = λ a i. let out = k.parts a i in ground arith;
}

pub middle_out :
    {parent : Ptr} (xs : List Ptr) {z : Ptr} (zs : List Ptr)
    → Apart parent xs (z ∷ zs)
    → z ∉ zs
    → z ∉ (parent ∷ (xs ++ zs))
middle_out {parent} xs {z} zs k out =
    let parts = has-append z xs zs in
    let p_out = k.rear in
    let x_out : z ∉ xs = elim (Bool-cases (has z xs)) [
      | inl i ↦ let no = k.parts z i in ground arith
      | inr o ↦ o
    ] in
    ground arith

pub middle_inside :
    (parent a : Ptr) (xs : List Ptr) (z : Ptr) (zs : List Ptr)
    → a ∈ (parent ∷ (xs ++ zs))
    → a ∈ (parent ∷ (xs ++ z ∷ zs))
middle_inside parent a xs z zs i =
    let p = has-append a xs zs in let p' = has-append a xs (z ∷ zs) in ground arith

module _ {F : Type 0} where
  forward_lem :
      (parent prev q : Ptr)
      → parent ≢ null
      → (m : Memory F)
      → (if not (prev == null)
            then set_next prev q
            else if not (parent == null)
            then set_child parent q
            else pure tt)
          m
        ≡ forward parent prev q m
  forward_lem parent prev q nn m = elim (Bool-cases (prev == null)) [
    | inl y ↦ rw (y, not_null nn) refl
    | inr k ↦ rw k refl
  ]

  -- The item is taken out, and its own links are null.
  pub record Detached (m : Memory F) (parent item : Ptr) (xs ys : List Ptr) : Type 0 where
    pub becomes : Becomes parent (parent ∷ (xs ++ item ∷ ys)) (xs ++ ys) m (detach parent item m)
    pub alone :
        (n : Node F)
        → m.nodes item ≡ some n
        → becomes.after.nodes item ≡ some (with_prev null (with_next null n))

  -- `detach` takes a child out of the children of its parent, wherever it stands among them, makes
  -- its links null, and writes to links of these nodes only.
  pub detach-remove :
      (m : Memory F) (parent item : Ptr) (xs ys : List Ptr)
      → Children m.nodes parent (xs ++ item ∷ ys)
      → Detached m parent item xs ys
  unfolding detach
  detach-remove m parent item xs ys c =
      let cut = open_at xs (item ∷ ys) c in
      let o = cut.opened in
      let k = Apart-drop cut.apart in
      let u = Chain-Uncons o.rear in
      let n = u.node in
      let item_out = middle_out xs ys cut.apart u.out in
      let inside =
        λ (a : Ptr) (i : a ∈ (parent ∷ (xs ++ ys))). middle_inside parent a xs item ys i in
      let o' : Opened m.nodes parent xs cut.middle n.next item ys = record {
        node = o.node;
        ne_null = o.ne_null;
        holds = o.holds;
        front = o.front;
        rear = u.rest;
      } in
      let s₁ =
        forward-Step m n.next (Relinks-refl parent (parent ∷ (xs ++ item ∷ ys)) m) xs k o' inside in
      let s₂ = backward-Step s₁.after (last_or null xs) s₁.relinks xs ys k s₁.opened inside in
      let m₂ = s₂.after in
      let at₂ : m₂.nodes item ≡ some n =
        s₂.kept item item_out ∙ s₁.kept item item_out ∙ u.link.holds in
      let m₃ = write m₂ item (with_next null n) in
      let at₃ = write-at m₂ item (with_next null n) in
      let m₄ = write m₃ item (with_prev null (with_next null n)) in
      let run₁ : forward parent n.prev n.next m ≡ ok tt s₁.after =
        subst (λ z. forward parent z n.next m ≡ ok tt s₁.after) (sym u.link.back) s₁.returns in
      let run₂ : set_prev_unless_null n.next n.prev s₁.after ≡ ok tt m₂ =
        subst (λ z. set_prev_unless_null n.next z s₁.after ≡ ok tt m₂) (sym u.link.back)
          s₂.returns in
      let item_in : item ∈ (parent ∷ (xs ++ item ∷ ys)) =
        let p = has-append item xs (item ∷ ys) in ground arith in
      record {
        becomes = record {
          after = m₄;
          returns = rw (not_null u.link.ne_null) (
              rw (load-ok m u.link.ne_null u.link.holds) (
                rw (forward_lem parent n.prev n.next o.ne_null m) (
                  rw run₁ (
                    rw run₂ (
                      rw (modify-ok m₂ u.link.ne_null at₂)
                        (modify-ok m₃ u.link.ne_null at₃ (with_prev null)))))));
          children = close_up k (
              Opened-frame s₂.opened λ a i.
                let ne : a ≢ item = λ z. ground (arith, item_out, i, z) in
                write-other m₃ item (with_prev null (with_next null n)) ne
                ∙ write-other m₂ item (with_next null n) ne);
          relinks =
              Relinks-prev item null (with_next null n)
                (Relinks-next item null n s₂.relinks at₂ item_in) at₃ item_in;
        };
        alone = λ n' e.
            write-at m₃ item (with_prev null (with_next null n))
            ∙ ap (Option.map λ w. with_prev null (with_next null w)) (sym u.link.holds ∙ e);
      }
