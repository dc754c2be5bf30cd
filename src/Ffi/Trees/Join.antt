-- ===== src/Ffi/Trees/Join.antt =====
-- `append_children` of cjson-rs-ffi/src/convert.rs: what one round of it adds to the children that the
-- other rounds append.
use cjson_rs.Common.{
  ℕ, ◌+◌, Bool, true, false, ◌||◌, some, List, ◌∷◌, ◌++◌, ◌≡◌, ◌≢◌, refl, sym, subst, ◌∙◌, ap,
  arith, length, append_assoc, if◌then◌else◌,
}
use cjson_rs.Ffi.Memory.{
  Ptr, null, Node, Memory, Run, ok, modify, write, with_next, with_child, set_next, set_child,
}
use cjson_rs.Ffi.Memory.Chain.{has, ◌∈◌, ◌∉◌, has-append}
use cjson_rs.Ffi.Memory.Fresh.{Distinct, apart, Distinct-append, Within}
use cjson_rs.Ffi.Memory.Runs.{write-at, write-other}
use cjson_rs.Ffi.Trees.Shape.{Agree}

-- The node that leads to the next child: the parent, if there is no child in front.
abbrev pub owner : Bool → (parent prev : Ptr) → Ptr
owner true parent prev = parent
owner false parent prev = prev

module _ {F : Type 0} where
  abbrev pub with_slot : Bool → Ptr → Node F → Node F
  with_slot true q = with_child q
  with_slot false q = with_next q

  abbrev pub slot_of : Bool → Node F → Ptr
  slot_of true n = n.child
  slot_of false n = n.next

  pub with_slot_same : (b : Bool) (n : Node F) → slot_of b n ≡ null → with_slot b null n ≡ n
  with_slot_same true n e = ap (λ z. with_child z n) (sym e)
  with_slot_same false n e = ap (λ z. with_next z n) (sym e)

  pub with_slot_lem :
      (b : Bool) (parent prev child : Ptr) (m : Memory F)
      → (if b then set_child parent child else set_next prev child) m
        ≡ modify (owner b parent prev) (with_slot b child) m
  with_slot_lem true parent prev child m = refl
  with_slot_lem false parent prev child m = refl

  -- Of the addresses `bs` that the allocator serves, the run takes `used` for children, of which `P`
  -- holds and to which the node `put first` at `o` leads.
  pub record Chained (P : Memory F → Ptr → List Ptr → Type 0) (m : Memory F) (o : Ptr)
      (put : Ptr → Node F) (bs : List Ptr) (cells : ℕ) (run : Run F Bool) : Type 0 where
    pub used : List Ptr
    pub left : List Ptr
    pub after : Memory F
    pub first : Ptr
    pub returns : run ≡ ok true after
    pub split : bs ≡ used ++ left
    pub size : length bs ≡ cells + length left
    pub answers : after.answers ≡ left
    pub children : P after first used
    pub slot : after.nodes o ≡ some (put first)
    pub within : Within (o ∷ used) m after

  -- the addresses are those of one more child `a` with `us` below it, and of what follows
  pub record Joined (m : Memory F) (o a : Ptr) (bs us used left : List Ptr) (w₀ : Node F)
      (m₂ after : Memory F) : Type 0 where
    pub split : a ∷ bs ≡ (a ∷ (us ++ used)) ++ left
    pub slot : after.nodes o ≡ some w₀
    pub agree : Agree us m₂ after
    pub within : Within (o ∷ a ∷ (us ++ used)) m after

  pub joined :
      (m m₂ : Memory F) (o a : Ptr) (n w₀ : Node F) (bs us ls : List Ptr)
      {P : Memory F → Ptr → List Ptr → Type 0} {put : Ptr → Node F} {cells : ℕ} {run : Run F Bool}
      → o ∉ (a ∷ bs)
      → Distinct (a ∷ bs)
      → bs ≡ us ++ ls
      → Within (a ∷ us) m m₂
      → (r : Chained P (write (write m₂ a n) o w₀) a put ls cells run)
      → Joined m o a bs us r.used r.left w₀ m₂ r.after
  joined m m₂ o a n w₀ bs us ls out (apart head_out d) split w r =
      let in_bs : (c : Ptr) → has c bs ≡ (has c us || has c ls) =
        λ c. ap (has c) split ∙ has-append c us ls in
      let in_ls : (c : Ptr) → has c ls ≡ (has c r.used || has c r.left) =
        λ c. ap (has c) r.split ∙ has-append c r.used r.left in
      let below_out = (Distinct-append us ls (subst Distinct split d)).parts in
      let ne : (c : Ptr) → c ∈ us → c ≢ a =
        λ c i z. let p = in_bs c in ground (arith, head_out, p, i, z) in
      let far : (c : Ptr) → c ∈ us → c ∉ (a ∷ r.used) =
        λ c i. let q = in_ls c in let u = below_out c i in let k = ne c i in ground (arith, k) in
      record {
        split = ap (◌∷◌ a) (split ∙ ap (◌++◌ us) r.split ∙ sym (append_assoc us r.used r.left));
        slot =
            let p = in_bs o in
            let q = in_ls o in
            r.within.nodes o (ground (arith, out)) ∙ write-at (write m₂ a n) o w₀;
        agree = record {
          nodes = λ c i.
              let p = in_bs c in
              let ne' : c ≢ o = λ z. ground (arith, out, p, i, z) in
              r.within.nodes c (far c i)
              ∙ write-other (write m₂ a n) o w₀ ne'
              ∙ write-other m₂ a n (ne c i);
          texts = λ c i. r.within.texts c (far c i);
        };
        within = record {
          nodes = λ c i.
              let p = has-append c us r.used in
              let k : c ≢ a = λ z. ground (arith, i, z) in
              let k' : c ≢ o = λ z. ground (arith, i, z) in
              r.within.nodes c (ground arith)
              ∙ write-other (write m₂ a n) o w₀ k'
              ∙ write-other m₂ a n k
              ∙ w.nodes c (ground arith);
          texts = λ c i.
              let p = has-append c us r.used in
              r.within.texts c (ground arith) ∙ w.texts c (ground arith);
          ends = r.within.ends ∙ w.ends;
          error = r.within.error ∙ w.error;
        };
      }
