-- ===== src/Ffi/Trees/Child.antt =====
-- `append_children` of cjson-rs-ffi/src/convert.rs: one child, from its allocation to its links.
use cjson_rs.Common.{
  ℕ, ◌≤◌, Bool, true, false, some, List, [], ◌∷◌, ◌++◌, ◌≡◌, ◌≢◌, refl, sym, subst, ◌∙◌, ap, arith,
  ◌==◌, length, if◌then◌else◌,
}
use cjson_rs.Ffi.Alloc.{Double, zeroed}
use cjson_rs.Ffi.Memory.{Ptr, null, Node, Memory, Run, ok, write, with_prev, set_child, set_next}
use cjson_rs.Ffi.Memory.Chain.{has, ◌∈◌, ◌∉◌, has-append}
use cjson_rs.Ffi.Memory.Fresh.{
  Fresh, one_more, Fresh-Within, Fresh-rear, Fresh-Distinct, Within, Within-trans, Distinct,
  Distinct-append, DistinctParts,
}
use cjson_rs.Ffi.Memory.Runs.{not_null, modify-ok, write-at, write-other}
use cjson_rs.Ffi.Trees.Join.{owner, with_slot, slot_of, with_slot_lem}
use cjson_rs.Ffi.Trees.Cells.{Filled, Within-write}
use cjson_rs.Value.{Value}

pub last_mem : (us : List Ptr) (t : Ptr) → t ∈ (us ++ t ∷ [])
last_mem us t = let p = has-append t us (t ∷ []) in ground arith

pub front_mem : (us : List Ptr) (t d : Ptr) → d ∈ us → d ∈ (us ++ t ∷ [])
front_mem us t d i = let p = has-append d us (t ∷ []) in ground arith

pub nonempty : (xs : List Ptr) → 1 ≤ length xs → (t : Ptr) × (ls : List Ptr) × (xs ≡ t ∷ ls)
nonempty [] h = absurd (omega arith)
nonempty (t ∷ ls) h = (t, ls, refl)

module _ {F : Type 0} where
  -- The hypotheses on the memory that `append_children` begins with.
  pub record Ready (b : Bool) (parent prev : Ptr) (m : Memory F) (bs : List Ptr) (w₀ : Node F)
      : Type 0 where
    pub which : (prev == null) ≡ b
    pub answers : m.answers ≡ bs
    pub ne_null : owner b parent prev ≢ null
    pub holds : m.nodes (owner b parent prev) ≡ some w₀
    pub slot : slot_of b w₀ ≡ null
    pub out : owner b parent prev ∉ bs
    pub fresh : Fresh m bs

  -- one address is served
  abbrev pub serve : Memory F → List Ptr → Memory F
  serve m bs = record m { answers = bs }

  -- what has been done for a child `a`, with the addresses `us` below it
  pub record Child (b : Bool) (parent prev : Ptr) (m : Memory F) (a : Ptr) (bs : List Ptr)
      (w₀ : Node F) (m₂ : Memory F) (n : Node F) (us ls : List Ptr) : Type 0 where
    pub first : Ready b parent prev m (a ∷ bs) w₀
    pub ne_null : a ≢ null
    pub split : bs ≡ us ++ ls
    pub answers : m₂.answers ≡ ls
    pub holds : m₂.nodes a ≡ some n
    pub next : n.next ≡ null
    pub within : Within (a ∷ us) m m₂

  -- the memory when the child is linked
  abbrev pub linked :
      (o prev a : Ptr) (b : Bool) (w₀ : Node F) (m₂ : Memory F) (n : Node F) → Memory F
  linked o prev a b w₀ m₂ n = write (write m₂ a (with_prev prev n)) o (with_slot b a w₀)

  module _ {b : Bool} {parent prev : Ptr} {m : Memory F} {a : Ptr} {bs : List Ptr} {w₀ : Node F}
      {m₂ : Memory F} {n : Node F} {us ls : List Ptr}
      (c : Child b parent prev m a bs w₀ m₂ n us ls) where
    a_ne_owner : a ≢ owner b parent prev
    a_ne_owner = λ z. let out = c.first.out in ground (arith, z)

    owner_holds : (write m₂ a (with_prev prev n)).nodes (owner b parent prev) ≡ some w₀
    owner_holds =
        let o = owner b parent prev in
        let out = c.first.out in
        let p = ap (has o) c.split ∙ has-append o us ls in
        write-other m₂ a (with_prev prev n) (λ z. a_ne_owner (sym z))
        ∙ c.within.nodes o (ground arith)
        ∙ c.first.holds

    pub slot_run :
        (if prev == null then set_child parent a else set_next prev a)
          (write m₂ a (with_prev prev n))
        ≡ ok tt (linked (owner b parent prev) prev a b w₀ m₂ n)
    slot_run =
        let m₃ = write m₂ a (with_prev prev n) in
        ap (λ z. (if z then set_child parent a else set_next prev a) m₃) c.first.which
        ∙ with_slot_lem b parent prev a m₃
        ∙ modify-ok m₃ c.first.ne_null owner_holds (with_slot b a)

    pub parts : DistinctParts (a ∷ us) ls
    parts =
        Distinct-append (a ∷ us) ls
          (subst (λ z. Distinct (a ∷ z)) c.split (Fresh-Distinct c.first.fresh))

    pub next-Ready :
        Ready false parent a (linked (owner b parent prev) prev a b w₀ m₂ n) ls (with_prev prev n)
    next-Ready =
        let o = owner b parent prev in
        let out = c.first.out in
        let far : (d : Ptr) → d ∈ ls → d ∉ (o ∷ a ∷ us) = λ d i.
          let k = parts.parts d in
          let p = ap (has d) c.split ∙ has-append d us ls in
          let ne : d ≢ o = λ z. ground (arith, z, i, p) in ground (arith, k, ne) in
        let m₃ = write m₂ a (with_prev prev n) in
        let links : Within (o ∷ a ∷ []) m₂ (linked o prev a b w₀ m₂ n) =
          Within-trans (Within-write m₂ a (with_prev prev n)) (Within-write m₃ o (with_slot b a w₀))
            (λ d i. ground (arith, i)) (λ d i. ground (arith, i)) in
        let both : Within (o ∷ a ∷ us) m (linked o prev a b w₀ m₂ n) =
          Within-trans c.within links (λ d i. ground (arith, i)) (λ d i. ground (arith, i)) in
        record {
          which = not_null c.ne_null;
          answers = c.answers;
          ne_null = c.ne_null;
          holds =
              write-other (write m₂ a (with_prev prev n)) o (with_slot b a w₀) a_ne_owner
              ∙ write-at m₂ a (with_prev prev n);
          slot = c.next;
          out = let k = parts.parts a (ground arith) in k;
          fresh =
              Fresh-Within both far
                (Fresh-rear (a ∷ us) (subst (λ z. Fresh m (a ∷ z)) c.split c.first.fresh));
        }

  pub Within-serve :
      (m : Memory F) (bs : List Ptr) (a : Ptr) (n : Node F)
      → Within (a ∷ []) m (write (serve m bs) a n)
  Within-serve m bs a n = record {
    nodes = λ c i. ground (arith, i);
    texts = λ c i. refl;
    ends = refl;
    error = refl;
  }

module _ {F : Type 0} (f64 : Double F) where
  -- what holds before the first child is appended
  pub first-Ready :
      (node : Ptr) (m : Memory F) (bs : List Ptr)
      → m.answers ≡ bs
      → node ≢ null
      → node ∉ bs
      → Fresh m bs
      → (t : ℕ)
      → Ready true node null
          (write m node (record (zeroed f64) { type_ = t }))
          bs
          (record (zeroed f64) { type_ = t })
  first-Ready node m bs answers nn out fr t = record {
    which = refl;
    answers = answers;
    ne_null = nn;
    holds = write-at m node (record (zeroed f64) { type_ = t });
    slot = refl;
    out = out;
    fresh =
        Fresh-Within (Within-write m node (record (zeroed f64) { type_ = t }))
          (λ a i. ground (arith, out, i)) fr;
  }

  -- the addresses left when one is served
  pub served-Fresh :
      (m : Memory F) (a : Ptr) (bs : List Ptr)
      → Fresh m (a ∷ bs)
      → Fresh (write (serve m bs) a (zeroed f64)) bs
  served-Fresh m a bs (one_more nn free no_text a_out fr) =
      Fresh-Within (Within-serve m bs a (zeroed f64)) (λ c i. ground (arith, a_out, i)) fr

  pub filled-Child :
      {b : Bool} {parent prev : Ptr} {m : Memory F} {a : Ptr} {bs : List Ptr} {w₀ : Node F}
      {v : Value F} {run : Run F Ptr}
      → Ready b parent prev m (a ∷ bs) w₀
      → a ≢ null
      → (f : Filled (write (serve m bs) a (zeroed f64)) a bs v run)
      → Child b parent prev m a bs w₀ f.after f.n f.used f.left
  filled-Child {m} {a} {bs} k nn f = record {
    first = k;
    ne_null = nn;
    split = f.split;
    answers = f.answers;
    holds = f.holds;
    next = f.next;
    within =
        Within-trans (Within-serve m bs a (zeroed f64)) f.within (λ d i. ground (arith, i))
          (λ d i. i);
  }
