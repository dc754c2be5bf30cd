-- ===== src/Ffi/Trees/Keyed.antt =====
-- A child of an object in `append_children` of cjson-rs-ffi/src/convert.rs, with the copy of its key.
use cjson_rs.Common.{
  ℕ, Bool, some, List, [], ◌∷◌, ◌++◌, ◌≡◌, ◌≢◌, refl, sym, subst, ◌∙◌, append_assoc, ap, arith,
}
use cjson_rs.Ffi.Alloc.{Double, alloc_cstr, zeroed}
use cjson_rs.Ffi.Create.Created.{alloc_cstr-ok}
use cjson_rs.Ffi.Memory.{Ptr, null, Node, Memory, Run, ok, write, update}
use cjson_rs.Ffi.Memory.Chain.{has, ◌∈◌, ◌∉◌, has-append}
use cjson_rs.Ffi.Memory.Fresh.{Fresh, fresh_head, Fresh-Within, Fresh-rear, apart}
use cjson_rs.Ffi.Memory.Runs.{write-at, write-other}
use cjson_rs.Ffi.Trees.Shape.{Content, Content-frame}
use cjson_rs.Ffi.Trees.Cells.{Filled}
use cjson_rs.Text.{as_bytes}
use cjson_rs.Value.{Value}
use cjson_rs.Ffi.Trees.Child.{Ready, Child, serve, filled-Child, parts}

module _ {F : Type 0} where
  abbrev pub named : Ptr → Node F → Node F
  named t n = record n { string = t }

  -- the memory with a copy of a key at `t`
  abbrev pub keyed : Memory F → Ptr → List Ptr → List ℕ → Memory F
  keyed m t ls key = record (serve m ls) {
    texts = update m.texts t (some (as_bytes key ++ 0 ∷ []));
  }

  -- a child with its key
  pub record KeyedChild (b : Bool) (parent prev : Ptr) (m : Memory F) (a : Ptr) (bs : List Ptr)
      (w₀ : Node F) (m₂ : Memory F) (n : Node F) (us : List Ptr) (v : Value F) (t : Ptr)
      (ls : List Ptr) (key : List ℕ) : Type 0 where
    pub copied : alloc_cstr key m₂ ≡ ok t (keyed m₂ t ls key)
    pub t_null : t ≢ null
    pub child :
        Child b parent prev m a bs w₀
          (write (keyed m₂ t ls key) a (named t n))
          (named t n)
          (us ++ t ∷ [])
          ls
    pub text : (keyed m₂ t ls key).texts t ≡ some (as_bytes key ++ 0 ∷ [])
    pub content :
        Content
          (write (keyed m₂ t ls key) a (named t n))
          n.type_
          n.valuestring
          n.child
          n.valuedouble
          us
          v

module _ {F : Type 0} (f64 : Double F) where
  pub keyed-KeyedChild :
      {b : Bool} {parent prev : Ptr} {m : Memory F} {a : Ptr} {bs : List Ptr} {w₀ : Node F}
      {v : Value F} {run : Run F Ptr}
      → (k : Ready b parent prev m (a ∷ bs) w₀) → a ≢ null
      → (f : Filled (write (serve m bs) a (zeroed f64)) a bs v run)
      → (t : Ptr) (ls : List Ptr) (key : List ℕ) → f.left ≡ t ∷ ls
      → KeyedChild b parent prev m a bs w₀ f.after f.n f.used v t ls key
  keyed-KeyedChild {m} {a} {bs} {v} k nn f t ls key e =
      let c = filled-Child f64 k nn f in
      let p = parts c in
      let us = f.used in
      let split' : bs ≡ us ++ t ∷ ls = f.split ∙ ap (◌++◌ us) e in
      let far : (d : Ptr) → d ∈ f.left → d ∉ (a ∷ us) =
        λ d i. let q = p.parts d in ground (arith, q) in
      let fr : Fresh f.after (t ∷ ls) = subst (Fresh f.after) e (
        Fresh-Within c.within far
          (Fresh-rear (a ∷ us) (subst (λ z. Fresh m (a ∷ z)) f.split k.fresh))) in
      let s = fresh_head fr in
      let t_far : t ∉ (a ∷ us) = far t (let q = ap (has t) e in ground (arith, q)) in
      let t_a : t ≢ a = λ z. ground (arith, t_far, z) in
      let a_out : a ∉ us = let q = p.front in elim q [ apart o _ ↦ o ] in
      let m₃ = keyed f.after t ls key in
      record {
        copied = alloc_cstr-ok f64 f.after t ls (f.answers ∙ e) s.ne_null s.free s.no_text key;
        t_null = s.ne_null;
        text = ground arith;
        child = record {
          first = k;
          ne_null = nn;
          split = split' ∙ sym (append_assoc us (t ∷ []) ls);
          answers = refl;
          holds = write-at m₃ a (named t f.n);
          next = f.next;
          within = record {
            nodes = λ d i.
                let q = has-append d us (t ∷ []) in
                let ne : d ≢ a = λ z. ground (arith, i, z) in
                write-other m₃ a (named t f.n) ne ∙ c.within.nodes d (ground arith);
            texts = λ d i.
                let q = has-append d us (t ∷ []) in
                let w = c.within.texts d (ground arith) in ground arith;
            ends = c.within.ends;
            error = c.within.error;
          };
        };
        content = Content-frame v f.content (record {
          nodes = λ d i. write-other m₃ a (named t f.n) (λ z. ground (arith, a_out, i, z));
          texts = λ d i. let ne : d ≢ t = λ z. ground (arith, t_far, i, z) in ground (arith, ne);
        });
      }
