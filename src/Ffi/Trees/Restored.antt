-- ===== src/Ffi/Trees/Restored.antt =====
-- What `value_to_cjson` of cjson-rs-ffi/src/convert.rs undoes where an allocation fails.
use std.Path.{fun_ext}
use cjson_rs.Common.{
  ℕ, suc, ◌≤◌, none, some, List, [], ◌∷◌, ◌≡◌, ◌≢◌, ◌⊎◌, inl, inr, refl, sym, ◌∙◌, ap, Bool-cases,
  append-nil,
}
use cjson_rs.Ffi.Alloc.{Double, alloc, alloc_node, alloc_cstr, free_cjson}
use cjson_rs.Ffi.Memory.{Ptr, null, Node, Memory, ok, update}
use cjson_rs.Ffi.Memory.Chain.{has, ◌∈◌}
use cjson_rs.Ffi.Memory.Fresh.{Within, Distinct}
use cjson_rs.Ffi.Trees.Free.{free_cjson-Content}
use cjson_rs.Ffi.Trees.Release.{without_key}
use cjson_rs.Ffi.Trees.Gone.{Gone}
use cjson_rs.Ffi.Trees.Read.{rounds_of}
use cjson_rs.Ffi.Trees.Shape.{Content}
use cjson_rs.Value.{Value}

pub List-cases : (xs : List Ptr) → (xs ≡ []) ⊎ ((t : Ptr) × (ls : List Ptr) × (xs ≡ t ∷ ls))
List-cases [] = inl refl
List-cases (t ∷ ls) = inr (t, ls, refl)

module _ {F : Type 0} where
  -- the memory of an allocator that serves nothing
  abbrev pub spent : Memory F → Memory F
  spent m = record m { answers = [] }

  -- and without the node
  abbrev pub removed : Memory F → Ptr → Memory F
  removed m node = record m { answers = []; nodes = update m.nodes node none }

  pub same_memory :
      {m m' : Memory F}
      → ((a : Ptr) → m.nodes a ≡ m'.nodes a)
      → ((a : Ptr) → m.texts a ≡ m'.texts a)
      → m.ends ≡ m'.ends
      → m.last_error ≡ m'.last_error
      → m.answers ≡ m'.answers
      → m ≡ m'
  same_memory nodes texts ends error answers = λ i. record {
    nodes = fun_ext nodes i;
    texts = fun_ext texts i;
    ends = ends i;
    last_error = error i;
    answers = answers i;
  }

  pub spent_same : (m : Memory F) → m.answers ≡ [] → m ≡ spent m
  spent_same m e = same_memory (λ a. refl) (λ a. refl) refl refl e

  -- what is freed was not there before
  pub restored :
      {cs : List Ptr} {base m m' : Memory F}
      → ((p : Ptr) → p ∈ cs → base.nodes p ≡ none)
      → ((p : Ptr) → p ∈ cs → base.texts p ≡ none)
      → Within cs base m
      → Gone cs m m'
      → base.answers ≡ m.answers
      → m' ≡ base
  restored {cs} nodes texts w g e =
      same_memory
        (λ p. elim (Bool-cases (has p cs)) [
          | inl i ↦ g.no_node p i ∙ sym (nodes p i)
          | inr o ↦ g.nodes p o ∙ w.nodes p o
        ])
        (λ p. elim (Bool-cases (has p cs)) [
          | inl i ↦ g.no_text p i ∙ sym (texts p i)
          | inr o ↦ g.texts p o ∙ w.texts p o
        ])
        (g.ends ∙ w.ends) (g.error ∙ w.error) (g.answers ∙ sym e)

  pub alloc_cstr-none : (m : Memory F) → m.answers ≡ [] → (s : List ℕ) → alloc_cstr s m ≡ ok null m
  unfolding alloc_cstr alloc
  alloc_cstr-none m e s = rw e refl

  -- A tree in memory that was not there before is freed.
  pub free_restored :
      (v : Value F) (rounds : ℕ) (base m : Memory F) (p : Ptr) {n : Node F} {cs : List Ptr}
      → p ≢ null
      → m.nodes p ≡ some n
      → n.string ≡ null
      → Content m n.type_ n.valuestring n.child n.valuedouble cs v
      → Distinct (p ∷ cs)
      → suc (rounds_of v) ≤ rounds
      → ((a : Ptr) → a ∈ (p ∷ cs) → base.nodes a ≡ none)
      → ((a : Ptr) → a ∈ (p ∷ cs) → base.texts a ≡ none)
      → Within (p ∷ cs) base m
      → base.answers ≡ m.answers
      → free_cjson rounds p m ≡ ok tt base
  free_restored v rounds base m p {n} {cs} nn at e c d h nodes texts w answers =
      let x =
        free_cjson-Content v rounds m p nn at (without_key e) c
          (ap (λ z. p ∷ z) (sym (append-nil cs))) d h in
      x.returns ∙ ap (ok tt) (restored nodes texts w x.gone answers)

module _ {F : Type 0} (f64 : Double F) where
  pub alloc_node-none : (m : Memory F) → m.answers ≡ [] → alloc_node f64 m ≡ ok null m
  unfolding alloc_node alloc
  alloc_node-none m e = rw e refl
