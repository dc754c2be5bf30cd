-- ===== src/Ffi/Memory/Fresh.antt =====
-- The addresses that the allocator is about to serve, and what an operation leaves alone that uses
-- them up.
use cjson_rs.Common.{none, List, [], ◌∷◌, ◌++◌, ◌≡◌, ◌≢◌, ◌∙◌, arith, ◌==◌, Bool-cases, inl, inr}
use cjson_rs.Ffi.Memory.{Ptr, null, Memory}
use cjson_rs.Ffi.Memory.Chain.{◌∈◌, ◌∉◌, has-append, Disjoint}

pub data Distinct : List Ptr → Type 0 where
  nothing : Distinct []
  apart : {a : Ptr} {xs : List Ptr} → a ∉ xs → Distinct xs → Distinct (a ∷ xs)

pub record DistinctParts (xs ys : List Ptr) : Type 0 where
  pub front : Distinct xs
  pub rear : Distinct ys
  pub parts : Disjoint xs ys

pub Distinct-append : (xs ys : List Ptr) → Distinct (xs ++ ys) → DistinctParts xs ys
Distinct-append [] ys d = record { front = nothing; rear = d; parts = λ a i. cc }
Distinct-append (x ∷ xs) ys (apart out d) =
    let k = Distinct-append xs ys d in
    let parts = has-append x xs ys in
    record {
      front = apart (ground arith) k.front;
      rear = k.rear;
      parts = λ a i. let t = k.parts a in ground (arith, t);
    }

module _ {F : Type 0} where
  -- distinct addresses that are not in use
  pub data Fresh (m : Memory F) : List Ptr → Type 0 where
    none_left : Fresh m []
    one_more :
        {a : Ptr} {bs : List Ptr}
        → a ≢ null
        → m.nodes a ≡ none
        → m.texts a ≡ none
        → a ∉ bs
        → Fresh m bs
        → Fresh m (a ∷ bs)

  pub Fresh-frame :
      {m m' : Memory F} {bs : List Ptr}
      → Fresh m bs
      → ((a : Ptr) → a ∈ bs → m'.nodes a ≡ m.nodes a)
      → ((a : Ptr) → a ∈ bs → m'.texts a ≡ m.texts a)
      → Fresh m' bs
  Fresh-frame none_left same texts = none_left
  Fresh-frame (one_more {a} nn free no_text out rest) same texts =
      one_more nn (same a (ground arith) ∙ free) (texts a (ground arith) ∙ no_text) out
        (Fresh-frame rest (λ b i. same b (ground arith)) (λ b i. texts b (ground arith)))

  pub record FreshHead (m : Memory F) (a : Ptr) (bs : List Ptr) : Type 0 where
    pub ne_null : a ≢ null
    pub free : m.nodes a ≡ none
    pub no_text : m.texts a ≡ none
    pub out : a ∉ bs
    pub rest : Fresh m bs

  pub fresh_head : {m : Memory F} {a : Ptr} {bs : List Ptr} → Fresh m (a ∷ bs) → FreshHead m a bs
  fresh_head (one_more nn free no_text out rest) = record {
    ne_null = nn;
    free = free;
    no_text = no_text;
    out = out;
    rest = rest;
  }

  pub Fresh-no_node :
      {m : Memory F} {bs : List Ptr} → Fresh m bs → (p : Ptr) → p ∈ bs → m.nodes p ≡ none
  Fresh-no_node none_left p i = cc
  Fresh-no_node {m} (one_more {a} nn free no_text out rest) p i = elim (Bool-cases (p == a)) [
    | inl y ↦ ground (arith, free, y)
    | inr k ↦ Fresh-no_node rest p (ground arith)
  ]

  pub Fresh-no_text :
      {m : Memory F} {bs : List Ptr} → Fresh m bs → (p : Ptr) → p ∈ bs → m.texts p ≡ none
  Fresh-no_text none_left p i = cc
  Fresh-no_text {m} (one_more {a} nn free no_text out rest) p i = elim (Bool-cases (p == a)) [
    | inl y ↦ ground (arith, no_text, y)
    | inr k ↦ Fresh-no_text rest p (ground arith)
  ]

  pub Fresh-Distinct : {m : Memory F} {bs : List Ptr} → Fresh m bs → Distinct bs
  Fresh-Distinct none_left = nothing
  Fresh-Distinct (one_more nn free no_text out rest) = apart out (Fresh-Distinct rest)

  pub Fresh-rear : {m : Memory F} (xs : List Ptr) {ys : List Ptr} → Fresh m (xs ++ ys) → Fresh m ys
  Fresh-rear [] fr = fr
  Fresh-rear (x ∷ xs) (one_more nn free no_text out rest) = Fresh-rear xs rest

  -- From `m` to `m'` only what is at the addresses `cs` may change, and the answers of the allocator.
  pub record Within (cs : List Ptr) (m m' : Memory F) : Type 0 where
    pub nodes : (a : Ptr) → a ∉ cs → m'.nodes a ≡ m.nodes a
    pub texts : (a : Ptr) → a ∉ cs → m'.texts a ≡ m.texts a
    pub ends : m'.ends ≡ m.ends
    pub error : m'.last_error ≡ m.last_error

  pub Within-trans :
      {cs ds es : List Ptr} {m m' m'' : Memory F}
      → Within cs m m'
      → Within ds m' m''
      → ((a : Ptr) → a ∉ es → a ∉ cs)
      → ((a : Ptr) → a ∉ es → a ∉ ds)
      → Within es m m''
  Within-trans w v c d = record {
    nodes = λ a o. v.nodes a (d a o) ∙ w.nodes a (c a o);
    texts = λ a o. v.texts a (d a o) ∙ w.texts a (c a o);
    ends = v.ends ∙ w.ends;
    error = v.error ∙ w.error;
  }

  pub Fresh-Within :
      {cs bs : List Ptr} {m m' : Memory F}
      → Within cs m m'
      → ((a : Ptr) → a ∈ bs → a ∉ cs)
      → Fresh m bs
      → Fresh m' bs
  Fresh-Within w out fr = Fresh-frame fr (λ a i. w.nodes a (out a i)) (λ a i. w.texts a (out a i))
