-- ===== src/Ffi/Trees/Gone.antt =====
-- What `free_cjson` of cjson-rs-ffi/src/convert.rs does to the memory: addresses are released.
use cjson_rs.Common.{
  ℕ, ◌||◌, none, some, List, [], ◌∷◌, ◌++◌, ◌≡◌, ◌≢◌, inl, inr, refl, ◌∙◌, arith, Bool-cases,
  Option-cases,
}
use cjson_rs.Ffi.Alloc.{hook_free}
use cjson_rs.Ffi.Memory.{Ptr, null, Node, Memory, ok, update}
use cjson_rs.Ffi.Memory.Chain.{has, ◌∈◌, ◌∉◌, has-append}
use cjson_rs.Ffi.Memory.Runs.{not_null}

module _ {F : Type 0} where
  -- Nothing is left at the addresses `cs`, and all else is the same.
  pub record Gone (cs : List Ptr) (m m' : Memory F) : Type 0 where
    pub no_node : (a : Ptr) → a ∈ cs → m'.nodes a ≡ none
    pub no_text : (a : Ptr) → a ∈ cs → m'.texts a ≡ none
    pub nodes : (a : Ptr) → a ∉ cs → m'.nodes a ≡ m.nodes a
    pub texts : (a : Ptr) → a ∉ cs → m'.texts a ≡ m.texts a
    pub ends : m'.ends ≡ m.ends
    pub error : m'.last_error ≡ m.last_error
    pub answers : m'.answers ≡ m.answers

  pub Gone-nothing : (m : Memory F) → Gone [] m m
  Gone-nothing m = record {
    no_node = λ a i. cc;
    no_text = λ a i. cc;
    nodes = λ a o. refl;
    texts = λ a o. refl;
    ends = refl;
    error = refl;
    answers = refl;
  }

  pub Gone-trans :
      {xs ys zs : List Ptr} {m m' m'' : Memory F}
      → Gone xs m m'
      → Gone ys m' m''
      → ((a : Ptr) → has a zs ≡ (has a xs || has a ys))
      → Gone zs m m''
  Gone-trans {xs} {ys} g h e = record {
    no_node = λ a i. elim (Bool-cases (has a ys)) [
      | inl y ↦ h.no_node a y
      | inr k ↦ h.nodes a k ∙ g.no_node a (let q = e a in ground arith)
    ];
    no_text = λ a i. elim (Bool-cases (has a ys)) [
      | inl y ↦ h.no_text a y
      | inr k ↦ h.texts a k ∙ g.no_text a (let q = e a in ground arith)
    ];
    nodes = λ a o. let q = e a in h.nodes a (ground arith) ∙ g.nodes a (ground arith);
    texts = λ a o. let q = e a in h.texts a (ground arith) ∙ g.texts a (ground arith);
    ends = h.ends ∙ g.ends;
    error = h.error ∙ g.error;
    answers = h.answers ∙ g.answers;
  }

  pub Gone-append :
      {xs ys : List Ptr} {m m' m'' : Memory F}
      → Gone xs m m'
      → Gone ys m' m''
      → Gone (xs ++ ys) m m''
  Gone-append {xs} {ys} g h = Gone-trans g h λ a. has-append a xs ys

  abbrev pub without : Memory F → Ptr → Memory F
  without m p = record m { nodes = update m.nodes p none; texts = update m.texts p none }

  pub without-Gone : (m : Memory F) (p : Ptr) → Gone (p ∷ []) m (without m p)
  without-Gone m p = record {
    no_node = λ a i. ground (arith, i);
    no_text = λ a i. ground (arith, i);
    nodes = λ a o. ground (arith, o);
    texts = λ a o. ground (arith, o);
    ends = refl;
    error = refl;
    answers = refl;
  }

  module _ (m : Memory F) (p : Ptr) (nn : p ≢ null) where
    pub free_node-ok : (n : Node F) → m.nodes p ≡ some n → hook_free p m ≡ ok tt (without m p)
    unfolding hook_free
    free_node-ok n at = rw (hook_free, not_null nn, at) refl

    pub free_text-ok : {s : List ℕ} → m.texts p ≡ some s → hook_free p m ≡ ok tt (without m p)
    unfolding hook_free
    free_text-ok at = elim (Option-cases (m.nodes p)) [
      | inl e ↦ rw (hook_free, not_null nn) (rw (e, at) refl)
      | inr (n, e) ↦ rw (hook_free, not_null nn) (rw e refl)
    ]
