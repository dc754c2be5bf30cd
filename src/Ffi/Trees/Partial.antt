-- ===== src/Ffi/Trees/Partial.antt =====
-- What `value_to_cjson` of cjson-rs-ffi/src/convert.rs has built and gives back where an allocation
-- fails: a string, a key, or the children from one on.
use cjson_rs.Common.{
  ℕ, suc, ◌≤◌, Bool, true, false, none, some, List, [], ◌∷◌, ◌≡◌, ◌≢◌, inl, inr, refl, sym, ◌∙◌, ap,
  arith, subst, ◌==◌, Bool-cases,
}
use cjson_rs.Ffi.Alloc.{Double, zeroed, free_cjson, fill_node}
use cjson_rs.Ffi.Memory.{Ptr, null, Node, Memory, Run, ok, write, with_child}
use cjson_rs.Ffi.Memory.Chain.{has, has-append, ◌∈◌, ◌∉◌}
use cjson_rs.Ffi.Memory.Fresh.{
  Fresh, fresh_head, Fresh-Distinct, Fresh-no_node, Fresh-no_text, Distinct, apart, Distinct-append,
}
use cjson_rs.Ffi.Memory.Runs.{modify-ok, write-at, write-other}
use cjson_rs.Ffi.Trees.Cells.{Filled}
use cjson_rs.Ffi.Trees.Child.{Ready, serve}
use cjson_rs.Ffi.Trees.Keyed.{named}
use cjson_rs.Ffi.Trees.Gone.{free_node-ok}
use cjson_rs.Ffi.Trees.Join.{owner, with_slot, with_slot_same, Chained}
use cjson_rs.Ffi.Trees.Read.{rounds_of}
use cjson_rs.Ffi.Trees.Restored.{spent, removed, same_memory, alloc_cstr-none, free_restored}
use cjson_rs.Ffi.Trees.Shape.{Content, Content-frame}
use cjson_rs.Ffi.Types.{cjson_string}
use cjson_rs.Value.{Value, string}

module _ {F : Type 0} where
  -- The run stops with the children `done`, all that the allocator serves is used up.
  pub record Partial {T : Type 0} (P : T → Memory F → Ptr → List Ptr → Type 0)
      (cells rounds : T → ℕ) (limit : ℕ) (m : Memory F) (o : Ptr) (put : Ptr → Node F)
      (bs : List Ptr) (run : Run F Bool) : Type 0 where
    pub done : T
    pub after : Memory F
    pub part : Chained (P done) m o put bs (cells done) (ok true after)
    pub returns : run ≡ ok false (spent after)
    pub fewer : rounds done ≤ limit

  abbrev end_of : Memory F → Run F Bool → Memory F
  end_of d (ok b m) = m
  end_of d _ = d

  pub Partial-returns :
      {T : Type 0} {P : T → Memory F → Ptr → List Ptr → Type 0} {cells rounds : T → ℕ} {limit : ℕ}
      {m : Memory F} {o : Ptr} {put : Ptr → Node F} {bs : List Ptr} {run : Run F Bool}
      → (r : Partial P cells rounds limit m o put bs run) → run ≡ ok false (spent r.part.after)
  Partial-returns r = r.returns ∙ ap (λ z. ok false (spent (end_of r.after z))) r.part.returns

module _ {F : Type 0} (f64 : Double F) (rounds : ℕ) where
  -- no child is appended
  pub stopped :
      {T : Type 0} (P : T → Memory F → Ptr → List Ptr → Type 0) (cells count : T → ℕ) (limit : ℕ)
      (t : T) {b : Bool} {parent prev : Ptr} {m : Memory F} {bs : List Ptr} {w₀ : Node F}
      {run : Run F Bool}
      → Ready b parent prev m bs w₀
      → P t m null []
      → cells t ≡ 0
      → count t ≤ limit
      → run ≡ ok false (spent m)
      → Partial P cells count limit m (owner b parent prev) (λ q. with_slot b q w₀) bs run
  stopped P cells count limit t {b} {m} {bs} {w₀} k p e h returns = record {
    done = t;
    after = m;
    part = record {
      used = [];
      left = bs;
      after = m;
      first = null;
      returns = refl;
      split = refl;
      size = omega (arith, e);
      answers = k.answers;
      children = p;
      slot = k.holds ∙ ap some (sym (with_slot_same b w₀ k.slot));
      within = record { nodes = λ a o. refl; texts = λ a o. refl; ends = refl; error = refl };
    };
    returns = returns;
    fewer = h;
  }

  -- the memory of a node that has been served, and that is released
  pub removed_served :
      (m : Memory F) (a : Ptr) (bs : List Ptr)
      → m.nodes a ≡ none
      → removed (write (serve m bs) a (zeroed f64)) a ≡ spent m
  removed_served m a bs e = same_memory (λ p. ground (arith, e)) (λ p. refl) refl refl refl

  -- the string of a node cannot be copied
  pub string_fails :
      (s : List ℕ) (node : Ptr) (m : Memory F)
      → m.answers ≡ []
      → node ≢ null
      → m.nodes node ≡ some (zeroed f64)
      → m.texts node ≡ none
      → fill_node f64 rounds node (string s) m ≡ ok null (removed m node)
  unfolding fill_node
  string_fails s node m e nn at no_text =
      let n₁ : Node F = record (zeroed f64) { type_ = cjson_string } in
      let m₁ = write m node n₁ in
      let m₂ = write m₁ node n₁ in
      rw (modify-ok m nn at λ z. record z { type_ = cjson_string }) (
        rw (alloc_cstr-none m₁ e s) (
          rw (modify-ok m₁ nn (write-at m node n₁) λ z. record z { valuestring = null }) (
            rw (free_node-ok m₂ node nn n₁ (write-at m₁ node n₁)) (
              ap (ok null)
                (same_memory (λ p. ground arith) (λ p. ground (arith, no_text)) refl refl e)))))

  -- the children of a node cannot all be appended
  pub parent_fails :
      {T : Type 0} {P : T → Memory F → Ptr → List Ptr → Type 0} {cells count : T → ℕ} {limit : ℕ}
      {run : Run F Bool} (make : T → Value F) (node : Ptr) (m : Memory F) (bs : List Ptr) (t : ℕ)
      → node ≢ null
      → m.texts node ≡ none
      → node ∉ bs
      → Fresh m bs
      → (r : Partial P cells count limit
          (write m node (record (zeroed f64) { type_ = t }))
          node
          (λ q. with_child q (record (zeroed f64) { type_ = t }))
          bs
          run)
      → Content (spent r.part.after) t null r.part.first f64.zero_bytes r.part.used (make r.done)
      → suc (rounds_of (make r.done)) ≤ rounds
      → free_cjson rounds node (spent r.part.after) ≡ ok tt (removed m node)
  parent_fails make node m bs t nn no_text out fr r c h =
      let x = r.part in
      let n₁ : Node F = record (zeroed f64) { type_ = t } in
      let in_bs : (a : Ptr) → a ∈ x.used → a ∈ bs =
        λ a i. let p = ap (has a) x.split ∙ has-append a x.used x.left in ground arith in
      let parts = Distinct-append x.used x.left (subst Distinct x.split (Fresh-Distinct fr)) in
      free_restored (make r.done) rounds (removed m node) (spent x.after) node nn x.slot refl c
        (apart (let i = in_bs node in ground (arith, out, i)) parts.front) h
        (λ a i. elim (Bool-cases (a == node)) [
          | inl y ↦ rw y refl
          | inr k ↦ rw k (Fresh-no_node fr a (in_bs a (ground arith)))
        ])
        (λ a i. elim (Bool-cases (a == node)) [
          | inl y ↦ ground (arith, no_text, y)
          | inr k ↦ Fresh-no_text fr a (in_bs a (ground arith))
        ])
        (record {
          nodes = λ a o. x.within.nodes a o ∙ ground (arith, o);
          texts = x.within.texts;
          ends = x.within.ends;
          error = x.within.error;
        })
        refl

  -- the key of a child cannot be copied
  pub key_fails :
      (m : Memory F) (a : Ptr) (bs : List Ptr) (v : Value F) {run : Run F Ptr} (key : List ℕ)
      → Fresh m (a ∷ bs)
      → (f : Filled (write (serve m bs) a (zeroed f64)) a bs v run) → f.left ≡ []
      → suc (rounds_of v) ≤ rounds
      → free_cjson rounds a (write f.after a (named null f.n)) ≡ ok tt (spent m)
  key_fails m a bs v key fr f e h =
      let s = fresh_head fr in
      let used_bs : (p : Ptr) → p ∈ (a ∷ f.used) → p ∈ (a ∷ bs) =
        λ p i. let q = ap (has p) f.split ∙ has-append p f.used f.left in ground arith in
      let parts =
        Distinct-append (a ∷ f.used) f.left
          (subst (λ z. Distinct (a ∷ z)) f.split (Fresh-Distinct fr)) in
      let a_out : a ∉ f.used = elim parts.front [ apart o _ ↦ o ] in
      free_restored v rounds (spent m) (write f.after a (named null f.n)) a s.ne_null
        (write-at f.after a (named null f.n)) refl
        (Content-frame v f.content (record {
          nodes = λ p i. write-other f.after a (named null f.n) (λ z. ground (arith, a_out, i, z));
          texts = λ p i. refl;
        }))
        parts.front h (λ p i. Fresh-no_node fr p (used_bs p i))
        (λ p i. Fresh-no_text fr p (used_bs p i))
        (record {
          nodes = λ p o.
              write-other f.after a (named null f.n) (λ z. ground (arith, o, z))
              ∙ f.within.nodes p o
              ∙ ground (arith, o);
          texts = f.within.texts;
          ends = f.within.ends;
          error = f.within.error;
        })
        (sym (f.answers ∙ e))
