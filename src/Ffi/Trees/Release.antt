-- ===== src/Ffi/Trees/Release.antt =====
-- `free_cjson` of cjson-rs-ffi/src/convert.rs at one node: what is below it, its key and itself.
use cjson_rs.Common.{
  ℕ, zero, suc, ◌≤◌, false, ◌&&◌, not, some, List, [], ◌∷◌, ◌++◌, ◌≡◌, ◌≢◌, refl, sym, subst, ◌∙◌,
  ap, arith, ◌==◌, if◌then◌else◌,
}
use cjson_rs.Ffi.Alloc.{hook_free, free_children, free_cjson, has_flag}
use cjson_rs.Ffi.Memory.{Ptr, null, Node, Memory, Run, Cmd, ok, pure, ◌>>◌}
use cjson_rs.Ffi.Memory.Chain.{has, ◌∉◌, has-append, Disjoint}
use cjson_rs.Ffi.Memory.Fresh.{Distinct, apart, Distinct-append}
use cjson_rs.Ffi.Memory.Runs.{not_null, load-ok}
use cjson_rs.Ffi.Trees.Gone.{
  Gone, Gone-nothing, Gone-trans, Gone-append, without, without-Gone, free_node-ok, free_text-ok,
}
use cjson_rs.Ffi.Trees.Shape.{TextAt, Agree}
use cjson_rs.Ffi.Types.{cjson_is_reference, cjson_string_is_const}

-- the types without flags
unfoldable pub Plain : ℕ → Type 0
Plain t = (has_flag cjson_is_reference t ≡ false) × (has_flag cjson_string_is_const t ≡ false)

pub as-Plain : {t u : ℕ} → t ≡ u → Plain u → Plain t
as-Plain e p = subst Plain (sym e) p

Distinct-uncons : {a : Ptr} {xs : List Ptr} → Distinct (a ∷ xs) → (a ∉ xs) × Distinct xs
Distinct-uncons (apart out d) = (out, d)

pub below-Distinct :
    (ks : List Ptr) {p : Ptr} {cs ds : List Ptr} → ds ≡ p ∷ (cs ++ ks) → Distinct ds → Distinct cs
below-Distinct ks {cs} e d =
    let parts = Distinct-append cs ks (Distinct-uncons (subst Distinct e d)).1 in parts.front

module _ {F : Type 0} where
  -- A run that releases the addresses `cs`.
  pub record Frees (cs : List Ptr) (m : Memory F) (run : Run F (Unit {0})) : Type 0 where
    pub after : Memory F
    pub returns : run ≡ ok tt after
    pub gone : Gone cs m after

  -- The key of a node is null, or a copy at the listed address.
  pub data KeyCells (m : Memory F) (key : Ptr) : List Ptr → Type 0 where
    without_key : key ≡ null → KeyCells m key []
    with_key : {s : List ℕ} → TextAt m key s → KeyCells m key (key ∷ [])

  -- what `free_cjson` does below the node
  abbrev pub free_below : ℕ → Node F → Cmd F (Unit {0})
  free_below f n = if has_flag cjson_is_reference n.type_ then pure tt else do
    free_children (free_cjson f) f n.child
    if n.valuestring == null then pure tt else hook_free n.valuestring

  abbrev free_own_key : Node F → Cmd F (Unit {0})
  free_own_key n =
      if not (n.string == null) && not (has_flag cjson_string_is_const n.type_)
      then hook_free n.string
      else pure tt

  free_own_key-Frees :
      (m : Memory F) (n : Node F) (ks : List Ptr)
      → Plain n.type_
      → KeyCells m n.string ks
      → Frees ks m (free_own_key n m)
  unfolding Plain
  free_own_key-Frees m n ks p (without_key e) = record {
    after = m;
    returns = rw e refl;
    gone = Gone-nothing m;
  }
  free_own_key-Frees m n ks p (with_key t) = record {
    after = without m n.string;
    returns = rw (not_null t.ne_null) (rw p.1 (free_text-ok m n.string t.ne_null t.holds));
    gone = without-Gone m n.string;
  }

  -- a node whose value has no children
  pub free_below_leaf :
      (f : ℕ) (m : Memory F) (n : Node F)
      → Plain n.type_
      → n.child ≡ null
      → n.valuestring ≡ null
      → 1 ≤ f
      → Frees [] m (free_below f n m)
  unfolding Plain free_children
  free_below_leaf zero m n p c t h = absurd (omega arith)
  free_below_leaf (suc f) m n p c t h = record {
    after = m;
    returns = rw (p.0, c) (rw t refl);
    gone = Gone-nothing m;
  }

  -- what is below a node with children
  pub free_below_parent :
      (f : ℕ) (m : Memory F) (n : Node F) {cs : List Ptr}
      → Plain n.type_
      → n.valuestring ≡ null
      → Frees cs m (free_children (free_cjson f) f n.child m)
      → Frees cs m (free_below f n m)
  unfolding Plain
  free_below_parent f m n p t r = record {
    after = r.after;
    returns = rw p.0 (rw r.returns (rw t refl));
    gone = r.gone;
  }

  pub free_below_string :
      (f : ℕ) (m : Memory F) (n : Node F) {s : List ℕ}
      → Plain n.type_
      → n.child ≡ null
      → TextAt m n.valuestring s
      → 1 ≤ f
      → Frees (n.valuestring ∷ []) m (free_below f n m)
  unfolding Plain free_children
  free_below_string zero m n p c t h = absurd (omega arith)
  free_below_string (suc f) m n p c t h = record {
    after = without m n.valuestring;
    returns =
        rw (p.0, c) (rw (not_null t.ne_null) (free_text-ok m n.valuestring t.ne_null t.holds));
    gone = without-Gone m n.valuestring;
  }

  KeyCells-frame :
      {m m' : Memory F} {key : Ptr} {ks : List Ptr}
      → KeyCells m key ks
      → Agree ks m m'
      → KeyCells m' key ks
  KeyCells-frame (without_key e) g = without_key e
  KeyCells-frame {key} (with_key t) g =
      with_key (record { ne_null = t.ne_null; holds = g.texts key (ground arith) ∙ t.holds })

  pub Gone-Agree :
      {cs ds : List Ptr} {m m' : Memory F} → Gone cs m m' → Disjoint cs ds → Agree ds m m'
  Gone-Agree g d = record {
    nodes = λ a i. g.nodes a (let k = d a in ground arith);
    texts = λ a i. g.texts a (let k = d a in ground arith);
  }

  -- the whole node
  pub free_whole :
      (f : ℕ) (m : Memory F) (p : Ptr) {n : Node F} {cs ks ds : List Ptr}
      → p ≢ null
      → m.nodes p ≡ some n
      → KeyCells m n.string ks
      → Plain n.type_
      → ds ≡ p ∷ (cs ++ ks)
      → Distinct ds
      → Frees cs m (free_below f n m)
      → Frees ds m (free_cjson (suc f) p m)
  unfolding free_cjson
  free_whole f m p {n} {cs} {ks} {ds} nn at kc plain e d b =
      let h = Distinct-uncons (subst Distinct e d) in
      let out = h.0 in
      let parts = Distinct-append cs ks h.1 in
      let k =
        free_own_key-Frees b.after n ks plain (KeyCells-frame kc (Gone-Agree b.gone parts.parts)) in
      let g = Gone-append b.gone k.gone in
      record {
        after = without k.after p;
        returns = rw (not_null nn) (
            rw (load-ok m nn at)
              (rw b.returns (rw k.returns (free_node-ok k.after p nn n (g.nodes p out ∙ at)))));
        gone = Gone-trans g (without-Gone k.after p) λ a. ground (arith, e);
      }

  -- a round of the loop over the children
  pub free_round :
      (f g : ℕ) (m : Memory F) (p a : Ptr) {n : Node F} {ds ws cs : List Ptr}
      → p ≡ a
      → a ≢ null
      → m.nodes a ≡ some n
      → cs ≡ ds ++ ws
      → (r : Frees ds m (free_cjson f a m))
      → Frees ws r.after (free_children (free_cjson f) g n.next r.after)
      → Frees cs m (free_children (free_cjson f) (suc g) p m)
  unfolding free_children
  free_round f g m p a {n} {ds} {ws} {cs} e nn at q r s = record {
    after = s.after;
    returns =
        subst (λ z. free_children (free_cjson f) (suc g) z m ≡ ok tt s.after) (sym e)
          (rw (not_null nn) (rw (load-ok m nn at) (rw r.returns s.returns)));
    gone = Gone-trans r.gone s.gone λ b. ap (has b) q ∙ has-append b ds ws;
  }
