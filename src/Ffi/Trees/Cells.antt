-- ===== src/Ffi/Trees/Cells.antt =====
-- What `value_to_cjson` of cjson-rs-ffi/src/convert.rs takes from the allocator, and a node that it
-- has filled.
use cjson_rs.Common.{ℕ, suc, ◌+◌, Bool, some, List, [], ◌∷◌, ◌++◌, ◌≡◌, ◌≢◌, refl, arith, length}
use cjson_rs.Ffi.Alloc.{Double, zeroed}
use cjson_rs.Ffi.Memory.{Ptr, null, Node, Memory, Run, ok, write, with_child}
use cjson_rs.Ffi.Memory.Fresh.{Within, Within-trans}
use cjson_rs.Ffi.Memory.Runs.{write-at}
use cjson_rs.Ffi.Trees.Join.{Chained}
use cjson_rs.Ffi.Trees.Shape.{Content}
use cjson_rs.Value.{
  Value, Items, Members, string, array, object, no_items, item, no_members, member,
}

module _ {F : Type 0} where
  -- the allocations for a value below its node
  abbrev mutual
    pub content_cells : Value F → ℕ
    content_cells (string s) = 1
    content_cells (array vs) = item_cells vs
    content_cells (object ms) = member_cells ms
    content_cells _ = 0

    pub item_cells : Items F → ℕ
    item_cells no_items = 0
    item_cells (item v vs) = suc (content_cells v + item_cells vs)

    pub member_cells : Members F → ℕ
    member_cells no_members = 0
    member_cells (member k v ms) = suc (content_cells v + suc (member_cells ms))

  -- Of the addresses `bs` that the allocator serves, the run takes `used` for what is below the node,
  -- which then holds the value.
  pub record Filled (m : Memory F) (node : Ptr) (bs : List Ptr) (v : Value F) (run : Run F Ptr)
      : Type 0 where
    pub used : List Ptr
    pub left : List Ptr
    pub after : Memory F
    pub n : Node F
    pub returns : run ≡ ok node after
    pub split : bs ≡ used ++ left
    pub size : length bs ≡ content_cells v + length left
    pub answers : after.answers ≡ left
    pub holds : after.nodes node ≡ some n
    pub next : n.next ≡ null
    pub prev : n.prev ≡ null
    pub string : n.string ≡ null
    pub content : Content after n.type_ n.valuestring n.child n.valuedouble used v
    pub within : Within (node ∷ used) m after

  pub Within-write : (m : Memory F) (a : Ptr) (n : Node F) → Within (a ∷ []) m (write m a n)
  Within-write m a n = record {
    nodes = λ c i. ground (arith, i);
    texts = λ c i. refl;
    ends = refl;
    error = refl;
  }

module _ {F : Type 0} (f64 : Double F) where
  module _ (node : Ptr) (m : Memory F) (bs : List Ptr) (answers : m.answers ≡ bs) (nn : node ≢ null)
      (at : m.nodes node ≡ some (zeroed f64)) where
    -- a value with nothing below its node
    pub filled_scalar :
        (v : Value F) (n : Node F)
        → content_cells v ≡ 0
        → n.next ≡ null
        → n.prev ≡ null
        → n.string ≡ null
        → Content (write m node n) n.type_ n.valuestring n.child n.valuedouble [] v
        → (run : Run F Ptr) → run ≡ ok node (write m node n)
        → Filled m node bs v run
    filled_scalar v n empty e e' e'' c run returns = record {
      used = [];
      left = bs;
      after = write m node n;
      n = n;
      returns = returns;
      split = refl;
      size = omega arith;
      answers = answers;
      holds = write-at m node n;
      next = e;
      prev = e';
      string = e'';
      content = c;
      within = Within-write m node n;
    }

  -- a value with children
  pub filled_parent :
      (node : Ptr) (m : Memory F) (bs : List Ptr) (t : ℕ) (v : Value F)
      {P : Memory F → Ptr → List Ptr → Type 0} {part : Run F Bool}
      → (r : Chained P
          (write m node (record (zeroed f64) { type_ = t }))
          node
          (λ q. with_child q (record (zeroed f64) { type_ = t }))
          bs
          (content_cells v)
          part)
      → Content r.after t null r.first f64.zero_bytes r.used v
      → (run : Run F Ptr) → run ≡ ok node r.after
      → Filled m node bs v run
  filled_parent node m bs t v r c run returns = record {
    used = r.used;
    left = r.left;
    after = r.after;
    n = with_child r.first (record (zeroed f64) { type_ = t });
    returns = returns;
    split = r.split;
    size = r.size;
    answers = r.answers;
    holds = r.slot;
    next = refl;
    prev = refl;
    string = refl;
    content = c;
    within =
        Within-trans (Within-write m node (record (zeroed f64) { type_ = t })) r.within
          (λ a o. ground (arith, o)) (λ a o. o);
  }
