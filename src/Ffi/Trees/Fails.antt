-- ===== src/Ffi/Trees/Fails.antt =====
-- `value_to_cjson` of cjson-rs-ffi/src/convert.rs where the allocator runs out of addresses.
use cjson_rs.Common.{
  ℕ, suc, ◌≤◌, Bool, true, false, none, some, List, [], ◌∷◌, ◌≡◌, ◌≢◌, inl, inr, refl, ◌∙◌, ap,
  arith, length, leb, Bool-cases,
}
use cjson_rs.Ffi.Alloc.{Double, zeroed, fill_node, append_items, append_members, value_to_cjson}
use cjson_rs.Ffi.Create.Created.{alloc_node-ok}
use cjson_rs.Ffi.Memory.{Ptr, null, Node, Memory, ok, write, with_prev}
use cjson_rs.Ffi.Memory.Chain.{◌∉◌}
use cjson_rs.Ffi.Memory.Fresh.{Fresh, fresh_head}
use cjson_rs.Ffi.Memory.Runs.{not_null, modify-ok, write-at}
use cjson_rs.Ffi.Trees.Build.{fill_node-Filled}
use cjson_rs.Ffi.Trees.Cells.{content_cells, item_cells, member_cells}
use cjson_rs.Ffi.Trees.Child.{Ready, serve, first-Ready, next-Ready, served-Fresh, linked}
use cjson_rs.Ffi.Trees.Keyed.{named}
use cjson_rs.Ffi.Trees.Join.{owner, with_slot}
use cjson_rs.Ffi.Trees.Partial.{
  Partial, Partial-returns, stopped, removed_served, string_fails, parent_fails, key_fails,
}
use cjson_rs.Ffi.Trees.Read.{
  rounds_of, item_rounds, member_rounds, item_rounds_pos, member_rounds_pos,
}
use cjson_rs.Ffi.Trees.Restored.{List-cases, removed, spent_same, alloc_cstr-none, alloc_node-none}
use cjson_rs.Ffi.Trees.Round.{
  round-Child, append_items_round, append_items_more, round-KeyedChild, with_key_at,
  append_members_round, append_members_more,
}
use cjson_rs.Ffi.Trees.Shape.{
  array_content, object_content, Elements, Elements-frame, last_element, Fields, Fields-frame,
  last_field,
}
use cjson_rs.Ffi.Types.{cjson_array, cjson_object}
use cjson_rs.Value.{
  Value, Items, Members, bool, number, string, array, object, no_items, item, no_members, member,
}

module _ {F : Type 0} (f64 : Double F) (rounds : ℕ) where
  mutual
    unfolding fill_node

    fill_node-fails :
        (v : Value F) (node : Ptr) (m : Memory F) (bs : List Ptr)
        → m.answers ≡ bs
        → node ≢ null
        → m.nodes node ≡ some (zeroed f64)
        → m.texts node ≡ none
        → node ∉ bs
        → Fresh m bs
        → suc (length bs) ≤ content_cells v
        → suc (rounds_of v) ≤ rounds
        → fill_node f64 rounds node v m ≡ ok null (removed m node)
    fill_node-fails Value.null node m bs e nn at no_text out fr h g = absurd (omega arith)
    fill_node-fails (bool b) node m bs e nn at no_text out fr h g = absurd (omega arith)
    fill_node-fails (number x) node m bs e nn at no_text out fr h g = absurd (omega arith)
    fill_node-fails (string s) node m [] e nn at no_text out fr h g =
        string_fails f64 rounds s node m e nn at no_text
    fill_node-fails (string s) node m (t ∷ ls) e nn at no_text out fr h g = absurd (omega arith)
    fill_node-fails (array vs) node m bs e nn at no_text out fr h g =
        let r =
          append_items-fails vs true node null _ bs _
            (first-Ready f64 node m bs e nn out fr cjson_array) h (omega arith) in
        rw (modify-ok m nn at λ z. record z { type_ = cjson_array }) (
          rw (Partial-returns r) (
            rw
              (parent_fails f64 rounds array node m bs cjson_array nn no_text out fr r
                (array_content refl refl (
                  Elements-frame r.done r.part.children
                    (record { nodes = λ a i. refl; texts = λ a i. refl })))
                (omega (arith, r.fewer)))
              refl))
    fill_node-fails (object ms) node m bs e nn at no_text out fr h g =
        let r =
          append_members-fails ms true node null _ bs _
            (first-Ready f64 node m bs e nn out fr cjson_object) h (omega arith) in
        rw (modify-ok m nn at λ z. record z { type_ = cjson_object }) (
          rw (Partial-returns r) (
            rw
              (parent_fails f64 rounds object node m bs cjson_object nn no_text out fr r
                (object_content refl refl (
                  Fields-frame r.done r.part.children
                    (record { nodes = λ a i. refl; texts = λ a i. refl })))
                (omega (arith, r.fewer)))
              refl))

    append_items-fails :
        (vs : Items F) (b : Bool) (parent prev : Ptr) (m : Memory F) (bs : List Ptr) (w₀ : Node F)
        → Ready b parent prev m bs w₀
        → suc (length bs) ≤ item_cells vs
        → item_rounds vs ≤ rounds
        → Partial
            (λ vs m p cs. Elements m prev p cs vs)
            item_cells
            item_rounds
            (item_rounds vs)
            m
            (owner b parent prev)
            (λ q. with_slot b q w₀)
            bs
            (append_items f64 rounds parent prev vs m)
    append_items-fails no_items b parent prev m bs w₀ k h g = absurd (omega arith)
    append_items-fails (item v vs) b parent prev m [] w₀ k h g =
        stopped f64 rounds (λ vs m p cs. Elements m prev p cs vs) item_cells item_rounds _ no_items
          k (last_element refl) refl (omega arith)
          (rw (alloc_node-none f64 m k.answers) (ap (ok false) (spent_same m k.answers)))
    append_items-fails (item v vs) b parent prev m (a ∷ bs) w₀ k h g =
        let s = fresh_head k.fresh in
        let m₁ = write (serve m bs) a (zeroed f64) in
        let fr = served-Fresh f64 m a bs k.fresh in
        elim (Bool-cases (leb (content_cells v) (length bs))) [
          | inr n ↦
              stopped f64 rounds (λ vs m p cs. Elements m prev p cs vs) item_cells item_rounds _
                no_items k (last_element refl) refl (omega arith)
                (rw (alloc_node-ok f64 m a bs k.answers s.ne_null s.free s.no_text) (
                  rw (not_null s.ne_null) (
                    rw
                      (fill_node-fails v a m₁ bs refl s.ne_null
                        (write-at (serve m bs) a (zeroed f64)) s.no_text s.out fr (ground arith)
                        (omega (arith, item_rounds_pos vs)))
                      (ap (ok false) (removed_served f64 rounds m a bs s.free)))))
          | inl y ↦
              let f =
                fill_node-Filled f64 rounds v a m₁ bs refl s.ne_null
                  (write-at (serve m bs) a (zeroed f64)) s.out fr (ground arith) in
              let r =
                append_items-fails vs false parent a
                  (linked (owner b parent prev) prev a b w₀ f.after f.n) f.left (with_prev prev f.n)
                  (next-Ready (round-Child f64 rounds k f)) (omega (arith, f.size)) (omega arith) in
              record {
                done = item v r.done;
                after = r.after;
                part = append_items_more f64 rounds k f r.done r.part;
                returns = append_items_round f64 rounds k f vs ∙ r.returns;
                fewer = omega (arith, r.fewer);
              }
        ]

    append_members-fails :
        (ms : Members F) (b : Bool) (parent prev : Ptr) (m : Memory F) (bs : List Ptr) (w₀ : Node F)
        → Ready b parent prev m bs w₀
        → suc (length bs) ≤ member_cells ms
        → member_rounds ms ≤ rounds
        → Partial
            (λ ms m p cs. Fields m prev p cs ms)
            member_cells
            member_rounds
            (member_rounds ms)
            m
            (owner b parent prev)
            (λ q. with_slot b q w₀)
            bs
            (append_members f64 rounds parent prev ms m)
    append_members-fails no_members b parent prev m bs w₀ k h g = absurd (omega arith)
    append_members-fails (member key v ms) b parent prev m [] w₀ k h g =
        stopped f64 rounds (λ ms m p cs. Fields m prev p cs ms) member_cells member_rounds _
          no_members k (last_field refl) refl (omega arith)
          (rw (alloc_node-none f64 m k.answers) (ap (ok false) (spent_same m k.answers)))
    append_members-fails (member key v ms) b parent prev m (a ∷ bs) w₀ k h g =
        let s = fresh_head k.fresh in
        let m₁ = write (serve m bs) a (zeroed f64) in
        let fr = served-Fresh f64 m a bs k.fresh in
        elim (Bool-cases (leb (content_cells v) (length bs))) [
          | inr n ↦
              stopped f64 rounds (λ ms m p cs. Fields m prev p cs ms) member_cells member_rounds _
                no_members k (last_field refl) refl (omega arith)
                (rw (alloc_node-ok f64 m a bs k.answers s.ne_null s.free s.no_text) (
                  rw (not_null s.ne_null) (
                    rw
                      (fill_node-fails v a m₁ bs refl s.ne_null
                        (write-at (serve m bs) a (zeroed f64)) s.no_text s.out fr (ground arith)
                        (omega (arith, member_rounds_pos ms)))
                      (ap (ok false) (removed_served f64 rounds m a bs s.free)))))
          | inl y ↦
              let f =
                fill_node-Filled f64 rounds v a m₁ bs refl s.ne_null
                  (write-at (serve m bs) a (zeroed f64)) s.out fr (ground arith) in
              elim (List-cases f.left) [
                | inl e ↦
                    stopped f64 rounds (λ ms m p cs. Fields m prev p cs ms) member_cells
                      member_rounds _ no_members k (last_field refl) refl (omega arith)
                      (rw (alloc_node-ok f64 m a bs k.answers s.ne_null s.free s.no_text) (
                        rw (not_null s.ne_null) (
                          rw f.returns (
                            rw (not_null s.ne_null) (
                              rw (alloc_cstr-none f.after (f.answers ∙ e) key) (
                                rw
                                  (modify-ok f.after s.ne_null f.holds
                                    λ z. record z { string = null })
                                  (rw
                                    (key_fails f64 rounds m a bs v key k.fresh f e
                                      (omega (arith, member_rounds_pos ms)))
                                    refl)))))))
                | inr (t, ls, e) ↦
                    let kc = round-KeyedChild f64 rounds k f t ls key e in
                    let r =
                      append_members-fails ms false parent a
                        (linked (owner b parent prev) prev a b w₀
                          (with_key_at f64 rounds k f t ls key e) (named t f.n))
                        ls (with_prev prev (named t f.n)) (next-Ready kc.child)
                        (omega (arith, f.size, ap length e)) (omega arith) in
                    record {
                      done = member key v r.done;
                      after = r.after;
                      part = append_members_more f64 rounds k f t ls key e r.done r.part;
                      returns = append_members_round f64 rounds k f t ls key e ms ∙ r.returns;
                      fewer = omega (arith, r.fewer);
                    }
              ]
        ]

  -- If the allocator runs out of addresses before the tree of the value is complete, `value_to_cjson`
  -- returns null and leaves the memory as it was: what it had allocated by then is freed.
  pub value_to_cjson-fails :
      (v : Value F) (m : Memory F) (bs : List Ptr)
      → m.answers ≡ bs
      → Fresh m bs
      → length bs ≤ content_cells v
      → suc (rounds_of v) ≤ rounds
      → value_to_cjson f64 rounds v m ≡ ok null (record m { answers = [] })
  unfolding value_to_cjson
  value_to_cjson-fails v m [] e fr h g =
      rw (alloc_node-none f64 m e) (ap (ok null) (spent_same m e))
  value_to_cjson-fails v m (a ∷ bs) e fr h g =
      let s = fresh_head fr in
      rw (alloc_node-ok f64 m a bs e s.ne_null s.free s.no_text) (
        rw (not_null s.ne_null) (
          fill_node-fails v a (write (serve m bs) a (zeroed f64)) bs refl s.ne_null
            (write-at (serve m bs) a (zeroed f64)) s.no_text s.out (served-Fresh f64 m a bs fr) h g
          ∙ ap (ok null) (removed_served f64 rounds m a bs s.free)))
