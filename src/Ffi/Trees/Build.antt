-- ===== src/Ffi/Trees/Build.antt =====
-- `value_to_cjson` of cjson-rs-ffi/src/convert.rs where no allocation fails.
use cjson_rs.Common.{
  ℕ, ◌≤◌, Bool, true, false, some, List, [], ◌∷◌, ◌++◌, ◌≡◌, ◌≢◌, refl, sym, subst, ◌∙◌, ap, arith,
  length,
}
use cjson_rs.Ffi.Alloc.{Double, zeroed, set_number, fill_node, append_items, append_members}
use cjson_rs.Ffi.Create.Created.{alloc_cstr-ok}
use cjson_rs.Ffi.Memory.{Ptr, null, Node, Memory, write, update, with_prev}
use cjson_rs.Ffi.Memory.Chain.{◌∉◌}
use cjson_rs.Ffi.Memory.Fresh.{Fresh, fresh_head, one_more}
use cjson_rs.Ffi.Memory.Runs.{not_null, modify-ok, write-at, write-other}
use cjson_rs.Ffi.Trees.Join.{owner, with_slot, with_slot_same, Chained}
use cjson_rs.Ffi.Trees.Shape.{
  null_content, bool_content, number_content, string_content, array_content, object_content,
  Elements, last_element, Fields, last_field,
}
use cjson_rs.Ffi.Trees.Cells.{
  content_cells, item_cells, member_cells, Filled, filled_scalar, filled_parent,
}
use cjson_rs.Ffi.Trees.Child.{Ready, serve, linked, next-Ready, first-Ready, served-Fresh, nonempty}
use cjson_rs.Ffi.Trees.Keyed.{named}
use cjson_rs.Ffi.Trees.Round.{
  round-Child, append_items_round, append_items_more, round-KeyedChild, with_key_at,
  append_members_round, append_members_more,
}
use cjson_rs.Ffi.Types.{
  cjson_null, cjson_true, cjson_false, cjson_string, cjson_array, cjson_object,
}
use cjson_rs.Text.{as_bytes}
use cjson_rs.Value.{
  Value, Items, Members, bool, number, string, array, object, no_items, item, no_members, member,
}

module _ {F : Type 0} (f64 : Double F) (rounds : ℕ) where
  mutual
    unfolding fill_node

    pub fill_node-Filled :
        (v : Value F) (node : Ptr) (m : Memory F) (bs : List Ptr)
        → m.answers ≡ bs
        → node ≢ null
        → m.nodes node ≡ some (zeroed f64)
        → node ∉ bs
        → Fresh m bs
        → content_cells v ≤ length bs
        → Filled m node bs v (fill_node f64 rounds node v m)
    fill_node-Filled Value.null node m bs answers nn at out fr h =
        filled_scalar f64 node m bs answers nn at Value.null
          (record (zeroed f64) { type_ = cjson_null }) refl refl refl refl
          (null_content refl refl refl) _
          (rw (modify-ok m nn at λ z. record z { type_ = cjson_null }) refl)
    fill_node-Filled (bool true) node m bs answers nn at out fr h =
        filled_scalar f64 node m bs answers nn at (bool true)
          (record (zeroed f64) { type_ = cjson_true }) refl refl refl refl
          (bool_content true refl refl refl) _
          (rw (modify-ok m nn at λ z. record z { type_ = cjson_true }) refl)
    fill_node-Filled (bool false) node m bs answers nn at out fr h =
        filled_scalar f64 node m bs answers nn at (bool false)
          (record (zeroed f64) { type_ = cjson_false }) refl refl refl refl
          (bool_content false refl refl refl) _
          (rw (modify-ok m nn at λ z. record z { type_ = cjson_false }) refl)
    fill_node-Filled (number x) node m bs answers nn at out fr h =
        filled_scalar f64 node m bs answers nn at (number x) (set_number f64 x (zeroed f64)) refl
          refl refl refl (number_content refl refl refl) _
          (rw (modify-ok m nn at (set_number f64 x)) refl)
    fill_node-Filled (string s) node m [] answers nn at out fr h = absurd (omega arith)
    fill_node-Filled (string s) node m (t ∷ ls) answers nn at out
          (one_more tn free no_text t_out fr) h =
        let ne : t ≢ node = λ z. ground (arith, out, z) in
        let n₁ : Node F = record (zeroed f64) { type_ = cjson_string } in
        let m₁ = write m node n₁ in
        let free₁ = write-other m node n₁ ne ∙ free in
        let m₂ : Memory F = record (serve m₁ ls) {
          texts = update m.texts t (some (as_bytes s ++ 0 ∷ []));
        } in
        let at₂ : m₂.nodes node ≡ some n₁ = write-at m node n₁ in
        let n₃ : Node F = record n₁ { valuestring = t } in
        record {
          used = t ∷ [];
          left = ls;
          after = write m₂ node n₃;
          n = n₃;
          returns = rw (modify-ok m nn at λ z. record z { type_ = cjson_string }) (
              rw (alloc_cstr-ok f64 m₁ t ls answers tn free₁ no_text s) (
                rw (modify-ok m₂ nn at₂ λ z. record z { valuestring = t })
                  (rw (not_null tn) refl)));
          split = refl;
          size = omega arith;
          answers = refl;
          holds = write-at m₂ node n₃;
          next = refl;
          prev = refl;
          string = refl;
          content = string_content refl refl (record { ne_null = tn; holds = ground arith }) refl;
          within = record {
            nodes = λ a o. ground (arith, o);
            texts = λ a o. ground (arith, o);
            ends = refl;
            error = refl;
          };
        }
    fill_node-Filled (array vs) node m bs answers nn at out fr h =
        let r =
          append_items-Chained vs true node null _ bs _
            (first-Ready f64 node m bs answers nn out fr cjson_array) h in
        filled_parent f64 node m bs cjson_array (array vs) r (array_content refl refl r.children) _
          (rw (modify-ok m nn at λ z. record z { type_ = cjson_array }) (rw r.returns refl))
    fill_node-Filled (object ms) node m bs answers nn at out fr h =
        let r =
          append_members-Chained ms true node null _ bs _
            (first-Ready f64 node m bs answers nn out fr cjson_object) h in
        filled_parent f64 node m bs cjson_object (object ms) r (object_content refl refl r.children)
          _ (rw (modify-ok m nn at λ z. record z { type_ = cjson_object }) (rw r.returns refl))

    append_items-Chained :
        (vs : Items F) (b : Bool) (parent prev : Ptr) (m : Memory F) (bs : List Ptr) (w₀ : Node F)
        → Ready b parent prev m bs w₀
        → item_cells vs ≤ length bs
        → Chained
            (λ m p cs. Elements m prev p cs vs)
            m
            (owner b parent prev)
            (λ q. with_slot b q w₀)
            bs
            (item_cells vs)
            (append_items f64 rounds parent prev vs m)
    append_items-Chained no_items b parent prev m bs w₀ k h = record {
      used = [];
      left = bs;
      after = m;
      first = null;
      returns = refl;
      split = refl;
      size = omega arith;
      answers = k.answers;
      children = last_element refl;
      slot = k.holds ∙ ap some (sym (with_slot_same b w₀ k.slot));
      within = record { nodes = λ a o. refl; texts = λ a o. refl; ends = refl; error = refl };
    }
    append_items-Chained (item v vs) b parent prev m [] w₀ k h = absurd (omega arith)
    append_items-Chained (item v vs) b parent prev m (a ∷ bs) w₀ k h =
        let s = fresh_head k.fresh in
        let f =
          fill_node-Filled v a (write (serve m bs) a (zeroed f64)) bs refl s.ne_null
            (write-at (serve m bs) a (zeroed f64)) s.out (served-Fresh f64 m a bs k.fresh)
            (omega arith) in
        let o = owner b parent prev in
        let r =
          append_items-Chained vs false parent a (linked o prev a b w₀ f.after f.n) f.left
            (with_prev prev f.n) (next-Ready (round-Child f64 rounds k f))
            (omega (arith, f.size)) in
        subst
          (Chained (λ m p cs. Elements m prev p cs (item v vs)) m o (λ q. with_slot b q w₀) (a ∷ bs)
            (item_cells (item v vs)))
          (sym (append_items_round f64 rounds k f vs)) (append_items_more f64 rounds k f vs r)

    append_members-Chained :
        (ms : Members F) (b : Bool) (parent prev : Ptr) (m : Memory F) (bs : List Ptr) (w₀ : Node F)
        → Ready b parent prev m bs w₀
        → member_cells ms ≤ length bs
        → Chained
            (λ m p cs. Fields m prev p cs ms)
            m
            (owner b parent prev)
            (λ q. with_slot b q w₀)
            bs
            (member_cells ms)
            (append_members f64 rounds parent prev ms m)
    append_members-Chained no_members b parent prev m bs w₀ k h = record {
      used = [];
      left = bs;
      after = m;
      first = null;
      returns = refl;
      split = refl;
      size = omega arith;
      answers = k.answers;
      children = last_field refl;
      slot = k.holds ∙ ap some (sym (with_slot_same b w₀ k.slot));
      within = record { nodes = λ a o. refl; texts = λ a o. refl; ends = refl; error = refl };
    }
    append_members-Chained (member key v ms) b parent prev m [] w₀ k h = absurd (omega arith)
    append_members-Chained (member key v ms) b parent prev m (a ∷ bs) w₀ k h =
        let s = fresh_head k.fresh in
        let f =
          fill_node-Filled v a (write (serve m bs) a (zeroed f64)) bs refl s.ne_null
            (write-at (serve m bs) a (zeroed f64)) s.out (served-Fresh f64 m a bs k.fresh)
            (omega arith) in
        let (t, ls, e) = nonempty f.left (omega (arith, f.size)) in
        let kc = round-KeyedChild f64 rounds k f t ls key e in
        let o = owner b parent prev in
        let m₂ = with_key_at f64 rounds k f t ls key e in
        let r =
          append_members-Chained ms false parent a (linked o prev a b w₀ m₂ (named t f.n)) ls
            (with_prev prev (named t f.n)) (next-Ready kc.child)
            (omega (arith, f.size, ap length e)) in
        subst
          (Chained (λ m p cs. Fields m prev p cs (member key v ms)) m o (λ q. with_slot b q w₀)
            (a ∷ bs) (member_cells (member key v ms)))
          (sym (append_members_round f64 rounds k f t ls key e ms))
          (append_members_more f64 rounds k f t ls key e ms r)
