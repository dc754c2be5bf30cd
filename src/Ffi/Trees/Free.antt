-- ===== src/Ffi/Trees/Free.antt =====
-- `free_cjson` of cjson-rs-ffi/src/convert.rs on a tree that holds a value.
use cjson_rs.Common.{
  ℕ, zero, suc, ◌≤◌, true, false, some, List, [], ◌∷◌, ◌++◌, ◌≡◌, ◌≢◌, refl, sym, subst, ◌∙◌,
  append_assoc, append-nil, ap, arith,
}
use cjson_rs.Ffi.Alloc.{free_children, free_cjson}
use cjson_rs.Ffi.Memory.{Ptr, null, Node, Memory}
use cjson_rs.Ffi.Memory.Fresh.{Distinct, Distinct-append}
use cjson_rs.Ffi.Trees.Gone.{Gone-nothing}
use cjson_rs.Ffi.Trees.Read.{
  rounds_of, item_rounds, member_rounds, rounds_of_pos, item_rounds_pos, member_rounds_pos,
}
use cjson_rs.Ffi.Trees.Shape.{
  Content, null_content, bool_content, number_content, string_content, array_content,
  object_content, Elements, last_element, element, Elements-frame, Fields, last_field, field,
  Fields-frame,
}
use cjson_rs.Value.{
  Value, Items, Members, bool, number, string, array, object, no_items, item, no_members, member,
}
use cjson_rs.Ffi.Trees.Release.{
  Plain, as-Plain, below-Distinct, free_below, free_below_leaf, free_below_parent,
  free_below_string, Gone-Agree, free_whole, free_round, Frees, KeyCells, without_key, with_key,
}

module _ {F : Type 0} where
  mutual
    unfolding free_cjson free_children Plain

    pub free_cjson-Content :
        (v : Value F) (f : ℕ) (m : Memory F) (p : Ptr) {n : Node F} {cs ks ds : List Ptr}
        → p ≢ null
        → m.nodes p ≡ some n
        → KeyCells m n.string ks
        → Content m n.type_ n.valuestring n.child n.valuedouble cs v
        → ds ≡ p ∷ (cs ++ ks)
        → Distinct ds
        → suc (rounds_of v) ≤ f
        → Frees ds m (free_cjson f p m)
    free_cjson-Content Value.null (suc f) m p {n} nn at kc (null_content t e g) q d h =
        free_whole f m p nn at kc (as-Plain t (refl, refl)) q d
          (free_below_leaf f m n (as-Plain t (refl, refl)) g e (omega arith))
    free_cjson-Content (bool true) (suc f) m p {n} nn at kc (bool_content true t e g) q d h =
        free_whole f m p nn at kc (as-Plain t (refl, refl)) q d
          (free_below_leaf f m n (as-Plain t (refl, refl)) g e (omega arith))
    free_cjson-Content (bool false) (suc f) m p {n} nn at kc (bool_content false t e g) q d h =
        free_whole f m p nn at kc (as-Plain t (refl, refl)) q d
          (free_below_leaf f m n (as-Plain t (refl, refl)) g e (omega arith))
    free_cjson-Content (number x) (suc f) m p {n} nn at kc (number_content t e g) q d h =
        free_whole f m p nn at kc (as-Plain t (refl, refl)) q d
          (free_below_leaf f m n (as-Plain t (refl, refl)) g e (omega arith))
    free_cjson-Content (string s) (suc f) m p {n} nn at kc (string_content t g x c) q d h =
        free_whole f m p nn at kc (as-Plain t (refl, refl)) q d (
          subst (λ z. Frees z m (free_below f n m)) (sym c)
            (free_below_string f m n (as-Plain t (refl, refl)) g x (omega arith)))
    free_cjson-Content (array vs) (suc f) m p {n} {cs} {ks} nn at kc (array_content t e c) q d h =
        free_whole f m p nn at kc (as-Plain t (refl, refl)) q d (
          free_below_parent f m n (as-Plain t (refl, refl)) e (
            free_children-Elements vs f f m n.child c (below-Distinct ks q d) (omega arith)
              (omega arith)))
    free_cjson-Content (object ms) (suc f) m p {n} {cs} {ks} nn at kc (object_content t e c) q d h =
        free_whole f m p nn at kc (as-Plain t (refl, refl)) q d (
          free_below_parent f m n (as-Plain t (refl, refl)) e (
            free_children-Fields ms f f m n.child c (below-Distinct ks q d) (omega arith)
              (omega arith)))
    free_cjson-Content v zero m p nn at kc c q d h = absurd (omega arith)

    free_children-Elements :
        (vs : Items F) (f g : ℕ) (m : Memory F) (p : Ptr) {before : Ptr} {cs : List Ptr}
        → Elements m before p cs vs
        → Distinct cs
        → item_rounds vs ≤ f
        → item_rounds vs ≤ g
        → Frees cs m (free_children (free_cjson f) g p m)
    free_children-Elements no_items f (suc g) m p (last_element e) d h k = record {
      after = m;
      returns = rw e refl;
      gone = Gone-nothing m;
    }
    free_children-Elements (item v vs) f (suc g) m p (element {a} {n} {us} {ws} e l s c r q) d h k =
        let parts = Distinct-append (a ∷ us) ws (subst Distinct q d) in
        let run =
          free_cjson-Content v f m a l.ne_null l.holds (without_key s) c
            (ap (λ z. a ∷ z) (sym (append-nil us))) parts.front
            (omega (arith, item_rounds_pos vs)) in
        free_round f g m p a e l.ne_null l.holds q run (
          free_children-Elements vs f g run.after n.next
            (Elements-frame vs r (Gone-Agree run.gone parts.parts)) parts.rear (omega arith)
            (omega (arith, rounds_of_pos v)))
    free_children-Elements vs f zero m p c d h k = absurd (omega (arith, item_rounds_pos vs))

    free_children-Fields :
        (ms : Members F) (f g : ℕ) (m : Memory F) (p : Ptr) {before : Ptr} {cs : List Ptr}
        → Fields m before p cs ms
        → Distinct cs
        → member_rounds ms ≤ f
        → member_rounds ms ≤ g
        → Frees cs m (free_children (free_cjson f) g p m)
    free_children-Fields no_members f (suc g) m p (last_field e) d h k = record {
      after = m;
      returns = rw e refl;
      gone = Gone-nothing m;
    }
    free_children-Fields (member key v ms) f (suc g) m p (field {a} {n} {us} {ws} e l s c r q) d h
          k =
        let flat = q ∙ ap (λ z. a ∷ z) (sym (append_assoc us (n.string ∷ []) ws)) in
        let parts = Distinct-append (a ∷ (us ++ n.string ∷ [])) ws (subst Distinct flat d) in
        let run =
          free_cjson-Content v f m a l.ne_null l.holds (with_key s) c refl parts.front
            (omega (arith, member_rounds_pos ms)) in
        free_round f g m p a e l.ne_null l.holds flat run (
          free_children-Fields ms f g run.after n.next
            (Fields-frame ms r (Gone-Agree run.gone parts.parts)) parts.rear (omega arith)
            (omega (arith, rounds_of_pos v)))
    free_children-Fields ms f zero m p c d h k = absurd (omega (arith, member_rounds_pos ms))
