-- ===== src/Ffi/Trees/Read.antt =====
-- `cjson_to_value` of cjson-rs-ffi/src/lib.rs on a tree that holds a value.
use cjson_rs.Common.{
  ℕ, zero, suc, ◌+◌, ◌≤◌, true, false, some, List, ◌≡◌, ◌≢◌, refl, sym, subst, arith,
}
use cjson_rs.Ffi.Memory.{Ptr, null, Node, Memory, ok}
use cjson_rs.Ffi.Memory.Runs.{not_null, load-ok}
use cjson_rs.Ffi.Trees.{cjson_to_value, items_from, members_from}
use cjson_rs.Ffi.Trees.Shape.{
  Content, null_content, bool_content, number_content, string_content, array_content,
  object_content, Elements, last_element, element, Fields, last_field, field,
}
use cjson_rs.Ffi.Trees.Texts.{cut, str_or_empty-cut}
use cjson_rs.Serialiser.Normal.{HasText, ItemsHaveText, MembersHaveText}
use cjson_rs.Value.{
  Value, Items, Members, bool, number, string, array, object, no_items, item, no_members, member,
}

module _ {F : Type 0} where
  -- the value with each string and key cut at its first NUL
  abbrev mutual
    pub cut_value : Value F → Value F
    cut_value Value.null = Value.null
    cut_value (bool b) = bool b
    cut_value (number x) = number x
    cut_value (string s) = string (cut s)
    cut_value (array vs) = array (cut_items vs)
    cut_value (object ms) = object (cut_members ms)

    pub cut_items : Items F → Items F
    cut_items no_items = no_items
    cut_items (item v vs) = item (cut_value v) (cut_items vs)

    pub cut_members : Members F → Members F
    cut_members no_members = no_members
    cut_members (member k v ms) = member (cut k) (cut_value v) (cut_members ms)

  -- The rounds that the walk over the tree of a value takes.
  abbrev mutual
    pub rounds_of : Value F → ℕ
    rounds_of (array vs) = suc (item_rounds vs)
    rounds_of (object ms) = suc (member_rounds ms)
    rounds_of _ = 1

    pub item_rounds : Items F → ℕ
    item_rounds no_items = 1
    item_rounds (item v vs) = suc (rounds_of v + item_rounds vs)

    pub member_rounds : Members F → ℕ
    member_rounds no_members = 1
    member_rounds (member k v ms) = suc (rounds_of v + member_rounds ms)

  pub rounds_of_pos : (v : Value F) → 1 ≤ rounds_of v
  rounds_of_pos Value.null = omega arith
  rounds_of_pos (bool b) = omega arith
  rounds_of_pos (number x) = omega arith
  rounds_of_pos (string s) = omega arith
  rounds_of_pos (array vs) = omega arith
  rounds_of_pos (object ms) = omega arith

  pub item_rounds_pos : (vs : Items F) → 1 ≤ item_rounds vs
  item_rounds_pos no_items = omega arith
  item_rounds_pos (item v vs) = omega arith

  pub member_rounds_pos : (ms : Members F) → 1 ≤ member_rounds ms
  member_rounds_pos no_members = omega arith
  member_rounds_pos (member k v ms) = omega arith

  mutual
    unfolding cjson_to_value HasText

    pub cjson_to_value-Content :
        (v : Value F) (f : ℕ) (m : Memory F) (p : Ptr) {n : Node F} {cs : List Ptr}
        → p ≢ null
        → m.nodes p ≡ some n
        → Content m n.type_ n.valuestring n.child n.valuedouble cs v
        → HasText v
        → rounds_of v ≤ f
        → cjson_to_value f p m ≡ ok (some (cut_value v)) m
    cjson_to_value-Content Value.null (suc f) m p nn at (null_content e _ _) t h =
        rw (not_null nn) (rw (load-ok m nn at) (rw e refl))
    cjson_to_value-Content (bool true) (suc f) m p nn at (bool_content _ e _ _) t h =
        rw (not_null nn) (rw (load-ok m nn at) (rw e refl))
    cjson_to_value-Content (bool false) (suc f) m p nn at (bool_content _ e _ _) t h =
        rw (not_null nn) (rw (load-ok m nn at) (rw e refl))
    cjson_to_value-Content (number x) (suc f) m p nn at (number_content e _ _) t h =
        rw (not_null nn) (rw (load-ok m nn at) (rw e refl))
    cjson_to_value-Content (string s) (suc f) m p {n} nn at (string_content e _ text _) t h =
        rw (not_null nn)
          (rw (load-ok m nn at) (rw e (rw (str_or_empty-cut m n.valuestring s text t) refl)))
    cjson_to_value-Content (array vs) (suc f) m p {n} nn at (array_content e _ c) t h =
        rw (not_null nn) (
          rw (load-ok m nn at)
            (rw e (rw (items_from-Elements vs f m n.child c t (omega arith)) refl)))
    cjson_to_value-Content (object ms) (suc f) m p {n} nn at (object_content e _ c) t h =
        rw (not_null nn) (
          rw (load-ok m nn at)
            (rw e (rw (members_from-Fields ms f m n.child c t (omega arith)) refl)))
    cjson_to_value-Content v zero m p nn at c t h = absurd (omega (arith, rounds_of_pos v))

    pub items_from-Elements :
        (vs : Items F) (f : ℕ) (m : Memory F) (p : Ptr) {before : Ptr} {cs : List Ptr}
        → Elements m before p cs vs
        → ItemsHaveText vs
        → item_rounds vs ≤ f
        → items_from f p m ≡ ok (some (cut_items vs)) m
    items_from-Elements no_items (suc f) m p (last_element e) t h = rw e refl
    items_from-Elements (item v vs) (suc f) m p (element {a} {n} e l s c r q) t h =
        subst (λ z. items_from (suc f) z m ≡ ok (some (cut_items (item v vs))) m) (sym e)
          (rw (not_null l.ne_null) (
            rw (cjson_to_value-Content v f m a l.ne_null l.holds c t.0 (omega arith)) (
              rw (load-ok m l.ne_null l.holds)
                (rw (items_from-Elements vs f m n.next r t.1 (omega arith)) refl))))
    items_from-Elements vs zero m p c t h = absurd (omega (arith, item_rounds_pos vs))

    pub members_from-Fields :
        (ms : Members F) (f : ℕ) (m : Memory F) (p : Ptr) {before : Ptr} {cs : List Ptr}
        → Fields m before p cs ms
        → MembersHaveText ms
        → member_rounds ms ≤ f
        → members_from f p m ≡ ok (some (cut_members ms)) m
    members_from-Fields no_members (suc f) m p (last_field e) t h = rw e refl
    members_from-Fields (member k v ms) (suc f) m p (field {a} {n} e l s c r q) t h =
        subst (λ z. members_from (suc f) z m ≡ ok (some (cut_members (member k v ms))) m) (sym e)
          (rw (not_null l.ne_null) (
            rw (load-ok m l.ne_null l.holds) (
              rw (str_or_empty-cut m n.string k s t.0) (
                rw (cjson_to_value-Content v f m a l.ne_null l.holds c t.1 (omega arith))
                  (rw (members_from-Fields ms f m n.next r t.2 (omega arith)) refl)))))
    members_from-Fields ms zero m p c t h = absurd (omega (arith, member_rounds_pos ms))
