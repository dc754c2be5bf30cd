-- ===== src/Ffi/Trees/Compared.antt =====
-- `cJSON_Compare` of cjson-rs-ffi/src/lib.rs on two trees that hold values.
use cjson_rs.Common.{ℕ, ◌≤◌, Bool, false, refl, not, some, List, ◌≡◌, ◌≢◌, ◌==◌}
use cjson_rs.Ffi.Compare.{compare_values}
use cjson_rs.Ffi.Memory.{Ptr, null, Node, Memory, ok}
use cjson_rs.Ffi.Memory.Runs.{not_null, guard-ok}
use cjson_rs.Ffi.Trees.{cjson_compare}
use cjson_rs.Ffi.Trees.Read.{cut_value, rounds_of, cjson_to_value-Content}
use cjson_rs.Ffi.Trees.Shape.{Content}
use cjson_rs.Serialiser.Normal.{HasText}
use cjson_rs.Value.{Value}

module _ {F : Type 0} where
  -- At `p` is the root of a tree that holds the value, whose strings and keys consist of characters.
  pub record Holds (m : Memory F) (p : Ptr) (v : Value F) : Type 0 where
    pub node : Node F
    pub below : List Ptr
    pub ne_null : p ≢ null
    pub at : m.nodes p ≡ some node
    pub content : Content m node.type_ node.valuestring node.child node.valuedouble below v
    pub text : HasText v

module _ {F : Type 0} (eq_f64 : F → F → Bool) where
  -- `cJSON_Compare` of the roots of two trees, which may be the same or share nodes, says what
  -- `compare_values` says of the values that they hold, with each string and key cut at its first NUL,
  -- and changes nothing, on any fuel from the rounds of both walks on.
  pub compare-compare_values :
      (f : ℕ) (m : Memory F) (a b case_sensitive : ℕ) (v w : Value F)
      → Holds m a v
      → Holds m b w
      → rounds_of v ≤ f
      → rounds_of w ≤ f
      → cjson_compare eq_f64 f a b case_sensitive m
        ≡ ok (compare_values eq_f64 (not (case_sensitive == 0)) (cut_value v) (cut_value w)) m
  unfolding cjson_compare
  compare-compare_values f m a b case_sensitive v w h k e g = guard-ok m false _ (
      rw (not_null h.ne_null) (
        rw (not_null k.ne_null) (
          rw (cjson_to_value-Content v f m a h.ne_null h.at h.content h.text e)
            (rw (cjson_to_value-Content w f m b k.ne_null k.at k.content k.text g) refl))))
