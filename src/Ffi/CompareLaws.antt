-- ===== src/Ffi/CompareLaws.antt =====
-- `compare_values` of cjson-rs-ffi/src/lib.rs on equal values.
use cjson_rs.Common.{ℕ, Bool, true, false, ◌&&◌, ◌||◌, List, [], ◌∷◌, map, ◌≡◌, refl, arith}
use cjson_rs.Ffi.Compare.{
  str_eq, lower, keys_match, any_member, compare_values, compare_items, compare_members,
}
use cjson_rs.Number.{Float}
use cjson_rs.Serialiser.Normal.{IsFinite, AreFinite, MembersAreFinite}
use cjson_rs.Value.{
  Value, Members, null, bool, number, string, array, object, no_items, item, no_members, member,
}

and_true : (a b : Bool) → (a && b) ≡ true → (a ≡ true) × (b ≡ true)
and_true a b h = ground arith

and_intro : (a b : Bool) → a ≡ true → b ≡ true → (a && b) ≡ true
and_intro a b h k = ground arith

or_right : (a b : Bool) → b ≡ true → (a || b) ≡ true
or_right a b h = ground arith

str_eq_refl : (s : List ℕ) → str_eq s s ≡ true
unfolding str_eq
str_eq_refl [] = refl
str_eq_refl (c ∷ s) = let ih = str_eq_refl s in ground (arith, ih)

keys_match_refl : (case_sensitive : Bool) (k : List ℕ) → keys_match case_sensitive k k ≡ true
unfolding keys_match
keys_match_refl true k = str_eq_refl k
keys_match_refl false k = str_eq_refl (map lower k)

module _ {F : Type 0} (f64 : Float F) (eq_f64 : F → F → Bool) (case_sensitive : Bool) where
  open f64 use {is_finite}

  -- a further member in the second object does not hurt
  compare_members_weaken :
      (x y : Members F) (k : List ℕ) (v : Value F)
      → compare_members eq_f64 case_sensitive x y ≡ true
      → compare_members eq_f64 case_sensitive x (member k v y) ≡ true
  unfolding compare_members any_member
  compare_members_weaken no_members y k v h = refl
  compare_members_weaken (member k' v' x) y k v h =
      let (found, others) = and_true _ _ h in
      and_intro _ _ (or_right _ _ found) (compare_members_weaken x y k v others)

  module _ (finite_refl : (n : F) → is_finite n ≡ true → eq_f64 n n ≡ true) where
    -- Every value whose numbers are finite compares equal to itself, with or without regard to
    -- case, if finite numbers equal themselves.
    pub compare_values_refl :
        (v : Value F) → IsFinite f64 v → compare_values eq_f64 case_sensitive v v ≡ true
    unfolding compare_values any_member IsFinite
    compare_values_refl v =
        elim v
          as (λ v. IsFinite f64 v → compare_values eq_f64 case_sensitive v v ≡ true) (λ vs.
            AreFinite f64 vs → compare_items eq_f64 case_sensitive vs vs ≡ true) (λ ms.
              MembersAreFinite f64 ms → compare_members eq_f64 case_sensitive ms ms ≡ true) [
                | null ↦ λ h. refl
                | bool true ↦ λ h. refl
                | bool false ↦ λ h. refl
                | number n ↦ λ h. finite_refl n h
                | string s ↦ λ h. str_eq_refl s
                | array (vs → ih) ↦ λ h. ground (arith, ih h)
                | object (ms → ih) ↦ λ h. ground (arith, ih h)
                | no_items ↦ λ h. refl
                | item (w → ih) (vs → ihs) ↦ λ h. ground (arith, ih h.0, ihs h.1)
                | no_members ↦ λ h. refl
                | member k (w → ih) (ms → ihs) ↦ λ h. ground (
                  arith,
                  keys_match_refl case_sensitive k,
                  ih h.0,
                  compare_members_weaken ms ms k w (ihs h.1),
                )
              ]
