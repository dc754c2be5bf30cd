-- ===== src/Serialiser/Normal.antt =====
-- What a text can say of a value, with null for a number that is not finite; and the values whose
-- strings are text, as those of Rust always are.
use cjson_rs.Common.{true, ◌≡◌, refl, ap, ap₂, arith, if◌then◌else◌, Bool-cases, inl, inr}
use cjson_rs.Number.{Float}
use cjson_rs.Parser.Grammar.{height, height_items, height_members}
use cjson_rs.Text.Utf8.{IsText}
use cjson_rs.Value.{
  Value, Items, Members, null, bool, number, string, array, object, no_items, item, no_members,
  member,
}

module _ {F : Type 0} (f64 : Float F) where
  open f64 use {is_finite}

  unfoldable mutual
    pub normal : Value F → Value F
    normal null = null
    normal (bool b) = bool b
    normal (number n) = if is_finite n then number n else null
    normal (string s) = string s
    normal (array items) = array (normal_items items)
    normal (object members) = object (normal_members members)

    pub normal_items : Items F → Items F
    normal_items no_items = no_items
    normal_items (item v items) = item (normal v) (normal_items items)

    pub normal_members : Members F → Members F
    normal_members no_members = no_members
    normal_members (member k v members) = member k (normal v) (normal_members members)

  -- every number is finite
  unfoldable mutual
    pub IsFinite : Value F → Type 0
    IsFinite null = Unit
    IsFinite (bool b) = Unit
    IsFinite (number n) = is_finite n ≡ true
    IsFinite (string s) = Unit
    IsFinite (array items) = AreFinite items
    IsFinite (object members) = MembersAreFinite members

    pub AreFinite : Items F → Type 0
    AreFinite no_items = Unit
    AreFinite (item v items) = IsFinite v × AreFinite items

    pub MembersAreFinite : Members F → Type 0
    MembersAreFinite no_members = Unit
    MembersAreFinite (member k v members) = IsFinite v × MembersAreFinite members

  mutual
    unfolding normal IsFinite

    normal_id : (v : Value F) → IsFinite v → normal v ≡ v
    normal_id null h = refl
    normal_id (bool b) h = refl
    normal_id (number n) h = rw h
    normal_id (string s) h = refl
    normal_id (array items) h = ap array (normal_items_id items h)
    normal_id (object members) h = ap object (normal_members_id members h)

    normal_items_id : (xs : Items F) → AreFinite xs → normal_items xs ≡ xs
    normal_items_id no_items h = refl
    normal_items_id (item v xs) h = ap₂ item (normal_id v h.0) (normal_items_id xs h.1)

    normal_members_id : (xs : Members F) → MembersAreFinite xs → normal_members xs ≡ xs
    normal_members_id no_members h = refl
    normal_members_id (member k v xs) h =
        ap₂ (member k) (normal_id v h.0) (normal_members_id xs h.1)

  pub normal-finite : (v : Value F) → IsFinite v → normal v ≡ v
  normal-finite v h = normal_id v h

  mutual
    unfolding normal height

    height_same : (v : Value F) → height (normal v) ≡ height v
    height_same null = refl
    height_same (bool b) = refl
    height_same (number n) = elim (Bool-cases (is_finite n)) [ inl y ↦ rw y | inr k ↦ rw k ]
    height_same (string s) = refl
    height_same (array items) = omega (arith, height_items_same items)
    height_same (object members) = omega (arith, height_members_same members)

    height_items_same : (xs : Items F) → height_items (normal_items xs) ≡ height_items xs
    height_items_same no_items = refl
    height_items_same (item v xs) = omega (arith, height_same v, height_items_same xs)

    height_members_same : (xs : Members F) → height_members (normal_members xs) ≡ height_members xs
    height_members_same no_members = refl
    height_members_same (member k v xs) = omega (arith, height_same v, height_members_same xs)

  pub height-normal : (v : Value F) → height (normal v) ≡ height v
  height-normal v = height_same v

module _ {F : Type 0} where
  unfoldable mutual
    pub HasText : Value F → Type 0
    HasText null = Unit
    HasText (bool b) = Unit
    HasText (number n) = Unit
    HasText (string s) = IsText s
    HasText (array items) = ItemsHaveText items
    HasText (object members) = MembersHaveText members

    pub ItemsHaveText : Items F → Type 0
    ItemsHaveText no_items = Unit
    ItemsHaveText (item v items) = HasText v × ItemsHaveText items

    pub MembersHaveText : Members F → Type 0
    MembersHaveText no_members = Unit
    MembersHaveText (member k v members) = IsText k × HasText v × MembersHaveText members
