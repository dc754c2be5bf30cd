-- ===== src/Ffi/Links/Place.antt =====
-- The element at an index of a list, with what stands in front of it and behind it.
use cjson_rs.Common.{ℕ, zero, suc, none, some, List, [], ◌∷◌, ◌++◌, ◌≡◌, refl, ap, get_elem?}

abbrev pub insert_at {ℓ} : {A : Type ℓ} → ℕ → A → List A → List A
insert_at zero a xs = a ∷ xs
insert_at (suc k) a [] = a ∷ []
insert_at (suc k) a (x ∷ xs) = x ∷ insert_at k a xs

abbrev pub remove_at {ℓ} : {A : Type ℓ} → ℕ → List A → List A
remove_at k [] = []
remove_at zero (x ∷ xs) = xs
remove_at (suc k) (x ∷ xs) = x ∷ remove_at k xs

module _ {A : Type 0} where
  -- `e` stands at the index, between `front` and `rear`.
  pub record Inside (k : ℕ) (xs : List A) (e : A) : Type 0 where
    pub front : List A
    pub rear : List A
    pub whole : xs ≡ front ++ e ∷ rear
    pub inserted : (a : A) → insert_at k a xs ≡ front ++ a ∷ e ∷ rear
    pub removed : remove_at k xs ≡ front ++ rear

  pub record Past (k : ℕ) (xs : List A) : Type 0 where
    pub inserted : (a : A) → insert_at k a xs ≡ xs ++ a ∷ []
    pub removed : remove_at k xs ≡ xs

  pub data Place (k : ℕ) (xs : List A) : Type 0 where
    inside : (e : A) → get_elem? xs k ≡ some e → Inside k xs e → Place k xs
    past : get_elem? xs k ≡ none → Past k xs → Place k xs

  Place-cons : (k : ℕ) (x : A) (xs : List A) → Place k xs → Place (suc k) (x ∷ xs)
  Place-cons k x xs (inside e at i) = inside e at (record {
    front = x ∷ i.front;
    rear = i.rear;
    whole = ap (◌∷◌ x) i.whole;
    inserted = λ a. ap (◌∷◌ x) (i.inserted a);
    removed = ap (◌∷◌ x) i.removed;
  })
  Place-cons k x xs (past at i) =
      past at (record { inserted = λ a. ap (◌∷◌ x) (i.inserted a); removed = ap (◌∷◌ x) i.removed })

  pub place : (k : ℕ) (xs : List A) → Place k xs
  place zero [] = past refl (record { inserted = λ a. refl; removed = refl })
  place (suc k) [] = past refl (record { inserted = λ a. refl; removed = refl })
  place zero (x ∷ xs) =
      inside x refl
        (record { front = []; rear = xs; whole = refl; inserted = λ a. refl; removed = refl })
  place (suc k) (x ∷ xs) = Place-cons k x xs (place k xs)
