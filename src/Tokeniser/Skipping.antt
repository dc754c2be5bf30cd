-- ===== src/Tokeniser/Skipping.antt =====
-- The loops of tokeniser.rs that pass over bytes, and the run of bytes they pass over.
use cjson_rs.Common.{
  ℕ, zero, suc, ◌≤◌, Bool, true, [], ◌∷◌, ◌++◌, ◌≡◌, inl, inr, refl, arith, Bytes, if◌then◌else◌,
  Bool-cases, length, All, ap,
}
use cjson_rs.Number.Grammar.{Stops}
use cjson_rs.Tokeniser.Cursor.{Tokeniser, advance, rest, skip_while, skip_all}
use cjson_rs.Tokeniser.Reading.{After, After-refl, After-trans, After-advance, peek_cons, peek_nil}

abbrev pub take_while : (ℕ → Bool) → Bytes → Bytes
take_while p [] = []
take_while p (b ∷ bs) = if p b then b ∷ take_while p bs else []

abbrev pub drop_while : (ℕ → Bool) → Bytes → Bytes
drop_while p [] = []
drop_while p (b ∷ bs) = if p b then drop_while p bs else b ∷ bs

pub skip_while_lem :
    (p : ℕ → Bool) (f : ℕ) (t : Tokeniser) (xs : Bytes)
    → rest t ≡ xs
    → length xs ≤ f
    → After t (take_while p xs) (drop_while p xs) (skip_while p f t)
unfolding skip_while
skip_while_lem p zero t [] e h = After-refl t e
skip_while_lem p zero t (x ∷ xs) e h = absurd (omega arith)
skip_while_lem p (suc f) t [] e h = rw (skip_while, peek_nil t e) (After-refl t e)
skip_while_lem p (suc f) t (x ∷ xs) e h = elim (Bool-cases (p x)) [
  | inl y ↦
      rw (skip_while, peek_cons t e, y)
        (let a = After-advance t e in
          After-trans (x ∷ []) _ a (skip_while_lem p f (advance t) xs a.left (omega arith)))
  | inr n ↦ rw (skip_while, peek_cons t e, n) (After-refl t e)
]

pub skip_all_lem :
    (p : ℕ → Bool) (t : Tokeniser)
    → After t (take_while p (rest t)) (drop_while p (rest t)) (skip_all p t)
skip_all_lem p t = skip_while_lem p (length (rest t)) t (rest t) refl (omega arith)

-- A run on which the test holds, and behind it nothing or a byte on which it fails.
abbrev pub AllPass : (ℕ → Bool) → Bytes → Type 0
AllPass p = All (λ b. p b ≡ true)

pub take_while-AllPass : (p : ℕ → Bool) (xs : Bytes) → AllPass p (take_while p xs)
take_while-AllPass p [] = tt
take_while-AllPass p (x ∷ xs) = elim (Bool-cases (p x)) [
  | inl y ↦ rw y (y, take_while-AllPass p xs)
  | inr n ↦ rw n tt
]

pub drop_while-Stops : (p : ℕ → Bool) (xs : Bytes) → Stops p (drop_while p xs)
drop_while-Stops p [] = tt
drop_while-Stops p (x ∷ xs) = elim (Bool-cases (p x)) [
  | inl y ↦ rw y (drop_while-Stops p xs)
  | inr n ↦ rw n n
]

pub take_while-run :
    (p : ℕ → Bool) (xs ys : Bytes)
    → AllPass p xs
    → Stops p ys
    → (take_while p (xs ++ ys) ≡ xs) × (drop_while p (xs ++ ys) ≡ ys)
take_while-run p [] [] h k = (refl, refl)
take_while-run p [] (y ∷ ys) h k = (rw k, rw k)
take_while-run p (x ∷ xs) ys h k =
    let ih = take_while-run p xs ys h.1 k in (rw (h.0) (ap (◌∷◌ x) ih.0), rw (h.0) ih.1)

-- such a run is what `skip_all` reads
pub skip_all-run :
    (p : ℕ → Bool) (t : Tokeniser) (xs ys : Bytes)
    → rest t ≡ xs ++ ys
    → AllPass p xs
    → Stops p ys
    → After t xs ys (skip_all p t)
skip_all-run p t xs ys e h k =
    let (a, b) = take_while-run p xs ys h k in
    let l = skip_while_lem p (length (rest t)) t (xs ++ ys) e (omega (arith, ap length e)) in
    rw (a, b) at l
