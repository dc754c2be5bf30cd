-- ===== src/Parser/Sound.antt =====
-- The recursive descent of parser.rs on any tokens.
use cjson_rs.Common.{
  ℕ, zero, suc, ◌+◌, ◌-◌, ◌*◌, ◌≤◌, ◌<◌, Bool, true, false, Option, List, [], ◌∷◌, ◌++◌, ◌≡◌, inl,
  inr, refl, sym, ap, arith, length, leb, List-cases, Bool-cases, subst,
}
use cjson_rs.Error.{Position, Result, ok, err, Returns, returned, raised, Returns-bind, ◌>>=◌}
use cjson_rs.Token.{
  Token, begin_object, end_object, begin_array, end_array, name_separator, value_separator,
  null_lit, true_lit, false_lit, number, string,
}
use cjson_rs.Value.{Value, Items, Members, null, bool, no_items, item, no_members, member}
use cjson_rs.Parser.{
  Parser, peek, peek_pos, advance, enter, close, is_end_array, is_end_object, pass_separator,
  read_key, read_name_separator, parse_value, parse_array, parse_items, parse_object, parse_members,
}
use cjson_rs.Parser.Complete.{close_ok}
use cjson_rs.Parser.Grammar.{
  emit, emit_items, emit_more_items, emit_members, emit_more_members, height, height_items,
  height_members, length-append_tokens,
}
use cjson_rs.Parser.Reading.{
  left, After, After-trans, After-advance, After-depth, peek_cons, peek_nil,
}

module _ {F : Type 0} where
  -- The value is that of the tokens passed, the depth is as before, and the limit was kept.
  abbrev pub ReadsValue : Parser F → Value F × Parser F → Type 0
  ReadsValue p (v, q) =
      After p (emit v) (left q) q × (q.depth ≡ p.depth) × (height v + p.depth ≤ p.limit)

  -- The elements of an array and its bracket; there is one element at least.
  abbrev ReadsItems : Parser F → Items F × Parser F → Type 0
  ReadsItems p (xs, q) =
      After p (emit_items xs) (left q) q
      × (q.depth + 1 ≡ p.depth)
      × (height_items xs + p.depth ≤ p.limit)
      × (emit_more_items xs ≡ value_separator ∷ emit_items xs)

  abbrev ReadsMembers : Parser F → Members F × Parser F → Type 0
  ReadsMembers p (xs, q) =
      After p (emit_members xs) (left q) q
      × (q.depth + 1 ≡ p.depth)
      × (height_members xs + p.depth ≤ p.limit)
      × (emit_more_members xs ≡ value_separator ∷ emit_members xs)

module _ (F : Type 0) where
  abbrev pub ValueSound : ℕ → Type 0
  ValueSound f =
      (p : Parser F)
      → p.depth ≤ p.limit
      → 3 * length (left p) < f
      → Returns (ReadsValue p) (parse_value f p)

  abbrev ArraySound : ℕ → Type 0
  ArraySound f =
      (p : Parser F) (r : List (Token F))
      → left p ≡ begin_array ∷ r
      → 3 * length (left p) ≤ f
      → Returns (ReadsValue p) (parse_array f p)

  abbrev ObjectSound : ℕ → Type 0
  ObjectSound f =
      (p : Parser F) (r : List (Token F))
      → left p ≡ begin_object ∷ r
      → 3 * length (left p) ≤ f
      → Returns (ReadsValue p) (parse_object f p)

  abbrev ItemsSound : ℕ → Type 0
  ItemsSound f =
      (p : Parser F)
      → 0 < p.depth
      → p.depth ≤ p.limit
      → 3 * length (left p) + 1 < f
      → Returns (ReadsItems p) (parse_items f p)

  abbrev MembersSound : ℕ → Type 0
  MembersSound f =
      (p : Parser F)
      → 0 < p.depth
      → p.depth ≤ p.limit
      → 3 * length (left p) + 1 < f
      → Returns (ReadsMembers p) (parse_members f p)

  -- a token that is a value by itself
  scalar_sound :
      (v : Value F) (k : Token F) (p : Parser F) (r : List (Token F))
      → left p ≡ k ∷ r
      → emit v ≡ k ∷ []
      → height v ≡ 0
      → p.depth ≤ p.limit
      → ReadsValue p (v, advance p)
  scalar_sound v k p r e w flat h =
      let a = After-advance p e in
      (rw w (subst (λ s. After p (k ∷ []) s (advance p)) (sym a.rest) a), refl, omega arith)

  value_step : (f : ℕ) → ArraySound f → ObjectSound f → ValueSound (suc f)
  unfolding parse_value emit height
  value_step f arr obj p h b = elim (List-cases (left p)) [
    | inl e ↦ rw (parse_value, peek_nil p e) (raised _)
    | inr (k, r, e) ↦ rw (parse_value, peek_cons p e) (go k r e)
  ]
    where
      go :
          (k : Token F) (r : List (Token F))
          → left p ≡ k ∷ r
          → Returns (ReadsValue p) (elim k as (λ _. Result (Value F × Parser F)) [
            | null_lit ↦ ok (null, advance p)
            | true_lit ↦ ok (bool true, advance p)
            | false_lit ↦ ok (bool false, advance p)
            | number n ↦ ok (Value.number n, advance p)
            | string s ↦ ok (Value.string s, advance p)
            | begin_array ↦ parse_array f p
            | begin_object ↦ parse_object f p
            | _ ↦ err (cjson_rs.Error.unexpected_token (peek_pos p))
          ])
      go null_lit r e = returned (scalar_sound null null_lit p r e refl refl h)
      go true_lit r e = returned (scalar_sound (bool true) true_lit p r e refl refl h)
      go false_lit r e = returned (scalar_sound (bool false) false_lit p r e refl refl h)
      go (number n) r e = returned (scalar_sound (Value.number n) (number n) p r e refl refl h)
      go (string s) r e = returned (scalar_sound (Value.string s) (string s) p r e refl refl h)
      go begin_array r e = arr p r e (omega arith)
      go begin_object r e = obj p r e (omega arith)
      go end_array r e = raised _
      go end_object r e = raised _
      go name_separator r e = raised _
      go value_separator r e = raised _

  -- behind a closing token, at the depth outside
  abbrev closed : Parser F → Parser F
  closed q = record (advance q) { depth = q.depth - 1 }

  close_After :
      {p q : Parser F} {x : List (Token F)} (k : Token F) (r : List (Token F))
      → After p x (left q) q
      → left q ≡ k ∷ r
      → After p (x ++ k ∷ []) (left (closed q)) (closed q)
  close_After {p} {q} {x} k r a e =
      let c = After-depth (q.depth - 1) (After-advance q e) in
      let b = After-trans x (k ∷ []) (subst (λ s. After p x s q) e a) c in
      subst (λ s. After p (x ++ k ∷ []) s (closed q)) (sym c.rest) b

  pass_separator-Returns :
      (closes : Option (Token F) → Bool) (q : Parser F) (r : List (Token F))
      → left q ≡ value_separator ∷ r
      → Returns
          (λ o. After q (value_separator ∷ []) (left o) o × (o.depth ≡ q.depth))
          (pass_separator closes q)
  unfolding pass_separator
  pass_separator-Returns closes q r e = elim (Bool-cases (closes (peek (advance q)))) [
    | inl y ↦ rw (pass_separator, y) (raised _)
    | inr n ↦
        rw (pass_separator, n)
          (let a = After-advance q e in
            returned
              (subst (λ s. After q (value_separator ∷ []) s (advance q)) (sym a.rest) a, refl))
  ]

  join :
      {p q o : Parser F} {x y : List (Token F)}
      → After p x (left q) q
      → After q y (left o) o
      → After p (x ++ y) (left o) o
  join {p} {q} {o} {x} {y} a b = After-trans x y (subst (λ s. After p x s q) b.before a) b

  items_step : (f : ℕ) → ValueSound f → ItemsSound f → ItemsSound (suc f)
  unfolding parse_value emit height
  items_step f value items p d h b =
      Returns-bind (value p h (omega arith)) λ (v, q) (a, same, fits). elim (List-cases (left q)) [
        | inl e ↦ rw (peek_nil q e) (raised _)
        | inr (k, r, e) ↦ rw (peek_cons q e) (go v q a same fits k r e)
      ]
    where
      go :
          (v : Value F) (q : Parser F)
          → After p (emit v) (left q) q
          → q.depth ≡ p.depth
          → height v + p.depth ≤ p.limit
          → (k : Token F) (r : List (Token F)) → left q ≡ k ∷ r
          → Returns (ReadsItems p) (elim k as (λ _. Result (Items F × Parser F)) [
            | value_separator ↦ pass_separator is_end_array q >>= λ p₂.
                parse_items f p₂ >>= λ (xs, p₃). ok (item v xs, p₃)
            | end_array ↦ close q >>= λ p₂. ok (item v no_items, p₂)
            | _ ↦ err (cjson_rs.Error.unexpected_token (peek_pos q))
          ])
      go v q a same fits end_array r e =
          rw (close_ok q (omega arith))
            (returned (close_After end_array r a e, omega arith, omega arith, refl))
      go v q a same fits value_separator r e =
          Returns-bind (pass_separator-Returns is_end_array q r e) λ o (a₁, same₁).
            Returns-bind
              (items o (omega arith) (omega (arith, a.same_limit, a₁.same_limit)) (
                omega (
                  arith,
                  ap length a.before,
                  ap length a₁.before,
                  length-append_tokens (emit v) (left q),
                )))
              λ (xs, z) (a₂, same₂, fits₂, shape). returned (
                subst (λ ks. After p (emit v ++ ks) (left z) z) (sym shape) (join a (join a₁ a₂)),
                omega arith,
                omega (arith, a.same_limit, a₁.same_limit),
                refl,
              )
      go v q a same fits _ r e = raised _

  -- the opening token of a container, passed one deeper
  enter-Returns :
      (pos : Position) (p : Parser F) (k : Token F) (r : List (Token F))
      → left p ≡ k ∷ r
      → Returns
          (λ o.
            After p (k ∷ []) (left (advance o)) (advance o)
            × (o.depth ≡ p.depth + 1)
            × (p.depth < p.limit))
          (enter pos p)
  unfolding enter
  enter-Returns pos p k r e = elim (Bool-cases (leb p.limit p.depth)) [
    | inl y ↦ rw (enter, y) (raised _)
    | inr n ↦
        rw (enter, n)
          (let a = After-depth (p.depth + 1) (After-advance p e) in
            let o = record (advance p) { depth = p.depth + 1 } in
            returned (subst (λ s. After p (k ∷ []) s o) (sym a.rest) a, refl, ground arith))
  ]

  close-Returns : (p : Parser F) → 0 < p.depth → Returns (λ o. o ≡ closed p) (close p)
  close-Returns p h = rw (close_ok p h) (returned refl)

  is_end_array-left :
      (p : Parser F)
      → is_end_array (peek p) ≡ true
      → (r : List (Token F)) × (left p ≡ end_array ∷ r)
  is_end_array-left p h = elim (List-cases (left p)) [
    | inl e ↦ cc (rw (peek_nil p e) at h)
    | inr (k, r, e) ↦ (r, ground (arith, peek_cons p e))
  ]

  is_end_object-left :
      (p : Parser F)
      → is_end_object (peek p) ≡ true
      → (r : List (Token F)) × (left p ≡ end_object ∷ r)
  is_end_object-left p h = elim (List-cases (left p)) [
    | inl e ↦ cc (rw (peek_nil p e) at h)
    | inr (k, r, e) ↦ (r, ground (arith, peek_cons p e))
  ]

  array_step : (f : ℕ) → ItemsSound f → ArraySound (suc f)
  unfolding parse_value emit height
  array_step f items p r e b =
      Returns-bind (enter-Returns (peek_pos p) p begin_array r e) λ o (a, deeper, room).
        elim (Bool-cases (is_end_array (peek (advance o)))) [
          | inl y ↦
              let (r', e') = is_end_array-left (advance o) y in
              rw y (
                Returns-bind (close-Returns (advance o) (omega arith)) λ o' closed_eq.
                  rw closed_eq (returned (close_After end_array r' a e', omega arith, omega arith)))
          | inr n ↦ rw n (
              Returns-bind
                (items (advance o) (omega arith) (omega (arith, a.same_limit))
                  (omega (arith, ap length a.before)))
                λ (xs, q) (a₁, same₁, fits₁, shape).
                  returned (join a a₁, omega arith, omega (arith, a.same_limit)))
        ]

  object_step : (f : ℕ) → MembersSound f → ObjectSound (suc f)
  unfolding parse_value emit height
  object_step f members p r e b =
      Returns-bind (enter-Returns (peek_pos p) p begin_object r e) λ o (a, deeper, room).
        elim (Bool-cases (is_end_object (peek (advance o)))) [
          | inl y ↦
              let (r', e') = is_end_object-left (advance o) y in
              rw y (
                Returns-bind (close-Returns (advance o) (omega arith)) λ o' closed_eq.
                  rw closed_eq
                    (returned (close_After end_object r' a e', omega arith, omega arith)))
          | inr n ↦ rw n (
              Returns-bind
                (members (advance o) (omega arith) (omega (arith, a.same_limit))
                  (omega (arith, ap length a.before)))
                λ (xs, q) (a₁, same₁, fits₁, shape).
                  returned (join a a₁, omega arith, omega (arith, a.same_limit)))
        ]

  read_key-Returns :
      (p : Parser F)
      → Returns (λ (k, q). After p (string k ∷ []) (left q) q × (q.depth ≡ p.depth)) (read_key p)
  unfolding read_key
  read_key-Returns p = elim (List-cases (left p)) [
    | inl e ↦ rw (read_key, peek_nil p e) (raised _)
    | inr (k, r, e) ↦ rw (read_key, peek_cons p e) (go k r e)
  ]
    where
      go :
          (k : Token F) (r : List (Token F))
          → left p ≡ k ∷ r
          → Returns
              (λ (k, q). After p (string k ∷ []) (left q) q × (q.depth ≡ p.depth))
              (elim k as (λ _. Result (List ℕ × Parser F)) [
                | string s ↦ ok (s, advance p)
                | _ ↦ err (cjson_rs.Error.unexpected_token (peek_pos p))
              ])
      go (string s) r e =
          let a = After-advance p e in
          returned (subst (λ z. After p (string s ∷ []) z (advance p)) (sym a.rest) a, refl)
      go _ r e = raised _

  read_name_separator-Returns :
      (p : Parser F)
      → Returns
          (λ q. After p (name_separator ∷ []) (left q) q × (q.depth ≡ p.depth))
          (read_name_separator p)
  unfolding read_name_separator
  read_name_separator-Returns p = elim (List-cases (left p)) [
    | inl e ↦ rw (read_name_separator, peek_nil p e) (raised _)
    | inr (k, r, e) ↦ rw (read_name_separator, peek_cons p e) (go k r e)
  ]
    where
      go :
          (k : Token F) (r : List (Token F))
          → left p ≡ k ∷ r
          → Returns
              (λ q. After p (name_separator ∷ []) (left q) q × (q.depth ≡ p.depth))
              (elim k as (λ _. Result (Parser F)) [
                | name_separator ↦ ok (advance p)
                | _ ↦ err (cjson_rs.Error.unexpected_token (peek_pos p))
              ])
      go name_separator r e =
          let a = After-advance p e in
          returned (subst (λ z. After p (name_separator ∷ []) z (advance p)) (sym a.rest) a, refl)
      go _ r e = raised _

  members_step : (f : ℕ) → ValueSound f → MembersSound f → MembersSound (suc f)
  unfolding parse_value emit height
  members_step f value members p d h b = Returns-bind (read_key-Returns p) λ (key, i) (a₁, same₁).
      Returns-bind (read_name_separator-Returns i) λ o (a₂, same₂).
        let a = join a₁ a₂ in
        Returns-bind (value o (omega (arith, a.same_limit)) (omega (arith, ap length a.before)))
          λ (v, q) (a₃, same₃, fits). elim (List-cases (left q)) [
            | inl e ↦ rw (peek_nil q e) (raised _)
            | inr (k, r, e) ↦
                rw (peek_cons q e)
                  (go key v q (join a a₃) (omega arith) (omega (arith, a.same_limit)) k r e)
          ]
    where
      go :
          (key : List ℕ) (v : Value F) (q : Parser F)
          → After p (string key ∷ name_separator ∷ emit v) (left q) q
          → q.depth ≡ p.depth
          → height v + p.depth ≤ p.limit
          → (k : Token F) (r : List (Token F)) → left q ≡ k ∷ r
          → Returns (ReadsMembers p) (elim k as (λ _. Result (Members F × Parser F)) [
            | value_separator ↦ pass_separator is_end_object q >>= λ p₄.
                parse_members f p₄ >>= λ (xs, p₅). ok (member key v xs, p₅)
            | end_object ↦ close q >>= λ p₄. ok (member key v no_members, p₄)
            | _ ↦ err (cjson_rs.Error.unexpected_token (peek_pos q))
          ])
      go key v q a same fits end_object r e =
          Returns-bind (close-Returns q (omega arith)) λ o closed_eq.
            rw closed_eq (returned (close_After end_object r a e, omega arith, omega arith, refl))
      go key v q a same fits value_separator r e =
          Returns-bind (pass_separator-Returns is_end_object q r e) λ o (a₁, same₁).
            Returns-bind
              (members o (omega arith) (omega (arith, a.same_limit, a₁.same_limit)) (
                omega (
                  arith,
                  ap length a.before,
                  ap length a₁.before,
                  length-append_tokens (emit v) (left q),
                )))
              λ (xs, z) (a₂, same₂, fits₂, shape). returned (
                subst (λ ks. After p (string key ∷ name_separator ∷ (emit v ++ ks)) (left z) z)
                    (sym shape) (join a (join a₁ a₂)),
                omega arith,
                omega (arith, a.same_limit, a₁.same_limit),
                refl,
              )
      go key v q a same fits _ r e = raised _

  all_sound : (f : ℕ) → ValueSound f × ArraySound f × ItemsSound f × ObjectSound f × MembersSound f
  all_sound zero = (
    λ p h b. absurd (omega arith),
    λ p r e b. absurd (omega (arith, ap length e)),
    λ p d h b. absurd (omega arith),
    λ p r e b. absurd (omega (arith, ap length e)),
    λ p d h b. absurd (omega arith),
  )
  all_sound (suc f) =
      let (value, arr, items, obj, members) = all_sound f in
      (
        value_step f arr obj,
        array_step f items,
        items_step f value items,
        object_step f members,
        members_step f value members,
      )

  -- With three units of fuel for each token that is left and one more, and with the depth within
  -- the limit, `parse_value` returns: the value of the tokens that it has passed, with the depth as
  -- before and the limit kept, or an error. It does not panic or run out of fuel.
  pub parse_value_sound :
      (f : ℕ) (p : Parser F)
      → p.depth ≤ p.limit
      → 3 * length (left p) < f
      → Returns (ReadsValue p) (parse_value f p)
  parse_value_sound f = (all_sound f).0
