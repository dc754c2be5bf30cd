-- ===== src/Parser/Complete.antt =====
-- The recursive descent of parser.rs on the tokens of a value.
use cjson_rs.Common.{
  ℕ, zero, suc, ◌+◌, ◌-◌, ◌*◌, ◌≤◌, ◌<◌, true, false, some, List, [], ◌∷◌, ◌++◌, ◌≡◌, refl, ap, ◌∙◌,
  arith, length, append_assoc,
}
use cjson_rs.Error.{Position, Result, ok}
use cjson_rs.Token.{
  Token, begin_object, end_object, begin_array, end_array, name_separator, value_separator,
  null_lit, true_lit, false_lit, number, string,
}
use cjson_rs.Value.{
  Value, Items, Members, null, bool, array, object, no_items, item, no_members, member,
}
use cjson_rs.Parser.{
  Parser, peek, peek_pos, advance, enter, leave, close, is_end_array, pass_separator, read_key,
  read_name_separator, parse_value, parse_items, parse_members,
}
use cjson_rs.Parser.Grammar.{
  emit, emit_items, emit_more_items, emit_members, height, height_items, height_members,
  length-emit_pos, length-append_tokens,
}
use cjson_rs.Parser.Reading.{
  left, After, After-trans, After-advance, After-depth, After-from_depth, peek_cons,
}

module _ {F : Type 0} where
  -- `m` returns `a` and the parser behind `x`, with `r` left, `d` brackets open.
  abbrev Parses {ℓ} :
      {A : Type ℓ}
      → Parser F
      → List (Token F)
      → List (Token F)
      → ℕ
      → Result (A × Parser F)
      → A
      → Type ℓ
  Parses p x r d m a = (q : Parser F) × (m ≡ ok (a, q)) × After p x r q × (q.depth ≡ d)

  pub enter_ok :
      (pos : Position) (p : Parser F)
      → p.depth < p.limit
      → enter pos p ≡ ok (record p { depth = p.depth + 1 })
  unfolding enter
  enter_ok pos p h = ground arith

  pub close_ok :
      (p : Parser F) → 0 < p.depth → close p ≡ ok (record (advance p) { depth = p.depth - 1 })
  unfolding close leave
  close_ok p h = ground arith

  abbrev ValueParses : Value F → Type 0
  ValueParses v =
      (f : ℕ) (p : Parser F) (r : List (Token F))
      → left p ≡ emit v ++ r
      → height v + p.depth ≤ p.limit
      → 3 * length (emit v) < f
      → Parses p (emit v) r p.depth (parse_value f p) v

  -- The loop is entered for one element or more, with the bracket open that the array opens.
  abbrev ItemsParse : Items F → Type 0
  ItemsParse no_items = Unit
  ItemsParse (item v items) =
      (f : ℕ) (p : Parser F) (r : List (Token F))
      → left p ≡ emit_items (item v items) ++ r
      → height_items (item v items) + p.depth ≤ p.limit
      → 0 < p.depth
      → 3 * length (emit_items (item v items)) < f
      → Parses p (emit_items (item v items)) r (p.depth - 1) (parse_items f p) (item v items)

  abbrev MembersParse : Members F → Type 0
  MembersParse no_members = Unit
  MembersParse (member k v ms) =
      (f : ℕ) (p : Parser F) (r : List (Token F))
      → left p ≡ emit_members (member k v ms) ++ r
      → height_members (member k v ms) + p.depth ≤ p.limit
      → 0 < p.depth
      → 3 * length (emit_members (member k v ms)) < f
      → Parses p (emit_members (member k v ms)) r (p.depth - 1) (parse_members f p) (member k v ms)

  -- a token that is a value by itself
  scalar_parses :
      (v : Value F) (k : Token F)
      → emit v ≡ k ∷ []
      → ((f : ℕ) (p : Parser F) → peek p ≡ some k → parse_value (suc f) p ≡ ok (v, advance p))
      → ValueParses v
  scalar_parses v k w run zero p r e h b = absurd (omega arith)
  scalar_parses v k w run (suc f) p r e h b =
      let e' : left p ≡ k ∷ r = e ∙ ap (λ (z : List (Token F)). z ++ r) w in
      (advance p, run f p (peek_cons p e'), rw w (After-advance p e'), refl)

  -- a value does not begin with a closing bracket
  emit-first_array :
      (v : Value F) (p : Parser F) (r : List (Token F))
      → left p ≡ emit v ++ r
      → is_end_array (peek p) ≡ false
  unfolding emit
  emit-first_array null p r e = rw (peek_cons p e)
  emit-first_array (bool true) p r e = rw (peek_cons p e)
  emit-first_array (bool false) p r e = rw (peek_cons p e)
  emit-first_array _ p r e = rw (peek_cons p e)

  items_last : (v : Value F) → ValueParses v → ItemsParse (item v no_items)
  unfolding emit parse_value height
  items_last v ih zero p r e h d b = absurd (omega arith)
  items_last v ih (suc f) p r e h d b =
      let lengths = length-append_tokens (emit v) (end_array ∷ []) in
      let (q, run, a, same) =
        ih f p (end_array ∷ r) (e ∙ append_assoc (emit v) (end_array ∷ []) r) (omega arith)
          (omega arith) in
      (
        record (advance q) { depth = q.depth - 1 },
        ground (arith, run, peek_cons q a.rest, close_ok q (omega arith)),
        After-trans (emit v) _ a (After-depth (q.depth - 1) (After-advance q a.rest)),
        omega arith,
      )

  items_more :
      (v w : Value F) (items : Items F)
      → ValueParses v
      → ItemsParse (item w items)
      → ItemsParse (item v (item w items))
  unfolding emit parse_value height pass_separator
  items_more v w items ih ihs zero p r e h d b = absurd (omega arith)
  items_more v w items ih ihs (suc f) p r e h d b =
      let tail = emit w ++ emit_more_items items in
      let lengths = length-append_tokens (emit v) (value_separator ∷ tail) in
      let (q, run, a, same) =
        ih f p (value_separator ∷ (tail ++ r))
          (e ∙ append_assoc (emit v) (value_separator ∷ tail) r) (omega arith) (omega arith) in
      let c = After-advance q a.rest in
      let (o, later, g, opened) =
        ihs f (advance q) r c.rest (omega (arith, a.same_limit)) (omega arith)
          (omega (arith, length-emit_pos v)) in
      let open_ : is_end_array (peek (advance q)) ≡ false =
        emit-first_array w (advance q) _
          (c.rest ∙ append_assoc (emit w) (emit_more_items items) r) in
      (
        o,
        ground (arith, run, peek_cons q a.rest, open_, later),
        After-trans (emit v) _ a (After-trans (value_separator ∷ []) tail c g),
        omega arith,
      )

  items_step :
      (v : Value F) (items : Items F) → ValueParses v → ItemsParse items → ItemsParse (item v items)
  items_step v no_items ih ihs = items_last v ih
  items_step v (item w items) ih ihs = items_more v w items ih ihs

  array_parses : (items : Items F) → ItemsParse items → ValueParses (array items)
  unfolding emit parse_value height
  array_parses items ih zero p r e h b = absurd (omega arith)
  array_parses items ih (suc zero) p r e h b = absurd (omega arith)
  array_parses no_items ih (suc (suc f)) p r e h b =
      let p₁ = record p { depth = p.depth + 1 } in
      let a = After-advance p e in
      let c = After-advance (advance p₁) a.rest in
      (
        record (advance (advance p)) { depth = p.depth },
        ground (
          arith,
          peek_cons p e,
          enter_ok (peek_pos p) p (omega arith),
          peek_cons (advance p₁) a.rest,
          close_ok (advance p₁) (omega arith),
        ),
        After-trans (begin_array ∷ []) _ a (After-depth p.depth (After-from_depth (p.depth + 1) c)),
        refl,
      )
  array_parses (item v items) ih (suc (suc f)) p r e h b =
      let p₁ = record p { depth = p.depth + 1 } in
      let a = After-advance p e in
      let (q, run, c, closed) =
        ih f (advance p₁) r a.rest (omega arith) (omega arith) (omega arith) in
      let open_ : is_end_array (peek (advance p₁)) ≡ false =
        emit-first_array v (advance p₁) _
          (a.rest ∙ append_assoc (emit v) (emit_more_items items) r) in
      (
        q,
        ground (arith, peek_cons p e, enter_ok (peek_pos p) p (omega arith), open_, run),
        After-trans (begin_array ∷ []) _ a (After-from_depth (p.depth + 1) c),
        omega arith,
      )

  -- a key and its colon
  key_parses :
      (p : Parser F) (k : List ℕ) {r : List (Token F)}
      → left p ≡ string k ∷ name_separator ∷ r
      → (read_key p ≡ ok (k, advance p))
        × (read_name_separator (advance p) ≡ ok (advance (advance p)))
        × After p (string k ∷ name_separator ∷ []) r (advance (advance p))
  unfolding read_key read_name_separator
  key_parses p k e =
      let a = After-advance p e in
      let c = After-advance (advance p) a.rest in
      (
        rw (read_key, peek_cons p e),
        rw (read_name_separator, peek_cons (advance p) a.rest),
        After-trans (string k ∷ []) _ a c,
      )

  members_last : (k : List ℕ) (v : Value F) → ValueParses v → MembersParse (member k v no_members)
  unfolding emit parse_value height
  members_last k v ih zero p r e h d b = absurd (omega arith)
  members_last k v ih (suc f) p r e h d b =
      let lengths = length-append_tokens (emit v) (end_object ∷ []) in
      let (key, colon, c) = key_parses p k e in
      let (q, run, a, same) =
        ih f (advance (advance p)) (end_object ∷ r)
          (c.rest ∙ append_assoc (emit v) (end_object ∷ []) r) (omega arith) (omega arith) in
      (
        record (advance q) { depth = q.depth - 1 },
        ground (arith, key, colon, run, peek_cons q a.rest, close_ok q (omega arith)),
        After-trans (string k ∷ name_separator ∷ []) _ c
            (After-trans (emit v) _ a (After-depth (q.depth - 1) (After-advance q a.rest))),
        omega arith,
      )

  members_more :
      (k j : List ℕ) (v w : Value F) (ms : Members F)
      → ValueParses v
      → MembersParse (member j w ms)
      → MembersParse (member k v (member j w ms))
  unfolding emit parse_value height pass_separator
  members_more k j v w ms ih ihs zero p r e h d b = absurd (omega arith)
  members_more k j v w ms ih ihs (suc f) p r e h d b =
      let tail = emit_members (member j w ms) in
      let lengths = length-append_tokens (emit v) (value_separator ∷ tail) in
      let (key, colon, n) = key_parses p k e in
      let (q, run, a, same) =
        ih f (advance (advance p)) (value_separator ∷ (tail ++ r))
          (n.rest ∙ append_assoc (emit v) (value_separator ∷ tail) r) (omega arith) (omega arith) in
      let c = After-advance q a.rest in
      let (o, later, g, opened) =
        ihs f (advance q) r c.rest (omega (arith, a.same_limit)) (omega arith) (omega arith) in
      (
        o,
        ground (arith, key, colon, run, peek_cons q a.rest, peek_cons (advance q) c.rest, later),
        After-trans (string k ∷ name_separator ∷ []) _ n
            (After-trans (emit v) _ a (After-trans (value_separator ∷ []) tail c g)),
        omega arith,
      )

  members_step :
      (k : List ℕ) (v : Value F) (ms : Members F)
      → ValueParses v
      → MembersParse ms
      → MembersParse (member k v ms)
  members_step k v no_members ih ihs = members_last k v ih
  members_step k v (member j w ms) ih ihs = members_more k j v w ms ih ihs

  object_parses : (ms : Members F) → MembersParse ms → ValueParses (object ms)
  unfolding emit parse_value height
  object_parses ms ih zero p r e h b = absurd (omega arith)
  object_parses ms ih (suc zero) p r e h b = absurd (omega arith)
  object_parses no_members ih (suc (suc f)) p r e h b =
      let p₁ = record p { depth = p.depth + 1 } in
      let a = After-advance p e in
      let c = After-advance (advance p₁) a.rest in
      (
        record (advance (advance p)) { depth = p.depth },
        ground (
          arith,
          peek_cons p e,
          enter_ok (peek_pos p) p (omega arith),
          peek_cons (advance p₁) a.rest,
          close_ok (advance p₁) (omega arith),
        ),
        After-trans (begin_object ∷ []) _ a
            (After-depth p.depth (After-from_depth (p.depth + 1) c)),
        refl,
      )
  object_parses (member k v ms) ih (suc (suc f)) p r e h b =
      let p₁ = record p { depth = p.depth + 1 } in
      let a = After-advance p e in
      let (q, run, c, closed) =
        ih f (advance p₁) r a.rest (omega arith) (omega arith) (omega arith) in
      (
        q,
        ground (
          arith,
          peek_cons p e,
          enter_ok (peek_pos p) p (omega arith),
          peek_cons (advance p₁) a.rest,
          run,
        ),
        After-trans (begin_object ∷ []) _ a (After-from_depth (p.depth + 1) c),
        omega arith,
      )

  value_parses : (v : Value F) → ValueParses v
  unfolding emit parse_value
  value_parses v = elim v as ValueParses ItemsParse MembersParse [
    | null ↦ scalar_parses null null_lit refl (λ f p e. rw (parse_value, e))
    | bool true ↦ scalar_parses (bool true) true_lit refl (λ f p e. rw (parse_value, e))
    | bool false ↦ scalar_parses (bool false) false_lit refl (λ f p e. rw (parse_value, e))
    | Value.number n ↦ scalar_parses (Value.number n) (number n) refl (λ f p e. rw (parse_value, e))
    | Value.string s ↦ scalar_parses (Value.string s) (string s) refl (λ f p e. rw (parse_value, e))
    | array (items → ih) ↦ array_parses items ih
    | object (ms → ih) ↦ object_parses ms ih
    | no_items ↦ tt
    | item (w → ih) (items → ihs) ↦ items_step w items ih ihs
    | no_members ↦ tt
    | member k (w → ih) (ms → ihs) ↦ members_step k w ms ih ihs
  ]

  -- With three units of fuel for each token of a value and one more, `parse_value` reads the tokens
  -- off the front of any token list, returns the value and ends at the depth where it began, if the
  -- value keeps within the nesting limit.
  pub parse_value-emit :
      (v : Value F) (f : ℕ) (p : Parser F) (r : List (Token F))
      → left p ≡ emit v ++ r
      → height v + p.depth ≤ p.limit
      → 3 * length (emit v) < f
      → (q : Parser F) × (parse_value f p ≡ ok (v, q)) × After p (emit v) r q × (q.depth ≡ p.depth)
  parse_value-emit v f p r e h b = value_parses v f p r e h b
