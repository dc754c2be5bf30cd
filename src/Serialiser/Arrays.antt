-- ===== src/Serialiser/Arrays.antt =====
-- The text of an array, in both modes.
use cjson_rs.Common.{
  ℕ, ◌+◌, ◌*◌, true, false, none, some, List, [], ◌∷◌, ◌++◌, refl, sym, ◌∙◌, arith, All,
  append_assoc, append-nil,
}
use cjson_rs.Number.{Float}
use cjson_rs.Parser.Grammar.{emit, emit_items, emit_more_items}
use cjson_rs.Token.{begin_array, end_array, value_separator}
use cjson_rs.Tokeniser.TokenGrammar.{IsWs}
use cjson_rs.Value.{Value, Items, array, no_items, item}
use cjson_rs.Serialiser.{write_value, write_pretty_items, write_compact_items}
use cjson_rs.Serialiser.Pieces.{Closed, Fences, Closed-Piece, Closed-append, Fences-cons}
use cjson_rs.Serialiser.Normal.{normal, normal_items, HasText, ItemsHaveText}
use cjson_rs.Serialiser.Lexed.{
  spaces-IsWs, indent_text, write_indent_out, Appends, comma, newline, open_array, close_array,
  indentation, ValueAppends, fenced, ending, line,
}

module _ {F : Type 0} (f64 : Float F) where
  -- The elements behind another one, in compact mode: with the bracket behind them they are closed.
  abbrev CompactItems : Items F → Type 0
  CompactItems xs =
      ItemsHaveText xs
      → (depth : ℕ)
      → Appends (λ out. write_compact_items f64 false out xs depth)
          (λ x.
            (Closed f64 (x ++ b']' ∷ []) (emit_more_items (normal_items f64 xs))
              × Fences f64 (x ++ b']' ∷ [])))

  -- The first element and those behind it, in compact mode.
  abbrev FirstItems : Items F → Type 0
  FirstItems xs =
      ItemsHaveText xs
      → (depth : ℕ)
      → Appends (λ out. write_compact_items f64 true out xs depth)
          (λ x. Closed f64 (x ++ b']' ∷ []) (emit_items (normal_items f64 xs)))

  -- The elements of an array, in pretty mode, with white space and the bracket behind them.
  abbrev PrettyItems : Items F → Type 0
  PrettyItems no_items = Unit
  PrettyItems (item v xs) =
      ItemsHaveText (item v xs)
      → (step depth : ℕ)
      → Appends (λ out. write_pretty_items f64 out (item v xs) step depth)
          (λ x.
            (w : List ℕ)
            → All IsWs w
            → Closed f64 (x ++ (w ++ b']' ∷ [])) (emit_items (normal_items f64 (item v xs))))

  compact_item :
      (v : Value F) (xs : Items F) → ValueAppends f64 v → CompactItems xs → CompactItems (item v xs)
  unfolding write_value normal emit HasText
  compact_item v xs hv hxs text depth =
      let (x, wx, px) = hv text.0 none (depth + 1) in
      let (y, wy, cy) = hxs text.1 depth in
      (
        b',' ∷ (x ++ y),
        λ out. rw (write_compact_items, wx (out ++ b',' ∷ [])) (wy _ ∙ simp append_assoc),
        (
          Closed-append f64 (b',' ∷ []) ((x ++ y) ++ b']' ∷ []) (value_separator ∷ []) _ (comma f64)
              (fenced f64 x y (b']' ∷ []) _ _ px cy.1 cy.0),
          Fences-cons f64 b',' _ (omega arith) refl,
        ),
      )

  first_compact_item :
      (v : Value F) (xs : Items F) → ValueAppends f64 v → CompactItems xs → FirstItems (item v xs)
  unfolding write_value normal emit HasText
  first_compact_item v xs hv hxs text depth =
      let (x, wx, px) = hv text.0 none (depth + 1) in
      let (y, wy, cy) = hxs text.1 depth in
      (
        x ++ y,
        λ out. rw (write_compact_items, wx out) (wy _ ∙ append_assoc out x y),
        fenced f64 x y (b']' ∷ []) _ _ px cy.1 cy.0,
      )

  compact_none : CompactItems no_items
  unfolding write_value normal emit
  compact_none text depth = (
    [],
    λ out. sym (append-nil out),
    ((close_array f64), Fences-cons f64 b']' [] (omega arith) refl),
  )

  pretty_last : (v : Value F) → ValueAppends f64 v → PrettyItems (item v no_items)
  unfolding write_value normal emit HasText
  pretty_last v hv text step depth =
      let (x, wx, px) = hv text.0 (some step) (depth + 1) in
      let i = indent_text step (depth + 1) in
      (
        i ++ (x ++ b'\n' ∷ []),
        λ out.
            rw (write_pretty_items, write_indent_out out step (depth + 1))
              (rw (wx (out ++ i)) (simp append_assoc)),
        λ w ws.
            line f64 i x (b'\n' ∷ []) (w ++ b']' ∷ []) _ (end_array ∷ [])
              (indentation f64 step (depth + 1)) px
              (Fences-cons f64 b'\n' (w ++ b']' ∷ []) (omega arith) refl)
              (Closed-append f64 (b'\n' ∷ []) (w ++ b']' ∷ []) [] (end_array ∷ []) (newline f64)
                (ending f64 b']' end_array w (close_array f64) ws)),
      )

  pretty_more :
      (v u : Value F) (us : Items F)
      → ValueAppends f64 v
      → PrettyItems (item u us)
      → PrettyItems (item v (item u us))
  unfolding write_value normal emit HasText
  pretty_more v u us hv hus text step depth =
      let (x, wx, px) = hv text.0 (some step) (depth + 1) in
      let (y, wy, cy) = hus text.1 step depth in
      let i = indent_text step (depth + 1) in
      (
        i ++ (x ++ b',' ∷ b'\n' ∷ y),
        λ out.
            rw (write_pretty_items, write_indent_out out step (depth + 1))
              (rw (wx (out ++ i)) (wy _ ∙ simp append_assoc)),
        λ w ws.
            line f64 i x (b',' ∷ b'\n' ∷ y) (w ++ b']' ∷ []) _ _ (indentation f64 step (depth + 1))
              px (Fences-cons f64 b',' _ (omega arith) refl)
              (Closed-append f64 (b',' ∷ []) (b'\n' ∷ (y ++ (w ++ b']' ∷ [])))
                (value_separator ∷ []) _ (comma f64)
                (Closed-append f64 (b'\n' ∷ []) (y ++ (w ++ b']' ∷ [])) [] _ (newline f64)
                  (cy w ws))),
      )

  -- all that the induction says of the elements
  abbrev pub ItemsAppend : Items F → Type 0
  ItemsAppend xs = CompactItems xs × FirstItems xs × PrettyItems xs

  pub no_items_append : ItemsAppend no_items
  unfolding write_value normal emit
  no_items_append =
      (compact_none, λ text depth. ([], λ out. sym (append-nil out), close_array f64), tt)

  pub item_append :
      (v : Value F) (xs : Items F) → ValueAppends f64 v → ItemsAppend xs → ItemsAppend (item v xs)
  item_append v no_items hv h =
      (compact_item v no_items hv h.0, first_compact_item v no_items hv h.0, pretty_last v hv)
  item_append v (item u us) hv h = (
    compact_item v (item u us) hv h.0,
    first_compact_item v (item u us) hv h.0,
    pretty_more v u us hv h.2,
  )

  pub array_appends : (xs : Items F) → ItemsAppend xs → ValueAppends f64 (array xs)
  unfolding write_value normal emit HasText
  array_appends no_items h text none depth = (
    b'[' ∷ b']' ∷ [],
    λ out. refl,
    Closed-Piece f64 (b'[' ∷ b']' ∷ []) (begin_array ∷ end_array ∷ []) (
        Closed-append f64 (b'[' ∷ []) (b']' ∷ []) (begin_array ∷ []) (end_array ∷ [])
          (open_array f64) (close_array f64)),
  )
  array_appends no_items h text (some step) depth = (
    b'[' ∷ b']' ∷ [],
    λ out. refl,
    Closed-Piece f64 (b'[' ∷ b']' ∷ []) (begin_array ∷ end_array ∷ []) (
        Closed-append f64 (b'[' ∷ []) (b']' ∷ []) (begin_array ∷ []) (end_array ∷ [])
          (open_array f64) (close_array f64)),
  )
  array_appends (item v xs) h text none depth =
      let (x, wx, cx) = h.1 text depth in
      (
        b'[' ∷ (x ++ b']' ∷ []),
        λ out. rw (wx (out ++ b'[' ∷ [])) (simp append_assoc),
        Closed-Piece f64 (b'[' ∷ (x ++ b']' ∷ [])) (emit (normal f64 (array (item v xs)))) (
            Closed-append f64 (b'[' ∷ []) (x ++ b']' ∷ []) (begin_array ∷ []) _ (open_array f64)
              cx),
      )
  array_appends (item v xs) h text (some step) depth =
      let (x, wx, cx) = h.2 text step depth in
      let w = indent_text step depth in
      (
        b'[' ∷ b'\n' ∷ (x ++ (w ++ b']' ∷ [])),
        λ out.
            rw (wx (out ++ b'[' ∷ b'\n' ∷ []))
              (rw (write_indent_out _ step depth) (simp append_assoc)),
        Closed-Piece f64 (b'[' ∷ b'\n' ∷ (x ++ (w ++ b']' ∷ [])))
            (emit (normal f64 (array (item v xs))))
            (Closed-append f64 (b'[' ∷ []) (b'\n' ∷ (x ++ (w ++ b']' ∷ []))) (begin_array ∷ []) _
              (open_array f64)
              (Closed-append f64 (b'\n' ∷ []) (x ++ (w ++ b']' ∷ [])) [] _ (newline f64)
                (cx w (spaces-IsWs (step * depth))))),
      )
