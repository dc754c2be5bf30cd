-- ===== src/Serialiser/Objects.antt =====
-- The text of an object, in both modes.
use cjson_rs.Common.{
  ℕ, ◌+◌, ◌*◌, true, false, none, some, List, [], ◌∷◌, ◌++◌, refl, sym, ◌∙◌, arith, All,
  append_assoc, append-nil,
}
use cjson_rs.Number.{Float}
use cjson_rs.Parser.Grammar.{emit, emit_members, emit_more_members}
use cjson_rs.Token.{Token, begin_object, end_object, name_separator, value_separator}
use cjson_rs.Tokeniser.TokenGrammar.{IsWs}
use cjson_rs.Value.{Value, Members, string, object, no_members, member}
use cjson_rs.Serialiser.{write_value, write_pretty_members, write_compact_members}
use cjson_rs.Serialiser.Strings.{quoted, write_string_out}
use cjson_rs.Serialiser.Pieces.{
  Piece, Closed, Fences, Closed-Piece, Closed-append, Closed-append-Piece, Fences-cons,
}
use cjson_rs.Serialiser.Normal.{normal, normal_members, HasText, MembersHaveText}
use cjson_rs.Serialiser.Lexed.{
  colon, blank, quoted-Piece, open_object, close_object, spaces-IsWs, indent_text, write_indent_out,
  Appends, comma, newline, indentation, ValueAppends, fenced, ending, line,
}

module _ {F : Type 0} (f64 : Float F) where
  -- The members behind another one, in compact mode: with the brace behind them they are closed.
  abbrev CompactMembers : Members F → Type 0
  CompactMembers xs =
      MembersHaveText xs
      → (depth : ℕ)
      → Appends (λ out. write_compact_members f64 false out xs depth)
          (λ x.
            (Closed f64 (x ++ b'}' ∷ []) (emit_more_members (normal_members f64 xs))
              × Fences f64 (x ++ b'}' ∷ [])))

  -- The first member and those behind it, in compact mode.
  abbrev FirstMembers : Members F → Type 0
  FirstMembers xs =
      MembersHaveText xs
      → (depth : ℕ)
      → Appends (λ out. write_compact_members f64 true out xs depth)
          (λ x. Closed f64 (x ++ b'}' ∷ []) (emit_members (normal_members f64 xs)))

  -- The members of an object, in pretty mode, with white space and the brace behind them.
  abbrev PrettyMembers : Members F → Type 0
  PrettyMembers no_members = Unit
  PrettyMembers (member k v xs) =
      MembersHaveText (member k v xs)
      → (step depth : ℕ)
      → Appends (λ out. write_pretty_members f64 out (member k v xs) step depth)
          (λ x.
            (w : List ℕ)
            → All IsWs w
            → Closed f64 (x ++ (w ++ b'}' ∷ []))
                (emit_members (normal_members f64 (member k v xs))))

  abbrev opening : List ℕ → List (Token F)
  opening k = Token.string k ∷ name_separator ∷ []

  -- a key and the colon behind it
  compact_key :
      (k : List ℕ)
      → HasText {F = F} (string k)
      → Closed f64 (quoted k ++ b':' ∷ []) (Token.string k ∷ name_separator ∷ [])
  compact_key k h =
      Closed-append f64 (quoted k) (b':' ∷ []) (Token.string k ∷ []) (name_separator ∷ [])
        (quoted-Piece f64 k h) (colon f64)

  pretty_key :
      (k : List ℕ)
      → HasText {F = F} (string k)
      → Closed f64 (quoted k ++ b':' ∷ b' ' ∷ []) (Token.string k ∷ name_separator ∷ [])
  pretty_key k h =
      Closed-append f64 (quoted k) (b':' ∷ b' ' ∷ []) (Token.string k ∷ []) (name_separator ∷ [])
        (quoted-Piece f64 k h)
        (Closed-append f64 (b':' ∷ []) (b' ' ∷ []) (name_separator ∷ []) [] (colon f64) (blank f64))

  -- A key in front of a value is a piece.
  keyed :
      (key x : List ℕ) (ks js : List (Token F))
      → Closed f64 key ks
      → Piece f64 x js
      → Piece f64 (key ++ x) (ks ++ js)
  keyed key x ks js h p = Closed-append-Piece f64 key x ks js h p

  compact_member :
      (k : List ℕ) (v : Value F) (xs : Members F)
      → ValueAppends f64 v
      → CompactMembers xs
      → CompactMembers (member k v xs)
  unfolding write_value normal emit HasText
  compact_member k v xs hv hxs text depth =
      let (x, wx, px) = hv text.1 none (depth + 1) in
      let (y, wy, cy) = hxs text.2 depth in
      let key = quoted k ++ b':' ∷ [] in
      (
        b',' ∷ ((key ++ x) ++ y),
        λ out.
            rw (write_compact_members, write_string_out (out ++ b',' ∷ []) k)
              (rw (wx _) (wy _ ∙ simp append_assoc)),
        (
          Closed-append f64 (b',' ∷ []) (((key ++ x) ++ y) ++ b'}' ∷ []) (value_separator ∷ [])
              ((opening k ++ emit (normal f64 v)) ++ emit_more_members (normal_members f64 xs))
              (comma f64)
              (fenced f64 (key ++ x) y (b'}' ∷ []) (opening k ++ emit (normal f64 v))
                (emit_more_members (normal_members f64 xs))
                (keyed key x (opening k) (emit (normal f64 v)) (compact_key k text.0) px) cy.1
                cy.0),
          Fences-cons f64 b',' _ (omega arith) refl,
        ),
      )

  first_compact_member :
      (k : List ℕ) (v : Value F) (xs : Members F)
      → ValueAppends f64 v
      → CompactMembers xs
      → FirstMembers (member k v xs)
  unfolding write_value normal emit HasText
  first_compact_member k v xs hv hxs text depth =
      let (x, wx, px) = hv text.1 none (depth + 1) in
      let (y, wy, cy) = hxs text.2 depth in
      let key = quoted k ++ b':' ∷ [] in
      (
        (key ++ x) ++ y,
        λ out.
            rw (write_compact_members, write_string_out out k)
              (rw (wx _) (wy _ ∙ simp append_assoc)),
        fenced f64 (key ++ x) y (b'}' ∷ []) (opening k ++ emit (normal f64 v))
            (emit_more_members (normal_members f64 xs))
            (keyed key x (opening k) (emit (normal f64 v)) (compact_key k text.0) px) cy.1 cy.0,
      )

  compact_none : CompactMembers no_members
  unfolding write_value normal emit
  compact_none text depth = (
    [],
    λ out. sym (append-nil out),
    (close_object f64, Fences-cons f64 b'}' [] (omega arith) refl),
  )

  pretty_last :
      (k : List ℕ) (v : Value F) → ValueAppends f64 v → PrettyMembers (member k v no_members)
  unfolding write_value normal emit HasText
  pretty_last k v hv text step depth =
      let (x, wx, px) = hv text.1 (some step) (depth + 1) in
      let i = indent_text step (depth + 1) in
      let key = quoted k ++ b':' ∷ b' ' ∷ [] in
      (
        i ++ ((key ++ x) ++ b'\n' ∷ []),
        λ out.
            rw (write_pretty_members, write_indent_out out step (depth + 1))
              (rw (write_string_out (out ++ i) k) (rw (wx _) (simp append_assoc))),
        λ w ws.
            line f64 i (key ++ x) (b'\n' ∷ []) (w ++ b'}' ∷ []) (opening k ++ emit (normal f64 v))
              (end_object ∷ []) (indentation f64 step (depth + 1))
              (keyed key x (opening k) (emit (normal f64 v)) (pretty_key k text.0) px)
              (Fences-cons f64 b'\n' (w ++ b'}' ∷ []) (omega arith) refl)
              (Closed-append f64 (b'\n' ∷ []) (w ++ b'}' ∷ []) [] (end_object ∷ []) (newline f64)
                (ending f64 b'}' end_object w (close_object f64) ws)),
      )

  pretty_more :
      (k j : List ℕ) (v u : Value F) (us : Members F)
      → ValueAppends f64 v
      → PrettyMembers (member j u us)
      → PrettyMembers (member k v (member j u us))
  unfolding write_value normal emit HasText
  pretty_more k j v u us hv hus text step depth =
      let (x, wx, px) = hv text.1 (some step) (depth + 1) in
      let (y, wy, cy) = hus text.2 step depth in
      let i = indent_text step (depth + 1) in
      let key = quoted k ++ b':' ∷ b' ' ∷ [] in
      (
        i ++ ((key ++ x) ++ b',' ∷ b'\n' ∷ y),
        λ out.
            rw (write_pretty_members, write_indent_out out step (depth + 1))
              (rw (write_string_out (out ++ i) k) (rw (wx _) (wy _ ∙ simp append_assoc))),
        λ w ws.
            line f64 i (key ++ x) (b',' ∷ b'\n' ∷ y) (w ++ b'}' ∷ [])
              (opening k ++ emit (normal f64 v))
              (value_separator ∷ emit_members (normal_members f64 (member j u us)))
              (indentation f64 step (depth + 1))
              (keyed key x (opening k) (emit (normal f64 v)) (pretty_key k text.0) px)
              (Fences-cons f64 b',' _ (omega arith) refl)
              (Closed-append f64 (b',' ∷ []) (b'\n' ∷ (y ++ (w ++ b'}' ∷ [])))
                (value_separator ∷ []) (emit_members (normal_members f64 (member j u us)))
                (comma f64)
                (Closed-append f64 (b'\n' ∷ []) (y ++ (w ++ b'}' ∷ [])) []
                  (emit_members (normal_members f64 (member j u us))) (newline f64) (cy w ws))),
      )

  -- all that the induction says of the members
  abbrev pub MembersAppend : Members F → Type 0
  MembersAppend xs = CompactMembers xs × FirstMembers xs × PrettyMembers xs

  pub no_members_append : MembersAppend no_members
  unfolding write_value normal emit
  no_members_append =
      (compact_none, λ text depth. ([], λ out. sym (append-nil out), close_object f64), tt)

  pub member_append :
      (k : List ℕ) (v : Value F) (xs : Members F)
      → ValueAppends f64 v
      → MembersAppend xs
      → MembersAppend (member k v xs)
  member_append k v no_members hv h = (
    compact_member k v no_members hv h.0,
    first_compact_member k v no_members hv h.0,
    pretty_last k v hv,
  )
  member_append k v (member j u us) hv h = (
    compact_member k v (member j u us) hv h.0,
    first_compact_member k v (member j u us) hv h.0,
    pretty_more k j v u us hv h.2,
  )

  pub object_appends : (xs : Members F) → MembersAppend xs → ValueAppends f64 (object xs)
  unfolding write_value normal emit HasText
  object_appends no_members h text none depth = (
    b'{' ∷ b'}' ∷ [],
    λ out. refl,
    Closed-Piece f64 (b'{' ∷ b'}' ∷ []) (begin_object ∷ end_object ∷ []) (
        Closed-append f64 (b'{' ∷ []) (b'}' ∷ []) (begin_object ∷ []) (end_object ∷ [])
          (open_object f64) (close_object f64)),
  )
  object_appends no_members h text (some step) depth = (
    b'{' ∷ b'}' ∷ [],
    λ out. refl,
    Closed-Piece f64 (b'{' ∷ b'}' ∷ []) (begin_object ∷ end_object ∷ []) (
        Closed-append f64 (b'{' ∷ []) (b'}' ∷ []) (begin_object ∷ []) (end_object ∷ [])
          (open_object f64) (close_object f64)),
  )
  object_appends (member k v xs) h text none depth =
      let (x, wx, cx) = h.1 text depth in
      (
        b'{' ∷ (x ++ b'}' ∷ []),
        λ out. rw (wx (out ++ b'{' ∷ [])) (simp append_assoc),
        Closed-Piece f64 (b'{' ∷ (x ++ b'}' ∷ [])) (emit (normal f64 (object (member k v xs)))) (
            Closed-append f64 (b'{' ∷ []) (x ++ b'}' ∷ []) (begin_object ∷ [])
              (emit_members (normal_members f64 (member k v xs))) (open_object f64) cx),
      )
  object_appends (member k v xs) h text (some step) depth =
      let (x, wx, cx) = h.2 text step depth in
      let w = indent_text step depth in
      (
        b'{' ∷ b'\n' ∷ (x ++ (w ++ b'}' ∷ [])),
        λ out.
            rw (wx (out ++ b'{' ∷ b'\n' ∷ []))
              (rw (write_indent_out _ step depth) (simp append_assoc)),
        Closed-Piece f64 (b'{' ∷ b'\n' ∷ (x ++ (w ++ b'}' ∷ [])))
            (emit (normal f64 (object (member k v xs))))
            (Closed-append f64 (b'{' ∷ []) (b'\n' ∷ (x ++ (w ++ b'}' ∷ []))) (begin_object ∷ [])
              (emit_members (normal_members f64 (member k v xs))) (open_object f64)
              (Closed-append f64 (b'\n' ∷ []) (x ++ (w ++ b'}' ∷ [])) []
                (emit_members (normal_members f64 (member k v xs))) (newline f64)
                (cx w (spaces-IsWs (step * depth))))),
      )
