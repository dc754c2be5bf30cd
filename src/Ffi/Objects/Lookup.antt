-- ===== src/Ffi/Objects/Lookup.antt =====
-- `get_object_item_impl` of cjson-rs-ffi/src/lib.rs: the first member with the key.
use cjson_rs.Common.{
  ℕ, zero, suc, ◌<◌, Bool, true, false, Option, none, some, List, [], ◌∷◌, Bytes, ◌≡◌, ◌≢◌, ◌⊎◌,
  inl, inr, refl, sym, ◌∙◌, ap, arith, ◌==◌, if◌then◌else◌, length, Bool-cases,
}
use cjson_rs.Ffi.Compare.{keys_match}
use cjson_rs.Ffi.Create.{c_str}
use cjson_rs.Ffi.Memory.{Ptr, null, Node, Memory, Cmd, ok, pure}
use cjson_rs.Ffi.Memory.Chain.{◌∈◌, Chain, Chain-Uncons, Chain-ne_null, Chain-first}
use cjson_rs.Ffi.Memory.Children.{Children}
use cjson_rs.Ffi.Memory.Runs.{not_null, load-ok}
use cjson_rs.Ffi.Objects.{has_key, find_key, get_object_item_impl}
use cjson_rs.Ffi.Parse.{until_nul, c_bytes}
use cjson_rs.Text.{from_utf8}

-- whether a node with this key, if it has one, matches
abbrev pub matches : Bool → List ℕ → Option (List ℕ) → Bool
matches case_sensitive key none = false
matches case_sensitive key (some child_key) = keys_match case_sensitive child_key key

-- the C string at the beginning of a text, decoded
abbrev pub cut_text : Option Bytes → Option Bytes
cut_text none = none
cut_text (some text) = until_nul text

abbrev pub decoded : Option Bytes → Option (List ℕ)
decoded none = none
decoded (some bytes) = from_utf8 bytes

module _ {F : Type 0} where
  -- At the address is a C string, with these bytes in front of its NUL.
  pub record CString (m : Memory F) (p : Ptr) : Type 0 where
    pub text : Bytes
    pub bytes : Bytes
    pub holds : m.texts p ≡ some text
    pub ends : until_nul text ≡ some bytes

  -- The key of a node is null or a C string.
  abbrev pub Keyed : Memory F → Node F → Type 0
  Keyed m n = (n.string ≡ null) ⊎ CString m n.string

  abbrev pub text_at : Memory F → Ptr → Option (List ℕ)
  text_at m p = decoded (cut_text (m.texts p))

  abbrev pub node_key : Memory F → Option (Node F) → Option (List ℕ)
  node_key m none = none
  node_key m (some n) = if n.string == null then none else text_at m n.string

  -- the key of the node at an address, if it is there and is UTF-8
  abbrev pub key_at : Memory F → Ptr → Option (List ℕ)
  key_at m a = node_key m (m.nodes a)

  -- the first of the addresses with a matching key, or null
  abbrev pub first_match : Memory F → Bool → List ℕ → List Ptr → Ptr
  first_match m case_sensitive key [] = null
  first_match m case_sensitive key (x ∷ xs) =
      if matches case_sensitive key (key_at m x) then x else first_match m case_sensitive key xs

  c_str-ok : (m : Memory F) (p : Ptr) (s : CString m p) → c_str p m ≡ ok (from_utf8 s.bytes) m
  unfolding c_str c_bytes
  c_str-ok m p s = rw (c_str, c_bytes, s.holds, s.ends)

  text_at-ok : (m : Memory F) (p : Ptr) (s : CString m p) → text_at m p ≡ from_utf8 s.bytes
  text_at-ok m p s = ap (λ z. decoded (cut_text z)) s.holds ∙ ap decoded s.ends

  has_node_key :
      (case_sensitive : Bool) (key : List ℕ) (m : Memory F) (n : Node F)
      → Keyed m n
      → has_key case_sensitive key n m ≡ ok (matches case_sensitive key (node_key m (some n))) m
  unfolding has_key
  has_node_key case_sensitive key m n (inl z) =
      let y : (n.string == null) ≡ true = ground (arith, z) in rw y refl
  has_node_key case_sensitive key m n (inr s) = elim (Bool-cases (n.string == null)) [
    | inl y ↦ rw y refl
    | inr k ↦ rw k (
        rw (c_str-ok m n.string s) (
          has_text (from_utf8 s.bytes)
          ∙ ap (λ z. ok (matches case_sensitive key z) m) (sym (text_at-ok m n.string s))))
  ]
    where
      has_text :
          (t : Option (List ℕ))
          → (elim t as (λ _. Cmd F Bool) [
            | none ↦ pure false
            | some child_key ↦ pure (keys_match case_sensitive child_key key)
          ])
              m
            ≡ ok (matches case_sensitive key t) m
      has_text none = refl
      has_text (some child_key) = refl

  has_key_lem :
      (case_sensitive : Bool) (key : List ℕ) (m : Memory F) (a : Ptr) (n : Node F)
      → m.nodes a ≡ some n
      → Keyed m n
      → has_key case_sensitive key n m ≡ ok (matches case_sensitive key (key_at m a)) m
  has_key_lem case_sensitive key m a n at keyed =
      has_node_key case_sensitive key m n keyed
      ∙ ap (λ z. ok (matches case_sensitive key (node_key m z)) m) (sym at)

  find_key_lem :
      (case_sensitive : Bool) (key : List ℕ) (f : ℕ) (m : Memory F) {before p : Ptr} (xs : List Ptr)
      → Chain m.nodes null before p xs
      → ((a : Ptr) (n : Node F) → a ∈ xs → m.nodes a ≡ some n → Keyed m n)
      → length xs < f
      → find_key case_sensitive key f p m ≡ ok (first_match m case_sensitive key xs) m
  unfolding find_key
  find_key_lem case_sensitive key zero m xs c keyed h = absurd (omega arith)
  find_key_lem case_sensitive key (suc f) m {p = p} [] c keyed h =
      let done : (p == null) ≡ true = let e = Chain-first c in ground arith in
      rw (find_key, done) refl
  find_key_lem case_sensitive key (suc f) m {p = p} (x ∷ xs) c keyed h =
      let u = Chain-Uncons c in
      let at : m.nodes p ≡ some u.node = ap m.nodes u.here ∙ u.link.holds in
      let rest =
        find_key_lem case_sensitive key f m xs u.rest (λ a n i. keyed a n (ground arith))
          (omega arith) in
      let here =
        has_key_lem case_sensitive key m x u.node u.link.holds
          (keyed x u.node (ground arith) u.link.holds) in
      rw (find_key, not_null (Chain-ne_null c))
        (rw (load-ok m (Chain-ne_null c) at) (
          rw here (elim (Bool-cases (matches case_sensitive key (key_at m x))) [
            | inl y ↦ rw y (ap (λ z. ok z m) u.here)
            | inr k ↦ rw k rest
          ])))

  -- With a round for each child and one more, where the keys of the children and the key asked for are
  -- C strings and the latter is UTF-8, `get_object_item_impl` returns the first child whose key
  -- matches, or null, and changes nothing.
  pub get_object_item_impl-first_match :
      (case_sensitive : Bool) (rounds : ℕ) (m : Memory F) (object string : Ptr) (xs : List Ptr)
      (key : List ℕ) (s : CString m string)
      → Children m.nodes object xs
      → ((a : Ptr) (n : Node F) → a ∈ xs → m.nodes a ≡ some n → Keyed m n)
      → string ≢ null
      → from_utf8 s.bytes ≡ some key
      → length xs < rounds
      → get_object_item_impl rounds object string case_sensitive m
        ≡ ok (first_match m case_sensitive key xs) m
  unfolding get_object_item_impl
  get_object_item_impl-first_match case_sensitive rounds m object string xs key s c keyed nn e h =
      rw (not_null c.ne_null) (
        rw (not_null nn) (
          rw (c_str-ok m string s) (
            rw e (
              rw (load-ok m c.ne_null c.holds)
                (find_key_lem case_sensitive key rounds m xs c.chain keyed h)))))
