-- ===== src/Ffi/Trees/Shape.antt =====
-- What a tree of nodes looks like that holds a value and that has no flags in its types.
use cjson_rs.Common.{ℕ, Bool, true, false, some, List, [], ◌∷◌, ◌++◌, ◌≡◌, ◌≢◌, ◌∙◌, arith}
use cjson_rs.Ffi.Memory.{Ptr, null, Node, Memory}
use cjson_rs.Ffi.Memory.Chain.{◌∈◌, has-append, Link, Link-same}
use cjson_rs.Ffi.Types.{
  cjson_null, cjson_true, cjson_false, cjson_number, cjson_string, cjson_array, cjson_object,
}
use cjson_rs.Text.{as_bytes}
use cjson_rs.Value.{
  Value, Items, Members, bool, number, string, array, object, no_items, item, no_members, member,
}

abbrev pub bool_type : Bool → ℕ
bool_type true = cjson_true
bool_type false = cjson_false

module _ {F : Type 0} where
  -- the copy of a string
  pub record TextAt (m : Memory F) (p : Ptr) (s : List ℕ) : Type 0 where
    pub ne_null : p ≢ null
    pub holds : m.texts p ≡ some (as_bytes s ++ 0 ∷ [])

  -- A node of type `t`, with `text` and `x` for its value and `child` for its first child, holds a
  -- value; the memory below the node consists of the listed addresses.
  mutual
    pub data Content (m : Memory F) : (t text child : ℕ) → F → List Ptr → Value F → Type 0 where
      null_content :
          {t text child : ℕ} {x : F}
          → t ≡ cjson_null
          → text ≡ null
          → child ≡ null
          → Content m t text child x [] Value.null
      bool_content :
          {t text child : ℕ} {x : F} (b : Bool)
          → t ≡ bool_type b
          → text ≡ null
          → child ≡ null
          → Content m t text child x [] (bool b)
      number_content :
          {t text child : ℕ} {x : F}
          → t ≡ cjson_number
          → text ≡ null
          → child ≡ null
          → Content m t text child x [] (number x)
      string_content :
          {t text child : ℕ} {x : F} {s : List ℕ} {cs : List Ptr}
          → t ≡ cjson_string
          → child ≡ null
          → TextAt m text s
          → cs ≡ text ∷ []
          → Content m t text child x cs (string s)
      array_content :
          {t text child : ℕ} {x : F} {cs : List Ptr} {vs : Items F}
          → t ≡ cjson_array
          → text ≡ null
          → Elements m null child cs vs
          → Content m t text child x cs (array vs)
      object_content :
          {t text child : ℕ} {x : F} {cs : List Ptr} {ms : Members F}
          → t ≡ cjson_object
          → text ≡ null
          → Fields m null child cs ms
          → Content m t text child x cs (object ms)

    -- the children of an array from `p` on, with `before` in front
    pub data Elements (m : Memory F) : (before p : Ptr) → List Ptr → Items F → Type 0 where
      last_element : {before p : Ptr} → p ≡ null → Elements m before p [] no_items
      element :
          {before p a : Ptr} {n : Node F} {us ws cs : List Ptr} {v : Value F} {vs : Items F}
          → p ≡ a
          → Link m.nodes before a n
          → n.string ≡ null
          → Content m n.type_ n.valuestring n.child n.valuedouble us v
          → Elements m a n.next ws vs
          → cs ≡ a ∷ (us ++ ws)
          → Elements m before p cs (item v vs)

    -- the same for an object
    pub data Fields (m : Memory F) : (before p : Ptr) → List Ptr → Members F → Type 0 where
      last_field : {before p : Ptr} → p ≡ null → Fields m before p [] no_members
      field :
          {before p a : Ptr} {n : Node F} {us ws cs : List Ptr} {k : List ℕ} {v : Value F}
          {ms : Members F}
          → p ≡ a
          → Link m.nodes before a n
          → TextAt m n.string k
          → Content m n.type_ n.valuestring n.child n.valuedouble us v
          → Fields m a n.next ws ms
          → cs ≡ a ∷ (us ++ n.string ∷ ws)
          → Fields m before p cs (member k v ms)

  -- The memories agree on the addresses.
  pub record Agree (cs : List Ptr) (m m' : Memory F) : Type 0 where
    pub nodes : (a : Ptr) → a ∈ cs → m'.nodes a ≡ m.nodes a
    pub texts : (a : Ptr) → a ∈ cs → m'.texts a ≡ m.texts a

  pub Agree-part :
      {cs ds : List Ptr} {m m' : Memory F}
      → Agree cs m m'
      → ((a : Ptr) → a ∈ ds → a ∈ cs)
      → Agree ds m m'
  Agree-part g i = record { nodes = λ a j. g.nodes a (i a j); texts = λ a j. g.texts a (i a j) }

  mutual
    pub Content-frame :
        {m m' : Memory F} {t text child : ℕ} {x : F} {cs : List Ptr} (v : Value F)
        → Content m t text child x cs v
        → Agree cs m m'
        → Content m' t text child x cs v
    Content-frame Value.null (null_content e f g) k = null_content e f g
    Content-frame (bool b) (bool_content _ e f g) k = bool_content b e f g
    Content-frame (number x) (number_content e f g) k = number_content e f g
    Content-frame {text} (string s) (string_content e f h c) k =
        string_content e f
          (record { ne_null = h.ne_null; holds = k.texts text (ground (arith, c)) ∙ h.holds }) c
    Content-frame (array vs) (array_content e f h) k = array_content e f (Elements-frame vs h k)
    Content-frame (object ms) (object_content e f h) k = object_content e f (Fields-frame ms h k)

    pub Elements-frame :
        {m m' : Memory F} {before p : Ptr} {cs : List Ptr} (vs : Items F)
        → Elements m before p cs vs
        → Agree cs m m'
        → Elements m' before p cs vs
    Elements-frame no_items (last_element e) k = last_element e
    Elements-frame (item v vs) (element {a} {us} {ws} e l s c r q) k =
        element e (Link-same l (k.nodes a (ground (arith, q)))) s
          (Content-frame v c (Agree-part k λ b i. let p = has-append b us ws in ground (arith, q)))
          (Elements-frame vs r
            (Agree-part k λ b i. let p = has-append b us ws in ground (arith, q)))
          q

    pub Fields-frame :
        {m m' : Memory F} {before p : Ptr} {cs : List Ptr} (ms : Members F)
        → Fields m before p cs ms
        → Agree cs m m'
        → Fields m' before p cs ms
    Fields-frame no_members (last_field e) k = last_field e
    Fields-frame (member key v ms) (field {a} {n} {us} {ws} e l s c r q) k =
        field e (Link-same l (k.nodes a (ground (arith, q))))
          (record {
            ne_null = s.ne_null;
            holds =
                k.texts n.string
                  (let p = has-append n.string us (n.string ∷ ws) in ground (arith, q))
                ∙ s.holds;
          })
          (Content-frame v c
            (Agree-part k λ b i. let p = has-append b us (n.string ∷ ws) in ground (arith, q)))
          (Fields-frame ms r
            (Agree-part k λ b i. let p = has-append b us (n.string ∷ ws) in ground (arith, q)))
          q
