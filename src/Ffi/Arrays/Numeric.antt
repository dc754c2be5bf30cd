-- ===== src/Ffi/Arrays/Numeric.antt =====
-- `create_numeric_array` of cjson-rs-ffi/src/lib.rs.
use mathlib.Core.Option
use cjson_rs.Common.{Option, some, List, [], ◌∷◌, ◌++◌, ◌≡◌, ◌==◌, map}
use cjson_rs.Ffi.Alloc.{Double, zeroed, clamp_to_int}
use cjson_rs.Ffi.Create.Created.{blank}
use cjson_rs.Ffi.Memory.{Ptr, Node, Nodes, Memory, Run, ok}
use cjson_rs.Ffi.Memory.Chain.{◌∉◌}
use cjson_rs.Ffi.Memory.Children.{Children, unlinked}
use cjson_rs.Ffi.Memory.Fresh.{Fresh}
use cjson_rs.Ffi.Types.{cjson_number, cjson_array}

module _ {F : Type 0} where
  -- what a node holds but for the links among the children of `parent`
  abbrev pub value_at : (parent : Ptr) → Nodes F → Ptr → Option (Node F)
  value_at parent h a = Option.map (unlinked (a == parent)) (h a)

module _ {F : Type 0} (f64 : Double F) where
  -- a node with this number and the type of numbers, and nothing else
  abbrev pub number_node : F → Node F
  number_node x = record (zeroed f64) {
    type_ = cjson_number;
    valuedouble = x;
    valueint = clamp_to_int f64 x;
  }

  -- At the addresses are nodes for these numbers, in this order; their links are left open.
  pub data Numbers (parent : Ptr) (h : Nodes F) : List Ptr → List F → Type 0 where
    no_numbers : Numbers parent h [] []
    number :
        {a : Ptr} {bs : List Ptr} {x : F} {xs : List F}
        → value_at parent h a ≡ some (number_node x)
        → Numbers parent h bs xs
        → Numbers parent h (a ∷ bs) (x ∷ xs)

  -- The nodes `bs`, which hold the numbers, stand behind the children `xs`; what other nodes hold is the
  -- same.
  pub record Appended (m : Memory F) (arr : Ptr) (xs bs : List Ptr) (numbers : List F)
      (run : Run F Ptr) : Type 0 where
    pub after : Memory F
    pub returns : run ≡ ok arr after
    pub children : Children after.nodes arr (xs ++ bs)
    pub holds : Numbers arr after.nodes bs numbers
    pub kept : (a : Ptr) → a ∉ bs → value_at arr after.nodes a ≡ value_at arr m.nodes a

  -- the new array, with the type of arrays, with these nodes as its children and the numbers in them
  pub record NumericArray (arr : Ptr) (bs : List Ptr) (numbers : List F) (run : Run F Ptr)
      : Type 0 where
    pub after : Memory F
    pub returns : run ≡ ok arr after
    pub children : Children after.nodes arr bs
    pub array : value_at arr after.nodes arr ≡ some (blank f64 cjson_array)
    pub holds : Numbers arr after.nodes bs numbers
