-- ===== src/Lib.antt =====
-- cjson-rs, a JSON parser and printer (cjson-rs/src) with the C interface of cJSON
-- (cjson-rs-ffi/src). `parse` tokenises the whole input and then runs a recursive descent over the
-- tokens; `serialise` and `serialise_pretty` write a value as text; the C interface converts
-- between values and C trees and has a few algorithms of its own.
--
-- The files and what they model:
--   Error: cjson-rs/src/error.rs, and `Result` with the outcomes panic and out of fuel.
--   Text: `char`, `String::as_bytes` and `str::from_utf8` of the standard library. A `String` is
--     the list of its code points. Text/Utf8 is about decoding and encoding.
--   Number: `f64` as a parameter with the operations that the code calls; Number/Laws is what is
--     assumed of them, and Number/Grammar the numbers of RFC 8259.
--   Token, Value: cjson-rs/src/token.rs and value.rs.
--   Tokeniser: cjson-rs/src/tokeniser.rs. Cursor is the struct `Tokeniser` with `peek`, `advance`
--     and `skip_ws`; Strings, Numbers and Tokens are the methods for each kind of token and the
--     loops over tokens. `&mut self` is a cursor that is passed in and returned.
--     StringGrammar and TokenGrammar are the lexical grammar; the modules ending in Reads are
--     about the inputs of the grammar, those ending in Sound about any input.
--   Parser: cjson-rs/src/parser.rs. Parser/Grammar has the tokens and the nesting of a value;
--     Complete and Sound compare the parser with them, Accepts puts tokeniser and parser together,
--     and Prefix is about `parse_prefix`.
--   Serialiser: cjson-rs/src/serialiser.rs. `out` is passed in and returned. Pieces, Lexed,
--     Arrays and Objects compare what is written with the tokens of the value.
--   RoundTrip: the serialiser, the tokeniser and the parser together.
--   Ffi: cjson-rs-ffi/src. Text, Compare and Types are the pure parts of lib.rs (`strip_utf8_bom`,
--     `error_byte_offset`, `write_escaped`, `compare_values`, the type predicates with the tags of
--     types.rs), Minify is `minify_in_place` of convert.rs on a buffer with two indices, and
--     Minify/Call is `cJSON_Minify` on a text in the memory, and Minify/Safe is about the buffer.
--   Ffi/Memory: the struct `cJSON` of types.rs at addresses, texts at addresses, the answers of the
--     allocator, and commands on these; `guard` of panic_guard.rs. A read through null or through
--     an address without a node is a fault, as is a release of what is not there. Chain and Children
--     are the view of the children of a node as the list of their addresses.
--   Ffi/Links: `attach_child`, `detach` and `child_at_index` of convert.rs and the functions of
--     lib.rs on arrays; Open is a list of children with a gap, from which Insert, Detach and
--     Objects/Relink are put together, and Place an index that is inside of a list or past it.
--   Ffi/Alloc: `alloc_node`, `alloc_cstr`, `free_cjson` and `value_to_cjson` of convert.rs;
--     Ffi/Hooks: alloc_hooks.rs; Ffi/Create: the constructors, getters and setters of lib.rs;
--     Ffi/Objects: lookup, attachment, release and replacement of members by key; Ffi/Trees:
--     `cjson_to_value`, `cJSON_Compare` and `duplicate`; Ffi/Arrays: the constructors of whole
--     arrays; Ffi/Adding: references and the functions that
--     create and add at once; Ffi/Parse and Ffi/Print: the entry points that parse and print.
--   Ffi/Memory/Fresh and the modules below Ffi/Trees: Fresh is what the allocator is about to serve;
--     Shape is the predicate that a tree of nodes holds a value, with the list of the addresses below
--     its root; Cells, Child, Keyed, Join, Round and Build are about `value_to_cjson`, Read and Texts about
--     `cjson_to_value`, Gone, Release and Free about `free_cjson`; Restored, Partial and Fails are
--     about an allocator that runs out, Compared is about `cJSON_Compare`, Kinds about the type
--     predicates, and Whole and
--     Ffi/Print/Parsed put the operations together.
--   Common: lists, tests and bits over the native numbers. Tests: runs and instances.
--
-- Bounds and fuel: `u32` arithmetic wraps at 2^32; `usize` positions and counts do not overflow,
-- since they stay below the length of the input, and the width of the indentation is not
-- bounded. The loops over bytes have as many rounds as there are bytes left, and the descent
-- takes three calls for each token and one more. The loops over the children of a node and the
-- walks over a tree take the number of their rounds as an argument (`rounds`, `f`), and end with
-- out of fuel when it is used up; the theorems ask for a round for each child, and one more
-- where the loop also looks at the null behind the last.
--
-- Not modelled: stack use of the recursion; overflow of addresses; the atomic access to the
-- allocation hooks; `cJSON_Version`, which returns a constant; the fuzz targets. The positions in
-- errors are computed, but not specified.
pub mod Common
pub mod Text
pub mod Error
pub mod Number
pub mod Token
pub mod Value
pub mod Tokeniser
pub mod Parser
pub mod Serialiser
pub mod RoundTrip
pub mod Ffi
pub mod Tests
