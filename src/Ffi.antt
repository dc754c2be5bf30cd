-- ===== src/Ffi.antt =====
-- cjson-rs-ffi: what the C interface computes on values, strings and byte offsets.
pub mod Compare
mod Tests
pub mod CompareLaws
pub mod Text
pub mod TextLaws
pub mod Links
pub mod Minify
pub mod Types
pub mod Memory
pub mod Alloc
pub mod Parse
pub mod Trees
pub mod Adding
pub mod Arrays
pub mod Print
pub mod Hooks
pub mod Create
pub mod Objects
