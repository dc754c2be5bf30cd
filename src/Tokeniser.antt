-- ===== src/Tokeniser.antt =====
-- tokeniser.rs, file by file: the cursor, strings, numbers, and the token loop.
pub mod Cursor
pub mod Strings
pub mod Numbers
pub mod Tokens
pub mod Reading
pub mod Skipping
pub mod StringGrammar
pub mod StringReads
pub mod StringSound
pub mod NumberSound
pub mod NumberReads
pub mod TokenGrammar
pub mod TokenReads
pub mod TokenSound
