-- ===== src/Dsl.antt =====
-- src/dsl: the language of types.
pub mod Tokenizer
mod Tests
