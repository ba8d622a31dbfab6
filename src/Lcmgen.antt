-- ===== src/Lcmgen.antt =====
-- upstream/lcmgen: the compiler of type declarations, as far as it reads them: the tokenizer, the parser
-- and the hash of a type.
pub mod Text
pub mod Types
pub mod Hash
pub mod Numbers
pub mod Result
pub mod Parser
pub mod Consts
pub mod Entities
pub mod WellFormed
pub mod Declared
pub mod Members
pub mod Values
pub mod Accepted
pub mod Enums
pub mod Files
pub mod Tokenize
pub mod Comments
pub mod Ahead
pub mod Chars
pub mod Lexing
pub mod Words
pub mod Texts
mod Runs
