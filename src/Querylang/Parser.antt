-- ===== src/Querylang/Parser.antt =====
-- The parser of querylang/query.go: its tables, its actions and the machine that runs them.
mod Tables
pub mod Lexer
pub mod Values
pub mod Actions
pub mod TimeActions
pub mod WhereActions
pub mod Machine
pub mod Grammar
pub mod Spelling
pub mod Sense
pub mod Runs
pub mod Brackets
pub mod Terms
pub mod WhereLists
pub mod Wheres
pub mod Selectors
pub mod Places
pub mod PlainTimes
pub mod Times
pub mod Offsets
pub mod Tails
pub mod Headers
pub mod Ranges
pub mod HalfRanges
pub mod DataClauses
pub mod Accepting
pub mod Sentences
pub mod Process
pub mod Correct
