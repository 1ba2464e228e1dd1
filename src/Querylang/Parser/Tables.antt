-- ===== src/Querylang/Parser/Tables.antt =====
-- The tables of the parser in querylang/query.go, number by number.
mod Shifts
mod Offsets
mod Checks
mod Defaults
mod Productions
mod Codes
pub use Shifts.{sq_act}
pub use Offsets.{sq_pact}
pub use Checks.{sq_chk}
pub use Defaults.{sq_def, sq_exca}
pub use Productions.{sq_r1, sq_r2, sq_pgo}
pub use Codes.{sq_tok1, sq_tok2, sq_tok3}
