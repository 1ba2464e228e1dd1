-- ===== src/Querylang/Parser/Machine/Errors.antt =====
-- What a syntax error does in the parser of querylang/query.go.
use durandal.Querylang.Parser.Lexer.{Meaning, ParseError, entry}
use durandal.Querylang.Parser.Machine.{in_act, sq_flag, Machine, look_ahead, find_exceptions}
use durandal.Prelude.{◌⊎◌, false, ◌≡◌, true, false, some, []}
use durandal.Prelude.Int.{ℤ, pos, negsuc, ltb_ℤ, eqb_ℤ, ◌+ℤ◌}
use durandal.Prelude.Outcome.{ok}
use durandal.Querylang.Parser.Tables.{sq_act, sq_pact, sq_chk, sq_def, sq_exca}

-- The tables have no shift of the token from the state: the place for it lies outside of sqAct, or it
-- holds a state that another symbol enters.
abbrev pub NoShift : ℤ → ℤ → Type 0
NoShift base token =
    (in_act (base +ℤ token) ≡ false)
    ⊎ ((target : ℤ) × (entered : ℤ) × (entry sq_act (base +ℤ token) ≡ ok target)
        × (entry sq_chk target ≡ ok entered)
        × (eqb_ℤ entered token ≡ false))

-- The state has no production to reduce by, not for the token either where the exception table says.
abbrev pub NoReduction : ℤ → ℤ → Type 0
NoReduction state token =
    (entry sq_def state ≡ ok (pos 0))
    ⊎ ((entry sq_def state ≡ ok (negsuc 1)) × (find_exceptions sq_exca state token ≡ ok (pos 0)))

-- The parser stands in a state that looks ahead, the token ahead has no shift from it, and it has no
-- production to reduce by; the machine is the one that has looked ahead.
abbrev pub NoAction : Machine → ℤ → Machine → Type 0
NoAction b token ahead =
    (base : ℤ) × (entry sq_pact b.state ≡ ok base)
    × (ltb_ℤ sq_flag base ≡ true)
    × (look_ahead b ≡ ok (token, ahead))
    × NoShift base token
    × NoReduction b.state token

-- Given up on a syntax error
abbrev pub given_up : Machine → Meaning → Machine
given_up ahead before = record ahead {
  stack = [];
  errflag = 3;
  meaning = record before { error = some ParseError.syntax };
}
