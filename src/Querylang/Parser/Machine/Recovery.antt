-- ===== src/Querylang/Parser/Machine/Recovery.antt =====
-- The error recovery of querylang/query.go, and the states of its tables.
use durandal.Prelude.{
  ℕ, zero, suc, ◌<◌, ◌≡◌, refl, Bool, true, false, ◌&&◌, Option, none, some, List, [], ◌∷◌, arith,
  ltb, ltb→lt, get_elem?,
}
use durandal.Prelude.Int.{ℤ, pos, negsuc, ◌+ℤ◌}
use durandal.Prelude.Outcome.{Outcome, ok, err, panic}
use durandal.Querylang.Parser.Tables.{sq_act}
use durandal.Querylang.Parser.Lexer.{ParseError, entry}
use durandal.Querylang.Parser.Values.{report}
use durandal.Querylang.Parser.Machine.{
  Slot, Machine, done, error_shift, recover, syntax_error, handle_error,
}

-- The states of the tables.
abbrev pub is_state : ℤ → Bool
is_state (pos n) = ltb n 149
is_state (negsuc n) = false

abbrev is_none : Outcome (Option ℤ) → Bool
is_none (ok none) = true
is_none _ = false

all_true : (ℤ → Bool) → List ℤ → Bool
all_true p [] = true
all_true p (z ∷ zs) = p z && all_true p zs

-- What a test finds in a table, it finds in each entry.
entry_checked :
    (p : ℤ → Bool) (table : List ℤ) (n : ℕ) (z : ℤ)
    → all_true p table ≡ true
    → get_elem? table n ≡ some z
    → p z ≡ true
unfolding all_true
entry_checked p [] n z h e = cc
entry_checked p (y ∷ table) zero z h e = ground arith
entry_checked p (y ∷ table) (suc n) z h e = ground (arith, entry_checked p table n z)

entry-checked :
    (p : ℤ → Bool) (table : List ℤ) (i z : ℤ)
    → all_true p table ≡ true
    → entry table i ≡ ok z
    → p z ≡ true
entry-checked p table (negsuc n) z h e = cc
entry-checked p table (pos n) z h e = ground (arith, entry_checked p table n z)

act_checked : all_true is_state sq_act ≡ true
unfolding all_true
act_checked = refl

pub act-is_state : (i s : ℤ) → entry sq_act i ≡ ok s → is_state s ≡ true
act-is_state i s e = entry-checked is_state sq_act i s act_checked e

-- No state shifts the error token.
no_shift : ℕ → Bool
no_shift zero = true
no_shift (suc n) = is_none (error_shift (pos n)) && no_shift n

no_shift_checked : no_shift 149 ≡ true
unfolding no_shift error_shift ◌+ℤ◌
no_shift_checked = refl

no_shift_below : (k n : ℕ) → no_shift k ≡ true → n < k → is_none (error_shift (pos n)) ≡ true
unfolding no_shift
no_shift_below zero n h lt = elim lt [ ]
no_shift_below (suc k) n h lt = ground (arith, no_shift_below k n)

is_none-eq : (o : Outcome (Option ℤ)) → is_none o ≡ true → o ≡ ok none
is_none-eq panic h = cc
is_none-eq (err e) h = cc
is_none-eq (ok (some z)) h = cc
is_none-eq (ok none) h = refl

error_shift-eq-none : (s : ℤ) → is_state s ≡ true → error_shift s ≡ ok none
error_shift-eq-none (negsuc n) h = cc
error_shift-eq-none (pos n) h =
    is_none-eq (error_shift (pos n)) (no_shift_below 149 n no_shift_checked (ltb→lt n 149 h))

abbrev pub AllStates : List Slot → Type 0
AllStates [] = Unit
AllStates ((s, v) ∷ stack) = (is_state s ≡ true) × AllStates stack

recover_lem :
    (stack : List Slot) (m : Machine)
    → AllStates stack
    → recover stack m ≡ ok (done 1 (record m { stack = [] }))
unfolding recover
recover_lem [] m h = refl
recover_lem ((s, v) ∷ stack) m (h, hs) = rw (error_shift-eq-none s h) (recover_lem stack m hs)

-- The stack holds states of the tables only, and no error is being recovered from.
abbrev pub Sound : Machine → Type 0
Sound m = AllStates m.stack × (m.errflag ≡ 0)

pub handle_error_lem :
    (m : Machine)
    → Sound m
    → handle_error m
      ≡ ok (
          done 1 (record m {
            stack = [];
            errflag = 3;
            meaning = report true ParseError.syntax m.meaning;
          }))
unfolding handle_error syntax_error
handle_error_lem m (states, clear) = rw clear (
    recover_lem m.stack
      (record m { errflag = 3; meaning = report true ParseError.syntax m.meaning }) states)
