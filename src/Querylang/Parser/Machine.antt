-- ===== src/Querylang/Parser/Machine.antt =====
-- Parse of querylang/query.go: the machine that goyacc made, one step for what it does from
-- sqnewstate to the next jump to sqstack or sqnewstate, or to its end.
pub mod Recovery
pub mod Soundness
pub mod Errors
use durandal.Prelude.{
  ℕ, zero, suc, ◌+◌, ◌-◌, ◌*◌, ◌≡◌, refl, Bool, true, false, not, ◌&&◌, ◌||◌, Option, none, some,
  List, [], ◌∷◌, ◌++◌, ltb, leb, ◌==◌, if◌then◌else◌, length, get_elem?, take, drop,
}
use durandal.Prelude.Int.{ℤ, pos, negsuc, pos_part, neg_part, sub_ℕ, ◌+ℤ◌, ◌-ℤ◌, ltb_ℤ, eqb_ℤ}
use durandal.Prelude.Str.{Str, codes}
use durandal.Prelude.Outcome.{Outcome, ok, panic, ◌>>=◌}
use durandal.Querylang.Parser.Tables.{
  sq_act, sq_pact, sq_pgo, sq_r1, sq_r2, sq_chk, sq_def, sq_exca,
}
use durandal.Querylang.Parser.Lexer.{
  Scanned, ParseError, Query, Meaning, Lexer, lex, entry, token_of,
}
use durandal.Querylang.Parser.Values.{SymType, dollar, Clock, report}
use durandal.Querylang.Parser.Actions.{
  Action, keep, query_actions, single, prepend, selector_actions, data_actions,
}
use durandal.Querylang.Parser.TimeActions.{
  time_actions, reltime_actions, limit_actions, timeconv_actions,
}
use durandal.Querylang.Parser.WhereActions.{where_clause, term_actions, text_actions, list_actions}

-- A state and the value that was put on the stack with it.
abbrev pub Slot : Type 0
Slot = ℤ × SymType

-- The variables of Parse: sqS up to sqp, the top first; sqstate; sqtoken, if a token was read and
-- not yet used; sqVAL; Errflag. The lexer and what the actions change stand behind the pointer.
pub record Machine : Type 0 where
  pub stack : List Slot
  pub state : ℤ
  pub token : Option ℤ
  pub value : SymType
  pub errflag : ℕ
  pub lexer : Lexer
  pub meaning : Meaning

pub data Next : Type 0 where
  more : Machine → Next
  done : ℕ → Machine → Next

abbrev pub sq_flag : ℤ
sq_flag = negsuc 999

abbrev pub sq_last : ℤ
sq_last = pos 169

abbrev pub in_act : ℤ → Bool
in_act n = not (ltb_ℤ n (pos 0)) && ltb_ℤ n sq_last

-- sqstack: put the state and the value onto the stack.
abbrev pub push : ℤ → SymType → Machine → Machine
push state value m = record m { stack = (state, value) ∷ m.stack; state = state; value = value }

-- The token ahead, read if there is none.
unfoldable pub look_ahead : Machine → Outcome (ℤ × Machine)
unfolding lex token_of
look_ahead m = elim m.token [
  | some t ↦ ok (t, m)
  | none ↦
      let (char, lexer) = lex m.lexer in
      do t ← token_of char; ok (t, record m { token = some t; lexer = lexer })
]

-- What follows the state in the exception table: the production for the token.
exceptions : List ℤ → ℤ → Outcome ℤ
exceptions [] token = panic
exceptions (t ∷ []) token = panic
exceptions (t ∷ n ∷ table) token =
    let rest = exceptions table token in if ltb_ℤ t (pos 0) || eqb_ℤ t token then ok n else rest

pub find_exceptions : List ℤ → ℤ → ℤ → Outcome ℤ
unfolding exceptions
find_exceptions [] state token = panic
find_exceptions (t ∷ []) state token = panic
find_exceptions (t ∷ s ∷ table) state token =
    let rest = find_exceptions table state token in
    if eqb_ℤ t (negsuc 0) && eqb_ℤ s state then exceptions table token else rest

-- The state to go to after a symbol, from a state.
unfoldable pub goto_state : ℤ → ℤ → Outcome ℤ
unfolding ◌+ℤ◌ ◌-ℤ◌
goto_state symbol state = do
  g ← entry sq_pgo symbol
  let j = g +ℤ state +ℤ pos 1
  base ← entry sq_act g
  if not (ltb_ℤ j sq_last) then ok base else do
    target ← entry sq_act j
    entered ← entry sq_chk target
    if eqb_ℤ entered (pos 0 -ℤ symbol) then ok target else ok base

-- The state behind a shift of the error token.
error_shift : ℤ → Outcome (Option ℤ)
error_shift state = do
  base ← entry sq_pact state
  if not (in_act (base +ℤ pos 2)) then ok none else do
    target ← entry sq_act (base +ℤ pos 2)
    entered ← entry sq_chk target
    ok (if eqb_ℤ entered (pos 2) then some target else none)

-- The first state from the top that has such a shift; without one the parser gives up.
recover : List Slot → Machine → Outcome Next
unfolding error_shift
recover [] m = ok (done 1 (record m { stack = [] }))
recover ((s, v) ∷ stack) m = do
  let rest = recover stack m
  shifted ← error_shift s
  elim shifted [
    | none ↦ rest
    | some target ↦ ok (more (push target m.value (record m { stack = (s, v) ∷ stack })))
  ]

syntax_error : Machine → Machine
syntax_error m = record m { meaning = report true ParseError.syntax m.meaning }

-- The switch on Errflag.
pub handle_error : Machine → Outcome Next
unfolding recover syntax_error
handle_error m =
    if m.errflag == 0
    then recover m.stack (record (syntax_error m) { errflag = 3 })
    else if ltb m.errflag 3
    then recover m.stack (record m { errflag = 3 })
    else elim m.token [
      | some t ↦ if eqb_ℤ t (pos 1) then ok (done 1 m) else ok (more (record m { token = none }))
      | none ↦ ok (more m)
    ]

-- The values of the topmost slots, the deepest first, and the stack below them.
pop_values : ℕ → List Slot → List SymType → Outcome (List SymType × List Slot)
pop_values zero stack values = ok (values, stack)
pop_values (suc n) [] values = panic
pop_values (suc n) ((s, v) ∷ stack) values = pop_values n stack (v ∷ values)

abbrev top_state : List Slot → Outcome ℤ
top_state [] = panic
top_state ((s, v) ∷ stack) = ok s

unfoldable pub actions : Clock → List Action
unfolding query_actions single prepend selector_actions data_actions time_actions reltime_actions
    limit_actions timeconv_actions where_clause term_actions text_actions list_actions
actions clock =
    (λ d m. keep (dollar d 1) m)
    ∷ (query_actions
        ++ (single ∷ prepend ∷ (λ d m. keep (dollar d 2) m) ∷ single ∷ prepend ∷ [])
        ++ selector_actions
        ++ data_actions
        ++ time_actions clock
        ++ reltime_actions
        ++ limit_actions
        ++ timeconv_actions
        ++ (where_clause ∷ [])
        ++ term_actions
        ++ text_actions
        ++ list_actions)

-- sqVAL is the first value where the production has no action.
abbrev action_of : Clock → ℕ → Action
action_of clock n = elim (get_elem? (actions clock) n) [
  | none ↦ λ d m. keep (dollar d 1) m
  | some a ↦ a
]

-- The reduction by a production.
reduce : Clock → ℤ → Machine → Outcome Next
unfolding pop_values goto_state actions
reduce clock production m = do
  count ← entry sq_r2 production
  (values, stack) ← pop_values (pos_part count) m.stack []
  symbol ← entry sq_r1 production
  below ← top_state stack
  state ← goto_state symbol below
  (value, meaning) ← action_of clock (pos_part production) values m.meaning
  ok (more (push state value (record m { stack = stack; meaning = meaning })))

abbrev by_production : Clock → ℤ → Machine → Outcome Next
by_production clock n m = if eqb_ℤ n (pos 0) then handle_error m else reduce clock n m

-- sqdefault
default_action : Clock → Machine → Outcome Next
unfolding look_ahead find_exceptions handle_error reduce
default_action clock m = do
  n ← entry sq_def m.state
  if not (eqb_ℤ n (negsuc 1)) then by_production clock n m else do
    (t, m') ← look_ahead m
    x ← find_exceptions sq_exca m'.state t
    if ltb_ℤ x (pos 0) then ok (done 0 m') else by_production clock x m'

shift : ℤ → Machine → Next
shift state m =
    more
      (push state (SymType.str m.lexer.text) (record m { token = none; errflag = m.errflag - 1 }))

-- sqnewstate
unfoldable pub step : Clock → Machine → Outcome Next
unfolding look_ahead default_action shift ◌+ℤ◌
step clock m = do
  base ← entry sq_pact m.state
  if not (ltb_ℤ sq_flag base) then default_action clock m else do
    (t, m') ← look_ahead m
    if not (in_act (base +ℤ t)) then default_action clock m' else do
      state ← entry sq_act (base +ℤ t)
      entered ← entry sq_chk state
      if eqb_ℤ entered t then ok (shift state m') else default_action clock m'

-- The loop of Parse for so many steps.
unfoldable pub run : Clock → ℕ → Machine → Outcome Next
run clock zero m = ok (more m)
run clock (suc n) m = do
  next ← step clock m
  elim next [ more m' ↦ run clock n m' | done code m' ↦ ok (done code m') ]
