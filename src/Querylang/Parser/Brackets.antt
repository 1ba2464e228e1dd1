-- ===== src/Querylang/Parser/Brackets.antt =====
-- The runs of the parser of querylang/query.go over what stands in brackets and parentheses in a term.
use durandal.Prelude.{◌≡◌, refl, Option, none, some, List, ◌∷◌}
use durandal.Prelude.Int.{ℤ, pos}
use durandal.Prelude.Str.{Str, codes}
use durandal.Prelude.Outcome.{ok}
use durandal.Querylang.Parser.Lexer.{Scanned, Meaning}
use durandal.Querylang.Parser.Values.{SymType, Clock}
use durandal.Querylang.Parser.Machine.{Slot, Machine, more, step, run}
use durandal.Common.Value.{Value, Fields}
use durandal.Querylang.Parser.Actions.{dict_with}
use durandal.Querylang.Parser.WhereActions.{texts, nested}
use durandal.Querylang.Parser.Grammar.{Text, Token, name, quoted, Words, last, then_word}
use durandal.Querylang.Parser.Spelling.{
  words, rbrack_token, lbrack_token, lparen_token, rparen_token, in_token, not_token,
}
use durandal.Querylang.Parser.Sense.{key, note_key, literal, literals}
use durandal.Querylang.Parser.Runs.{Memory, remember, parser, Reads, reads, before, Reads-Reads}

-- The states in which a term is expected.
pub data Place : Type 0 where
  after_where after_not after_and after_or in_paren : Place

abbrev pub state : Place → ℤ
state after_where = pos 18
state after_not = pos 34
state in_paren = pos 40
state after_and = pos 59
state after_or = pos 60

-- The states behind the term.
abbrev pub behind : Place → ℤ
behind after_where = pos 35
behind after_not = pos 61
behind in_paren = pos 69
behind after_and = pos 85
behind after_or = pos 86

-- The states in which a quoted text of a list is expected, and the states behind the list.
pub data Item : Type 0 where
  first_item later_item : Item

abbrev pub item_state : Item → ℤ
item_state first_item = pos 41
item_state later_item = pos 95

abbrev pub behind_items : Item → ℤ
behind_items first_item = pos 70
behind_items later_item = pos 109

module _ (clock : Clock) (at_end : Scanned) (shown : List Token → Str) where
  abbrev at_state : List Slot → ℤ → SymType → Option ℤ → List Token → Memory → Meaning → Machine
  at_state = parser at_end shown

  -- The list is read with the bracket behind it, whose number is 38.
  pub items_lem :
      (p : Item) (ws : Words) (stack : List Slot) (v : SymType) (rest : List Token)
      (memory : Memory) (m : Meaning)
      → Reads clock at_end shown
          (at_state stack (item_state p) v none (words quoted ws (rbrack_token ∷ rest)) memory m)
          ((item_state p, v) ∷ stack)
          (behind_items p)
          (SymType.list (literals ws))
          (some (pos 38))
          rest
          m
  unfolding run step
  items_lem first_item (last w) stack v rest memory m = reads (_, _, _) 3 refl
  items_lem later_item (last w) stack v rest memory m = reads (_, _, _) 3 refl
  items_lem first_item (then_word w ws) stack v rest memory m =
      Reads-Reads clock at_end shown
        (before clock at_end shown 3
          (items_lem later_item ws ((pos 71, SymType.str (literal w)) ∷ (pos 41, v) ∷ stack) _ rest
            (_, _, _) m)
          refl)
        (λ memory'. reads (_, _, _) 1 refl)
  items_lem later_item (then_word w ws) stack v rest memory m =
      Reads-Reads clock at_end shown
        (before clock at_end shown 3
          (items_lem later_item ws ((pos 71, SymType.str (literal w)) ∷ (pos 95, v) ∷ stack) _ rest
            (_, _, _) m)
          refl)
        (λ memory'. reads (_, _, _) 1 refl)

  pub open_bracket :
      (p : Place) (stack : List Slot) (v : SymType) (ts : List Token) (memory : Memory)
      (m : Meaning)
      → run clock 1 (at_state stack (state p) v none (lbrack_token ∷ ts) memory m)
        ≡ ok (
            more (
              at_state
                ((state p, v) ∷ stack)
                (pos 41)
                (SymType.str (lbrack_token.1))
                none
                ts
                (remember shown lbrack_token ts memory)
                m))
  unfolding run step
  open_bracket after_where stack v ts memory m = refl
  open_bracket _ stack v ts memory m = refl

  pub open_paren :
      (p : Place) (stack : List Slot) (v : SymType) (ts : List Token) (memory : Memory)
      (m : Meaning)
      → run clock 1 (at_state stack (state p) v none (lparen_token ∷ ts) memory m)
        ≡ ok (
            more (
              at_state
                ((state p, v) ∷ stack)
                (pos 40)
                (SymType.str (lparen_token.1))
                none
                ts
                (remember shown lparen_token ts memory)
                m))
  unfolding run step
  open_paren after_where stack v ts memory m = refl
  open_paren _ stack v ts memory m = refl

  pub close_in :
      (p : Place) (stack : List Slot) (v w : SymType) (vs : List Str) (k : Text) (rest : List Token)
      (memory : Memory) (m : Meaning)
      → Reads clock at_end shown
          (at_state
            ((pos 41, w) ∷ (state p, v) ∷ stack)
            (pos 70)
            (SymType.list vs)
            (some (pos 38))
            (in_token ∷ name k ∷ rest)
            memory
            m)
          ((state p, v) ∷ stack)
          (behind p)
          (SymType.dict (nested (key k) (codes "$in") (Value.list (texts vs))))
          none
          rest
          (note_key k m)
  unfolding run step
  close_in after_where stack v w vs k rest memory m = reads (_, _, _) 6 refl
  close_in _ stack v w vs k rest memory m = reads (_, _, _) 6 refl

  pub close_not_in :
      (p : Place) (stack : List Slot) (v w : SymType) (vs : List Str) (k : Text) (rest : List Token)
      (memory : Memory) (m : Meaning)
      → Reads clock at_end shown
          (at_state
            ((pos 41, w) ∷ (state p, v) ∷ stack)
            (pos 70)
            (SymType.list vs)
            (some (pos 38))
            (not_token ∷ in_token ∷ name k ∷ rest)
            memory
            m)
          ((state p, v) ∷ stack)
          (behind p)
          (SymType.dict (
            nested
              (in_token.1)
              (codes "$not")
              (Value.dict (dict_with (codes "$in") (Value.list (texts vs))))))
          none
          rest
          (note_key k m)
  unfolding run step
  close_not_in after_where stack v w vs k rest memory m = reads (_, _, _) 7 refl
  close_not_in _ stack v w vs k rest memory m = reads (_, _, _) 7 refl

  pub close_paren :
      (p : Place) (stack : List Slot) (v w : SymType) (d : Fields) (rest : List Token)
      (memory : Memory) (m : Meaning)
      → Reads clock at_end shown
          (at_state
            ((pos 40, w) ∷ (state p, v) ∷ stack)
            (pos 69)
            (SymType.dict d)
            none
            (rparen_token ∷ rest)
            memory
            m)
          ((state p, v) ∷ stack)
          (behind p)
          (SymType.dict d)
          none
          rest
          m
  unfolding run step
  close_paren after_where stack v w d rest memory m = reads (_, _, _) 2 refl
  close_paren _ stack v w d rest memory m = reads (_, _, _) 2 refl
