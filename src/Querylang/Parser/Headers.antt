-- ===== src/Querylang/Parser/Headers.antt =====
-- What stands before the range of a data clause in parentheses, in the parser of querylang/query.go.
use durandal.Prelude.{ℕ, refl, Option, none, List, ◌∷◌}
use durandal.Prelude.Int.{ℤ, pos}
use durandal.Prelude.Str.{Str}
use durandal.Querylang.Parser.Lexer.{Scanned, Meaning}
use durandal.Querylang.Parser.Values.{SymType, Clock}
use durandal.Querylang.Parser.Machine.{Slot, Machine, step, run}
use durandal.Querylang.Parser.Runs.{Memory, parser, Reads, reads}
use durandal.Querylang.Parser.Grammar.{
  Token, number, Header, no_header, statistical, statistics, window,
}
use durandal.Querylang.Parser.Spelling.{
  header, data_token, in_token, lparen_token, rparen_token, statistical_token, statistics_token,
  window_token,
}
use durandal.Querylang.Parser.Sense.{key, header_keys}
use durandal.Querylang.Parser.Places.{
  TimePlace, paren_first, paren_second, statistical_first, statistical_second, statistics_first,
  statistics_second, window_first, window_second, time_state,
}
use durandal.Querylang.Parser.Tails.{Fresh, of_paren, of_statistical, of_statistics, of_window}

-- The states in which a data clause is expected, and the states behind it.
pub data DataPlace : Type 0 where
  of_select of_delete : DataPlace

abbrev pub data_state : DataPlace → ℤ
data_state of_select = pos 2
data_state of_delete = pos 3

abbrev pub behind_data : DataPlace → ℤ
behind_data of_select = pos 5
behind_data of_delete = pos 16

-- Where the two times and the tail of a range stand, and the slots below the first time.
abbrev pub first_place : Header → TimePlace
first_place no_header = paren_first
first_place (statistical n) = statistical_first
first_place (statistics n) = statistics_first
first_place (window n u) = window_first

abbrev pub second_place : Header → TimePlace
second_place no_header = paren_second
second_place (statistical n) = statistical_second
second_place (statistics n) = statistics_second
second_place (window n u) = window_second

abbrev pub tail_place : Header → Fresh
tail_place no_header = of_paren
tail_place (statistical n) = of_statistical
tail_place (statistics n) = of_statistics
tail_place (window n u) = of_window

-- A slot with the text of a token
abbrev pub slot : ℕ → Token → Slot
slot s t = (pos s, SymType.str (t.1))

abbrev pub under : Header → List Slot → List Slot
under no_header base = slot 23 in_token ∷ slot 9 data_token ∷ base
under (statistical n) base =
    slot 115 in_token
    ∷ slot 104 data_token
    ∷ slot 81 rparen_token
    ∷ slot 53 (number n)
    ∷ slot 26 lparen_token
    ∷ slot 10 statistical_token
    ∷ base
under (statistics n) base =
    slot 116 in_token
    ∷ slot 105 data_token
    ∷ slot 82 rparen_token
    ∷ slot 54 (number n)
    ∷ slot 27 lparen_token
    ∷ slot 11 statistics_token
    ∷ base
under (window n u) base =
    slot 124 in_token
    ∷ slot 117 data_token
    ∷ slot 106 rparen_token
    ∷ (pos 83, SymType.str (key u))
    ∷ slot 55 (number n)
    ∷ slot 28 lparen_token
    ∷ slot 12 window_token
    ∷ base

module _ (clock : Clock) (at_end : Scanned) (shown : List Token → Str) where
  abbrev at_state : List Slot → ℤ → SymType → Option ℤ → List Token → Memory → Meaning → Machine
  at_state = parser at_end shown

  pub open_range :
      (h : Header) (d : DataPlace) (stack : List Slot) (v : SymType) (ts : List Token)
      (memory : Memory) (m : Meaning)
      → Reads clock at_end shown
          (at_state stack
            (data_state d)
            v
            none
            (header h (data_token ∷ in_token ∷ lparen_token ∷ ts))
            memory
            m)
          (under h ((data_state d, v) ∷ stack))
          (time_state (first_place h))
          (SymType.str (lparen_token.1))
          none
          ts
          (header_keys h m)
  unfolding run step
  open_range no_header of_select stack v ts memory m = reads (_, _, _) 3 refl
  open_range no_header of_delete stack v ts memory m = reads (_, _, _) 3 refl
  open_range (statistical n) of_select stack v ts memory m = reads (_, _, _) 7 refl
  open_range (statistical n) of_delete stack v ts memory m = reads (_, _, _) 7 refl
  open_range (statistics n) of_select stack v ts memory m = reads (_, _, _) 7 refl
  open_range (statistics n) of_delete stack v ts memory m = reads (_, _, _) 7 refl
  open_range (window n u) of_select stack v ts memory m = reads (_, _, _) 9 refl
  open_range (window n u) of_delete stack v ts memory m = reads (_, _, _) 9 refl
