-- ===== src/Querylang/Parser/PlainTimes.antt =====
-- The runs of the parser of querylang/query.go over times that are one token: seconds, a time in a format, now.
use durandal.Prelude.{refl, Option, none, some, List, ◌∷◌}
use durandal.Prelude.Int.{ℤ, pos}
use durandal.Prelude.Str.{Str}
use durandal.Querylang.Parser.Lexer.{Scanned, Meaning}
use durandal.Querylang.Parser.Values.{SymType, Clock}
use durandal.Querylang.Parser.Machine.{Slot, Machine, step, run}
use durandal.Querylang.Parser.Runs.{Memory, parser, Reads, reads}
use durandal.Common.UnitOfTime.{Time}
use durandal.Querylang.Parser.Grammar.{Text, Token, spell, number, seconds, formatted, now}
use durandal.Querylang.Parser.Spelling.{abs_time}
use durandal.Querylang.Parser.Sense.{abs_time_sense}
use durandal.Querylang.Parser.Places.{
  TimePlace, in_first, time_state, behind_time, Stop, comma_next, rparen_next, limit_next,
  streamlimit_next, as_next, where_next, stop_token, stop_number,
}

module _ (clock : Clock) (at_end : Scanned) (shown : List Token → Str) where
  abbrev at_state : List Slot → ℤ → SymType → Option ℤ → List Token → Memory → Meaning → Machine
  at_state = parser at_end shown

  -- A time that nothing is added to, with the token behind it read ahead.
  abbrev pub ReadsTime :
      TimePlace
      → List Slot
      → SymType
      → Memory
      → Meaning
      → List Token
      → Time
      → Meaning
      → Stop
      → List Token
      → Type 0
  ReadsTime p stack v memory m ts t m' s rest =
      Reads clock at_end shown (at_state stack (time_state p) v none ts memory m)
        ((time_state p, v) ∷ stack) (behind_time p) (SymType.time t) (some (stop_number s)) rest m'

  -- A time with the number behind it, which begins an offset.
  abbrev pub ReadsNumber :
      TimePlace
      → List Slot
      → SymType
      → Memory
      → Meaning
      → List Token
      → Time
      → Meaning
      → Text
      → List Token
      → Type 0
  ReadsNumber p stack v memory m ts t m' k rest =
      Reads clock at_end shown (at_state stack (time_state p) v none ts memory m)
        ((pos 46, SymType.time t) ∷ (time_state p, v) ∷ stack) (pos 75) (SymType.str (spell k)) none
        rest m'

  pub seconds_stop :
      (s : Stop) (n : Text) (p : TimePlace) (stack : List Slot) (v : SymType) (rest : List Token)
      (memory : Memory) (m : Meaning)
      → ReadsTime p stack v memory m
          (abs_time (seconds n) (stop_token s ∷ rest))
          (abs_time_sense clock (seconds n) m).0
          (abs_time_sense clock (seconds n) m).1
          s
          rest
  unfolding run step
  seconds_stop comma_next n in_first stack v rest memory m = reads (_, _, _) 3 refl
  seconds_stop comma_next n _ stack v rest memory m = reads (_, _, _) 3 refl
  seconds_stop rparen_next n in_first stack v rest memory m = reads (_, _, _) 3 refl
  seconds_stop rparen_next n _ stack v rest memory m = reads (_, _, _) 3 refl
  seconds_stop limit_next n in_first stack v rest memory m = reads (_, _, _) 3 refl
  seconds_stop limit_next n _ stack v rest memory m = reads (_, _, _) 3 refl
  seconds_stop streamlimit_next n in_first stack v rest memory m = reads (_, _, _) 3 refl
  seconds_stop streamlimit_next n _ stack v rest memory m = reads (_, _, _) 3 refl
  seconds_stop as_next n in_first stack v rest memory m = reads (_, _, _) 3 refl
  seconds_stop as_next n _ stack v rest memory m = reads (_, _, _) 3 refl
  seconds_stop where_next n in_first stack v rest memory m = reads (_, _, _) 3 refl
  seconds_stop where_next n _ stack v rest memory m = reads (_, _, _) 3 refl

  pub seconds_number :
      (k : Text) (n : Text) (p : TimePlace) (stack : List Slot) (v : SymType) (rest : List Token)
      (memory : Memory) (m : Meaning)
      → ReadsNumber p stack v memory m
          (abs_time (seconds n) (number k ∷ rest))
          (abs_time_sense clock (seconds n) m).0
          (abs_time_sense clock (seconds n) m).1
          k
          rest
  unfolding run step
  seconds_number k n in_first stack v rest memory m = reads (_, _, _) 3 refl
  seconds_number k n _ stack v rest memory m = reads (_, _, _) 3 refl

  pub formatted_stop :
      (s : Stop) (n : Text) (p : TimePlace) (stack : List Slot) (v : SymType) (rest : List Token)
      (memory : Memory) (m : Meaning)
      → ReadsTime p stack v memory m
          (abs_time (formatted n) (stop_token s ∷ rest))
          (abs_time_sense clock (formatted n) m).0
          (abs_time_sense clock (formatted n) m).1
          s
          rest
  unfolding run step
  formatted_stop comma_next n in_first stack v rest memory m = reads (_, _, _) 4 refl
  formatted_stop comma_next n _ stack v rest memory m = reads (_, _, _) 4 refl
  formatted_stop rparen_next n in_first stack v rest memory m = reads (_, _, _) 4 refl
  formatted_stop rparen_next n _ stack v rest memory m = reads (_, _, _) 4 refl
  formatted_stop limit_next n in_first stack v rest memory m = reads (_, _, _) 4 refl
  formatted_stop limit_next n _ stack v rest memory m = reads (_, _, _) 4 refl
  formatted_stop streamlimit_next n in_first stack v rest memory m = reads (_, _, _) 4 refl
  formatted_stop streamlimit_next n _ stack v rest memory m = reads (_, _, _) 4 refl
  formatted_stop as_next n in_first stack v rest memory m = reads (_, _, _) 4 refl
  formatted_stop as_next n _ stack v rest memory m = reads (_, _, _) 4 refl
  formatted_stop where_next n in_first stack v rest memory m = reads (_, _, _) 4 refl
  formatted_stop where_next n _ stack v rest memory m = reads (_, _, _) 4 refl

  pub formatted_number :
      (k : Text) (n : Text) (p : TimePlace) (stack : List Slot) (v : SymType) (rest : List Token)
      (memory : Memory) (m : Meaning)
      → ReadsNumber p stack v memory m
          (abs_time (formatted n) (number k ∷ rest))
          (abs_time_sense clock (formatted n) m).0
          (abs_time_sense clock (formatted n) m).1
          k
          rest
  unfolding run step
  formatted_number k n in_first stack v rest memory m = reads (_, _, _) 4 refl
  formatted_number k n _ stack v rest memory m = reads (_, _, _) 4 refl

  pub now_stop :
      (s : Stop) (p : TimePlace) (stack : List Slot) (v : SymType) (rest : List Token)
      (memory : Memory) (m : Meaning)
      → ReadsTime p stack v memory m
          (abs_time now (stop_token s ∷ rest))
          (abs_time_sense clock now m).0
          (abs_time_sense clock now m).1
          s
          rest
  unfolding run step
  now_stop comma_next in_first stack v rest memory m = reads (_, _, _) 3 refl
  now_stop comma_next _ stack v rest memory m = reads (_, _, _) 3 refl
  now_stop rparen_next in_first stack v rest memory m = reads (_, _, _) 3 refl
  now_stop rparen_next _ stack v rest memory m = reads (_, _, _) 3 refl
  now_stop limit_next in_first stack v rest memory m = reads (_, _, _) 3 refl
  now_stop limit_next _ stack v rest memory m = reads (_, _, _) 3 refl
  now_stop streamlimit_next in_first stack v rest memory m = reads (_, _, _) 3 refl
  now_stop streamlimit_next _ stack v rest memory m = reads (_, _, _) 3 refl
  now_stop as_next in_first stack v rest memory m = reads (_, _, _) 3 refl
  now_stop as_next _ stack v rest memory m = reads (_, _, _) 3 refl
  now_stop where_next in_first stack v rest memory m = reads (_, _, _) 3 refl
  now_stop where_next _ stack v rest memory m = reads (_, _, _) 3 refl

  pub now_number :
      (k : Text) (p : TimePlace) (stack : List Slot) (v : SymType) (rest : List Token)
      (memory : Memory) (m : Meaning)
      → ReadsNumber p stack v memory m
          (abs_time now (number k ∷ rest))
          (abs_time_sense clock now m).0
          (abs_time_sense clock now m).1
          k
          rest
  unfolding run step
  now_number k in_first stack v rest memory m = reads (_, _, _) 3 refl
  now_number k _ stack v rest memory m = reads (_, _, _) 3 refl
