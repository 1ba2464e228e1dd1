-- ===== src/Querylang/Parser/Times.antt =====
-- The runs of the parser of querylang/query.go over absolute times.
use durandal.Prelude.{◌≡◌, refl, Option, none, some, List, ◌∷◌}
use durandal.Prelude.Int.{ℤ, pos}
use durandal.Prelude.Str.{Str}
use durandal.Prelude.Outcome.{ok}
use durandal.Querylang.Parser.Lexer.{Scanned, ParseError, Meaning}
use durandal.Querylang.Parser.Values.{SymType, Clock, report}
use durandal.Querylang.Parser.Machine.{Slot, Machine, step, run}
use durandal.Querylang.Parser.Runs.{Memory, parser, Reads, reads, Reads-Reads}
use durandal.Common.UnitOfTime.{Time}
use durandal.Common.TimeText.Total.{settled, parse_abs_time-settled}
use durandal.Common.TimeText.{parse_abs_time}
use durandal.Querylang.Parser.TimeActions.{read_abstime}
use durandal.Querylang.Parser.Grammar.{
  Text, Token, spell, name, number, AbsTime, with_unit, seconds, formatted, now,
}
use durandal.Querylang.Parser.Spelling.{abs_time}
use durandal.Querylang.Parser.Sense.{abs_time_sense}
use durandal.Querylang.Parser.Places.{
  TimePlace, in_first, time_state, behind_time, Stop, comma_next, rparen_next, limit_next,
  streamlimit_next, as_next, where_next, stop_token, stop_number,
}
use durandal.Querylang.Parser.PlainTimes.{
  ReadsTime, ReadsNumber, seconds_stop, seconds_number, formatted_stop, formatted_number, now_stop,
  now_number,
}

module _ (clock : Clock) (at_end : Scanned) (shown : List Token → Str) where
  abbrev at_state : List Slot → ℤ → SymType → Option ℤ → List Token → Memory → Meaning → Machine
  at_state = parser at_end shown

  shift_with_unit :
      (n u : Text) (p : TimePlace) (stack : List Slot) (v : SymType) (rest : List Token)
      (memory : Memory) (m : Meaning)
      → Reads clock at_end shown
          (at_state stack (time_state p) v none (number n ∷ name u ∷ rest) memory m)
          ((pos 47, SymType.str (spell n)) ∷ (time_state p, v) ∷ stack)
          (pos 76)
          (SymType.str (spell u))
          none
          rest
          m
  unfolding run step
  shift_with_unit n u in_first stack v rest memory m = reads (_, _, _) 2 refl
  shift_with_unit n u _ stack v rest memory m = reads (_, _, _) 2 refl

  read_abstime-settled :
      (num units : Str) (m : Meaning)
      → read_abstime num units m
        ≡ ok (
          (settled (parse_abs_time num units)).0,
          report ((settled (parse_abs_time num units)).1) (ParseError.bad_abstime num units) m,
        )
  unfolding read_abstime
  read_abstime-settled num units m = rw (parse_abs_time-settled num units) refl

  reduce_with_unit :
      (n u : Text) (p : TimePlace) (stack : List Slot) (v : SymType) (rest : List Token)
      (memory : Memory) (m : Meaning)
      → Reads clock at_end shown
          (at_state
            ((pos 47, SymType.str (spell n)) ∷ (time_state p, v) ∷ stack)
            (pos 76)
            (SymType.str (spell u))
            none
            rest
            memory
            m)
          ((time_state p, v) ∷ stack)
          (pos 46)
          (SymType.time (abs_time_sense clock (with_unit n u) m).0)
          none
          rest
          (abs_time_sense clock (with_unit n u) m).1
  unfolding run step
  reduce_with_unit n u in_first stack v rest memory m =
      reads memory 1 (rw (read_abstime-settled (spell n) (spell u) m) refl)
  reduce_with_unit n u p stack v rest memory m =
      reads memory 1 (rw (read_abstime-settled (spell n) (spell u) m) refl)

  after_unit :
      (s : Stop) (t : Time) (p : TimePlace) (stack : List Slot) (v : SymType) (rest : List Token)
      (memory : Memory) (m : Meaning)
      → Reads clock at_end shown
          (at_state
            ((time_state p, v) ∷ stack)
            (pos 46)
            (SymType.time t)
            none
            (stop_token s ∷ rest)
            memory
            m)
          ((time_state p, v) ∷ stack)
          (behind_time p)
          (SymType.time t)
          (some (stop_number s))
          rest
          m
  unfolding run step
  after_unit comma_next t in_first stack v rest memory m = reads (_, _, _) 1 refl
  after_unit comma_next t _ stack v rest memory m = reads (_, _, _) 1 refl
  after_unit rparen_next t in_first stack v rest memory m = reads (_, _, _) 1 refl
  after_unit rparen_next t _ stack v rest memory m = reads (_, _, _) 1 refl
  after_unit limit_next t in_first stack v rest memory m = reads (_, _, _) 1 refl
  after_unit limit_next t _ stack v rest memory m = reads (_, _, _) 1 refl
  after_unit streamlimit_next t in_first stack v rest memory m = reads (_, _, _) 1 refl
  after_unit streamlimit_next t _ stack v rest memory m = reads (_, _, _) 1 refl
  after_unit as_next t in_first stack v rest memory m = reads (_, _, _) 1 refl
  after_unit as_next t _ stack v rest memory m = reads (_, _, _) 1 refl
  after_unit where_next t in_first stack v rest memory m = reads (_, _, _) 1 refl
  after_unit where_next t _ stack v rest memory m = reads (_, _, _) 1 refl

  shift_number :
      (k : Text) (t : Time) (base : List Slot) (rest : List Token) (memory : Memory) (m : Meaning)
      → Reads clock at_end shown
          (at_state base (pos 46) (SymType.time t) none (number k ∷ rest) memory m)
          ((pos 46, SymType.time t) ∷ base)
          (pos 75)
          (SymType.str (spell k))
          none
          rest
          m
  unfolding run step
  shift_number k t base rest memory m = reads (_, _, _) 1 refl

  with_unit_lem :
      (n u : Text) (p : TimePlace) (stack : List Slot) (v : SymType) (rest : List Token)
      (memory : Memory) (m : Meaning)
      → Reads clock at_end shown
          (at_state stack (time_state p) v none (abs_time (with_unit n u) rest) memory m)
          ((time_state p, v) ∷ stack)
          (pos 46)
          (SymType.time (abs_time_sense clock (with_unit n u) m).0)
          none
          rest
          (abs_time_sense clock (with_unit n u) m).1
  with_unit_lem n u p stack v rest memory m =
      Reads-Reads clock at_end shown (shift_with_unit n u p stack v rest memory m)
        (λ memory'. reduce_with_unit n u p stack v rest memory' m)

  pub time_stop :
      (a : AbsTime) (s : Stop) (p : TimePlace) (stack : List Slot) (v : SymType) (rest : List Token)
      (memory : Memory) (m : Meaning)
      → ReadsTime clock at_end shown p stack v memory m
          (abs_time a (stop_token s ∷ rest))
          (abs_time_sense clock a m).0
          (abs_time_sense clock a m).1
          s
          rest
  time_stop (with_unit n u) s p stack v rest memory m =
      Reads-Reads clock at_end shown (with_unit_lem n u p stack v (stop_token s ∷ rest) memory m)
        (λ memory'. after_unit s _ p stack v rest memory' _)
  time_stop (seconds n) s p stack v rest memory m =
      seconds_stop clock at_end shown s n p stack v rest memory m
  time_stop (formatted n) s p stack v rest memory m =
      formatted_stop clock at_end shown s n p stack v rest memory m
  time_stop now s p stack v rest memory m = now_stop clock at_end shown s p stack v rest memory m

  pub time_number :
      (a : AbsTime) (k : Text) (p : TimePlace) (stack : List Slot) (v : SymType) (rest : List Token)
      (memory : Memory) (m : Meaning)
      → ReadsNumber clock at_end shown p stack v memory m
          (abs_time a (number k ∷ rest))
          (abs_time_sense clock a m).0
          (abs_time_sense clock a m).1
          k
          rest
  time_number (with_unit n u) k p stack v rest memory m =
      Reads-Reads clock at_end shown (with_unit_lem n u p stack v (number k ∷ rest) memory m)
        (λ memory'. shift_number k _ _ rest memory' _)
  time_number (seconds n) k p stack v rest memory m =
      seconds_number clock at_end shown k n p stack v rest memory m
  time_number (formatted n) k p stack v rest memory m =
      formatted_number clock at_end shown k n p stack v rest memory m
  time_number now k p stack v rest memory m =
      now_number clock at_end shown k p stack v rest memory m
