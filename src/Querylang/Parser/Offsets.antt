-- ===== src/Querylang/Parser/Offsets.antt =====
-- The runs of the parser of querylang/query.go over times with offsets.
use durandal.Prelude.{refl, Option, none, some, List, ◌∷◌}
use durandal.Prelude.Int.{ℤ, pos}
use durandal.Prelude.Str.{Str}
use durandal.Querylang.Parser.Lexer.{Scanned, Meaning}
use durandal.Querylang.Parser.Values.{SymType, Clock, read_reltime, add_time}
use durandal.Querylang.Parser.Machine.{Slot, Machine, step, run}
use durandal.Querylang.Parser.Runs.{Memory, parser, Reads, reads, Reads-Reads}
use durandal.Common.UnitOfTime.{Time}
use durandal.Common.TimeText.{Duration, add_durations}
use durandal.Querylang.Parser.Grammar.{
  Text, Token, spell, name, number, RelTime, last_offset, then_offset, TimeRef, at, offset,
}
use durandal.Querylang.Parser.Spelling.{first_number, behind_number, time_ref}
use durandal.Querylang.Parser.Sense.{key, note_key, abs_time_sense, rel_time_sense, time_ref_sense}
use durandal.Querylang.Parser.Times.{time_stop, time_number}
use durandal.Querylang.Parser.Places.{
  TimePlace, in_first, time_state, behind_time, Stop, comma_next, rparen_next, limit_next,
  streamlimit_next, as_next, where_next, stop_token, stop_number,
}

-- The states in which an offset is expected, and the states behind it.
data Off : Type 0 where
  of_time of_offset : Off

abbrev off_state : Off → ℤ
off_state of_time = pos 46
off_state of_offset = pos 98

abbrev behind_off : Off → ℤ
behind_off of_time = pos 74
behind_off of_offset = pos 112

module _ (clock : Clock) (at_end : Scanned) (shown : List Token → Str) where
  abbrev at_state : List Slot → ℤ → SymType → Option ℤ → List Token → Memory → Meaning → Machine
  at_state = parser at_end shown

  last_off :
      (q : Off) (s : Stop) (n u : Text) (stack : List Slot) (w : SymType) (rest : List Token)
      (memory : Memory) (m : Meaning)
      → Reads clock at_end shown
          (at_state
            ((off_state q, w) ∷ stack)
            (pos 75)
            (SymType.str (spell n))
            none
            (name u ∷ stop_token s ∷ rest)
            memory
            m)
          ((off_state q, w) ∷ stack)
          (behind_off q)
          (SymType.timediff (rel_time_sense (last_offset n u) m).0)
          (some (stop_number s))
          rest
          (rel_time_sense (last_offset n u) m).1
  unfolding run step
  last_off of_time comma_next n u stack w rest memory m = reads (_, _, _) 3 refl
  last_off of_offset comma_next n u stack w rest memory m = reads (_, _, _) 3 refl
  last_off of_time rparen_next n u stack w rest memory m = reads (_, _, _) 3 refl
  last_off of_offset rparen_next n u stack w rest memory m = reads (_, _, _) 3 refl
  last_off of_time limit_next n u stack w rest memory m = reads (_, _, _) 3 refl
  last_off of_offset limit_next n u stack w rest memory m = reads (_, _, _) 3 refl
  last_off of_time streamlimit_next n u stack w rest memory m = reads (_, _, _) 3 refl
  last_off of_offset streamlimit_next n u stack w rest memory m = reads (_, _, _) 3 refl
  last_off of_time as_next n u stack w rest memory m = reads (_, _, _) 3 refl
  last_off of_offset as_next n u stack w rest memory m = reads (_, _, _) 3 refl
  last_off of_time where_next n u stack w rest memory m = reads (_, _, _) 3 refl
  last_off of_offset where_next n u stack w rest memory m = reads (_, _, _) 3 refl

  shift_unit :
      (k n u : Text) (base : List Slot) (rest : List Token) (memory : Memory) (m : Meaning)
      → Reads clock at_end shown
          (at_state base (pos 75) (SymType.str (spell n)) none (name u ∷ number k ∷ rest) memory m)
          ((pos 98, SymType.str (key u)) ∷ (pos 75, SymType.str (spell n)) ∷ base)
          (pos 75)
          (SymType.str (spell k))
          none
          rest
          (note_key u m)
  unfolding run step
  shift_unit k n u base rest memory m = reads (_, _, _) 3 refl

  reduce_off :
      (q : Off) (number : ℤ) (n u : Text) (d : Duration) (stack : List Slot) (w : SymType)
      (rest : List Token) (memory : Memory) (m : Meaning)
      → Reads clock at_end shown
          (at_state
            ((pos 98, SymType.str (key u))
              ∷ (pos 75, SymType.str (spell n))
              ∷ (off_state q, w)
              ∷ stack)
            (pos 112)
            (SymType.timediff d)
            (some number)
            rest
            memory
            m)
          ((off_state q, w) ∷ stack)
          (behind_off q)
          (SymType.timediff (add_durations (read_reltime (spell n) (key u) m).0 d))
          (some number)
          rest
          (read_reltime (spell n) (key u) m).1
  unfolding run step
  reduce_off of_time number n u d stack w rest memory m = reads (_, _, _) 1 refl
  reduce_off of_offset number n u d stack w rest memory m = reads (_, _, _) 1 refl

  off_lem :
      (q : Off) (s : Stop) (o : RelTime) (stack : List Slot) (w : SymType) (rest : List Token)
      (memory : Memory) (m : Meaning)
      → Reads clock at_end shown
          (at_state
            ((off_state q, w) ∷ stack)
            (pos 75)
            (SymType.str (spell (first_number o)))
            none
            (behind_number o (stop_token s ∷ rest))
            memory
            m)
          ((off_state q, w) ∷ stack)
          (behind_off q)
          (SymType.timediff (rel_time_sense o m).0)
          (some (stop_number s))
          rest
          (rel_time_sense o m).1
  off_lem q s (last_offset n u) stack w rest memory m = last_off q s n u stack w rest memory m
  off_lem q s (then_offset n u o) stack w rest memory m =
      Reads-Reads clock at_end shown
        (Reads-Reads clock at_end shown
          (shift_unit (first_number o) n u ((off_state q, w) ∷ stack)
            (behind_number o (stop_token s ∷ rest)) memory m)
          (λ memory'.
            off_lem of_offset s o ((pos 75, SymType.str (spell n)) ∷ (off_state q, w) ∷ stack)
              (SymType.str (key u)) rest memory' (note_key u m)))
        (λ memory'.
          reduce_off q (stop_number s) n u (rel_time_sense o (note_key u m)).0 stack w rest memory'
            (rel_time_sense o (note_key u m)).1)

  reduce_offset :
      (p : TimePlace) (number : ℤ) (t : Time) (d : Duration) (stack : List Slot) (v : SymType)
      (rest : List Token) (memory : Memory) (m : Meaning)
      → Reads clock at_end shown
          (at_state
            ((pos 46, SymType.time t) ∷ (time_state p, v) ∷ stack)
            (pos 74)
            (SymType.timediff d)
            (some number)
            rest
            memory
            m)
          ((time_state p, v) ∷ stack)
          (behind_time p)
          (SymType.time (add_time t d))
          (some number)
          rest
          m
  unfolding run step
  reduce_offset in_first number t d stack v rest memory m = reads (_, _, _) 1 refl
  reduce_offset _ number t d stack v rest memory m = reads (_, _, _) 1 refl

  -- A time is read with the token behind it.
  pub time_ref_lem :
      (r : TimeRef) (s : Stop) (p : TimePlace) (stack : List Slot) (v : SymType) (rest : List Token)
      (memory : Memory) (m : Meaning)
      → Reads clock at_end shown
          (at_state stack (time_state p) v none (time_ref r (stop_token s ∷ rest)) memory m)
          ((time_state p, v) ∷ stack)
          (behind_time p)
          (SymType.time (time_ref_sense clock r m).0)
          (some (stop_number s))
          rest
          (time_ref_sense clock r m).1
  time_ref_lem (at a) s p stack v rest memory m =
      time_stop clock at_end shown a s p stack v rest memory m
  time_ref_lem (offset a o) s p stack v rest memory m =
      Reads-Reads clock at_end shown
        (Reads-Reads clock at_end shown
          (time_number clock at_end shown a (first_number o) p stack v
            (behind_number o (stop_token s ∷ rest)) memory m)
          (λ memory'.
            off_lem of_time s o ((time_state p, v) ∷ stack) _ rest memory'
              (abs_time_sense clock a m).1))
        (λ memory'. reduce_offset p (stop_number s) _ _ stack v rest memory' _)
