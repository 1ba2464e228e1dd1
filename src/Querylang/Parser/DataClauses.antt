-- ===== src/Querylang/Parser/DataClauses.antt =====
-- The runs of the parser of querylang/query.go over data clauses without parentheses, and over any.
use durandal.Prelude.{◌≡◌, refl, Option, none, some, List, ◌∷◌}
use durandal.Prelude.Int.{ℤ}
use durandal.Prelude.Str.{Str}
use durandal.Prelude.Outcome.{ok}
use durandal.Querylang.Parser.Lexer.{Scanned, Meaning}
use durandal.Querylang.Parser.Values.{SymType, Clock}
use durandal.Querylang.Parser.Machine.{Slot, Machine, more, step, run}
use durandal.Querylang.Parser.Runs.{Memory, parser, Reads, reads, before, Reads-Reads}
use durandal.Common.UnitOfTime.{UnitOfTime, Time}
use durandal.Querylang.ParsedQuery.{DataQueryType, Limit}
use durandal.Querylang.Parser.Actions.{range_query}
use durandal.Querylang.Parser.Grammar
use durandal.Querylang.Parser.Grammar.{
  Text, Token, TimeRef, Tail, Data, in_paren, in_bare, changed, after,
}
use durandal.Querylang.Parser.Spelling.{time_ref, data_token, in_token, comma_token}
use durandal.Querylang.Parser.Sense.{time_ref_sense, tail_sense}
use durandal.Querylang.Parser.Places.{
  stop_token, in_first, in_second, time_state, behind_time, comma_next, stop_number,
}
use durandal.Querylang.Parser.Offsets.{time_ref_lem}
use durandal.Querylang.Parser.Tails.{
  of_bare, peeked_limit, peeked_end, first_stop, behind_first, tail-first, peeked_lem,
}
use durandal.Querylang.Parser.Ranges.{range_lem}
use durandal.Querylang.Parser.Headers.{
  DataPlace, of_select, of_delete, data_state, behind_data, slot,
}
use durandal.Querylang.Parser.HalfRanges.{ReadsData, before_lem, after_lem}

module _ (clock : Clock) (at_end : Scanned) (shown : List Token → Str) where
  abbrev at_state : List Slot → ℤ → SymType → Option ℤ → List Token → Memory → Meaning → Machine
  at_state = parser at_end shown

  open_bare :
      (d : DataPlace) (stack : List Slot) (v : SymType) (ts : List Token) (memory : Memory)
      (m : Meaning)
      → Reads clock at_end shown
          (at_state stack (data_state d) v none (data_token ∷ in_token ∷ ts) memory m)
          (slot 9 data_token ∷ (data_state d, v) ∷ stack)
          (time_state in_first)
          (SymType.str (in_token.1))
          none
          ts
          m
  unfolding run step
  open_bare of_select stack v ts memory m = reads (_, _, _) 2 refl
  open_bare of_delete stack v ts memory m = reads (_, _, _) 2 refl

  shift_comma :
      (base : List Slot) (t : Time) (ts : List Token) (memory : Memory) (m : Meaning)
      → run clock 1 (
          at_state base
            (behind_time in_first)
            (SymType.time t)
            (some (stop_number comma_next))
            ts
            memory
            m)
        ≡ ok (
            more (
              at_state
                ((behind_time in_first, SymType.time t) ∷ base)
                (time_state in_second)
                (SymType.str memory.2)
                none
                ts
                memory
                m))
  unfolding run step
  shift_comma base t ts memory m = refl

  close_bare :
      (d : DataPlace) (stack : List Slot) (v w : SymType) (t1 t2 : Time) (l : Limit)
      (uot : UnitOfTime) (token : Option ℤ) (ts : List Token) (memory : Memory) (m : Meaning)
      → Reads clock at_end shown
          (at_state
            ((peeked_limit of_bare, SymType.limit l)
              ∷ (behind_time in_second, SymType.time t2)
              ∷ (time_state in_second, w)
              ∷ (behind_time in_first, SymType.time t1)
              ∷ slot 23 in_token
              ∷ slot 9 data_token
              ∷ (data_state d, v)
              ∷ stack)
            (peeked_end of_bare)
            (SymType.timeconv uot)
            token
            ts
            memory
            m)
          ((data_state d, v) ∷ stack)
          (behind_data d)
          (SymType.query_data (range_query DataQueryType.in_type t1 t2 l uot))
          token
          ts
          m
  unfolding run step
  close_bare of_select stack v w t1 t2 l uot token ts memory m = reads (_, _, _) 1 refl
  close_bare of_delete stack v w t1 t2 l uot token ts memory m = reads (_, _, _) 1 refl

  bare_lem :
      (s e : TimeRef) (t : Tail) (d : DataPlace) (stack : List Slot) (v : SymType)
      (rest : List Token) (memory : Memory) (m : Meaning)
      → ReadsData clock at_end shown (in_bare s e t) d stack v rest memory m
  bare_lem s e t d stack v rest memory m =
      let (t1, m1) = time_ref_sense clock s m in
      let (t2, m2) = time_ref_sense clock e m1 in
      let (l, uot, m3) = tail_sense t m2 in
      let later = time_ref e (stop_token (first_stop t) ∷ behind_first t rest) in
      rw (tail-first t rest) (
        Reads-Reads clock at_end shown
          (Reads-Reads clock at_end shown
            (open_bare d stack v (time_ref s (comma_token ∷ later)) memory m)
            (λ memory0.
              time_ref_lem clock at_end shown s comma_next in_first
                (slot 9 data_token ∷ (data_state d, v) ∷ stack) (SymType.str (in_token.1)) later
                memory0 m))
          (λ memory1.
            before clock at_end shown 1
              (Reads-Reads clock at_end shown
                (Reads-Reads clock at_end shown
                  (time_ref_lem clock at_end shown e (first_stop t) in_second _
                    (SymType.str memory1.2) (behind_first t rest) memory1 m1)
                  (λ memory2.
                    peeked_lem clock at_end shown of_bare t _ (SymType.time t2) rest memory2 m2))
                (λ memory3.
                  close_bare d stack v (SymType.str memory1.2) t1 t2 l uot _ _ memory3 m3))
              (shift_comma _ t1 later memory1 m1)))

  changed_lem :
      (f t n : Text) (d : DataPlace) (stack : List Slot) (v : SymType) (rest : List Token)
      (memory : Memory) (m : Meaning)
      → ReadsData clock at_end shown (changed f t n) d stack v rest memory m
  unfolding run step
  changed_lem f t n of_select stack v rest memory m = reads (_, _, _) 10 refl
  changed_lem f t n of_delete stack v rest memory m = reads (_, _, _) 10 refl

  pub data_lem :
      (q : Data) (d : DataPlace) (stack : List Slot) (v : SymType) (rest : List Token)
      (memory : Memory) (m : Meaning)
      → ReadsData clock at_end shown q d stack v rest memory m
  data_lem (in_paren h s e t) d stack v rest memory m =
      range_lem clock at_end shown h s e t d stack v rest memory m
  data_lem (in_bare s e t) d stack v rest memory m = bare_lem s e t d stack v rest memory m
  data_lem (changed f t n) d stack v rest memory m = changed_lem f t n d stack v rest memory m
  data_lem (Grammar.before s t) d stack v rest memory m =
      before_lem clock at_end shown s t d stack v rest memory m
  data_lem (after s t) d stack v rest memory m =
      after_lem clock at_end shown s t d stack v rest memory m
