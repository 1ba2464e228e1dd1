-- ===== src/Querylang/Parser/Ranges.antt =====
-- The runs of the parser of querylang/query.go over data clauses.
use durandal.Prelude.{◌≡◌, refl, Option, none, some, List, ◌∷◌}
use durandal.Prelude.Int.{ℤ, pos}
use durandal.Prelude.Str.{Str}
use durandal.Prelude.Outcome.{ok}
use durandal.Querylang.Parser.Lexer.{Scanned, Meaning}
use durandal.Querylang.Parser.Values.{SymType, Clock}
use durandal.Querylang.Parser.Machine.{Slot, Machine, more, step, run}
use durandal.Querylang.Parser.Runs.{
  Memory, ahead, to_come, parser, Reads, reads, before, Reads-Reads,
}
use durandal.Common.UnitOfTime.{UnitOfTime, Time}
use durandal.Querylang.ParsedQuery.{DataQueryType, Limit}
use durandal.Querylang.Parser.Actions.{range_query}
use durandal.Querylang.Parser.Grammar.{
  Token, TimeRef, Tail, Header, no_header, statistical, statistics, window, in_paren,
}
use durandal.Querylang.Parser.Spelling.{
  time_ref, tail, data_clause, lparen_token, rparen_token, comma_token, where_token,
}
use durandal.Querylang.Parser.Sense.{
  header_keys, header_sense, time_ref_sense, tail_sense, data_sense,
}
use durandal.Querylang.Parser.Places.{time_state, behind_time, comma_next, rparen_next, stop_number}
use durandal.Querylang.Parser.Offsets.{time_ref_lem}
use durandal.Querylang.Parser.Tails.{fresh_state, fresh_limit, fresh_end, peeks, fresh_lem}
use durandal.Querylang.Parser.Headers.{
  DataPlace, of_select, of_delete, data_state, behind_data, first_place, second_place, tail_place,
  under, open_range,
}

module _ (clock : Clock) (at_end : Scanned) (shown : List Token → Str) where
  abbrev at_state : List Slot → ℤ → SymType → Option ℤ → List Token → Memory → Meaning → Machine
  at_state = parser at_end shown

  shift_comma :
      (h : Header) (base : List Slot) (t : Time) (ts : List Token) (memory : Memory) (m : Meaning)
      → run clock 1 (
          at_state base
            (behind_time (first_place h))
            (SymType.time t)
            (some (stop_number comma_next))
            ts
            memory
            m)
        ≡ ok (
            more (
              at_state
                ((behind_time (first_place h), SymType.time t) ∷ base)
                (time_state (second_place h))
                (SymType.str memory.2)
                none
                ts
                memory
                m))
  unfolding run step
  shift_comma no_header base t ts memory m = refl
  shift_comma (statistical n) base t ts memory m = refl
  shift_comma (statistics n) base t ts memory m = refl
  shift_comma (window n u) base t ts memory m = refl

  shift_rparen :
      (h : Header) (base : List Slot) (t : Time) (ts : List Token) (memory : Memory) (m : Meaning)
      → run clock 1 (
          at_state base
            (behind_time (second_place h))
            (SymType.time t)
            (some (stop_number rparen_next))
            ts
            memory
            m)
        ≡ ok (
            more (
              at_state
                ((behind_time (second_place h), SymType.time t) ∷ base)
                (fresh_state (tail_place h))
                (SymType.str memory.2)
                none
                ts
                memory
                m))
  unfolding run step
  shift_rparen no_header base t ts memory m = refl
  shift_rparen (statistical n) base t ts memory m = refl
  shift_rparen (statistics n) base t ts memory m = refl
  shift_rparen (window n u) base t ts memory m = refl

  -- The stack at the end of a range in parentheses, and the reduction of its clause.
  close_range :
      (h : Header) (d : DataPlace) (stack : List Slot) (v v2 v3 : SymType) (t1 t2 : Time)
      (l : Limit) (uot : UnitOfTime) (token : Option ℤ) (ts : List Token) (memory : Memory)
      (m : Meaning)
      → Reads clock at_end shown
          (at_state
            ((fresh_limit (tail_place h), SymType.limit l)
              ∷ (fresh_state (tail_place h), v3)
              ∷ (behind_time (second_place h), SymType.time t2)
              ∷ (time_state (second_place h), v2)
              ∷ (behind_time (first_place h), SymType.time t1)
              ∷ (time_state (first_place h), SymType.str (lparen_token.1))
              ∷ under h ((data_state d, v) ∷ stack))
            (fresh_end (tail_place h))
            (SymType.timeconv uot)
            token
            ts
            memory
            m)
          ((data_state d, v) ∷ stack)
          (behind_data d)
          (SymType.query_data (header_sense h (range_query DataQueryType.in_type t1 t2 l uot) m).0)
          token
          ts
          (header_sense h (range_query DataQueryType.in_type t1 t2 l uot) m).1
  unfolding run step
  close_range no_header of_select stack v v2 v3 t1 t2 l uot token ts memory m =
      reads (_, _, _) 1 refl
  close_range no_header of_delete stack v v2 v3 t1 t2 l uot token ts memory m =
      reads (_, _, _) 1 refl
  close_range (statistical n) of_select stack v v2 v3 t1 t2 l uot token ts memory m =
      reads (_, _, _) 1 refl
  close_range (statistical n) of_delete stack v v2 v3 t1 t2 l uot token ts memory m =
      reads (_, _, _) 1 refl
  close_range (statistics n) of_select stack v v2 v3 t1 t2 l uot token ts memory m =
      reads (_, _, _) 1 refl
  close_range (statistics n) of_delete stack v v2 v3 t1 t2 l uot token ts memory m =
      reads (_, _, _) 1 refl
  close_range (window n u) of_select stack v v2 v3 t1 t2 l uot token ts memory m =
      reads (_, _, _) 1 refl
  close_range (window n u) of_delete stack v v2 v3 t1 t2 l uot token ts memory m =
      reads (_, _, _) 1 refl

  pub range_lem :
      (h : Header) (s e : TimeRef) (t : Tail) (d : DataPlace) (stack : List Slot) (v : SymType)
      (rest : List Token) (memory : Memory) (m : Meaning)
      → Reads clock at_end shown
          (at_state stack
            (data_state d)
            v
            none
            (data_clause (in_paren h s e t) (where_token ∷ rest))
            memory
            m)
          ((data_state d, v) ∷ stack)
          (behind_data d)
          (SymType.query_data (data_sense clock (in_paren h s e t) m).0)
          (ahead (peeks t) (pos 12))
          (to_come (peeks t) where_token rest)
          (data_sense clock (in_paren h s e t) m).1
  range_lem h s e t d stack v rest memory m =
      let m0 = header_keys h m in
      let (t1, m1) = time_ref_sense clock s m0 in
      let (t2, m2) = time_ref_sense clock e m1 in
      let behind = tail t (where_token ∷ rest) in
      Reads-Reads clock at_end shown
        (Reads-Reads clock at_end shown
          (open_range clock at_end shown h d stack v
            (time_ref s (comma_token ∷ time_ref e (rparen_token ∷ behind))) memory m)
          (λ memory0.
            time_ref_lem clock at_end shown s comma_next (first_place h)
              (under h ((data_state d, v) ∷ stack)) (SymType.str (lparen_token.1))
              (time_ref e (rparen_token ∷ behind)) memory0 m0))
        (λ memory1.
          before clock at_end shown 1
            (Reads-Reads clock at_end shown
              (time_ref_lem clock at_end shown e rparen_next (second_place h) _
                (SymType.str memory1.2) behind memory1 m1)
              (λ memory2.
                before clock at_end shown 1
                  (Reads-Reads clock at_end shown
                    (fresh_lem clock at_end shown (tail_place h) t _ (SymType.str memory2.2) rest
                      memory2 m2)
                    (λ memory3.
                      close_range h d stack v (SymType.str memory1.2) (SymType.str memory2.2) t1 t2
                        (tail_sense t m2).0 (tail_sense t m2).1 _ _ memory3 (tail_sense t m2).2))
                  (shift_rparen h _ t2 behind memory2 m2)))
            (shift_comma h _ t1 (time_ref e (rparen_token ∷ behind)) memory1 m1))
