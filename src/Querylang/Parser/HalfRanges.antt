-- ===== src/Querylang/Parser/HalfRanges.antt =====
-- The runs of the parser of querylang/query.go over the data clauses before and after a time.
use durandal.Prelude.{refl, Bool, false, Option, none, List, ◌∷◌}
use durandal.Prelude.Int.{ℤ, pos}
use durandal.Prelude.Str.{Str}
use durandal.Querylang.Parser.Lexer.{Scanned, Meaning}
use durandal.Querylang.Parser.Values.{SymType, Clock}
use durandal.Querylang.Parser.Machine.{Slot, Machine, step, run}
use durandal.Querylang.Parser.Runs.{Memory, ahead, to_come, parser, Reads, reads, Reads-Reads}
use durandal.Common.UnitOfTime.{UnitOfTime, Time}
use durandal.Common.TimeText.{zero_time}
use durandal.Querylang.ParsedQuery.{DataQueryType, Limit}
use durandal.Querylang.Parser.Actions.{range_query}
use durandal.Querylang.Parser.Grammar
use durandal.Querylang.Parser.Grammar.{
  Text, Token, TimeRef, Tail, Data, in_paren, in_bare, changed, after,
}
use durandal.Querylang.Parser.Spelling.{
  time_ref, data_clause, data_token, before_token, after_token, where_token,
}
use durandal.Querylang.Parser.Sense.{time_ref_sense, tail_sense, data_sense}
use durandal.Querylang.Parser.Places.{
  stop_token, before_first, after_first, time_state, behind_time,
}
use durandal.Querylang.Parser.Offsets.{time_ref_lem}
use durandal.Querylang.Parser.Tails
use durandal.Querylang.Parser.Tails.{
  Peeked, of_before, of_after, of_bare, peeked_limit, peeked_end, first_stop, behind_first,
  tail-first, peeked_lem,
}
use durandal.Querylang.Parser.Headers.{
  DataPlace, of_select, of_delete, data_state, behind_data, slot,
}

-- Whether the where clause has been looked at when the data clause is reduced.
abbrev pub peeks : Data → Bool
peeks (in_paren h s e t) = Tails.peeks t
peeks (in_bare s e t) = Tails.peeks t
peeks (changed f t n) = false
peeks (Grammar.before s t) = Tails.peeks t
peeks (after s t) = Tails.peeks t

module _ (clock : Clock) (at_end : Scanned) (shown : List Token → Str) where
  abbrev at_state : List Slot → ℤ → SymType → Option ℤ → List Token → Memory → Meaning → Machine
  at_state = parser at_end shown

  -- A data clause is read from the state before it to the state behind it.
  abbrev pub ReadsData :
      Data → DataPlace → List Slot → SymType → List Token → Memory → Meaning → Type 0
  ReadsData q d stack v rest memory m =
      Reads clock at_end shown
        (at_state stack (data_state d) v none (data_clause q (where_token ∷ rest)) memory m)
        ((data_state d, v) ∷ stack) (behind_data d) (SymType.query_data (data_sense clock q m).0)
        (ahead (peeks q) (pos 12)) (to_come (peeks q) where_token rest) (data_sense clock q m).1

  open_before :
      (d : DataPlace) (stack : List Slot) (v : SymType) (ts : List Token) (memory : Memory)
      (m : Meaning)
      → Reads clock at_end shown
          (at_state stack (data_state d) v none (data_token ∷ before_token ∷ ts) memory m)
          (slot 9 data_token ∷ (data_state d, v) ∷ stack)
          (time_state before_first)
          (SymType.str (before_token.1))
          none
          ts
          m
  unfolding run step
  open_before of_select stack v ts memory m = reads (_, _, _) 2 refl
  open_before of_delete stack v ts memory m = reads (_, _, _) 2 refl

  close_before :
      (d : DataPlace) (stack : List Slot) (v : SymType) (t : Time) (l : Limit) (uot : UnitOfTime)
      (token : Option ℤ) (ts : List Token) (memory : Memory) (m : Meaning)
      → Reads clock at_end shown
          (at_state
            ((peeked_limit of_before, SymType.limit l)
              ∷ (behind_time before_first, SymType.time t)
              ∷ (time_state before_first, SymType.str (before_token.1))
              ∷ slot 9 data_token
              ∷ (data_state d, v)
              ∷ stack)
            (peeked_end of_before)
            (SymType.timeconv uot)
            token
            ts
            memory
            m)
          ((data_state d, v) ∷ stack)
          (behind_data d)
          (SymType.query_data (range_query DataQueryType.before_type t zero_time l uot))
          token
          ts
          m
  unfolding run step
  close_before of_select stack v t l uot token ts memory m = reads (_, _, _) 1 refl
  close_before of_delete stack v t l uot token ts memory m = reads (_, _, _) 1 refl

  pub before_lem :
      (s : TimeRef) (t : Tail) (d : DataPlace) (stack : List Slot) (v : SymType) (rest : List Token)
      (memory : Memory) (m : Meaning)
      → ReadsData (Grammar.before s t) d stack v rest memory m
  before_lem s t d stack v rest memory m =
      let (t1, m1) = time_ref_sense clock s m in
      let (l, uot, m2) = tail_sense t m1 in
      rw (tail-first t rest) (
        Reads-Reads clock at_end shown
          (Reads-Reads clock at_end shown
            (Reads-Reads clock at_end shown
              (open_before d stack v (time_ref s (stop_token (first_stop t) ∷ behind_first t rest))
                memory m)
              (λ memory0.
                time_ref_lem clock at_end shown s (first_stop t) before_first
                  (slot 9 data_token ∷ (data_state d, v) ∷ stack) (SymType.str (before_token.1))
                  (behind_first t rest) memory0 m))
            (λ memory1.
              peeked_lem clock at_end shown of_before t _ (SymType.time t1) rest memory1 m1))
          (λ memory2. close_before d stack v t1 l uot _ _ memory2 m2))

  open_after :
      (d : DataPlace) (stack : List Slot) (v : SymType) (ts : List Token) (memory : Memory)
      (m : Meaning)
      → Reads clock at_end shown
          (at_state stack (data_state d) v none (data_token ∷ after_token ∷ ts) memory m)
          (slot 9 data_token ∷ (data_state d, v) ∷ stack)
          (time_state after_first)
          (SymType.str (after_token.1))
          none
          ts
          m
  unfolding run step
  open_after of_select stack v ts memory m = reads (_, _, _) 2 refl
  open_after of_delete stack v ts memory m = reads (_, _, _) 2 refl

  close_after :
      (d : DataPlace) (stack : List Slot) (v : SymType) (t : Time) (l : Limit) (uot : UnitOfTime)
      (token : Option ℤ) (ts : List Token) (memory : Memory) (m : Meaning)
      → Reads clock at_end shown
          (at_state
            ((peeked_limit of_after, SymType.limit l)
              ∷ (behind_time after_first, SymType.time t)
              ∷ (time_state after_first, SymType.str (after_token.1))
              ∷ slot 9 data_token
              ∷ (data_state d, v)
              ∷ stack)
            (peeked_end of_after)
            (SymType.timeconv uot)
            token
            ts
            memory
            m)
          ((data_state d, v) ∷ stack)
          (behind_data d)
          (SymType.query_data (range_query DataQueryType.after_type t zero_time l uot))
          token
          ts
          m
  unfolding run step
  close_after of_select stack v t l uot token ts memory m = reads (_, _, _) 1 refl
  close_after of_delete stack v t l uot token ts memory m = reads (_, _, _) 1 refl

  pub after_lem :
      (s : TimeRef) (t : Tail) (d : DataPlace) (stack : List Slot) (v : SymType) (rest : List Token)
      (memory : Memory) (m : Meaning)
      → ReadsData (after s t) d stack v rest memory m
  after_lem s t d stack v rest memory m =
      let (t1, m1) = time_ref_sense clock s m in
      let (l, uot, m2) = tail_sense t m1 in
      rw (tail-first t rest) (
        Reads-Reads clock at_end shown
          (Reads-Reads clock at_end shown
            (Reads-Reads clock at_end shown
              (open_after d stack v (time_ref s (stop_token (first_stop t) ∷ behind_first t rest))
                memory m)
              (λ memory0.
                time_ref_lem clock at_end shown s (first_stop t) after_first
                  (slot 9 data_token ∷ (data_state d, v) ∷ stack) (SymType.str (after_token.1))
                  (behind_first t rest) memory0 m))
            (λ memory1.
              peeked_lem clock at_end shown of_after t _ (SymType.time t1) rest memory1 m1))
          (λ memory2. close_after d stack v t1 l uot _ _ memory2 m2))
