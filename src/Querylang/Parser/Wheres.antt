-- ===== src/Querylang/Parser/Wheres.antt =====
-- The runs of the parser of querylang/query.go over where clauses.
use durandal.Prelude.{◌≡◌, refl, Bool, true, false, Option, none, some, List, [], ◌∷◌}
use durandal.Prelude.Int.{ℤ, pos}
use durandal.Prelude.Str.{Str}
use durandal.Prelude.Outcome.{ok}
use durandal.Querylang.Parser.Lexer.{Scanned, Meaning}
use durandal.Querylang.Parser.Values.{SymType, Clock}
use durandal.Querylang.Parser.Machine.{Slot, Machine, more, step, run}
use durandal.Querylang.Parser.Runs.{
  Memory, ahead, to_come, peek_memory, parser, Reads, reads, before, Reads-Reads,
}
use durandal.Common.Value.{Fields}
use durandal.Querylang.Parser.Grammar.{Token, Where}
use durandal.Querylang.Parser.Spelling.{where_list, where_token, semicolon_token}
use durandal.Querylang.Parser.Sense.{where_dict, where_keys}
use durandal.Querylang.Parser.WhereLists.{where_list_lem}

-- The states in which a where clause is expected, and the states behind it.
pub data Clause : Type 0 where
  of_delete of_select of_select_data of_delete_data : Clause

abbrev pub clause_state : Clause → ℤ
clause_state of_delete = pos 3
clause_state of_select = pos 4
clause_state of_select_data = pos 5
clause_state of_delete_data = pos 16

abbrev pub behind_clause : Clause → ℤ
behind_clause of_delete = pos 17
behind_clause of_select = pos 19
behind_clause of_select_data = pos 21
behind_clause of_delete_data = pos 31

module _ (clock : Clock) (at_end : Scanned) (shown : List Token → Str) where
  abbrev at_state : List Slot → ℤ → SymType → Option ℤ → List Token → Memory → Meaning → Machine
  at_state = parser at_end shown

  -- The keyword that begins the clause, with the number 12, may be read ahead already.
  pub open_clause :
      (c : Clause) (peeked : Bool) (stack : List Slot) (v : SymType) (ts : List Token)
      (memory : Memory) (m : Meaning)
      → run clock 1 (
          at_state stack
            (clause_state c)
            v
            (ahead peeked (pos 12))
            (to_come peeked where_token ts)
            memory
            m)
        ≡ ok (
            more (
              at_state
                ((clause_state c, v) ∷ stack)
                (pos 18)
                (SymType.str ((peek_memory peeked shown where_token ts memory).2))
                none
                ts
                (peek_memory peeked shown where_token ts memory)
                m))
  unfolding run step
  open_clause of_delete true stack v ts memory m = refl
  open_clause of_delete false stack v ts memory m = refl
  open_clause _ true stack v ts memory m = refl
  open_clause _ false stack v ts memory m = refl

  -- The semicolon behind the clause is read ahead; its number is 40.
  close_clause :
      (c : Clause) (stack : List Slot) (v u : SymType) (d : Fields) (memory : Memory) (m : Meaning)
      → Reads clock at_end shown
          (at_state
            ((pos 18, u) ∷ (clause_state c, v) ∷ stack)
            (pos 33)
            (SymType.dict d)
            none
            (semicolon_token ∷ [])
            memory
            m)
          ((clause_state c, v) ∷ stack)
          (behind_clause c)
          (SymType.dict d)
          (some (pos 40))
          []
          m
  unfolding run step
  close_clause of_delete stack v u d memory m = reads (_, _, _) 1 refl
  close_clause _ stack v u d memory m = reads (_, _, _) 1 refl

  -- A clause from its keyword on.
  pub clause_lem :
      (c : Clause) (peeked : Bool) (w : Where) (stack : List Slot) (v : SymType) (memory : Memory)
      (m : Meaning)
      → Reads clock at_end shown
          (at_state stack
            (clause_state c)
            v
            (ahead peeked (pos 12))
            (to_come peeked where_token (where_list w (semicolon_token ∷ [])))
            memory
            m)
          ((clause_state c, v) ∷ stack)
          (behind_clause c)
          (SymType.dict (where_dict w))
          (some (pos 40))
          []
          (where_keys w m)
  clause_lem c peeked w stack v memory m =
      before clock at_end shown 1
        (Reads-Reads clock at_end shown
          (where_list_lem clock at_end shown ((clause_state c, v) ∷ stack) _ w
            (semicolon_token ∷ [])
            (peek_memory peeked shown where_token (where_list w (semicolon_token ∷ [])) memory) m)
          (λ memory'. close_clause c stack v _ (where_dict w) memory' (where_keys w m)))
        (open_clause c peeked stack v (where_list w (semicolon_token ∷ [])) memory m)
