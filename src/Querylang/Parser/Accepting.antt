-- ===== src/Querylang/Parser/Accepting.antt =====
-- The first and the last steps of a parse: the keyword of a sentence, the productions of the start
-- symbol of querylang/query.y, and the end of the input.
use durandal.Prelude.{◌≡◌, refl, Bool, true, false, none, some, List, [], ◌∷◌, ◌||◌, ◌==◌}
use durandal.Prelude.Int.{pos}
use durandal.Prelude.Str.{Str, is_empty}
use durandal.Prelude.Outcome.{ok}
use durandal.Querylang.Parser.Lexer.{Scanned, Meaning}
use durandal.Querylang.Parser.Values.{SymType, Clock}
use durandal.Querylang.Parser.Machine.{Slot, more, done, step, run}
use durandal.Querylang.Parser.Runs.{Memory, remember, parser, Reads, reads, ahead, to_come}
use durandal.Querylang.ParsedQuery.{QueryType, DataQuery}
use durandal.Querylang.Parser.Actions.{contents_where, data_where}
use durandal.Common.Value.{Fields}
use durandal.Querylang.Parser.Grammar.{Token}
use durandal.Querylang.Parser.Spelling.{select_token, delete_token, semicolon_token}

-- The result that the scanner gives at the end counts as the end of the input for Lex.
abbrev pub IsEnd : Scanned → Type 0
IsEnd r = (r.line == 2 || is_empty r.value) ≡ true

abbrev pub initial : List Slot
initial = (pos 0, SymType.unset) ∷ []

abbrev pub first : Token → SymType
first t = SymType.str (t.1)

module _ (clock : Clock) (at_end : Scanned) (shown : List Token → Str) where
  module _ (memory : Memory) (m : Meaning) where
    pub shift_select :
        (ts : List Token)
        → run clock 1
            (parser at_end shown [] (pos 0) SymType.unset none (select_token ∷ ts) memory m)
          ≡ ok (
              more (
                parser at_end shown initial
                  (pos 2)
                  (first select_token)
                  none
                  ts
                  (remember shown select_token ts memory)
                  m))
    unfolding run step
    shift_select ts = refl

    pub shift_delete :
        (ts : List Token)
        → run clock 1
            (parser at_end shown [] (pos 0) SymType.unset none (delete_token ∷ ts) memory m)
          ≡ ok (
              more (
                parser at_end shown initial
                  (pos 3)
                  (first delete_token)
                  none
                  ts
                  (remember shown delete_token ts memory)
                  m))
    unfolding run step
    shift_delete ts = refl

    -- The reductions of the productions of a query.
    pub accept_select :
        (peeked : Bool) (v : SymType) (tags : List Str)
        → Reads clock at_end shown
            (parser at_end shown
              ((pos 2, first select_token) ∷ initial)
              (pos 4)
              (SymType.list tags)
              (ahead peeked (pos 40))
              (to_come peeked semicolon_token [])
              memory
              m)
            initial
            (pos 1)
            (first select_token)
            none
            []
            (contents_where tags m.query.where_clause QueryType.select_type m)
    unfolding run step
    accept_select true v tags = reads (_, _, _) 2 refl
    accept_select false v tags = reads (_, _, _) 2 refl

    pub accept_select_where :
        (tags : List Str) (d : Fields)
        → Reads clock at_end shown
            (parser at_end shown
              ((pos 4, SymType.list tags) ∷ (pos 2, first select_token) ∷ initial)
              (pos 19)
              (SymType.dict d)
              (some (pos 40))
              []
              memory
              m)
            initial
            (pos 1)
            (first select_token)
            none
            []
            (contents_where tags d QueryType.select_type m)
    unfolding run step
    accept_select_where tags d = reads (_, _, _) 2 refl

    pub accept_select_data :
        (q : DataQuery) (d : Fields)
        → Reads clock at_end shown
            (parser at_end shown
              ((pos 5, SymType.query_data q) ∷ (pos 2, first select_token) ∷ initial)
              (pos 21)
              (SymType.dict d)
              (some (pos 40))
              []
              memory
              m)
            initial
            (pos 1)
            (first select_token)
            none
            []
            (data_where (some q) d QueryType.data_type m)
    unfolding run step
    accept_select_data q d = reads (_, _, _) 2 refl

    pub accept_delete_data :
        (q : DataQuery) (d : Fields)
        → Reads clock at_end shown
            (parser at_end shown
              ((pos 16, SymType.query_data q) ∷ (pos 3, first delete_token) ∷ initial)
              (pos 31)
              (SymType.dict d)
              (some (pos 40))
              []
              memory
              m)
            initial
            (pos 1)
            (first delete_token)
            none
            []
            (data_where (some q) d QueryType.delete_type m)
    unfolding run step
    accept_delete_data q d = reads (_, _, _) 2 refl

    pub accept_delete_where :
        (d : Fields)
        → Reads clock at_end shown
            (parser at_end shown
              ((pos 3, first delete_token) ∷ initial)
              (pos 17)
              (SymType.dict d)
              (some (pos 40))
              []
              memory
              m)
            initial
            (pos 1)
            (first delete_token)
            none
            []
            (contents_where [] d QueryType.delete_type m)
    unfolding run step
    accept_delete_where d = reads (_, _, _) 2 refl

    -- At the end of the input the parser accepts.
    pub accept :
        (v : SymType)
        → IsEnd at_end
        → run clock 1 (parser at_end shown initial (pos 1) v none [] memory m)
          ≡ ok (
              done 0 (
                parser at_end shown initial
                  (pos 1)
                  v
                  (some (pos 1))
                  []
                  (at_end.shown, memory.1, memory.2)
                  m))
    unfolding run step
    accept v is_end = rw is_end refl
