-- ===== src/Querylang/Parser/Sentences.antt =====
-- The runs of the parser of querylang/query.go over the sentences of its grammar, up to the end of their
-- tokens.
use durandal.Prelude.{false, none, List, [], ◌∷◌}
use durandal.Prelude.Int.{pos}
use durandal.Prelude.Str.{Str}
use durandal.Querylang.Parser.Lexer.{Scanned, Meaning}
use durandal.Querylang.Parser.Values.{SymType, Clock}
use durandal.Querylang.Parser.Machine.{Slot}
use durandal.Querylang.Parser.Runs.{Memory, remember, parser, Reads, before, Reads-Reads}
use durandal.Querylang.Parser.Grammar.{
  Token, Where, Selector, Data, Sentence, select, select_where, select_data, delete_data,
  delete_where,
}
use durandal.Querylang.Parser.Spelling.{
  sentence, selector, where_list, data_clause, select_token, delete_token, where_token,
  semicolon_token,
}
use durandal.Querylang.Parser.Sense.{
  selected, selector_sense, where_dict, where_keys, data_sense, sense,
}
use durandal.Querylang.Parser.Selectors
use durandal.Querylang.Parser.Selectors.{where_next, semicolon_next, selector_lem}
use durandal.Querylang.Parser.Wheres.{
  of_delete, of_select, of_select_data, of_delete_data, clause_lem,
}
use durandal.Querylang.Parser.HalfRanges
use durandal.Querylang.Parser.DataClauses.{data_lem}
use durandal.Querylang.Parser.Headers
use durandal.Querylang.Parser.Accepting.{
  initial, first, shift_select, shift_delete, accept_select, accept_select_where,
  accept_select_data, accept_delete_data, accept_delete_where,
}

module _ (clock : Clock) (at_end : Scanned) (shown : List Token → Str) where
  -- A sentence is read up to state 1, at the end of its tokens.
  unfoldable pub ReadsSentence : Sentence → SymType → Memory → Meaning → Type 0
  ReadsSentence s v memory m =
      Reads clock at_end shown
        (parser at_end shown [] (pos 0) SymType.unset none (sentence s) memory m) initial (pos 1) v
        none [] (sense clock s m)

  abbrev at_select : Memory → List Token → Memory
  at_select memory ts = remember shown select_token ts memory

  abbrev at_delete : Memory → List Token → Memory
  at_delete memory ts = remember shown delete_token ts memory

  abbrev in_select : List Slot
  in_select = (pos 2, first select_token) ∷ initial

  abbrev in_delete : List Slot
  in_delete = (pos 3, first delete_token) ∷ initial

  module _ (memory : Memory) (m : Meaning) where
    select_lem : (s : Selector) → ReadsSentence (select s) (first select_token) memory m
    unfolding ReadsSentence
    select_lem s =
        before clock at_end shown 1
          (Reads-Reads clock at_end shown
            (selector_lem clock at_end shown s semicolon_next initial (first select_token) []
              (at_select memory (selector s (semicolon_token ∷ []))) m)
            (λ memory1.
              accept_select clock at_end shown memory1 (selector_sense s m) (Selectors.peeks s)
                (first select_token) (selected s)))
          (shift_select clock at_end shown memory m (selector s (semicolon_token ∷ [])))

    select_where_lem :
        (s : Selector) (w : Where) → ReadsSentence (select_where s w) (first select_token) memory m
    unfolding ReadsSentence
    select_where_lem s w =
        let clause = where_list w (semicolon_token ∷ []) in
        before clock at_end shown 1
          (Reads-Reads clock at_end shown
            (Reads-Reads clock at_end shown
              (selector_lem clock at_end shown s where_next initial (first select_token) clause
                (at_select memory (selector s (where_token ∷ clause))) m)
              (λ memory1.
                clause_lem clock at_end shown of_select (Selectors.peeks s) w in_select
                  (SymType.list (selected s)) memory1 (selector_sense s m)))
            (λ memory2.
              accept_select_where clock at_end shown memory2 (where_keys w (selector_sense s m))
                (selected s) (where_dict w)))
          (shift_select clock at_end shown memory m (selector s (where_token ∷ clause)))

    select_data_lem :
        (q : Data) (w : Where) → ReadsSentence (select_data q w) (first select_token) memory m
    unfolding ReadsSentence
    select_data_lem q w =
        let clause = where_list w (semicolon_token ∷ []) in
        let (query, m1) = data_sense clock q m in
        before clock at_end shown 1
          (Reads-Reads clock at_end shown
            (Reads-Reads clock at_end shown
              (data_lem clock at_end shown q Headers.of_select initial (first select_token) clause
                (at_select memory (data_clause q (where_token ∷ clause))) m)
              (λ memory1.
                clause_lem clock at_end shown of_select_data (HalfRanges.peeks q) w in_select
                  (SymType.query_data query) memory1 m1))
            (λ memory2.
              accept_select_data clock at_end shown memory2 (where_keys w m1) query (where_dict w)))
          (shift_select clock at_end shown memory m (data_clause q (where_token ∷ clause)))

    delete_data_lem :
        (q : Data) (w : Where) → ReadsSentence (delete_data q w) (first delete_token) memory m
    unfolding ReadsSentence
    delete_data_lem q w =
        let clause = where_list w (semicolon_token ∷ []) in
        let (query, m1) = data_sense clock q m in
        before clock at_end shown 1
          (Reads-Reads clock at_end shown
            (Reads-Reads clock at_end shown
              (data_lem clock at_end shown q Headers.of_delete initial (first delete_token) clause
                (at_delete memory (data_clause q (where_token ∷ clause))) m)
              (λ memory1.
                clause_lem clock at_end shown of_delete_data (HalfRanges.peeks q) w in_delete
                  (SymType.query_data query) memory1 m1))
            (λ memory2.
              accept_delete_data clock at_end shown memory2 (where_keys w m1) query (where_dict w)))
          (shift_delete clock at_end shown memory m (data_clause q (where_token ∷ clause)))

    delete_where_lem : (w : Where) → ReadsSentence (delete_where w) (first delete_token) memory m
    unfolding ReadsSentence
    delete_where_lem w =
        let clause = where_list w (semicolon_token ∷ []) in
        before clock at_end shown 1
          (Reads-Reads clock at_end shown
            (clause_lem clock at_end shown of_delete false w initial (first delete_token)
              (at_delete memory (where_token ∷ clause)) m)
            (λ memory1.
              accept_delete_where clock at_end shown memory1 (where_keys w m) (where_dict w)))
          (shift_delete clock at_end shown memory m (where_token ∷ clause))

  abbrev pub keyword : Sentence → Token
  keyword (select s) = select_token
  keyword (select_where s w) = select_token
  keyword (select_data q w) = select_token
  keyword (delete_data q w) = delete_token
  keyword (delete_where w) = delete_token

  pub sentence_lem :
      (s : Sentence) (memory : Memory) (m : Meaning) → ReadsSentence s (first (keyword s)) memory m
  sentence_lem (select s) memory m = select_lem memory m s
  sentence_lem (select_where s w) memory m = select_where_lem memory m s w
  sentence_lem (select_data q w) memory m = select_data_lem memory m q w
  sentence_lem (delete_data q w) memory m = delete_data_lem memory m q w
  sentence_lem (delete_where w) memory m = delete_where_lem memory m w
