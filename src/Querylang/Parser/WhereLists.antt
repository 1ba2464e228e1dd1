-- ===== src/Querylang/Parser/WhereLists.antt =====
-- The runs of the parser of querylang/query.go over lists of terms joined by AND and OR.
use durandal.Prelude.{◌≡◌, refl, Option, none, List, ◌∷◌}
use durandal.Prelude.Int.{ℤ, pos}
use durandal.Prelude.Str.{Str, codes}
use durandal.Prelude.Outcome.{ok}
use durandal.Querylang.Parser.Lexer.{Scanned, Meaning}
use durandal.Querylang.Parser.Values.{SymType, Clock}
use durandal.Querylang.Parser.Machine.{Slot, Machine, more, step, run}
use durandal.Querylang.Parser.Runs.{Memory, remember, parser, Reads, reads, before, Reads-Reads}
use durandal.Common.Value.{Fields}
use durandal.Querylang.Parser.Actions.{dict_with}
use durandal.Querylang.Parser.WhereActions.{both, negated}
use durandal.Querylang.Parser.Grammar.{Token, Where, one, not_term, and_term, or_term}
use durandal.Querylang.Parser.Spelling.{term, where_list, not_token, and_token, or_token}
use durandal.Querylang.Parser.Sense.{term_dict, term_keys, where_dict, where_keys}
use durandal.Querylang.Parser.Terms.{term_lem}
use durandal.Querylang.Parser.Brackets.{after_where, after_not, after_and, after_or}

module _ (clock : Clock) (at_end : Scanned) (shown : List Token → Str) where
  abbrev at_state : List Slot → ℤ → SymType → Option ℤ → List Token → Memory → Meaning → Machine
  at_state = parser at_end shown

  module _ (stack : List Slot) (v : SymType) where
    pub reduce_one :
        (d : Fields) (rest : List Token) (memory : Memory) (m : Meaning)
        → Reads clock at_end shown
            (at_state ((pos 18, v) ∷ stack) (pos 35) (SymType.dict d) none rest memory m)
            ((pos 18, v) ∷ stack)
            (pos 33)
            (SymType.dict d)
            none
            rest
            m
    unfolding run step
    reduce_one d rest memory m = reads (_, _, _) 1 refl

    pub shift_not :
        (ts : List Token) (memory : Memory) (m : Meaning)
        → run clock 1 (at_state stack (pos 18) v none (not_token ∷ ts) memory m)
          ≡ ok (
              more (
                at_state
                  ((pos 18, v) ∷ stack)
                  (pos 34)
                  (SymType.str (not_token.1))
                  none
                  ts
                  (remember shown not_token ts memory)
                  m))
    unfolding run step
    shift_not ts memory m = refl

    pub reduce_not :
        (w : SymType) (d : Fields) (rest : List Token) (memory : Memory) (m : Meaning)
        → Reads clock at_end shown
            (at_state
              ((pos 34, w) ∷ (pos 18, v) ∷ stack)
              (pos 61)
              (SymType.dict d)
              none
              rest
              memory
              m)
            ((pos 18, v) ∷ stack)
            (pos 33)
            (SymType.dict (negated d))
            none
            rest
            m
    unfolding run step
    reduce_not w d rest memory m = reads (_, _, _) 1 refl

    pub shift_and :
        (w : SymType) (ts : List Token) (memory : Memory) (m : Meaning)
        → run clock 1 (at_state ((pos 18, v) ∷ stack) (pos 33) w none (and_token ∷ ts) memory m)
          ≡ ok (
              more (
                at_state
                  ((pos 33, w) ∷ (pos 18, v) ∷ stack)
                  (pos 59)
                  (SymType.str (and_token.1))
                  none
                  ts
                  (remember shown and_token ts memory)
                  m))
    unfolding run step
    shift_and w ts memory m = refl

    pub reduce_and :
        (u : SymType) (a b : Fields) (rest : List Token) (memory : Memory) (m : Meaning)
        → Reads clock at_end shown
            (at_state
              ((pos 59, u) ∷ (pos 33, SymType.dict a) ∷ (pos 18, v) ∷ stack)
              (pos 85)
              (SymType.dict b)
              none
              rest
              memory
              m)
            ((pos 18, v) ∷ stack)
            (pos 33)
            (SymType.dict (dict_with (codes "$and") (both a b)))
            none
            rest
            m
    unfolding run step
    reduce_and u a b rest memory m = reads (_, _, _) 1 refl

    pub shift_or :
        (w : SymType) (ts : List Token) (memory : Memory) (m : Meaning)
        → run clock 1 (at_state ((pos 18, v) ∷ stack) (pos 33) w none (or_token ∷ ts) memory m)
          ≡ ok (
              more (
                at_state
                  ((pos 33, w) ∷ (pos 18, v) ∷ stack)
                  (pos 60)
                  (SymType.str (or_token.1))
                  none
                  ts
                  (remember shown or_token ts memory)
                  m))
    unfolding run step
    shift_or w ts memory m = refl

    pub reduce_or :
        (u : SymType) (a b : Fields) (rest : List Token) (memory : Memory) (m : Meaning)
        → Reads clock at_end shown
            (at_state
              ((pos 60, u) ∷ (pos 33, SymType.dict a) ∷ (pos 18, v) ∷ stack)
              (pos 86)
              (SymType.dict b)
              none
              rest
              memory
              m)
            ((pos 18, v) ∷ stack)
            (pos 33)
            (SymType.dict (dict_with (codes "$or") (both a b)))
            none
            rest
            m
    unfolding run step
    reduce_or u a b rest memory m = reads (_, _, _) 1 refl

    pub where_list_lem :
        (w : Where) (rest : List Token) (memory : Memory) (m : Meaning)
        → Reads clock at_end shown
            (at_state stack (pos 18) v none (where_list w rest) memory m)
            ((pos 18, v) ∷ stack)
            (pos 33)
            (SymType.dict (where_dict w))
            none
            rest
            (where_keys w m)
    where_list_lem (one t) rest memory m =
        Reads-Reads clock at_end shown
          (term_lem clock at_end shown after_where t stack v rest memory m)
          (λ memory'. reduce_one (term_dict t) rest memory' (term_keys t m))
    where_list_lem (not_term t) rest memory m =
        Reads-Reads clock at_end shown
          (before clock at_end shown 1
            (term_lem clock at_end shown after_not t ((pos 18, v) ∷ stack)
              (SymType.str (not_token.1)) rest (remember shown not_token (term t rest) memory) m)
            (shift_not (term t rest) memory m))
          (λ memory'. reduce_not _ (term_dict t) rest memory' (term_keys t m))
    where_list_lem (and_term w t) rest memory m =
        Reads-Reads clock at_end shown
          (Reads-Reads clock at_end shown (where_list_lem w (and_token ∷ term t rest) memory m)
            (λ memory'.
              before clock at_end shown 1
                (term_lem clock at_end shown after_and t
                  ((pos 33, SymType.dict (where_dict w)) ∷ (pos 18, v) ∷ stack)
                  (SymType.str (and_token.1)) rest (remember shown and_token (term t rest) memory')
                  (where_keys w m))
                (shift_and _ (term t rest) memory' (where_keys w m))))
          (λ memory'.
            reduce_and _ (where_dict w) (term_dict t) rest memory' (where_keys (and_term w t) m))
    where_list_lem (or_term w t) rest memory m =
        Reads-Reads clock at_end shown
          (Reads-Reads clock at_end shown (where_list_lem w (or_token ∷ term t rest) memory m)
            (λ memory'.
              before clock at_end shown 1
                (term_lem clock at_end shown after_or t
                  ((pos 33, SymType.dict (where_dict w)) ∷ (pos 18, v) ∷ stack)
                  (SymType.str (or_token.1)) rest (remember shown or_token (term t rest) memory')
                  (where_keys w m))
                (shift_or _ (term t rest) memory' (where_keys w m))))
          (λ memory'.
            reduce_or _ (where_dict w) (term_dict t) rest memory' (where_keys (or_term w t) m))
