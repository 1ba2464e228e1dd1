-- ===== src/Querylang/Parser/Terms.antt =====
-- The runs of the parser of querylang/query.go over the terms of a where clause.
use durandal.Prelude.{refl, Option, none, List, ◌∷◌}
use durandal.Prelude.Int.{ℤ}
use durandal.Prelude.Str.{Str}
use durandal.Querylang.Parser.Lexer.{Scanned, Meaning}
use durandal.Querylang.Parser.Values.{SymType, Clock}
use durandal.Querylang.Parser.Machine.{Slot, Machine, step, run}
use durandal.Common.Value.{Fields}
use durandal.Querylang.Parser.Grammar.{
  Text, Token, name, quoted, Term, like, eq, eq_number, neq, has, matches, is_in, is_not_in, paren,
}
use durandal.Querylang.Parser.Spelling.{
  words, term, rbrack_token, lbrack_token, lparen_token, rparen_token, in_token, not_token,
}
use durandal.Querylang.Parser.Sense.{literals, term_dict, term_keys}
use durandal.Querylang.Parser.Runs.{Memory, remember, parser, Reads, reads, before, Reads-Reads}
use durandal.Querylang.Parser.Brackets.{
  Place, after_where, in_paren, state, behind, first_item, items_lem, open_bracket, open_paren,
  close_in, close_not_in, close_paren,
}

module _ (clock : Clock) (at_end : Scanned) (shown : List Token → Str) where
  abbrev at_state : List Slot → ℤ → SymType → Option ℤ → List Token → Memory → Meaning → Machine
  at_state = parser at_end shown

  -- A term is read from the state before it to the state behind it.
  abbrev ReadsTerm :
      Place
      → List Slot
      → SymType
      → Memory
      → Meaning
      → List Token
      → Fields
      → List Token
      → Meaning
      → Type 0
  ReadsTerm p stack v memory m ts d rest m' =
      Reads clock at_end shown (at_state stack (state p) v none ts memory m) ((state p, v) ∷ stack)
        (behind p) (SymType.dict d) none rest m'

  like_lem :
      (p : Place) (k : Text) (x : Text) (stack : List Slot) (v : SymType) (rest : List Token)
      (memory : Memory) (m : Meaning)
      → ReadsTerm p stack v memory m
          (term (like k x) rest)
          (term_dict (like k x))
          rest
          (term_keys (like k x) m)
  unfolding run step
  like_lem after_where k x stack v rest memory m = reads (_, _, _) 6 refl
  like_lem _ k x stack v rest memory m = reads (_, _, _) 6 refl

  eq_lem :
      (p : Place) (k : Text) (x : Text) (stack : List Slot) (v : SymType) (rest : List Token)
      (memory : Memory) (m : Meaning)
      → ReadsTerm p stack v memory m
          (term (eq k x) rest)
          (term_dict (eq k x))
          rest
          (term_keys (eq k x) m)
  unfolding run step
  eq_lem after_where k x stack v rest memory m = reads (_, _, _) 6 refl
  eq_lem _ k x stack v rest memory m = reads (_, _, _) 6 refl

  eq_number_lem :
      (p : Place) (k : Text) (x : Text) (stack : List Slot) (v : SymType) (rest : List Token)
      (memory : Memory) (m : Meaning)
      → ReadsTerm p stack v memory m
          (term (eq_number k x) rest)
          (term_dict (eq_number k x))
          rest
          (term_keys (eq_number k x) m)
  unfolding run step
  eq_number_lem after_where k x stack v rest memory m = reads (_, _, _) 5 refl
  eq_number_lem _ k x stack v rest memory m = reads (_, _, _) 5 refl

  neq_lem :
      (p : Place) (k : Text) (x : Text) (stack : List Slot) (v : SymType) (rest : List Token)
      (memory : Memory) (m : Meaning)
      → ReadsTerm p stack v memory m
          (term (neq k x) rest)
          (term_dict (neq k x))
          rest
          (term_keys (neq k x) m)
  unfolding run step
  neq_lem after_where k x stack v rest memory m = reads (_, _, _) 6 refl
  neq_lem _ k x stack v rest memory m = reads (_, _, _) 6 refl

  has_lem :
      (p : Place) (k : Text) (stack : List Slot) (v : SymType) (rest : List Token) (memory : Memory)
      (m : Meaning)
      → ReadsTerm p stack v memory m
          (term (has k) rest)
          (term_dict (has k))
          rest
          (term_keys (has k) m)
  unfolding run step
  has_lem after_where k stack v rest memory m = reads (_, _, _) 4 refl
  has_lem _ k stack v rest memory m = reads (_, _, _) 4 refl

  matches_lem :
      (p : Place) (x : Text) (stack : List Slot) (v : SymType) (rest : List Token) (memory : Memory)
      (m : Meaning)
      → ReadsTerm p stack v memory m
          (term (matches x) rest)
          (term_dict (matches x))
          rest
          (term_keys (matches x) m)
  unfolding run step
  matches_lem after_where x stack v rest memory m = reads (_, _, _) 4 refl
  matches_lem _ x stack v rest memory m = reads (_, _, _) 4 refl

  pub term_lem :
      (p : Place) (t : Term) (stack : List Slot) (v : SymType) (rest : List Token) (memory : Memory)
      (m : Meaning)
      → ReadsTerm p stack v memory m (term t rest) (term_dict t) rest (term_keys t m)
  term_lem p (like k x) stack v rest memory m = like_lem p k x stack v rest memory m
  term_lem p (eq k x) stack v rest memory m = eq_lem p k x stack v rest memory m
  term_lem p (eq_number k x) stack v rest memory m = eq_number_lem p k x stack v rest memory m
  term_lem p (neq k x) stack v rest memory m = neq_lem p k x stack v rest memory m
  term_lem p (has k) stack v rest memory m = has_lem p k stack v rest memory m
  term_lem p (matches x) stack v rest memory m = matches_lem p x stack v rest memory m
  term_lem p (is_in vs k) stack v rest memory m =
      Reads-Reads clock at_end shown
        (before clock at_end shown 1
          (items_lem clock at_end shown first_item vs ((state p, v) ∷ stack)
            (SymType.str (lbrack_token.1)) (in_token ∷ name k ∷ rest)
            (remember shown lbrack_token (words quoted vs (rbrack_token ∷ in_token ∷ name k ∷ rest))
              memory)
            m)
          (open_bracket clock at_end shown p stack v
            (words quoted vs (rbrack_token ∷ in_token ∷ name k ∷ rest)) memory m))
        (λ memory'. close_in clock at_end shown p stack v _ (literals vs) k rest memory' m)
  term_lem p (is_not_in vs k) stack v rest memory m =
      Reads-Reads clock at_end shown
        (before clock at_end shown 1
          (items_lem clock at_end shown first_item vs ((state p, v) ∷ stack)
            (SymType.str (lbrack_token.1)) (not_token ∷ in_token ∷ name k ∷ rest)
            (remember shown lbrack_token
              (words quoted vs (rbrack_token ∷ not_token ∷ in_token ∷ name k ∷ rest)) memory)
            m)
          (open_bracket clock at_end shown p stack v
            (words quoted vs (rbrack_token ∷ not_token ∷ in_token ∷ name k ∷ rest)) memory m))
        (λ memory'. close_not_in clock at_end shown p stack v _ (literals vs) k rest memory' m)
  term_lem p (paren t) stack v rest memory m =
      Reads-Reads clock at_end shown
        (before clock at_end shown 1
          (term_lem in_paren t ((state p, v) ∷ stack) (SymType.str (lparen_token.1))
            (rparen_token ∷ rest)
            (remember shown lparen_token (term t (rparen_token ∷ rest)) memory) m)
          (open_paren clock at_end shown p stack v (term t (rparen_token ∷ rest)) memory m))
        (λ memory'.
          close_paren clock at_end shown p stack v _ (term_dict t) rest memory' (term_keys t m))
