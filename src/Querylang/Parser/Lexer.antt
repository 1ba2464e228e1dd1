-- ===== src/Querylang/Parser/Lexer.antt =====
-- sqLex of querylang/query.go, the translation of token codes, and the query that the parser fills.
-- What the scanner (package toki) makes of a text is a list of its results.
use durandal.Prelude.{
  ℕ, ◌+◌, ◌-◌, Bool, ◌&&◌, ◌||◌, Option, none, some, List, [], ◌∷◌, ◌++◌, ltb, leb, ◌==◌,
  if◌then◌else◌, length, get_elem?,
}
use durandal.Prelude.Int.{ℤ, pos, negsuc, eqb_ℤ}
use durandal.Prelude.Str.{Str, is_empty}
use durandal.Prelude.Dict.{Dict}
use durandal.Prelude.Outcome.{Outcome, ok, panic, ◌>>=◌}
use durandal.Common.Value.{Fields}
use durandal.Querylang.ParsedQuery.{QueryType, DataQuery}
use durandal.Querylang.Parser.Tables.{sq_tok1, sq_tok2, sq_tok3}

-- toki.Result; `shown` is what its String method gives.
pub record Scanned : Type 0 where
  pub token : ℕ
  pub value : Str
  pub line : ℕ
  pub shown : Str

-- The errors that the parser and its actions report, with what their texts quote.
pub data ParseError : Type 0 where
  syntax : ParseError
  bad_integer : (quoted : Str) → ParseError
  bad_reltime : (number units : Str) → ParseError
  bad_abstime : (number units : Str) → ParseError
  bad_format : (quoted : Str) → ParseError
  bad_unit : (units : Str) → ParseError

pub record Query : Type 0 where
  pub qtype : QueryType
  pub contents : List Str
  pub where_clause : Fields
  pub distinct : Bool
  pub query_data : Option DataQuery

-- What the actions of the parser change of the lexer; `reads` counts the calls of time.Now.
pub record Meaning : Type 0 where
  pub query : Query
  pub error : Option ParseError
  pub keys : Dict (Unit {0})
  pub reads : ℕ

pub record Lexer : Type 0 where
  pub input : List Scanned
  pub at_end : Scanned
  pub lasttoken : Str
  pub tokens : List Str
  pub text : Str

-- scanner.Next: at the end of the input, or where no pattern matches, the scanner stays.
abbrev next_result : List Scanned → Scanned → Scanned × List Scanned
next_result [] at_end = (at_end, [])
next_result (r ∷ rest) at_end = (r, rest)

-- Lex: the code of the token and the lexer behind it.
unfoldable pub lex : Lexer → ℕ × Lexer
lex lexer =
    let (r, rest) = next_result lexer.input lexer.at_end in
    let moved = record lexer { input = rest; lasttoken = r.shown } in
    if r.line == 2 || is_empty r.value
    then (0, moved)
    else (r.token, record moved { tokens = lexer.tokens ++ r.value ∷ []; text = r.value })

-- Indexing panics out of range.
abbrev pub entry : List ℤ → ℤ → Outcome ℤ
entry table (negsuc n) = panic
entry table (pos n) = elim (get_elem? table n) [ none ↦ panic | some z ↦ ok z ]

abbrev pub sq_private : ℕ
sq_private = 57344

-- The search in sqTok3, by pairs, with the entry that was looked at last. An odd last entry that
-- fits has no second half.
search_tok3 : List ℤ → ℕ → ℤ → Outcome ℤ
search_tok3 [] char seen = ok seen
search_tok3 (t ∷ []) char seen = if eqb_ℤ t (pos char) then panic else ok t
search_tok3 (t ∷ u ∷ table) char seen =
    let rest = search_tok3 table char t in if eqb_ℤ t (pos char) then ok u else rest

abbrev known_or_unknown : ℤ → Outcome ℤ
known_or_unknown token = if eqb_ℤ token (pos 0) then entry sq_tok2 (pos 1) else ok token

-- The translation of sqlex1.
unfoldable pub token_of : ℕ → Outcome ℤ
unfolding search_tok3
token_of char = do
  token ←
      if leb char 0
      then entry sq_tok1 (pos 0)
      else if ltb char (length sq_tok1)
      then entry sq_tok1 (pos char)
      else if leb sq_private char && ltb char (sq_private + length sq_tok2)
      then entry sq_tok2 (pos (char - sq_private))
      else search_tok3 sq_tok3 char (pos 0)
  known_or_unknown token
