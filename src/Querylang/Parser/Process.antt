-- ===== src/Querylang/Parser/Process.antt =====
-- QueryProcessor.Parse of querylang/processor.go. The scanner gives its results for a text.
use durandal.Prelude.{ℕ, false, not, Option, none, some, List, [], ◌∷◌, ◌++◌, map, if◌then◌else◌}
use durandal.Prelude.Int.{pos}
use durandal.Prelude.Str.{Str, codes, has_suffix}
use durandal.Prelude.Outcome.{Outcome, ok, ◌>>=◌}
use durandal.Common.Value.{Fields}
use durandal.Querylang.ParsedQuery.{QueryType, ParsedQuery}
use durandal.Querylang.Parser.Lexer.{Scanned, ParseError, Meaning, Lexer}
use durandal.Querylang.Parser.Values.{SymType, Clock, cleantagstring}
use durandal.Querylang.Parser.Machine.{Machine, more, done, run}

-- The query of NewSQLex
abbrev pub empty_meaning : Meaning
empty_meaning = record {
  query = record {
    qtype = QueryType.no_type;
    contents = [];
    where_clause = Fields.end;
    distinct = false;
    query_data = none;
  };
  error = none;
  keys = [];
  reads = 0;
}

-- The parser before its first step: state 0 is on the stack.
abbrev pub start : List Scanned → Scanned → Machine
start input at_end = record {
  stack = (pos 0, SymType.unset) ∷ [];
  state = pos 0;
  token = none;
  value = SymType.unset;
  errflag = 0;
  lexer = record { input = input; at_end = at_end; lasttoken = []; tokens = []; text = [] };
  meaning = empty_meaning;
}

-- What package toki, package fmt and the clock do for the parser: the results of the scanner for
-- a text, the one that it repeats when it cannot go on, and the text of an error.
pub record Surroundings : Type 0 where
  pub clock : Clock
  pub scan : Str → List Scanned × Scanned
  pub error_text : ParseError → Str

-- The query string, which ends with a semicolon.
abbrev pub terminated : Str → Str
terminated querystring =
    if not (has_suffix querystring (codes ";")) then querystring ++ codes ";" else querystring

abbrev pub error_text_of : (ParseError → Str) → Option ParseError → Option Str
error_text_of text none = none
error_text_of text (some e) = some (text e)

parsed_of : Surroundings → Str → Lexer → Meaning → ParsedQuery
parsed_of around querystring lexer m = record {
  query_type = m.query.qtype;
  keys = map (λ entry. cleantagstring (entry.0)) m.keys;
  target = m.query.contents;
  where_clause = m.query.where_clause;
  distinct = m.query.distinct;
  data_query = m.query.query_data;
  err_text = error_text_of around.error_text m.error;
  err_pos = lexer.lasttoken;
  querystring = querystring;
}

-- A parse of at most so many steps: `none` if the parser needs more.
unfoldable pub parse : Surroundings → ℕ → Str → Outcome (Option ParsedQuery)
unfolding parsed_of
parse around fuel text = do
  let querystring = terminated text
  let (input, at_end) = around.scan querystring
  next ← run around.clock fuel (start input at_end)
  elim next [
    | more m ↦ ok none
    | done code m ↦ ok (some (parsed_of around querystring m.lexer m.meaning))
  ]
