-- ===== src/Querylang/Tests.antt =====
-- Tests of the parser, and its theorems at concrete inputs.
use durandal.Prelude.Int.{pos}
use durandal.Querylang.Parser.Machine.{Machine}
use durandal.Prelude.{ℕ, ◌+◌, ◌≡◌, refl, none, some, List, [], ◌∷◌}
use durandal.Prelude.Str.{Str, codes}
use durandal.Prelude.Outcome.{ok}
use durandal.Querylang.Parser.Lexer.{Scanned}
use durandal.Querylang.Parser.Values.{Clock}
use durandal.Querylang.Parser.Grammar.{
  Text, Token, eq, has, one, and_term, with_unit, last_offset, offset, limited, plain, before,
  Sentence, select_data,
}
use durandal.Querylang.Parser.Spelling.{sentence, select_token, where_token, semicolon_token}
use durandal.Querylang.Parser.Sense.{sense}
use durandal.Querylang.Parser.Runs.{parser, place, remember}
use durandal.Querylang.Parser.Process.{Surroundings, empty_meaning, parse}
use durandal.Querylang.Parser.Accepting.{initial, first}
use durandal.Querylang.Parser.Correct.{described, parse-sentence}

abbrev at_end : Scanned
at_end = record { token = 0; value = []; line = 2; shown = codes "end" }

abbrev shown : List Token → Str
shown [] = []
shown (t ∷ ts) = t.1

abbrev stopped_clock : Clock
stopped_clock = record { now = λ i. pos 0; parse_formats = λ s. none }

abbrev word : ℕ → Text
word c = record { first = c; rest = [] }

-- select data before 5 s 1 m limit 3 where has u and n = 'x';
abbrev query : Sentence
query =
    select_data
      (before (offset (with_unit (word b'5') (word b's')) (last_offset (word b'1') (word b'm')))
        (plain (limited (word b'3'))))
      (and_term (one (has (word b'u')))
        (eq (word b'n') (record { first = b'\''; rest = codes "x'" })))

abbrev querystring : Str
querystring = codes "select data before 5s 1m limit 3 where has u and n = 'x'"

abbrev around : Surroundings
around = record {
  clock = stopped_clock;
  scan = λ text. (place at_end shown (sentence query), at_end);
  error_text = λ e. codes "error";
}

parse-sentence_example :
    (n : ℕ) × ((k : ℕ)
      → parse around (n + k) querystring
        ≡ ok (some (described around querystring at_end (sense stopped_clock query empty_meaning))))
parse-sentence_example = parse-sentence around query querystring at_end shown refl refl

-- select where;
abbrev wrong : List Token
wrong = where_token ∷ semicolon_token ∷ []

abbrev behind_select : Machine
behind_select =
    parser at_end shown initial (pos 2) (first select_token) none wrong
      (remember shown select_token wrong ([], [], [])) empty_meaning

-- The parser has looked at the keyword where, whose number is 12.
abbrev behind_where : Machine
behind_where =
    parser at_end shown initial (pos 2) (first select_token) (some (pos 12)) (semicolon_token ∷ [])
      (remember shown where_token (semicolon_token ∷ [])
        (remember shown select_token wrong ([], [], [])))
      empty_meaning
