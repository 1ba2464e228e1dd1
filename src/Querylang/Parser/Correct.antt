-- ===== src/Querylang/Parser/Correct.antt =====
-- QueryProcessor.Parse of querylang/processor.go on the sentences of the grammar.
use durandal.Prelude.{ℕ, ◌+◌, ◌≡◌, refl, none, some, List, [], map}
use durandal.Prelude.Int.{pos}
use durandal.Prelude.Str.{Str}
use durandal.Prelude.Outcome.{ok}
use durandal.Querylang.Parser.Lexer.{Scanned, Meaning}
use durandal.Querylang.Parser.Values.{SymType, Clock, cleantagstring}
use durandal.Querylang.Parser.Machine.{Machine, done, run}
use durandal.Querylang.Parser.Runs.{Reads, reads, place, run-run, run_done}
use durandal.Querylang.ParsedQuery.{ParsedQuery}
use durandal.Querylang.Parser.Process.{
  empty_meaning, start, Surroundings, terminated, error_text_of, parse,
}
use durandal.Querylang.Parser.Grammar.{Token, Sentence}
use durandal.Querylang.Parser.Spelling.{sentence}
use durandal.Querylang.Parser.Sense.{sense}
use durandal.Querylang.Parser.Accepting.{IsEnd, initial, first, accept}
use durandal.Querylang.Parser.Sentences.{ReadsSentence, keyword, sentence_lem}

-- The machine that a parse ends with.
abbrev pub Ends : Clock → Machine → Meaning → Type 0
Ends clock a m =
    (n : ℕ) × (end : Machine) × (run clock n a ≡ ok (done 0 end))
    × (end.lexer.lasttoken ≡ a.lexer.at_end.shown)
    × (end.meaning ≡ m)

module _ (clock : Clock) (at_end : Scanned) (shown : List Token → Str) where
  ends :
      (input : List Scanned) (v : SymType) {m : Meaning}
      → IsEnd at_end
      → Reads clock at_end shown (start input at_end) initial (pos 1) v none [] m
      → Ends clock (start input at_end) m
  ends input v is_end (reads memory n e) =
      (n + 1, _, run-run clock n 1 _ _ e (accept clock at_end shown memory _ v is_end), refl, refl)

  -- From the first token on, the parser ends with what the sentence means.
  pub start_lem :
      (s : Sentence)
      → IsEnd at_end
      → Ends clock (start (place at_end shown (sentence s)) at_end) (sense clock s empty_meaning)
  unfolding ReadsSentence
  start_lem s is_end =
      ends _ (first (keyword clock at_end shown s)) is_end
        (sentence_lem clock at_end shown s ([], [], []) empty_meaning)

-- The parsed query that a meaning gives.
abbrev pub described : Surroundings → Str → Scanned → Meaning → ParsedQuery
described around text at_end m = record {
  query_type = m.query.qtype;
  keys = map (λ entry. cleantagstring entry.0) m.keys;
  target = m.query.contents;
  where_clause = m.query.where_clause;
  distinct = m.query.distinct;
  data_query = m.query.query_data;
  err_text = error_text_of around.error_text m.error;
  err_pos = at_end.shown;
  querystring = terminated text;
}

-- For a text whose tokens, as the scanner gives them on the first line and up to a result that
-- counts as the end, are those of a sentence of the grammar: Parse returns, with enough steps and
-- with any more, and the query, its type, keys, targets, where clause, times and last error are
-- what the sentence means, read from left to right; a NOT IN term means a condition
-- on the text of its keyword IN, and not on its name.
pub parse-sentence :
    (around : Surroundings) (s : Sentence) (text : Str) (at_end : Scanned)
    (shown : List Token → Str)
    → IsEnd at_end
    → around.scan (terminated text) ≡ (place at_end shown (sentence s), at_end)
    → (n : ℕ) × ((k : ℕ)
        → parse around (n + k) text
          ≡ ok (some (described around text at_end (sense around.clock s empty_meaning))))
unfolding parse
parse-sentence around s text at_end shown is_end scanned =
    let (n, end, returns, last, means) = start_lem around.clock at_end shown s is_end in
    (
      n,
      λ k.
          rw
            (
              scanned,
              run_done around.clock n k (start (place at_end shown (sentence s)) at_end) returns,
              last,
              means,
            )
            refl,
    )
