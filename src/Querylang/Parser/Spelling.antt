-- ===== src/Querylang/Parser/Spelling.antt =====
-- The tokens of the sentences of querylang/query.y, with the tokens that follow.
use durandal.Prelude.{List, [], ◌∷◌}
use durandal.Prelude.Str.{codes}
use durandal.Querylang.Parser.Grammar.{
  Text, Token, name, quoted, number, Words, last, then_word, Term, like, eq, eq_number, neq, has,
  matches, is_in, is_not_in, paren, Where, one, not_term, and_term, or_term, Selector, tags, all,
  distinct, distinct_tag, AbsTime, with_unit, seconds, formatted, now, RelTime, last_offset,
  then_offset, TimeRef, at, offset, Limits, unlimited, limited, stream_limited, both_limited, Tail,
  plain, as_unit, Header, no_header, statistical, statistics, window, Data, in_paren, in_bare,
  changed, before, after, Sentence, select, select_where, select_data, delete_data, delete_where,
}

abbrev pub select_token : Token
select_token = (57346, codes "select")

abbrev pub distinct_token : Token
distinct_token = (57347, codes "distinct")

abbrev pub delete_token : Token
delete_token = (57348, codes "delete")

abbrev pub statistical_token : Token
statistical_token = (57350, codes "statistical")

abbrev pub window_token : Token
window_token = (57351, codes "window")

abbrev pub statistics_token : Token
statistics_token = (57352, codes "statistics")

abbrev pub changed_token : Token
changed_token = (57353, codes "changed")

abbrev pub where_token : Token
where_token = (57354, codes "where")

abbrev pub data_token : Token
data_token = (57355, codes "data")

abbrev pub before_token : Token
before_token = (57356, codes "before")

abbrev pub after_token : Token
after_token = (57357, codes "after")

abbrev pub limit_token : Token
limit_token = (57358, codes "limit")

abbrev pub streamlimit_token : Token
streamlimit_token = (57359, codes "streamlimit")

abbrev pub now_token : Token
now_token = (57360, codes "now")

abbrev pub eq_token : Token
eq_token = (57363, codes "=")

abbrev pub neq_token : Token
neq_token = (57364, codes "!=")

abbrev pub comma_token : Token
comma_token = (57365, codes ",")

abbrev pub all_token : Token
all_token = (57366, codes "*")

abbrev pub like_token : Token
like_token = (57368, codes "like")

abbrev pub as_token : Token
as_token = (57369, codes "as")

abbrev pub matches_token : Token
matches_token = (57370, codes "matches")

abbrev pub and_token : Token
and_token = (57371, codes "and")

abbrev pub or_token : Token
or_token = (57372, codes "or")

abbrev pub has_token : Token
has_token = (57373, codes "has")

abbrev pub not_token : Token
not_token = (57374, codes "not")

abbrev pub in_token : Token
in_token = (57375, codes "in")

abbrev pub lparen_token : Token
lparen_token = (57377, codes "(")

abbrev pub rparen_token : Token
rparen_token = (57378, codes ")")

abbrev pub lbrack_token : Token
lbrack_token = (57379, codes "[")

abbrev pub rbrack_token : Token
rbrack_token = (57380, codes "]")

abbrev pub semicolon_token : Token
semicolon_token = (57382, codes ";")

-- Texts between commas
abbrev pub words : (Text → Token) → Words → List Token → List Token
words f (last w) r = f w ∷ r
words f (then_word w ws) r = f w ∷ comma_token ∷ words f ws r

abbrev pub term : Term → List Token → List Token
term (like k v) r = name k ∷ like_token ∷ quoted v ∷ r
term (eq k v) r = name k ∷ eq_token ∷ quoted v ∷ r
term (eq_number k v) r = name k ∷ eq_token ∷ number v ∷ r
term (neq k v) r = name k ∷ neq_token ∷ quoted v ∷ r
term (has k) r = has_token ∷ name k ∷ r
term (matches v) r = matches_token ∷ quoted v ∷ r
term (is_in vs k) r = lbrack_token ∷ words quoted vs (rbrack_token ∷ in_token ∷ name k ∷ r)
term (is_not_in vs k) r =
    lbrack_token ∷ words quoted vs (rbrack_token ∷ not_token ∷ in_token ∷ name k ∷ r)
term (paren t) r = lparen_token ∷ term t (rparen_token ∷ r)

abbrev pub where_list : Where → List Token → List Token
where_list (one t) r = term t r
where_list (not_term t) r = not_token ∷ term t r
where_list (and_term w t) r = where_list w (and_token ∷ term t r)
where_list (or_term w t) r = where_list w (or_token ∷ term t r)

abbrev pub selector : Selector → List Token → List Token
selector (tags ws) r = words name ws r
selector all r = all_token ∷ r
selector distinct r = distinct_token ∷ r
selector (distinct_tag k) r = distinct_token ∷ name k ∷ r

abbrev pub abs_time : AbsTime → List Token → List Token
abs_time (with_unit n u) r = number n ∷ name u ∷ r
abs_time (seconds n) r = number n ∷ r
abs_time (formatted t) r = quoted t ∷ r
abs_time now r = now_token ∷ r

-- The number that begins an offset, and the tokens behind it
abbrev pub first_number : RelTime → Text
first_number (last_offset n u) = n
first_number (then_offset n u o) = n

abbrev pub behind_number : RelTime → List Token → List Token
behind_number (last_offset n u) r = name u ∷ r
behind_number (then_offset n u o) r = name u ∷ number (first_number o) ∷ behind_number o r

abbrev pub rel_time : RelTime → List Token → List Token
rel_time o r = number (first_number o) ∷ behind_number o r

abbrev pub time_ref : TimeRef → List Token → List Token
time_ref (at a) r = abs_time a r
time_ref (offset a o) r = abs_time a (rel_time o r)

abbrev pub limits : Limits → List Token → List Token
limits unlimited r = r
limits (limited n) r = limit_token ∷ number n ∷ r
limits (stream_limited n) r = streamlimit_token ∷ number n ∷ r
limits (both_limited n k) r = limit_token ∷ number n ∷ streamlimit_token ∷ number k ∷ r

abbrev pub tail : Tail → List Token → List Token
tail (plain l) r = limits l r
tail (as_unit l u) r = limits l (as_token ∷ name u ∷ r)

abbrev pub header : Header → List Token → List Token
header no_header r = r
header (statistical n) r = statistical_token ∷ lparen_token ∷ number n ∷ rparen_token ∷ r
header (statistics n) r = statistics_token ∷ lparen_token ∷ number n ∷ rparen_token ∷ r
header (window n u) r = window_token ∷ lparen_token ∷ number n ∷ name u ∷ rparen_token ∷ r

abbrev pub data_clause : Data → List Token → List Token
data_clause (in_paren h s e t) r = header h (
    data_token
    ∷ in_token
    ∷ lparen_token
    ∷ time_ref s (comma_token ∷ time_ref e (rparen_token ∷ tail t r)))
data_clause (in_bare s e t) r =
    data_token ∷ in_token ∷ time_ref s (comma_token ∷ time_ref e (tail t r))
data_clause (changed f t n) r =
    changed_token
    ∷ lparen_token
    ∷ number f
    ∷ comma_token
    ∷ number t
    ∷ comma_token
    ∷ number n
    ∷ rparen_token
    ∷ data_token
    ∷ r
data_clause (before s t) r = data_token ∷ before_token ∷ time_ref s (tail t r)
data_clause (after s t) r = data_token ∷ after_token ∷ time_ref s (tail t r)

abbrev pub end : List Token
end = semicolon_token ∷ []

abbrev pub sentence : Sentence → List Token
sentence (select s) = select_token ∷ selector s end
sentence (select_where s w) = select_token ∷ selector s (where_token ∷ where_list w end)
sentence (select_data d w) = select_token ∷ data_clause d (where_token ∷ where_list w end)
sentence (delete_data d w) = delete_token ∷ data_clause d (where_token ∷ where_list w end)
sentence (delete_where w) = delete_token ∷ where_token ∷ where_list w end
