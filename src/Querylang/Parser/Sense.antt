-- ===== src/Querylang/Parser/Sense.antt =====
-- What the sentences of querylang/query.y mean, from left to right: the value of each part, and
-- the query, the keys and the last error behind it.
use durandal.Prelude.{◌%◌, Bool, true, some, List, [], ◌∷◌}
use durandal.Prelude.Int.{ℤ, pos, negsuc, bits64}
use durandal.Prelude.Str.{Str, codes}
use durandal.Prelude.Dict
use durandal.Common.Value.{Value, Fields}
use durandal.Common.ParseInt.{int64_half}
use durandal.Common.UnitOfTime.{UnitOfTime, Time, uot_ns}
use durandal.Common.TimeText.{Duration, zero_time, unix, parse_abs_time, add_durations}
use durandal.Common.TimeText.Total.{settled}
use durandal.Querylang.ParsedQuery.{QueryType, DataQueryType, DataQuery, Limit}
use durandal.Querylang.Parser.Lexer.{ParseError, Meaning}
use durandal.Querylang.Parser.Values.{
  Clock, report, set_query, cleantagstring, trim_quotes, read_integer, read_reltime, read_unit,
  add_time,
}
use durandal.Querylang.Parser.Actions.{
  dict_with, contents_where, data_where, set_distinct, range_query, no_limit,
}
use durandal.Querylang.Parser.TimeActions.{read_format, read_now, limit_with}
use durandal.Querylang.Parser.WhereActions.{texts, both, negated, regex_call, nested}
use durandal.Querylang.Parser.Spelling.{in_token}
use durandal.Querylang.Parser.Grammar.{
  Text, spell, Words, last, then_word, Term, like, eq, eq_number, neq, has, matches, is_in,
  is_not_in, paren, Where, one, not_term, and_term, or_term, Selector, tags, all, distinct,
  distinct_tag, AbsTime, with_unit, seconds, formatted, now, RelTime, last_offset, then_offset,
  TimeRef, at, offset, Limits, unlimited, limited, stream_limited, both_limited, Tail, plain,
  as_unit, Header, no_header, statistical, statistics, window, Data, in_paren, in_bare, changed,
  before, after, Sentence, select, select_where, select_data, delete_data, delete_where,
}

-- A name is a key of the query.
abbrev pub key : Text → Str
key k = cleantagstring (spell k)

abbrev pub note_key : Text → Meaning → Meaning
note_key k m = record m { keys = Dict.put (spell k) tt m.keys }

abbrev pub literal : Text → Str
literal v = trim_quotes (spell v)

abbrev pub literals : Words → List Str
literals (last v) = literal v ∷ []
literals (then_word v vs) = literal v ∷ literals vs

abbrev pub tag_names : Words → List Str
tag_names (last k) = key k ∷ []
tag_names (then_word k ks) = key k ∷ tag_names ks

abbrev pub note_keys : Words → Meaning → Meaning
note_keys (last k) m = note_key k m
note_keys (then_word k ks) m = note_keys ks (note_key k m)

-- The dict of a term. The one of NOT IN is for the text of the keyword IN, not for the name.
abbrev pub term_dict : Term → Fields
term_dict (like k v) = nested (key k) (codes "$regex") (Value.str (literal v))
term_dict (eq k v) = dict_with (key k) (Value.str (literal v))
term_dict (eq_number k v) = dict_with (key k) (Value.str (spell v))
term_dict (neq k v) = nested (key k) (codes "$neq") (Value.str (literal v))
term_dict (has k) = nested (key k) (codes "$exists") (Value.bool true)
term_dict (matches v) = dict_with (codes "$where") (Value.str (regex_call (literal v)))
term_dict (is_in vs k) = nested (key k) (codes "$in") (Value.list (texts (literals vs)))
term_dict (is_not_in vs k) =
    nested (in_token.1) (codes "$not")
      (Value.dict (dict_with (codes "$in") (Value.list (texts (literals vs)))))
term_dict (paren t) = term_dict t

abbrev pub term_keys : Term → Meaning → Meaning
term_keys (like k v) m = note_key k m
term_keys (eq k v) m = note_key k m
term_keys (eq_number k v) m = note_key k m
term_keys (neq k v) m = note_key k m
term_keys (has k) m = note_key k m
term_keys (matches v) m = m
term_keys (is_in vs k) m = note_key k m
term_keys (is_not_in vs k) m = note_key k m
term_keys (paren t) m = term_keys t m

abbrev pub where_dict : Where → Fields
where_dict (one t) = term_dict t
where_dict (not_term t) = negated (term_dict t)
where_dict (and_term w t) = dict_with (codes "$and") (both (where_dict w) (term_dict t))
where_dict (or_term w t) = dict_with (codes "$or") (both (where_dict w) (term_dict t))

abbrev pub where_keys : Where → Meaning → Meaning
where_keys (one t) m = term_keys t m
where_keys (not_term t) m = term_keys t m
where_keys (and_term w t) m = term_keys t (where_keys w m)
where_keys (or_term w t) m = term_keys t (where_keys w m)

abbrev pub selected : Selector → List Str
selected (tags ws) = tag_names ws
selected all = []
selected distinct = []
selected (distinct_tag k) = key k ∷ []

abbrev pub set_contents : List Str → Meaning → Meaning
set_contents contents m = set_query m (record m.query { contents = contents })

abbrev pub selector_sense : Selector → Meaning → Meaning
selector_sense (tags ws) m = set_contents (tag_names ws) (note_keys ws m)
selector_sense all m = m
selector_sense distinct m = set_distinct m
selector_sense (distinct_tag k) m = set_distinct (note_key k m)

-- A time with a unit, and whether there was an error.
abbrev pub abs_time_of : Text → Text → Time × Bool
abs_time_of n u = settled (parse_abs_time (spell n) (spell u))

abbrev pub integer : Text → Meaning → ℤ × Meaning
integer n m = read_integer (spell n) int64_half (spell n) m

module _ (clock : Clock) where
  abbrev pub abs_time_sense : AbsTime → Meaning → Time × Meaning
  abs_time_sense (with_unit n u) m =
      let (t, bad) = abs_time_of n u in
      (t, report bad (ParseError.bad_abstime (spell n) (spell u)) m)
  abs_time_sense (seconds n) m = let (i, m') = integer n m in (unix i (pos 0), m')
  abs_time_sense (formatted t) m = read_format clock (literal t) m
  abs_time_sense now m = read_now clock m

-- The unit is noted first; the duration is read after those behind it.
abbrev pub rel_time_sense : RelTime → Meaning → Duration × Meaning
rel_time_sense (last_offset n u) m = read_reltime (spell n) (key u) (note_key u m)
rel_time_sense (then_offset n u o) m =
    let (d, m1) = rel_time_sense o (note_key u m) in
    let (first, m2) = read_reltime (spell n) (key u) m1 in (add_durations first d, m2)

abbrev pub limits_sense : Limits → Meaning → Limit × Meaning
limits_sense unlimited m = (limit_with (negsuc 0) (negsuc 0), m)
limits_sense (limited n) m = let (i, m') = integer n m in (limit_with i (negsuc 0), m')
limits_sense (stream_limited n) m = let (i, m') = integer n m in (limit_with (negsuc 0) i, m')
limits_sense (both_limited n k) m =
    let (i, m1) = integer n m in
    let (j, m2) = read_integer (spell k) int64_half (spell n) m1 in (limit_with i j, m2)

abbrev pub tail_sense : Tail → Meaning → Limit × UnitOfTime × Meaning
tail_sense (plain l) m = let (limit, m') = limits_sense l m in (limit, uot_ns, m')
tail_sense (as_unit l u) m =
    let (limit, m1) = limits_sense l m in let (uot, m2) = read_unit (spell u) m1 in (limit, uot, m2)

-- The unit of a window is a key too.
abbrev pub header_keys : Header → Meaning → Meaning
header_keys no_header m = m
header_keys (statistical n) m = m
header_keys (statistics n) m = m
header_keys (window n u) m = note_key u m

-- The numbers before a range are read at the end of the clause.
abbrev pub header_sense : Header → DataQuery → Meaning → DataQuery × Meaning
header_sense no_header q m = (q, m)
header_sense (statistical n) q m =
    let (width, m') = integer n m in (record q { is_statistical = true; point_width = width }, m')
header_sense (statistics n) q m =
    let (width, m') = integer n m in (record q { is_statistical = true; point_width = width }, m')
header_sense (window n u) q m =
    let (width, m') = read_reltime (spell n) (key u) m in
    (record q { is_window = true; width = bits64 width }, m')

module _ (clock : Clock) where
  abbrev pub time_ref_sense : TimeRef → Meaning → Time × Meaning
  time_ref_sense (at a) m = abs_time_sense clock a m
  time_ref_sense (offset a o) m =
      let (t, m1) = abs_time_sense clock a m in
      let (d, m2) = rel_time_sense o m1 in (add_time t d, m2)

  -- The query for a range of time, with the limit and the unit behind it.
  abbrev pub range_sense : TimeRef → TimeRef → Tail → Meaning → DataQuery × Meaning
  range_sense s e tail m =
      let (begin, m1) = time_ref_sense s m in
      let (end, m2) = time_ref_sense e m1 in
      let (limit, uot, m3) = tail_sense tail m2 in
      (range_query DataQueryType.in_type begin end limit uot, m3)

  abbrev pub half_range_sense : DataQueryType → TimeRef → Tail → Meaning → DataQuery × Meaning
  half_range_sense dtype s tail m =
      let (begin, m1) = time_ref_sense s m in
      let (limit, uot, m2) = tail_sense tail m1 in (range_query dtype begin zero_time limit uot, m2)

  abbrev pub data_sense : Data → Meaning → DataQuery × Meaning
  data_sense (in_paren h s e t) m =
      let (q, m1) = range_sense s e t (header_keys h m) in header_sense h q m1
  data_sense (in_bare s e t) m = range_sense s e t m
  data_sense (changed f t n) m =
      let (from, m1) = integer f m in
      let (to, m2) = integer t m1 in
      let (resolution, m3) = read_integer (spell n) 128 (spell n) m2 in
      (
        record (range_query DataQueryType.changed_type zero_time zero_time no_limit 0) {
          is_changed_ranges = true;
          from_gen = bits64 from;
          to_gen = bits64 to;
          resolution = bits64 resolution % 256;
        },
        m3,
      )
  data_sense (before s t) m = half_range_sense DataQueryType.before_type s t m
  data_sense (after s t) m = half_range_sense DataQueryType.after_type s t m

  abbrev pub sense : Sentence → Meaning → Meaning
  sense (select s) m =
      let m1 = selector_sense s m in
      contents_where (selected s) m1.query.where_clause QueryType.select_type m1
  sense (select_where s w) m =
      contents_where (selected s) (where_dict w) QueryType.select_type
        (where_keys w (selector_sense s m))
  sense (select_data d w) m =
      let (q, m1) = data_sense d m in
      data_where (some q) (where_dict w) QueryType.data_type (where_keys w m1)
  sense (delete_data d w) m =
      let (q, m1) = data_sense d m in
      data_where (some q) (where_dict w) QueryType.delete_type (where_keys w m1)
  sense (delete_where w) m = contents_where [] (where_dict w) QueryType.delete_type (where_keys w m)
