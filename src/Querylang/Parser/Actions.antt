-- ===== src/Querylang/Parser/Actions.antt =====
-- The actions of the productions in querylang/query.go, by the numbers of the switch in Parse.
use durandal.Prelude.{ℕ, ◌+◌, ◌%◌, true, false, Option, List, [], ◌∷◌}
use durandal.Prelude.Int.{pos, bits64}
use durandal.Prelude.Str.{Str}
use durandal.Prelude.Outcome.{Outcome, ok}
use durandal.Common.Value.{Value, Fields}
use durandal.Common.ParseInt.{int64_half}
use durandal.Common.UnitOfTime.{UnitOfTime, Time}
use durandal.Common.TimeText.{zero_time}
use durandal.Querylang.ParsedQuery.{QueryType, DataQueryType, DataQuery, Limit}
use durandal.Querylang.Parser.Lexer.{Meaning}
use durandal.Querylang.Parser.Values.{
  SymType, str_of, dict_of, data_of, limit_of, timeconv_of, list_of, time_of, dollar, set_query,
  read_integer, read_reltime,
}

-- An action gets sqDollar and gives sqVAL; it may panic.
abbrev pub Action : Type 0
Action = List SymType → Meaning → Outcome (SymType × Meaning)

abbrev pub keep : SymType → Meaning → Outcome (SymType × Meaning)
keep v m = ok (v, m)

-- common.Dict{k: v}
abbrev pub dict_with : Str → Value → Fields
dict_with k v = Fields.field k v Fields.end

-- 1 to 5, query; sqVAL stays the first value
abbrev pub contents_where : List Str → Fields → QueryType → Meaning → Meaning
contents_where contents where_clause qtype m =
    set_query m (record m.query { contents = contents; where_clause = where_clause; qtype = qtype })

abbrev pub data_where : Option DataQuery → Fields → QueryType → Meaning → Meaning
data_where d where_clause qtype m =
    set_query m (record m.query { where_clause = where_clause; query_data = d; qtype = qtype })

unfoldable pub query_actions : List Action
query_actions =
    (λ d m.
      keep (dollar d 1)
        (contents_where (list_of (dollar d 2)) (dict_of (dollar d 3)) QueryType.select_type m))
    ∷ (λ d m.
        keep (dollar d 1)
          (contents_where (list_of (dollar d 2)) m.query.where_clause QueryType.select_type m))
    ∷ (λ d m.
        keep (dollar d 1)
          (data_where (data_of (dollar d 2)) (dict_of (dollar d 3)) QueryType.data_type m))
    ∷ (λ d m.
        keep (dollar d 1)
          (data_where (data_of (dollar d 2)) (dict_of (dollar d 3)) QueryType.delete_type m))
    ∷ (λ d m. keep (dollar d 1) (contents_where [] (dict_of (dollar d 2)) QueryType.delete_type m))
    ∷ []

-- 6 and 7, 9 and 10: the lists of tags and of quoted texts
unfoldable pub single : Action
single d m = keep (SymType.list (str_of (dollar d 1) ∷ [])) m

unfoldable pub prepend : Action
prepend d m = keep (SymType.list (str_of (dollar d 1) ∷ list_of (dollar d 3))) m

abbrev pub set_distinct : Meaning → Meaning
set_distinct m = set_query m (record m.query { distinct = true })

-- 11 to 14, selector
unfoldable pub selector_actions : List Action
selector_actions =
    (λ d m.
      keep (SymType.list (list_of (dollar d 1)))
        (set_query m (record m.query { contents = list_of (dollar d 1) })))
    ∷ (λ d m. keep (SymType.list []) m)
    ∷ (λ d m. keep (SymType.list (str_of (dollar d 2) ∷ [])) (set_distinct m))
    ∷ (λ d m. keep (SymType.list []) (set_distinct m))
    ∷ []

-- DataQuery{Dtype: ..., Start: ..., End: ..., Limit: ..., Timeconv: ...}
abbrev pub range_query : DataQueryType → Time → Time → Limit → UnitOfTime → DataQuery
range_query dtype start end limit timeconv = record {
  dtype = dtype;
  start = start;
  end = end;
  limit = limit;
  timeconv = timeconv;
  is_statistical = false;
  is_window = false;
  is_changed_ranges = false;
  from_gen = 0;
  to_gen = 0;
  resolution = 0;
  width = 0;
  point_width = pos 0;
}

abbrev pub no_limit : Limit
no_limit = record { limit = pos 0; streamlimit = pos 0 }

unfoldable pub statistical : Action
statistical d m =
    let (num, m') = read_integer (str_of (dollar d 3)) int64_half (str_of (dollar d 3)) m in
    keep
      (SymType.query_data
        (record (range_query DataQueryType.in_type (time_of (dollar d 8)) (time_of (dollar d 10))
          (limit_of (dollar d 12)) (timeconv_of (dollar d 13))) {
            is_statistical = true;
            point_width = num;
          }))
      m'

unfoldable pub window : Action
window d m =
    let (dur, m') = read_reltime (str_of (dollar d 3)) (str_of (dollar d 4)) m in
    keep
      (SymType.query_data
        (record (range_query DataQueryType.in_type (time_of (dollar d 9)) (time_of (dollar d 11))
          (limit_of (dollar d 13)) (timeconv_of (dollar d 14))) {
            is_window = true;
            width = bits64 dur;
          }))
      m'

unfoldable pub changed : Action
changed d m =
    let (fromgen, m1) = read_integer (str_of (dollar d 3)) int64_half (str_of (dollar d 3)) m in
    let (togen, m2) = read_integer (str_of (dollar d 5)) int64_half (str_of (dollar d 5)) m1 in
    let (resolution, m3) = read_integer (str_of (dollar d 7)) 128 (str_of (dollar d 7)) m2 in
    keep
      (SymType.query_data
        (record (range_query DataQueryType.changed_type zero_time zero_time no_limit 0) {
          is_changed_ranges = true;
          from_gen = bits64 fromgen;
          to_gen = bits64 togen;
          resolution = bits64 resolution % 256;
        }))
      m3

abbrev data_range : ℕ → ℕ → ℕ → Action
data_range first second behind d m =
    keep
      (SymType.query_data (
        range_query DataQueryType.in_type (time_of (dollar d first)) (time_of (dollar d second))
          (limit_of (dollar d behind)) (timeconv_of (dollar d (behind + 1)))))
      m

abbrev data_from : DataQueryType → Action
data_from dtype d m =
    keep
      (SymType.query_data (
        range_query dtype (time_of (dollar d 3)) zero_time (limit_of (dollar d 4))
          (timeconv_of (dollar d 5))))
      m

-- 15 to 22, dataClause
unfoldable pub data_actions : List Action
unfolding statistical window changed
data_actions =
    data_range 4 6 8
    ∷ data_range 3 5 6
    ∷ statistical
    ∷ statistical
    ∷ window
    ∷ changed
    ∷ data_from DataQueryType.before_type
    ∷ data_from DataQueryType.after_type
    ∷ []
