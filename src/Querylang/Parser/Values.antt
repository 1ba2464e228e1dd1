-- ===== src/Querylang/Parser/Values.antt =====
-- sqSymType of querylang/query.go, and what the actions of the parser share: the text functions and
-- the calls that may report an error.
use durandal.Prelude.{
  ℕ, ◌-◌, Bool, true, false, ◌&&◌, ◌||◌, Option, none, some, List, [], ◌∷◌, ◌==◌, if◌then◌else◌,
  get_elem?,
}
use durandal.Prelude.Int.{ℤ, pos, ◌+ℤ◌, ◌-ℤ◌, ◌*ℤ◌, floor_div}
use durandal.Prelude.Str.{Str, codes, is_empty, trim_suffix}
use durandal.Common.Value.{Fields}
use durandal.Common.ParseInt.{parse_int}
use durandal.Common.UnitOfTime.{UnitOfTime, Time, parse_uot}
use durandal.Common.TimeText.{Duration, zero_time, unix, parse_reltime}
use durandal.Querylang.ParsedQuery.{DataQuery, Limit}
use durandal.Querylang.Parser.Lexer.{ParseError, Query, Meaning}

-- A value on the stack: the one member of sqSymType that the type of the grammar symbol names.
pub data SymType : Type 0 where
  unset : SymType
  str : Str → SymType
  dict : Fields → SymType
  query_data : DataQuery → SymType
  limit : Limit → SymType
  timeconv : UnitOfTime → SymType
  list : List Str → SymType
  time : Time → SymType
  timediff : Duration → SymType

-- Another member than the one that was set has its zero value.
abbrev pub str_of : SymType → Str
str_of (str s) = s
str_of _ = []

abbrev pub dict_of : SymType → Fields
dict_of (dict d) = d
dict_of _ = Fields.end

abbrev pub data_of : SymType → Option DataQuery
data_of (query_data q) = some q
data_of _ = none

abbrev pub limit_of : SymType → Limit
limit_of (limit l) = l
limit_of _ = record { limit = pos 0; streamlimit = pos 0 }

abbrev pub timeconv_of : SymType → UnitOfTime
timeconv_of (timeconv u) = u
timeconv_of _ = 0

abbrev pub list_of : SymType → List Str
list_of (list l) = l
list_of _ = []

abbrev pub time_of : SymType → Time
time_of (time t) = t
time_of _ = zero_time

abbrev pub timediff_of : SymType → Duration
timediff_of (timediff d) = d
timediff_of _ = pos 0

-- sqDollar[i]
abbrev pub dollar : List SymType → ℕ → SymType
dollar values i = elim (get_elem? values (i - 1)) [ none ↦ unset | some v ↦ v ]

-- strings.Replace of every slash
dots_for_slashes : Str → Str
dots_for_slashes [] = []
dots_for_slashes (c ∷ s) = (if c == b'/' then b'.' else c) ∷ dots_for_slashes s

unfoldable pub cleantagstring : Str → Str
unfolding dots_for_slashes
cleantagstring inp = dots_for_slashes (trim_suffix inp (codes ","))

is_quote : ℕ → Bool
is_quote c = c == b'"' || c == b'\''

drop_quotes : Str → Str
drop_quotes [] = []
drop_quotes (c ∷ s) = let rest = drop_quotes s in if is_quote c then rest else c ∷ s

drop_last_quotes : Str → Str
drop_last_quotes [] = []
drop_last_quotes (c ∷ s) =
    let rest = drop_last_quotes s in if is_empty rest && is_quote c then [] else c ∷ rest

-- strings.Trim(s, "\"'")
unfoldable pub trim_quotes : Str → Str
unfolding is_quote drop_quotes drop_last_quotes
trim_quotes s = drop_last_quotes (drop_quotes s)

-- The clock, and the parsing of a time in the first of the supported formats that fits.
pub record Clock : Type 0 where
  pub now : ℕ → Time
  pub parse_formats : Str → Option Time

-- sqLex.Error, if there was an error: it replaces an earlier one.
abbrev pub report : Bool → ParseError → Meaning → Meaning
report true error m = record m { error = some error }
report false error m = m

abbrev pub set_query : Meaning → Query → Meaning
set_query m q = record m { query = q }

-- The calls of ParseInt, ParseReltime, ParseAbsTime and ParseUOT in the actions.
unfoldable pub read_integer : Str → ℕ → Str → Meaning → ℤ × Meaning
read_integer s half quoted m =
    let (num, bad) = parse_int s half in (num, report bad (ParseError.bad_integer quoted) m)

unfoldable pub read_reltime : Str → Str → Meaning → Duration × Meaning
read_reltime num units m =
    let (d, bad) = parse_reltime num units in (d, report bad (ParseError.bad_reltime num units) m)

unfoldable pub read_unit : Str → Meaning → UnitOfTime × Meaning
read_unit units m =
    let (uot, bad) = parse_uot units in (uot, report bad (ParseError.bad_unit units) m)

-- t.Add(d): the seconds are kept as an int64.
unfoldable pub add_time : Time → Duration → Time
add_time t d = let sec = floor_div t 1000000000 in unix sec (t -ℤ sec *ℤ 1000000000 +ℤ d)
