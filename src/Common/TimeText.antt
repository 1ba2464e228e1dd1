-- ===== src/Common/TimeText.antt =====
-- ParseAbsTime, ParseReltime and AddDurations of common/util.go.
pub mod Exact
pub mod Total
use durandal.Prelude.{
  ℕ, zero, suc, ◌+◌, ◌-◌, ◌*◌, ◌/◌, ◌%◌, ◌^◌, ◌≤◌, ◌<◌, ◌≡◌, refl, sym, ap, ◌∙◌, ◌≢◌, ◌↔◌, ◌⊎◌, inl,
  inr, Bool, true, false, not, ◌&&◌, ◌||◌, Option, none, some, List, [], ◌∷◌, ◌++◌, map,
  append_assoc, append-nil, arith, ltb, leb, ◌==◌, if◌then◌else◌, Bool-cases, Option-cases, length,
  get_elem?, take, drop, length-append, length-take, All, Any,
}
use durandal.Prelude.Int.{
  ℤ, pos, negsuc, pos_part, neg_part, sub_ℕ, ◌+ℤ◌, ◌-ℤ◌, ◌*ℤ◌, quot, floor_div, ◌≤ℤ◌, ◌<ℤ◌, ltb_ℤ,
  eqb_ℤ, bits64, wrap64, IsInt64, wrap64-eq_self,
}
use durandal.Prelude.Str.{
  Str, codes, str_eq, str_eq_refl, str_eq_iff, is_empty, has_prefix, index, last_index, has_suffix,
  trim_suffix, split, join,
}
use durandal.Prelude.Dict
use durandal.Prelude.Dict.{Dict, dict_laws}
use durandal.Prelude.Outcome.{Outcome, ok, err, panic, ◌>>=◌}
use durandal.Common.ParseInt.{parse_int, int64_half}
use durandal.Common.UnitOfTime.{
  UnitOfTime, Time, uot_s, uot_ns, one_of, s_names, us_names, ms_names, ns_names, parse_uot,
  convert_time,
}

-- The seconds from year 1, where a time.Time begins, to 1970.
abbrev pub unix_to_internal : ℕ
unix_to_internal = 62135596800

-- The zero value of time.Time.
abbrev pub zero_time : Time
zero_time = sub_ℕ 0 (unix_to_internal * 1000000000)

-- time.Unix(sec, nsec): the seconds are kept as an int64 counted from year 1.
unfoldable pub unix : ℤ → ℤ → Time
unix sec nsec =
    let whole = floor_div nsec 1000000000 in
    (wrap64 (sec +ℤ whole +ℤ pos unix_to_internal) -ℤ pos unix_to_internal) *ℤ 1000000000
    +ℤ (nsec -ℤ whole *ℤ 1000000000)

-- The time that a number stands for in a unit, and whether there was an error.
unfoldable pub time_of : ℤ → UnitOfTime → Outcome (Time × Bool)
time_of i uot = do
  unixseconds ← convert_time i uot uot_s
  if unixseconds.1 then ok (zero_time, true) else do
    tmp ← convert_time unixseconds.0 uot_s uot
    if tmp.1 then ok (zero_time, true) else do
      unixns ← convert_time (wrap64 (i -ℤ tmp.0)) uot uot_ns
      if unixns.1 then ok (zero_time, true) else ok (unix unixseconds.0 unixns.0, false)

unfoldable pub parse_abs_time : Str → Str → Outcome (Time × Bool)
unfolding time_of
parse_abs_time num units =
    let (i, bad_number) = parse_int num int64_half in
    let (uot, bad_unit) = parse_uot units in
    if bad_number
    then ok (zero_time, true)
    else if bad_unit
    then ok (zero_time, true)
    else time_of i uot

-- A time.Duration is an int64 of nanoseconds.
abbrev pub Duration : Type 0
Duration = ℤ

abbrev pub h_names : List Str
h_names = codes "h" ∷ codes "hr" ∷ codes "hour" ∷ codes "hours" ∷ []

abbrev pub m_names : List Str
m_names = codes "m" ∷ codes "min" ∷ codes "minute" ∷ codes "minutes" ∷ []

abbrev pub d_names : List Str
d_names = codes "d" ∷ codes "day" ∷ codes "days" ∷ []

-- The duration and whether there was an error; after an unknown unit the number is kept.
unfoldable pub parse_reltime : Str → Str → Duration × Bool
parse_reltime num units =
    let (i, bad_number) = parse_int num int64_half in
    if bad_number
    then (pos 0, true)
    else if one_of units h_names
    then (wrap64 (i *ℤ 3600000000000), false)
    else if one_of units m_names
    then (wrap64 (i *ℤ 60000000000), false)
    else if one_of units s_names
    then (wrap64 (i *ℤ 1000000000), false)
    else if one_of units us_names
    then (wrap64 (i *ℤ 1000), false)
    else if one_of units ms_names
    then (wrap64 (i *ℤ 1000000), false)
    else if one_of units ns_names
    then (wrap64 (i *ℤ 1), false)
    else if one_of units d_names
    then (wrap64 (i *ℤ 86400000000000), false)
    else (i, true)

unfoldable pub add_durations : Duration → Duration → Duration
add_durations d1 d2 = let res = wrap64 (d1 +ℤ d2) in wrap64 (res *ℤ 1)
