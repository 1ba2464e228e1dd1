-- ===== src/Common/UnitOfTime.antt =====
-- UnitOfTime, its texts and the conversion of timestamps between units: common/util.go.
pub mod Exact
use durandal.Prelude.{
  ℕ, zero, suc, ◌+◌, ◌-◌, ◌*◌, ◌/◌, ◌%◌, ◌^◌, ◌≤◌, ◌<◌, ◌≡◌, refl, sym, ap, ◌∙◌, ◌≢◌, ◌↔◌, ◌⊎◌, inl,
  inr, Bool, true, false, not, ◌&&◌, ◌||◌, Option, none, some, List, [], ◌∷◌, ◌++◌, map,
  append_assoc, append-nil, arith, ltb, leb, ◌==◌, if◌then◌else◌, Bool-cases, Option-cases, length,
  get_elem?, take, drop, length-append, length-take, All, Any,
}
use durandal.Prelude.Int.{
  ℤ, pos, negsuc, pos_part, neg_part, sub_ℕ, ◌+ℤ◌, ◌-ℤ◌, ◌*ℤ◌, quot, floor_div, ◌≤ℤ◌, ◌<ℤ◌, ltb_ℤ,
  eqb_ℤ, bits64, wrap64, IsInt64, wrap64-eq_self,
}
use durandal.Prelude.Str.{
  Str, codes, str_eq, str_eq_refl, str_eq_iff, is_empty, has_prefix, index, last_index, has_suffix,
  trim_suffix, split, join,
}
use durandal.Prelude.Dict
use durandal.Prelude.Dict.{Dict, dict_laws}
use durandal.Prelude.Outcome.{Outcome, ok, err, panic, ◌>>=◌}

-- type UnitOfTime uint: a value other than the four units is possible, 0 is the zero value.
abbrev pub UnitOfTime : Type 0
UnitOfTime = ℕ

abbrev pub uot_ns : UnitOfTime
uot_ns = 1

abbrev pub uot_us : UnitOfTime
uot_us = 2

abbrev pub uot_ms : UnitOfTime
uot_ms = 3

abbrev pub uot_s : UnitOfTime
uot_s = 4

abbrev pub s_high : ℕ
s_high = 5680281600

abbrev pub ms_high : ℕ
ms_high = 5680281600000

abbrev pub us_high : ℕ
us_high = 5680281600000000

unfoldable pub guess_time_unit : ℤ → UnitOfTime
guess_time_unit val =
    if ltb_ℤ val (pos s_high)
    then uot_s
    else if ltb_ℤ val (pos ms_high)
    then uot_ms
    else if ltb_ℤ val (pos us_high)
    then uot_us
    else uot_ns

-- case a, b, c: of a switch over a string
abbrev pub one_of : Str → List Str → Bool
one_of s [] = false
one_of s (t ∷ ts) = str_eq s t || one_of s ts

abbrev pub s_names : List Str
s_names = codes "s" ∷ codes "sec" ∷ codes "second" ∷ codes "seconds" ∷ []

abbrev pub us_names : List Str
us_names = codes "us" ∷ codes "usec" ∷ codes "microsecond" ∷ codes "microseconds" ∷ []

abbrev pub ms_names : List Str
ms_names = codes "ms" ∷ codes "msec" ∷ codes "millisecond" ∷ codes "milliseconds" ∷ []

abbrev pub ns_names : List Str
ns_names = codes "ns" ∷ codes "nsec" ∷ codes "nanosecond" ∷ codes "nanoseconds" ∷ []

-- The unit and whether there was an error.
unfoldable pub parse_uot : Str → UnitOfTime × Bool
parse_uot units =
    if one_of units s_names
    then (uot_s, false)
    else if one_of units us_names
    then (uot_us, false)
    else if one_of units ms_names
    then (uot_ms, false)
    else if one_of units ns_names
    then (uot_ns, false)
    else (uot_s, true)

-- A missing key of the map reads as 0.
abbrev pub unitmultiplier : UnitOfTime → ℕ
unitmultiplier u =
    if u == uot_ns
    then 1000000000
    else if u == uot_us
    then 1000000
    else if u == uot_ms
    then 1000
    else if u == uot_s
    then 1
    else 0

abbrev or_time : Bool → ℤ → ℤ → ℤ × Bool
or_time true returned time = (time, true)
or_time false returned time = (returned, false)

-- The time in the target unit and whether there was an error; a division by zero panics.
unfoldable pub convert_time : ℤ → UnitOfTime → UnitOfTime → Outcome (ℤ × Bool)
convert_time time stream_uot target_uot =
    if stream_uot == target_uot
    then ok (time, false)
    else if ltb target_uot stream_uot
    then (if unitmultiplier stream_uot == 0
        then panic
        else let returned =
            wrap64 (time *ℤ (unitmultiplier target_uot / unitmultiplier stream_uot)) in
          ok (or_time (ltb_ℤ returned time) returned time))
    else if unitmultiplier target_uot == 0
    then panic
    else let width = unitmultiplier stream_uot / unitmultiplier target_uot in
      if width == 0
      then panic
      else let returned = quot time width in ok (or_time (ltb_ℤ time returned) returned time)

-- A time.Time is its distance from 1970-01-01 UTC in nanoseconds: time.Unix(0, n) is n.
abbrev pub Time : Type 0
Time = ℤ

-- t.UnixNano()
abbrev pub unix_nano : Time → ℤ
unix_nano t = wrap64 t

unfoldable pub time_as_unit : Time → UnitOfTime → ℤ
time_as_unit t unit =
    if unit == uot_s
    then floor_div t 1000000000
    else if unit == uot_ms
    then quot (unix_nano t) 1000000
    else if unit == uot_us
    then quot (unix_nano t) 1000
    else if unit == uot_ns
    then unix_nano t
    else pos 0

-- UnitOfTime.String
unfoldable pub to_string : UnitOfTime → Str
to_string u =
    if u == uot_ns
    then codes "ns"
    else if u == uot_us
    then codes "us"
    else if u == uot_ms
    then codes "ms"
    else if u == uot_s
    then codes "s"
    else []

unfoldable pub marshal_json : UnitOfTime → Str
marshal_json u =
    if u == uot_ns
    then codes "\"ns\""
    else if u == uot_us
    then codes "\"us\""
    else if u == uot_ms
    then codes "\"ms\""
    else codes "\"s\""

-- strings.Trim at one byte
trim_left : Str → ℕ → Str
trim_left [] b = []
trim_left (c ∷ s) b = if c == b then trim_left s b else c ∷ s

trim_right : Str → ℕ → Str
trim_right [] b = []
trim_right (c ∷ s) b = let rest = trim_right s b in if is_empty rest && c == b then [] else c ∷ rest

unfoldable pub trim : Str → ℕ → Str
unfolding trim_left trim_right
trim s b = trim_right (trim_left s b) b

-- What *u holds afterwards, and whether there was an error.
unfoldable pub unmarshal_json : UnitOfTime → Str → UnitOfTime × Bool
unfolding trim str_eq
unmarshal_json u b =
    let str = trim b b'"' in
    if str_eq str (codes "ns")
    then (uot_ns, false)
    else if str_eq str (codes "us")
    then (uot_us, false)
    else if str_eq str (codes "ms")
    then (uot_ms, false)
    else if str_eq str (codes "s")
    then (uot_s, false)
    else (u, true)
