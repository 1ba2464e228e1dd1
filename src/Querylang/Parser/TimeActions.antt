-- ===== src/Querylang/Parser/TimeActions.antt =====
-- The actions for times, limits and units in querylang/query.go, by the numbers of the switch.
use durandal.Prelude.{◌+◌, true, Option, none, some, List, [], ◌∷◌}
use durandal.Prelude.Int.{ℤ, pos, negsuc}
use durandal.Prelude.Str.{Str}
use durandal.Prelude.Outcome.{Outcome, ok, ◌>>=◌}
use durandal.Common.ParseInt.{int64_half}
use durandal.Common.UnitOfTime.{Time, uot_ns}
use durandal.Common.TimeText.{zero_time, unix, parse_abs_time, add_durations}
use durandal.Querylang.ParsedQuery.{Limit}
use durandal.Querylang.Parser.Lexer.{ParseError, Meaning}
use durandal.Querylang.Parser.Values.{
  SymType, str_of, time_of, timediff_of, dollar, Clock, report, read_integer, read_reltime,
  read_unit, add_time,
}
use durandal.Querylang.Parser.Actions.{Action, keep}

-- ParseAbsTime of a number with a unit, and its error
unfoldable pub read_abstime : Str → Str → Meaning → Outcome (Time × Meaning)
read_abstime num units m = do
  (t, bad) ← parse_abs_time num units
  ok (t, report bad (ParseError.bad_abstime num units) m)

-- An unsupported format leaves the zero time.
abbrev pub format_result : Option Time → Str → Meaning → Time × Meaning
format_result (some t) text m = (t, m)
format_result none text m = (zero_time, report true (ParseError.bad_format text) m)

module _ (clock : Clock) where
  abbrev pub read_format : Str → Meaning → Time × Meaning
  read_format text m = format_result (clock.parse_formats text) text m

  -- time.Now
  abbrev pub read_now : Meaning → Time × Meaning
  read_now m = (clock.now m.reads, record m { reads = m.reads + 1 })

  -- 23 to 28, timeref and abstime
  unfoldable pub time_actions : List Action
  time_actions =
      (λ d m. keep (SymType.time (time_of (dollar d 1))) m)
      ∷ (λ d m. keep (SymType.time (add_time (time_of (dollar d 1)) (timediff_of (dollar d 2)))) m)
      ∷ (λ d m. do
        (t, m') ← read_abstime (str_of (dollar d 1)) (str_of (dollar d 2)) m
        keep (SymType.time t) m')
      ∷ (λ d m.
          let (num, m') = read_integer (str_of (dollar d 1)) int64_half (str_of (dollar d 1)) m in
          keep (SymType.time (unix num (pos 0))) m')
      ∷ (λ d m. let (t, m') = read_format (str_of (dollar d 1)) m in keep (SymType.time t) m')
      ∷ (λ d m. let (t, m') = read_now m in keep (SymType.time t) m')
      ∷ []

-- 29 and 30, reltime
unfoldable pub reltime_actions : List Action
reltime_actions =
    (λ d m.
      let (t, m') = read_reltime (str_of (dollar d 1)) (str_of (dollar d 2)) m in
      keep (SymType.timediff t) m')
    ∷ (λ d m.
        let (t, m') = read_reltime (str_of (dollar d 1)) (str_of (dollar d 2)) m in
        keep (SymType.timediff (add_durations t (timediff_of (dollar d 3)))) m')
    ∷ []

abbrev pub limit_with : ℤ → ℤ → Limit
limit_with limit streamlimit = record { limit = limit; streamlimit = streamlimit }

-- 31 to 34, limit; the text for a bad second number quotes the first
unfoldable pub limit_actions : List Action
limit_actions =
    (λ d m. keep (SymType.limit (limit_with (negsuc 0) (negsuc 0))) m)
    ∷ (λ d m.
        let (num, m') = read_integer (str_of (dollar d 2)) int64_half (str_of (dollar d 2)) m in
        keep (SymType.limit (limit_with num (negsuc 0))) m')
    ∷ (λ d m.
        let (num, m') = read_integer (str_of (dollar d 2)) int64_half (str_of (dollar d 2)) m in
        keep (SymType.limit (limit_with (negsuc 0) num)) m')
    ∷ (λ d m.
        let (limit, m1) = read_integer (str_of (dollar d 2)) int64_half (str_of (dollar d 2)) m in
        let (streamlimit, m2) =
          read_integer (str_of (dollar d 4)) int64_half (str_of (dollar d 2)) m1 in
        keep (SymType.limit (limit_with limit streamlimit)) m2)
    ∷ []

-- 35 and 36, timeconv
unfoldable pub timeconv_actions : List Action
timeconv_actions =
    (λ d m. keep (SymType.timeconv uot_ns) m)
    ∷ (λ d m. let (uot, m') = read_unit (str_of (dollar d 2)) m in keep (SymType.timeconv uot) m')
    ∷ []
