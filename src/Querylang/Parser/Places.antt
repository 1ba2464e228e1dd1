-- ===== src/Querylang/Parser/Places.antt =====
-- Where times stand in the tables of querylang/query.go: the states and the tokens around a time.
use durandal.Prelude.Int.{ℤ, pos}
use durandal.Querylang.Parser.Grammar.{Token}
use durandal.Querylang.Parser.Spelling.{
  comma_token, rparen_token, limit_token, streamlimit_token, as_token, where_token,
}

-- The states in which a time is expected, and the states behind it.
pub data TimePlace : Type 0 where
  in_first before_first after_first paren_first in_second paren_second statistical_first
        statistics_first window_first statistical_second statistics_second window_second :
      TimePlace

abbrev pub time_state : TimePlace → ℤ
time_state in_first = pos 23
time_state before_first = pos 24
time_state after_first = pos 25
time_state paren_first = pos 44
time_state in_second = pos 73
time_state paren_second = pos 96
time_state statistical_first = pos 122
time_state statistics_first = pos 123
time_state window_first = pos 129
time_state statistical_second = pos 132
time_state statistics_second = pos 133
time_state window_second = pos 138

abbrev pub behind_time : TimePlace → ℤ
behind_time in_first = pos 45
behind_time before_first = pos 51
behind_time after_first = pos 52
behind_time paren_first = pos 72
behind_time in_second = pos 97
behind_time paren_second = pos 110
behind_time statistical_first = pos 127
behind_time statistics_first = pos 128
behind_time window_first = pos 134
behind_time statistical_second = pos 136
behind_time statistics_second = pos 137
behind_time window_second = pos 141

-- What may follow a time, and its number.
pub data Stop : Type 0 where
  comma_next rparen_next limit_next streamlimit_next as_next where_next : Stop

abbrev pub stop_token : Stop → Token
stop_token comma_next = comma_token
stop_token rparen_next = rparen_token
stop_token limit_next = limit_token
stop_token streamlimit_next = streamlimit_token
stop_token as_next = as_token
stop_token where_next = where_token

abbrev pub stop_number : Stop → ℤ
stop_number comma_next = pos 23
stop_number rparen_next = pos 36
stop_number limit_next = pos 16
stop_number streamlimit_next = pos 17
stop_number as_next = pos 27
stop_number where_next = pos 12
