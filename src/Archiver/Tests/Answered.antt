-- ===== src/Archiver/Tests/Answered.antt =====
-- Tests of the handling of queries and of the replies.
use durandal.Prelude.{
  ◌*◌, ◌<◌, ◌≡◌, refl, ◌≢◌, false, Option, none, some, List, [], ◌∷◌, ◌++◌, arith, take,
}
use durandal.Prelude.Int.{pos, negsuc, ◌*ℤ◌, bits64, wrap64}
use durandal.Prelude.Str.{Str, codes}
use durandal.Prelude.Outcome.{ok, panic, ◌>>=◌}
use durandal.Common.UnitOfTime.{uot_ns, guess_time_unit, convert_time}
use durandal.Common.UnitOfTime.Exact.{ns_per}
use durandal.Common.Value.{Fields, str}
use durandal.Common.Params.{DataParams, data_params}
use durandal.Querylang.ParsedQuery.{
  ParsedQuery, DataQuery, data_type, before_type, zero_params, get_params,
}
use durandal.Archiver.Prepare.{prepare_data_params, evaluate_where, checked}
use durandal.Archiver.Prepare.Laws.{Matched, zero_time_nano}
use durandal.Archiver.Mask.{mask_timeseries, pack_results, select_data_before}
use durandal.Archiver.Query.{no_results, handle_query}
use durandal.Archiver.Query.Kinds.{Only, handle_query-Only}
use durandal.Archiver.Query.Laws.{select_data_before_reference, handle_query_failure}
use durandal.Archiver.Reply.{KeyValueQuery, Payload, key_value_query, listen_queries}
use durandal.Archiver.Reply.Laws.{OneReply, listen_queries-OneReply}
use durandal.Archiver.Tests.Data.{V, one_stream, starts, demo, empty_heap}

abbrev before_query : DataQuery
before_query = record {
  dtype = before_type;
  start = pos 1500000000000000000;
  end = negsuc 62135596799999999999;
  limit = record { limit = pos 0; streamlimit = pos 0 };
  timeconv = uot_ns;
  is_statistical = false;
  is_window = false;
  is_changed_ranges = false;
  from_gen = 0;
  to_gen = 0;
  resolution = 0;
  width = 0;
  point_width = pos 0;
}

abbrev parsed_as : Option DataQuery → Option Str → ParsedQuery
parsed_as d e = record {
  query_type = data_type;
  keys = [];
  target = [];
  where_clause = Fields.field (codes "k") (str (codes "v")) Fields.end;
  distinct = false;
  data_query = d;
  err_text = e;
  err_pos = [];
  querystring = [];
}

abbrev parse_before : Str → ParsedQuery
parse_before query = parsed_as (some before_query) none

abbrev before_params : DataParams
before_params = record zero_params {
  where_clause = Fields.field (codes "k") (str (codes "v")) Fields.end;
  begin = pos 1500000000000000000;
  end = zero_time_nano;
  convert_to_unit = uot_ns;
}

late : 697879660364562432 < 1500000000000000000 * ns_per (guess_time_unit (pos 1500000000000000000))
unfolding guess_time_unit
late = omega arith

before-Matched : Matched one_stream before_params (codes "u" ∷ [])
unfolding evaluate_where
before-Matched = refl

select_data_before_reference_example :
    (q : DataParams) × (prepare_data_params one_stream before_params ≡ ok q)
    × (select_data_before demo before_params empty_heap 0 ≡ (do
      result ← starts.prev q.uuids (pos 697879660364562432)
      mask_timeseries demo (pack_results q result.0) empty_heap 0))
select_data_before_reference_example =
    select_data_before_reference demo before_params (codes "u" ∷ []) empty_heap 0
      1500000000000000000 before-Matched refl refl (omega arith) late

abbrev before_prepared : DataParams
before_prepared = record before_params {
  uuids = codes "u" ∷ [];
  begin = pos 697879660364562432;
  end = pos 1500000000000000000;
}

before_is_prepared : prepare_data_params one_stream before_params ≡ ok before_prepared
unfolding prepare_data_params checked guess_time_unit convert_time wrap64 bits64 ◌*ℤ◌
before_is_prepared = refl

before_gets : get_params (parse_before []) ≡ ok (some (data_params before_params))
unfolding get_params wrap64 bits64
before_gets = refl

handle_query_failure_example :
    handle_query demo parse_before (codes "vk") [] empty_heap 0 ≡ ok (no_results demo)
handle_query_failure_example =
    handle_query_failure demo parse_before (codes "vk") [] before_query before_params
      before_prepared empty_heap 0 refl refl refl before_gets refl refl before_is_prepared refl

-- The same query, by the theorem's statement, as a test that other examples may use.
before_answered : handle_query demo parse_before (codes "vk") [] empty_heap 0 ≡ ok (no_results demo)
before_answered =
    handle_query_failure demo parse_before (codes "vk") [] before_query before_params
      before_prepared empty_heap 0 refl refl refl before_gets refl refl before_is_prepared refl

handle_query-Only_example : Only demo (no_results demo)
handle_query-Only_example =
    handle_query-Only demo parse_before (codes "vk") [] empty_heap 0 (no_results demo)
      before_answered

abbrev question : KeyValueQuery
question = record { query = []; nonce = 7 }

answered : handle_query demo parse_before (codes "vk") [] empty_heap 0 ≢ panic
answered e = cc (before_answered)

listen_queries-OneReply_example :
    (ps : List (Payload V)) × OneReply 7 ps
    × (listen_queries demo parse_before (codes "vk") (key_value_query question) empty_heap 0
        ≡ ok (some (take 1 (codes "vk") ++ codes ",queries", ps)))
listen_queries-OneReply_example =
    listen_queries-OneReply demo parse_before b'v' (codes "k") question empty_heap 0 answered
