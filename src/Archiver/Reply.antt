-- ===== src/Archiver/Reply.antt =====
-- The reply to a query: listenQueries of archiver/archiver.go and the payload objects of
-- archiver/transforms.go.
pub mod Laws
use durandal.Prelude.{
  ℕ, zero, suc, ◌+◌, ◌-◌, ◌*◌, ◌/◌, ◌%◌, ◌^◌, ◌≤◌, ◌<◌, ◌≡◌, refl, sym, ap, ◌∙◌, ◌≢◌, ◌↔◌, ◌⊎◌, inl,
  inr, Bool, true, false, not, ◌&&◌, ◌||◌, Option, none, some, List, [], ◌∷◌, ◌++◌, map,
  append_assoc, append-nil, arith, ltb, leb, ◌==◌, if◌then◌else◌, Bool-cases, Option-cases, ==→eq,
  ==-refl, lt→ltb, length, get_elem?, take, drop, length-append, length-take, All, Any, All-append,
  Any-append_left, Any-append_right, All-take, All-map, All2, All2-map,
}
use durandal.Prelude.Int.{
  ℤ, pos, negsuc, pos_part, neg_part, sub_ℕ, ◌+ℤ◌, ◌-ℤ◌, ◌*ℤ◌, quot, floor_div, ◌≤ℤ◌, ◌<ℤ◌, ltb_ℤ,
  eqb_ℤ, bits64, wrap64, IsInt64, wrap64-eq_self,
}
use durandal.Prelude.Str.{
  Str, codes, str_eq, str_eq_refl, str_eq_iff, ne-str_eq, is_empty, has_prefix, index, last_index,
  has_suffix, trim_suffix, split, join, Lacks, split-join,
}
use durandal.Prelude.Dict
use durandal.Prelude.Dict.{Dict, dict_laws}
use durandal.Prelude.Outcome.{
  Outcome, ok, err, panic, ◌>>=◌, >>=-eq-ok, ok-injective, ok_some-injective,
}
use durandal.Common.UnitOfTime.{time_as_unit}
use durandal.Common.Uuid.{Uuid, UuidLib}
use durandal.Common.Value.{Value}
use durandal.Common.Timeseries.{
  Timeseries, TimeseriesReading, StatisticTimeseries, StatisticsReading, ChangedRange, ChangedSpan,
}
use durandal.Common.Metadata.{MetadataRecord, MetadataGroup}
use durandal.Dots.DisjointRanges.{Heap}
use durandal.Querylang.ParsedQuery.{ParsedQuery}
use durandal.Archiver.Stores.{Archiver}
use durandal.Archiver.Query.{QueryResults, handle_query}

pub record KeyValueQuery : Type 0 where
  pub query : Str
  pub nonce : ℕ

pub record KeyValueMetadata : Type 0 where
  pub uuid : Str
  pub path : Str
  pub metadata : Dict Value

-- The types Timeseries, Statistics and ChangedRange of archiver/bw_messages.go.
pub record SeriesReply (F : Type 0) : Type 0 where
  pub uuid : Str
  pub path : Str
  pub generation : ℕ
  pub times : List ℤ
  pub values : List F

pub record StatisticsReply (F : Type 0) : Type 0 where
  pub uuid : Str
  pub generation : ℕ
  pub times : List ℕ
  pub count : List ℕ
  pub min_values : List F
  pub mean : List F
  pub max_values : List F

pub record ChangedReply : Type 0 where
  pub uuid : Str
  pub start_time : ℤ
  pub end_time : ℤ
  pub generation : ℕ

-- A payload object by the message that it encodes.
pub data Payload (F : Type 0) : Type 0 where
  metadata_result : (nonce : ℕ) → List KeyValueMetadata → Payload F
  timeseries_result : (nonce : ℕ) → List (SeriesReply F) → List (StatisticsReply F) → Payload F
  changed_result : (nonce : ℕ) → List ChangedReply → Payload F
  query_error : (query : Str) (nonce : ℕ) (text : Str) → Payload F

-- What GetOnePODF and ValueInto make of a message.
pub data Received : Type 0 where
  no_payload not_msgpack not_readable : Received
  key_value_query : KeyValueQuery → Received

record_values : Dict MetadataRecord → Dict Value → Dict Value
record_values [] metadata = metadata
record_values ((k, rec) ∷ records) metadata =
    record_values records (Dict.put rec.key rec.value metadata)

module _ (lib : UuidLib) where
  metadata_of : MetadataGroup → KeyValueMetadata
  unfolding record_values
  metadata_of group = record {
    uuid = lib.to_string group.uuid;
    path = group.uri;
    metadata = record_values group.records [];
  }

  spans_of : Uuid → List ChangedSpan → List ChangedReply
  spans_of uuid [] = []
  spans_of uuid (rng ∷ ranges) =
      record {
        uuid = lib.to_string uuid;
        start_time = rng.start_time;
        end_time = rng.end_time;
        generation = rng.generation;
      }
      ∷ spans_of uuid ranges

  changed_of : List ChangedRange → List ChangedReply
  unfolding spans_of
  changed_of [] = []
  changed_of (group ∷ groups) = spans_of group.uuid group.ranges ++ changed_of groups

  module _ {F : Type 0} where
    unfoldable pub append_readings : List (TimeseriesReading F) → SeriesReply F → SeriesReply F
    append_readings [] ts = ts
    append_readings (rdg ∷ records) ts = append_readings records (record ts {
      times = ts.times ++ time_as_unit rdg.time rdg.unit ∷ [];
      values = ts.values ++ rdg.value ∷ [];
    })

    unfoldable pub series_of : Timeseries F → SeriesReply F
    unfolding append_readings
    series_of group = append_readings group.records (record {
      uuid = lib.to_string group.uuid;
      path = group.src_uri;
      generation = group.generation;
      times = [];
      values = [];
    })

    unfoldable pub append_statistics :
        List (StatisticsReading F) → StatisticsReply F → StatisticsReply F
    append_statistics [] ts = ts
    append_statistics (rdg ∷ records) ts = append_statistics records (record ts {
      times = ts.times ++ bits64 (time_as_unit rdg.time rdg.unit) ∷ [];
      count = ts.count ++ rdg.count ∷ [];
      min_values = ts.min_values ++ rdg.min ∷ [];
      mean = ts.mean ++ rdg.mean ∷ [];
      max_values = ts.max_values ++ rdg.max ∷ [];
    })

    unfoldable pub statistics_of : StatisticTimeseries F → StatisticsReply F
    unfolding append_statistics
    statistics_of group = append_statistics group.records (record {
      uuid = lib.to_string group.uuid;
      generation = group.generation;
      times = [];
      count = [];
      min_values = [];
      mean = [];
      max_values = [];
    })

    unfoldable pub pos_from_metadata_group : ℕ → List MetadataGroup → Payload F
    unfolding metadata_of
    pos_from_metadata_group nonce groups = metadata_result nonce (map metadata_of groups)

    unfoldable pub pos_from_timeseries_group :
        ℕ → List (Timeseries F) → List (StatisticTimeseries F) → Payload F
    unfolding series_of statistics_of
    pos_from_timeseries_group nonce ts_groups stats_groups =
        timeseries_result nonce (map series_of ts_groups) (map statistics_of stats_groups)

    unfoldable pub pos_from_changed_group : ℕ → List ChangedRange → Payload F
    unfolding changed_of
    pos_from_changed_group nonce groups = changed_result nonce (changed_of groups)

    -- The replies in their order; empty metadata if there is nothing else.
    unfoldable pub assemble : ℕ → QueryResults F → List (Payload F)
    unfolding pos_from_metadata_group pos_from_timeseries_group pos_from_changed_group
    assemble nonce r =
        let md =
          if length r.md_result == 0 then [] else pos_from_metadata_group nonce r.md_result ∷ [] in
        let ts =
          if length r.ts_result + length r.stats_result == 0
          then md
          else md ++ pos_from_timeseries_group nonce r.ts_result r.stats_result ∷ [] in
        let reply =
          if length r.changed_result == 0
          then ts
          else ts ++ pos_from_changed_group nonce r.changed_result ∷ [] in
        if length reply == 0 then pos_from_metadata_group nonce r.md_result ∷ [] else reply

-- fromVK[:len(fromVK)-1] + ",queries"
unfoldable pub signal_uri : Str → Outcome Str
signal_uri [] = panic
signal_uri (c ∷ vk) = ok (take (length vk) (c ∷ vk) ++ codes ",queries")

module _ {F : Type 0} (a : Archiver F) where
  -- An error of the query is a reply; a panic stays one.
  unfoldable pub reply_to : KeyValueQuery → Outcome (QueryResults F) → Outcome (List (Payload F))
  unfolding assemble
  reply_to q (ok results) = ok (assemble a.uuid_lib q.nonce results)
  reply_to q (err e) = ok (query_error q.query q.nonce e ∷ [])
  reply_to q panic = panic

  unfoldable pub answer :
      (Str → ParsedQuery) → Str → KeyValueQuery → Heap → ℕ → Outcome (Str × List (Payload F))
  unfolding signal_uri reply_to
  answer parse from q h next = do
    signal ← signal_uri from
    payloads ← reply_to q (handle_query a parse from q.query h next)
    ok (signal, payloads)

  -- What is published for a message, and where. A payload that is no msgpack is logged, and the empty
  -- query is answered in its place.
  unfoldable pub listen_queries :
      (Str → ParsedQuery) → Str → Received → Heap → ℕ → Outcome (Option (Str × List (Payload F)))
  unfolding answer
  listen_queries parse from no_payload h next = ok none
  listen_queries parse from not_readable h next = ok none
  listen_queries parse from not_msgpack h next = do
    published ← answer parse from (record { query = []; nonce = 0 }) h next
    ok (some published)
  listen_queries parse from (key_value_query q) h next = do
    published ← answer parse from q h next
    ok (some published)
