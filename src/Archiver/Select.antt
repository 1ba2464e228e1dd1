-- ===== src/Archiver/Select.antt =====
-- SelectDataRange and SelectStatisticalData of archiver/api.go. The requested range is one object: the
-- loop over the streams passes the heap on, so that a stream sees what GetOverlap left of it. A result
-- that goes with an error is not kept.
pub mod InRange
pub mod Laws
pub mod Limit
use durandal.Prelude.{
  ℕ, zero, suc, ◌+◌, ◌-◌, ◌*◌, ◌/◌, ◌%◌, ◌^◌, ◌≤◌, ◌<◌, ◌≡◌, refl, sym, ap, ◌∙◌, ◌≢◌, ◌↔◌, ◌⊎◌, inl,
  inr, Bool, true, false, not, ◌&&◌, ◌||◌, Option, none, some, List, [], ◌∷◌, ◌++◌, map,
  append_assoc, append-nil, arith, ltb, leb, ◌==◌, if◌then◌else◌, Bool-cases, Option-cases, ==→eq,
  ==-refl, length, get_elem?, take, drop, length-append, length-take, All, Any, All-append,
  Any-append_left, Any-append_right,
}
use durandal.Prelude.Int.{
  ℤ, pos, negsuc, pos_part, neg_part, sub_ℕ, ◌+ℤ◌, ◌-ℤ◌, ◌*ℤ◌, quot, floor_div, ◌≤ℤ◌, ◌<ℤ◌, ltb_ℤ,
  eqb_ℤ, bits64, wrap64, IsInt64, wrap64-eq_self,
}
use durandal.Prelude.Str.{
  Str, codes, str_eq, str_eq_refl, str_eq_iff, ne-str_eq, is_empty, has_prefix, index, last_index,
  has_suffix, trim_suffix, split, join, Lacks, split-join,
}
use durandal.Prelude.Dict
use durandal.Prelude.Dict.{Dict, dict_laws}
use durandal.Prelude.Outcome.{
  Outcome, ok, err, panic, ◌>>=◌, >>=-eq-ok, ok-injective, ok_some-injective,
}
use durandal.Common.UnitOfTime.{UnitOfTime, unix_nano}
use durandal.Common.Uuid.{Uuid, UuidLib}
use durandal.Common.Timeseries.{
  Timeseries, StatisticTimeseries, empty_timeseries, empty_statistics, extend, extend_statistics,
}
use durandal.Common.Params.{DataParams}
use durandal.Dots.TimeRange.{TimeRange, new_time_range_nano}
use durandal.Dots.DisjointRanges.{Ref, Heap, write, read, get_overlap}
use durandal.Archiver.Stores.{Archiver}
use durandal.Archiver.Prepare.{prepare_data_params}

-- records[:limit] behind the check of the limit
abbrev pub limit_records {ℓ} : {A : Type ℓ} → ℤ → List A → List A
limit_records limit records =
    if ltb_ℤ (pos 0) limit && ltb_ℤ limit (pos (length records))
    then take (pos_part limit) records
    else records

module _ {F : Type 0} (a : Archiver F) where
  -- The loop over the valid ranges of one stream.
  unfoldable pub read_ranges :
      DataParams → Uuid → Heap → List Ref → Timeseries F → Outcome (Timeseries F)
  read_ranges params uuid h [] result = ok result
  read_ranges params uuid h (x ∷ refs) result = do
    rng ← read h x
    tsresult ←
        a.ts.get_data_uuid uuid (unix_nano rng.start) (unix_nano rng.end) params.convert_to_unit
    let extended = extend a.uuid_lib result tsresult
    read_ranges params uuid h refs
        (record extended { records = limit_records params.data_limit extended.records })

  -- The loop over the streams; the requested range is at the address `p`.
  unfoldable pub select_streams :
      DataParams → ℕ → List Uuid → Heap → ℕ → Outcome (List (Timeseries F))
  unfolding read_ranges
  select_streams params p [] h next = ok []
  select_streams params p (uuid ∷ uuids) h next = do
    uri ← a.md.uri_from_uuid uuid
    valid ← a.valid_ranges uri h next
    overlap ← get_overlap valid.heap valid.refs (some p)
    result ← read_ranges params uuid overlap.0 overlap.1 empty_timeseries
    rest ← select_streams params p uuids overlap.0 valid.next
    ok (result ∷ rest)

  unfoldable pub select_data_range : DataParams → Heap → ℕ → Outcome (List (Timeseries F))
  unfolding select_streams
  select_data_range params h next = do
    q ← prepare_data_params a.md params
    select_streams q next q.uuids (write h next (new_time_range_nano q.begin q.end)) (suc next)

  -- The query of the store for one range; with neither flag it is not asked.
  unfoldable pub read_statistics : DataParams → Uuid → TimeRange → Outcome (StatisticTimeseries F)
  read_statistics params uuid rng =
      if params.is_statistical
      then a.ts.statistical_data_uuid uuid params.point_width (unix_nano rng.start)
          (unix_nano rng.end) params.convert_to_unit
      else if params.is_window
      then a.ts.window_data_uuid uuid params.width (unix_nano rng.start) (unix_nano rng.end)
          params.convert_to_unit
      else ok empty_statistics

  unfoldable pub read_statistics_ranges :
      DataParams → Uuid → Heap → List Ref → StatisticTimeseries F → Outcome (StatisticTimeseries F)
  unfolding read_statistics
  read_statistics_ranges params uuid h [] result = ok result
  read_statistics_ranges params uuid h (x ∷ refs) result = do
    rng ← read h x
    tsresult ← read_statistics params uuid rng
    let extended = extend_statistics a.uuid_lib result tsresult
    read_statistics_ranges params uuid h refs
        (record extended { records = limit_records params.data_limit extended.records })

  unfoldable pub select_statistics :
      DataParams → ℕ → List Uuid → Heap → ℕ → Outcome (List (StatisticTimeseries F))
  unfolding read_statistics_ranges
  select_statistics params p [] h next = ok []
  select_statistics params p (uuid ∷ uuids) h next = do
    uri ← a.md.uri_from_uuid uuid
    valid ← a.valid_ranges uri h next
    overlap ← get_overlap valid.heap valid.refs (some p)
    result ← read_statistics_ranges params uuid overlap.0 overlap.1 empty_statistics
    rest ← select_statistics params p uuids overlap.0 valid.next
    ok (result ∷ rest)

  unfoldable pub select_statistical_data :
      DataParams → Heap → ℕ → Outcome (List (StatisticTimeseries F))
  unfolding select_statistics
  select_statistical_data params h next = do
    q ← prepare_data_params a.md params
    select_statistics q next q.uuids (write h next (new_time_range_nano q.begin q.end)) (suc next)
