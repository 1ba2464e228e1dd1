-- ===== src/Common/Timeseries.antt =====
-- The series of common/timeseries.go. `F` stands for float64, whose values are only carried.
pub mod Extend
use durandal.Prelude.{
  ℕ, zero, suc, ◌+◌, ◌-◌, ◌*◌, ◌/◌, ◌%◌, ◌^◌, ◌≤◌, ◌<◌, ◌≡◌, refl, sym, ap, ◌∙◌, ◌≢◌, ◌↔◌, ◌⊎◌, inl,
  inr, Bool, true, false, not, ◌&&◌, ◌||◌, Option, none, some, List, [], ◌∷◌, ◌++◌, map,
  append_assoc, append-nil, arith, ltb, leb, ◌==◌, if◌then◌else◌, Bool-cases, Option-cases, length,
  get_elem?, take, drop, length-append, length-take, All, Any,
}
use durandal.Prelude.Int.{
  ℤ, pos, negsuc, pos_part, neg_part, sub_ℕ, ◌+ℤ◌, ◌-ℤ◌, ◌*ℤ◌, quot, floor_div, ◌≤ℤ◌, ◌<ℤ◌, ltb_ℤ,
  eqb_ℤ, bits64, wrap64, IsInt64, wrap64-eq_self,
}
use durandal.Prelude.Str.{
  Str, codes, str_eq, str_eq_refl, str_eq_iff, is_empty, has_prefix, index, last_index, has_suffix,
  trim_suffix, split, join,
}
use durandal.Prelude.Dict
use durandal.Prelude.Dict.{Dict, dict_laws}
use durandal.Prelude.Outcome.{Outcome, ok, err, panic, ◌>>=◌}
use durandal.Common.UnitOfTime.{UnitOfTime, Time}
use durandal.Common.Uuid.{Uuid, UuidLib}

pub record TimeseriesReading (F : Type 0) : Type 0 where
  pub time : Time
  pub unit : UnitOfTime
  pub value : F

pub record StatisticsReading (F : Type 0) : Type 0 where
  pub time : Time
  pub unit : UnitOfTime
  pub count : ℕ
  pub min : F
  pub mean : F
  pub max : F

pub record Timeseries (F : Type 0) : Type 0 where
  pub records : List (TimeseriesReading F)
  pub generation : ℕ
  pub src_uri : Str
  pub uuid : Uuid

pub record StatisticTimeseries (F : Type 0) : Type 0 where
  pub records : List (StatisticsReading F)
  pub generation : ℕ
  pub src_uri : Str
  pub uuid : Uuid

-- The range [start_time, end_time) that a store reports as changed.
pub record ChangedSpan : Type 0 where
  pub start_time : ℤ
  pub end_time : ℤ
  pub generation : ℕ

pub record ChangedRange : Type 0 where
  pub ranges : List ChangedSpan
  pub uuid : Uuid

module _ {F : Type 0} where
  -- Timeseries{}
  abbrev pub empty_timeseries : Timeseries F
  empty_timeseries = record { records = []; generation = 0; src_uri = []; uuid = [] }

  abbrev pub empty_statistics : StatisticTimeseries F
  empty_statistics = record { records = []; generation = 0; src_uri = []; uuid = [] }

  -- A copy shares the readings, and has a slice of its own.
  unfoldable pub copy : Timeseries F → Timeseries F
  copy ts = record {
    records = take (length ts.records) ts.records;
    generation = ts.generation;
    src_uri = ts.src_uri;
    uuid = ts.uuid;
  }

  unfoldable pub add_record : Timeseries F → TimeseriesReading F → Timeseries F
  add_record ts rec = record ts { records = ts.records ++ rec ∷ [] }

  unfoldable pub add_statistics :
      StatisticTimeseries F → StatisticsReading F → StatisticTimeseries F
  add_statistics ts rec = record ts { records = ts.records ++ rec ∷ [] }

  unfoldable pub num_readings : Timeseries F → ℕ
  num_readings ts = length ts.records

  unfoldable pub num_statistics : StatisticTimeseries F → ℕ
  num_statistics ts = length ts.records

  -- The order that sort.Sort uses.
  abbrev pub less : TimeseriesReading F → TimeseriesReading F → Bool
  less a b = ltb_ℤ a.time b.time

module _ (lib : UuidLib) {F : Type 0} where
  unfoldable pub extend : Timeseries F → Timeseries F → Timeseries F
  extend ts newts =
      let owner = if is_empty ts.uuid then newts.uuid else ts.uuid in
      if not (lib.equal owner newts.uuid) then record ts { uuid = owner } else record {
        records = ts.records ++ newts.records;
        generation = if ltb ts.generation newts.generation then newts.generation else ts.generation;
        src_uri = ts.src_uri;
        uuid = owner;
      }

  unfoldable pub extend_statistics :
      StatisticTimeseries F → StatisticTimeseries F → StatisticTimeseries F
  extend_statistics ts newts =
      let owner = if is_empty ts.uuid then newts.uuid else ts.uuid in
      if not (lib.equal owner newts.uuid) then record ts { uuid = owner } else record {
        records = ts.records ++ newts.records;
        generation = if ltb ts.generation newts.generation then newts.generation else ts.generation;
        src_uri = ts.src_uri;
        uuid = owner;
      }
