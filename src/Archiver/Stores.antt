-- ===== src/Archiver/Stores.antt =====
-- The interfaces MetadataStore and TimeseriesStore of archiver/interfaces.go as the queries use
-- them, and the ranges and permissions of dots behind the two questions that the archiver asks.
use durandal.Prelude.{ℕ, Bool, List}
use durandal.Prelude.Int.{ℤ}
use durandal.Prelude.Str.{Str}
use durandal.Prelude.Outcome.{Outcome}
use durandal.Common.UnitOfTime.{UnitOfTime}
use durandal.Common.Uuid.{Uuid, UuidLib}
use durandal.Common.Value.{Fields}
use durandal.Common.Metadata.{MetadataGroup}
use durandal.Common.Timeseries.{Timeseries, StatisticTimeseries, ChangedRange}
use durandal.Dots.DisjointRanges.{Heap}
use durandal.Dots.Master.ValidRanges.{Ranges}

pub record MetadataStore : Type 0 where
  pub get_metadata : Str → List Str → Fields → Outcome (List MetadataGroup)
  pub get_distinct : Str → Str → Fields → Outcome (List Str)
  pub get_uuids : Str → Fields → Outcome (List Uuid)
  pub uri_from_uuid : Uuid → Outcome Str

pub record TimeseriesStore (F : Type 0) : Type 0 where
  -- the readings, and whether an error goes with them
  pub prev : List Uuid → ℤ → Outcome (List (Timeseries F) × Bool)
  pub next : List Uuid → ℤ → Outcome (List (Timeseries F) × Bool)
  pub get_data_uuid : Uuid → ℤ → ℤ → UnitOfTime → Outcome (Timeseries F)
  pub statistical_data_uuid : Uuid → ℤ → ℤ → ℤ → UnitOfTime → Outcome (StatisticTimeseries F)
  pub window_data_uuid : Uuid → ℕ → ℤ → ℤ → UnitOfTime → Outcome (StatisticTimeseries F)
  pub changed_ranges : List Uuid → ℕ → ℕ → ℕ → Outcome (List ChangedRange)

-- The archiver of one query: its stores, and GetValidRanges and CanRead for the key that asks, at a
-- heap and the next free address.
pub record Archiver (F : Type 0) : Type 0 where
  pub uuid_lib : UuidLib
  pub md : MetadataStore
  pub ts : TimeseriesStore F
  pub valid_ranges : Str → Heap → ℕ → Outcome Ranges
  pub read_allowed : Str → Bool
