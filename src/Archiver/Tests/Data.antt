-- ===== src/Archiver/Tests/Data.antt =====
-- The archiver of the tests: a store with one reading for every range.
use durandal.Prelude.{ℕ, suc, true, false, some, List, [], ◌∷◌, if◌then◌else◌}
use durandal.Prelude.Int.{ℤ, pos, ltb_ℤ}
use durandal.Prelude.Str.{Str, codes}
use durandal.Prelude.Outcome.{Outcome, ok}
use durandal.Common.UnitOfTime.{uot_ns}
use durandal.Common.Uuid.{Uuid, plain_uuids}
use durandal.Common.Timeseries.{Timeseries, TimeseriesReading, empty_statistics}
use durandal.Dots.TimeRange.{new_time_range_nano}
use durandal.Dots.DisjointRanges.{Heap, write}
use durandal.Dots.Master.ValidRanges.{Ranges}
use durandal.Archiver.Stores.{Archiver, MetadataStore, TimeseriesStore}

abbrev pub V : Type 0
V = Unit {0}

abbrev pub reading : ℤ → TimeseriesReading V
reading t = record { time = t; unit = uot_ns; value = tt }

abbrev pub series : Uuid → List (TimeseriesReading V) → Timeseries V
series uuid records = record { records = records; generation = 1; src_uri = []; uuid = uuid }

abbrev pub one_stream : MetadataStore
one_stream = record {
  get_metadata = λ vk tags w. ok [];
  get_distinct = λ vk tag w. ok [];
  get_uuids = λ vk w. ok (codes "u" ∷ []);
  uri_from_uuid = λ u. ok (codes "ns/a");
}

-- A store with a reading at the start of every range.
abbrev pub starts : TimeseriesStore V
starts = record {
  prev = λ us t. ok ([], true);
  next = λ us t. ok ([], false);
  get_data_uuid = λ u s e unit. ok (series u (if ltb_ℤ e s then [] else reading s ∷ []));
  statistical_data_uuid = λ u w s e unit. ok empty_statistics;
  window_data_uuid = λ u w s e unit. ok empty_statistics;
  changed_ranges = λ us f t r. ok [];
}

-- The key may read the first 10^19 ns.. of every stream.
abbrev pub all_valid : Str → Heap → ℕ → Outcome Ranges
all_valid uri h free = ok (record {
  heap = write h free (new_time_range_nano (pos 0) (pos 9000000000000000000));
  next = suc free;
  refs = some free ∷ [];
})

abbrev pub demo : Archiver V
demo = record {
  uuid_lib = plain_uuids;
  md = one_stream;
  ts = starts;
  valid_ranges = all_valid;
  read_allowed = λ uri. true;
}

abbrev pub empty_heap : Heap
empty_heap p = new_time_range_nano (pos 0) (pos 0)
