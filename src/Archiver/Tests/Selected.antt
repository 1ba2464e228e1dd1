-- ===== src/Archiver/Tests/Selected.antt =====
-- Tests of the selection and the masks of readings.
use durandal.Prelude.{
  ℕ, ◌*◌, ◌≤◌, ◌<◌, ◌≡◌, refl, ◌≢◌, Bool, true, false, some, List, [], ◌∷◌, ◌++◌, arith, ◌==◌,
  if◌then◌else◌, ==-refl, length, All, All2,
}
use durandal.Prelude.Int.{pos, ◌*ℤ◌, ◌≤ℤ◌, ◌<ℤ◌, ltb_ℤ, bits64, wrap64}
use durandal.Prelude.Str.{codes, str_eq}
use durandal.Prelude.Outcome.{ok, ok-injective}
use mathlib.Core.Path.{subst}
use durandal.Common.UnitOfTime.{guess_time_unit, convert_time}
use durandal.Common.UnitOfTime.Exact.{ns_per}
use durandal.Common.Timeseries.{Timeseries, TimeseriesReading, extend}
use durandal.Common.Params.{DataParams}
use durandal.Dots.TimeRange.{is_disjoint, intersect, new_time_range_nano}
use durandal.Dots.DisjointRanges.{Heap, write, merge, get_overlap}
use durandal.Dots.DisjointRanges.Clip.{Apart}
use durandal.Dots.DisjointRanges.Bounds.{Int64Ref}
use durandal.Dots.Master.ValidRanges.{Ranges}
use durandal.Querylang.ParsedQuery.{zero_params}
use durandal.Archiver.Prepare.{prepare_data_params, evaluate_where, limit_streams, checked}
use durandal.Archiver.Prepare.Laws.{Matched, MinMax, prepare_exact}
use durandal.Archiver.Select.{select_data_range, select_streams, read_ranges}
use durandal.Archiver.Select.InRange.{InRange, StoreInRange}
use durandal.Archiver.Select.Laws.{
  RangesApart, Confined, select_data_range-Confined, select_streams_shared,
}
use durandal.Archiver.Select.Limit.{AtMost, select_data_range-limit}
use durandal.Archiver.Mask.{sort_records, mask_ranges}
use durandal.Archiver.Mask.Laws.{mask_ranges-keeps_earlier}
use durandal.Archiver.Tests.Data.{V, reading, series, one_stream, demo, empty_heap}

abbrev asked : DataParams
asked = record zero_params {
  uuids = codes "u" ∷ codes "v" ∷ [];
  stream_limit = pos 1;
  data_limit = pos 5;
  begin = pos 1500000000;
  end = pos 1400000000;
}

abbrev prepared : DataParams
prepared = record asked {
  uuids = codes "u" ∷ [];
  begin = pos 1400000000000000000;
  end = pos 1500000000000000000;
}

asked-prepared : prepare_data_params one_stream asked ≡ ok prepared
unfolding prepare_data_params checked guess_time_unit convert_time wrap64 bits64 ◌*ℤ◌
asked-prepared = refl

matched : Matched one_stream asked (codes "u" ∷ codes "v" ∷ [])
unfolding evaluate_where
matched = refl

prepare_exact_example :
    (q : DataParams) × (prepare_data_params one_stream asked ≡ ok q)
    × MinMax
        (1500000000 * ns_per (guess_time_unit (pos 1500000000)))
        (1400000000 * ns_per (guess_time_unit (pos 1400000000)))
        q
    × (q.uuids ≡ limit_streams (pos 1) (codes "u" ∷ codes "v" ∷ []))
    × (pos 0 <ℤ pos 1 → length q.uuids ≤ 1)
prepare_exact_example =
    prepare_exact one_stream asked (codes "u" ∷ codes "v" ∷ []) 1500000000 1400000000 matched refl
      refl (omega arith) (omega arith)

starts-InRange : StoreInRange demo
starts-InRange u r unit ts e =
    subst (λ (t : Timeseries V). InRange r t) (ok-injective _ ts e)
      (by_order (ltb_ℤ r.end r.start) refl)
  where
    by_order :
        (b : Bool)
        → ltb_ℤ r.end r.start ≡ b
        → InRange r (series u (if b then [] else reading r.start ∷ []))
    by_order true k = tt
    by_order false k = ((omega arith, ground arith), tt)

demo-RangesApart : RangesApart demo
demo-RangesApart uri h free p rs lt e =
    subst
      (λ (x : Ranges).
        (x.heap p ≡ h p) × (p < x.next) × All (Apart p) x.refs × All (Int64Ref x.heap) x.refs)
      (ok-injective _ rs e)
      (
        rw (other free p lt) refl,
        omega arith,
        (less_ne p free lt, tt),
        (rw (==-refl free) (omega arith, omega arith), tt),
      )
  where
    other : (m n : ℕ) → n < m → (m == n) ≡ false
    other m n k = ground arith

    less_ne : (m n : ℕ) → m < n → m ≢ n
    less_ne m n k = ground arith

asked_found :
    select_data_range demo asked empty_heap 0
    ≡ ok (series (codes "u") (reading (pos 1400000000000000000) ∷ []) ∷ [])
unfolding select_data_range get_overlap merge is_disjoint intersect read_ranges extend str_eq wrap64
    bits64
asked_found = rw asked-prepared refl

abbrev found_series : List (Timeseries V)
found_series = series (codes "u") (reading (pos 1400000000000000000) ∷ []) ∷ []

select_data_range-Confined_example :
    All2
      (Confined demo (new_time_range_nano prepared.begin prepared.end))
      prepared.uuids
      found_series
select_data_range-Confined_example =
    select_data_range-Confined demo starts-InRange demo-RangesApart asked prepared empty_heap 0
      found_series asked-prepared (omega arith) (omega arith) asked_found

select_data_range-limit_example : All2 (λ u ts. AtMost demo (pos 5) ts) prepared.uuids found_series
select_data_range-limit_example =
    select_data_range-limit demo asked prepared empty_heap 0 found_series asked-prepared
      (omega arith) asked_found

abbrev request : Heap
request = write empty_heap 0 (new_time_range_nano (pos 10) (pos 20))

abbrev clipped : Heap
clipped =
    write (write request 1 (new_time_range_nano (pos 0) (pos 9000000000000000000))) 0
      (new_time_range_nano (pos 10) (pos 20))

abbrev both : List (Timeseries V)
both = series (codes "u") (reading (pos 10) ∷ []) ∷ series (codes "v") (reading (pos 10) ∷ []) ∷ []

overlap_of_first :
    get_overlap
      (write request 1 (new_time_range_nano (pos 0) (pos 9000000000000000000)))
      (some 1 ∷ [])
      (some 0)
    ≡ ok (clipped, some 0 ∷ [])
unfolding get_overlap merge is_disjoint intersect
overlap_of_first = refl

both_found : select_streams demo asked 0 (codes "u" ∷ codes "v" ∷ []) request 1 ≡ ok both
unfolding select_streams get_overlap merge is_disjoint intersect read_ranges extend str_eq wrap64
    bits64
both_found = refl

select_streams_shared_example :
    All2
      (Confined demo (clipped 0))
      (codes "v" ∷ [])
      (series (codes "v") (reading (pos 10) ∷ []) ∷ [])
select_streams_shared_example =
    select_streams_shared demo starts-InRange demo-RangesApart asked 0 (codes "u") (codes "v" ∷ [])
      request 1 (codes "ns/a") _ (clipped, some 0 ∷ []) _ _ (omega arith) (omega arith, omega arith)
      refl refl overlap_of_first both_found

abbrev early_readings : List (TimeseriesReading V)
early_readings = reading (pos 300) ∷ reading (pos 5) ∷ reading (pos 150) ∷ []

mask_ranges-keeps_earlier_example :
    (kept dropped : List (TimeseriesReading V)) × (mask_ranges
        (sort_records early_readings)
        (write empty_heap 3 (new_time_range_nano (pos 100) (pos 200)))
        (some 3 ∷ [])
        []
      ≡ ok kept)
    × (sort_records early_readings ≡ kept ++ dropped)
    × All (λ r. r.time ≤ℤ pos 200) kept
    × All (λ r. pos 200 <ℤ r.time) dropped
mask_ranges-keeps_earlier_example =
    mask_ranges-keeps_earlier early_readings
      (write empty_heap 3 (new_time_range_nano (pos 100) (pos 200))) 3

-- The reading at 5 is before the range [100, 200], and is kept.
keeps_reading_before_start :
    mask_ranges
      (sort_records early_readings)
      (write empty_heap 3 (new_time_range_nano (pos 100) (pos 200)))
      (some 3 ∷ [])
      []
    ≡ ok (reading (pos 5) ∷ reading (pos 150) ∷ [])
unfolding mask_ranges sort_records
keeps_reading_before_start = refl
