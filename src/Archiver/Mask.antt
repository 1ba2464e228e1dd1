-- ===== src/Archiver/Mask.antt =====
-- The queries for the reading before or after a time, and the masks of archiver/api.go: SelectDataBefore,
-- SelectDataAfter, packResults, maskTimeseriesByPermission and maskMetadataGroupsByPermission.
pub mod Search
pub mod Laws
use durandal.Prelude.{
  ℕ, zero, suc, ◌+◌, ◌-◌, ◌*◌, ◌/◌, ◌%◌, ◌^◌, ◌≤◌, ◌<◌, ◌≡◌, refl, sym, ap, ◌∙◌, ◌≢◌, ◌↔◌, ◌⊎◌, inl,
  inr, Bool, true, false, not, ◌&&◌, ◌||◌, Option, none, some, List, [], ◌∷◌, ◌++◌, map,
  append_assoc, append-nil, arith, ltb, leb, ◌==◌, if◌then◌else◌, Bool-cases, Option-cases, ==→eq,
  ==-refl, length, get_elem?, take, drop, length-append, length-take, All, Any, All-append,
  Any-append_left, Any-append_right, All-take, All-map, All2, All2-map,
}
use durandal.Prelude.Int.{
  ℤ, pos, negsuc, pos_part, neg_part, sub_ℕ, ◌+ℤ◌, ◌-ℤ◌, ◌*ℤ◌, quot, floor_div, ◌≤ℤ◌, ◌<ℤ◌, ltb_ℤ,
  eqb_ℤ, bits64, wrap64, IsInt64, wrap64-eq_self,
}
use durandal.Prelude.Str.{
  Str, codes, str_eq, str_eq_refl, str_eq_iff, ne-str_eq, is_empty, has_prefix, index, has_suffix,
  trim_suffix, split, join, Lacks, split-join,
}
use durandal.Prelude.Dict
use durandal.Prelude.Dict.{Dict, dict_laws}
use durandal.Prelude.Outcome.{
  Outcome, ok, err, panic, ◌>>=◌, >>=-eq-ok, ok-injective, ok_some-injective,
}
use durandal.Common.UnitOfTime.{UnitOfTime, Time}
use durandal.Common.Uuid.{Uuid, UuidLib}
use durandal.Common.Timeseries.{Timeseries, TimeseriesReading, less}
use durandal.Common.Metadata.{MetadataGroup}
use durandal.Common.Params.{TagParams, DataParams}
use durandal.Dots.TimeRange.{TimeRange, before, after}
use durandal.Dots.DisjointRanges.{Ref, Heap, read}
use durandal.Dots.Master.ValidRanges.{Ranges}
use durandal.Archiver.Stores.{Archiver}
use durandal.Archiver.Prepare.{prepare_data_params}

-- The loop of sort.Search over [i, i + width): the least index with the property, if the property is
-- that of a tail. The fuel bounds the rounds; the width halves in each.
unfoldable pub search_loop : ℕ → (ℕ → Bool) → ℕ → ℕ → ℕ
search_loop zero f i j = i
search_loop (suc fuel) f i j =
    let h = (i + j) / 2 in
    let right = search_loop fuel f (suc h) j in
    let left = search_loop fuel f i h in if ltb i j then (if not (f h) then right else left) else i

unfoldable pub sort_search : ℕ → (ℕ → Bool) → ℕ
unfolding search_loop
sort_search n f = search_loop n f 0 n

-- A test of the record at an index; an index that is out of range is never tested.
unfoldable pub at_index : {A : Type 0} → (A → Bool) → List A → ℕ → Bool
at_index f xs i = elim (get_elem? xs i) [ none ↦ false | some x ↦ f x ]

-- sort.Sort by Less, which compares the times; Go's sort is not stable, and this one is one of the
-- orders that it may give.
unfoldable pub insert :
    {F : Type 0} → TimeseriesReading F → List (TimeseriesReading F) → List (TimeseriesReading F)
insert x [] = x ∷ []
insert x (y ∷ ys) = let rest = insert x ys in if less y x then y ∷ rest else x ∷ y ∷ ys

unfoldable pub sort_records : {F : Type 0} → List (TimeseriesReading F) → List (TimeseriesReading F)
unfolding insert
sort_records [] = []
sort_records (x ∷ xs) = insert x (sort_records xs)

-- xs[i:j]
unfoldable pub slice : {A : Type 0} → List A → ℕ → ℕ → Outcome (List A)
slice xs i j = if ltb j i then panic else ok (take (j - i) (drop i xs))

module _ {F : Type 0} where
  -- records[earlyIndex:lastIndex] for one valid range, where the slice expression panics if the bounds
  -- cross.
  unfoldable pub early_index : List (TimeseriesReading F) → TimeRange → ℕ
  unfolding sort_search at_index
  early_index records rng =
      let found = sort_search (length records) (at_index (λ r. before r.time rng.start) records) in
      if found == length records then 0 else found

  unfoldable pub last_index : List (TimeseriesReading F) → TimeRange → ℕ
  unfolding sort_search at_index
  last_index records rng =
      sort_search (length records) (at_index (λ r. after r.time rng.end) records)

  unfoldable pub mask_ranges :
      List (TimeseriesReading F)
      → Heap
      → List Ref
      → List (TimeseriesReading F)
      → Outcome (List (TimeseriesReading F))
  unfolding early_index last_index slice
  mask_ranges records h [] acc = ok acc
  mask_ranges records h (x ∷ refs) acc = do
    rng ← read h x
    part ← slice records (early_index records rng) (last_index records rng)
    mask_ranges records h refs (acc ++ part)

  unfoldable pub mask_timeseries :
      Archiver F → List (Timeseries F) → Heap → ℕ → Outcome (List (Timeseries F))
  unfolding mask_ranges sort_records
  mask_timeseries a [] h next = ok []
  mask_timeseries a (ts ∷ readings) h next = do
    let records = sort_records ts.records
    uri ← a.md.uri_from_uuid ts.uuid
    valid ← a.valid_ranges uri h next
    kept ← mask_ranges records valid.heap valid.refs []
    ret ← mask_timeseries a readings valid.heap valid.next
    ok (record { records = kept; generation = ts.generation; src_uri = uri; uuid = ts.uuid } ∷ ret)

  mark : UnitOfTime → TimeseriesReading F → TimeseriesReading F
  mark unit rdg = record rdg { unit = unit }

  -- packResults marks every reading with the unit that was asked for.
  unfoldable pub pack_results : DataParams → List (Timeseries F) → List (Timeseries F)
  unfolding mark
  pack_results params [] = []
  pack_results params (resp ∷ readings) =
      record resp { records = map (mark params.convert_to_unit) resp.records }
      ∷ pack_results params readings

  -- The error of the store is overwritten by that of the mask.
  unfoldable pub select_data_before :
      Archiver F → DataParams → Heap → ℕ → Outcome (List (Timeseries F))
  unfolding pack_results mask_timeseries
  select_data_before a params h next = do
    q ← prepare_data_params a.md params
    result ← a.ts.prev q.uuids q.begin
    mask_timeseries a (pack_results q result.0) h next

  unfoldable pub select_data_after :
      Archiver F → DataParams → Heap → ℕ → Outcome (List (Timeseries F))
  unfolding pack_results mask_timeseries
  select_data_after a params h next = do
    q ← prepare_data_params a.md params
    result ← a.ts.next q.uuids q.begin
    mask_timeseries a (pack_results q result.0) h next

  unfoldable pub mask_metadata : Archiver F → List MetadataGroup → Outcome (List MetadataGroup)
  mask_metadata a [] = ok []
  mask_metadata a (group ∷ metadata) = do
    uri ← (if is_empty group.uri then a.md.uri_from_uuid group.uuid else ok group.uri)
    ret ← mask_metadata a metadata
    ok (if a.read_allowed uri then record group { uri = uri } ∷ ret else ret)
