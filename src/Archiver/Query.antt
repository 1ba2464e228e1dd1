-- ===== src/Archiver/Query.antt =====
-- SelectTags, DistinctTag and GetChangedRanges of archiver/api.go, and HandleQuery of
-- archiver/archiver.go, which sends a parsed query to the operation that answers it.
pub mod Kinds
pub mod Laws
use durandal.Prelude.{
  ℕ, zero, suc, ◌+◌, ◌-◌, ◌*◌, ◌/◌, ◌%◌, ◌^◌, ◌≤◌, ◌<◌, ◌≡◌, refl, sym, ap, ◌∙◌, ◌≢◌, ◌↔◌, ◌⊎◌, inl,
  inr, Bool, true, false, not, ◌&&◌, ◌||◌, Option, none, some, List, [], ◌∷◌, ◌++◌, map,
  append_assoc, append-nil, arith, ltb, leb, ◌==◌, if◌then◌else◌, Bool-cases, Option-cases, ==→eq,
  ==-refl, lt→ltb, length, get_elem?, take, drop, length-append, length-take, All, Any, All-append,
  Any-append_left, Any-append_right, All-take, All-map, All2, All2-map,
}
use durandal.Prelude.Int.{
  ℤ, pos, negsuc, pos_part, neg_part, sub_ℕ, ◌+ℤ◌, ◌-ℤ◌, ◌*ℤ◌, quot, floor_div, ◌≤ℤ◌, ◌<ℤ◌, ltb_ℤ,
  eqb_ℤ, bits64, wrap64, IsInt64, wrap64-eq_self,
}
use durandal.Prelude.Str.{
  Str, codes, str_eq, str_eq_refl, str_eq_iff, ne-str_eq, is_empty, has_prefix, index, last_index,
  has_suffix, trim_suffix, split, join, Lacks, split-join,
}
use durandal.Prelude.Dict
use durandal.Prelude.Dict.{Dict, dict_laws}
use durandal.Prelude.Outcome.{
  Outcome, ok, err, panic, ◌>>=◌, >>=-eq-ok, ok-injective, ok_some-injective,
}
use durandal.Common.Uuid.{Uuid}
use durandal.Common.Value.{Value, Values, str, list, nil, cons}
use durandal.Common.Timeseries.{Timeseries, StatisticTimeseries, ChangedRange}
use durandal.Common.Metadata.{MetadataRecord, MetadataGroup, empty_record, empty_group}
use durandal.Common.Params.{
  TagParams, DistinctParams, DataParams, QueryParams, tag_params, distinct_params, data_params,
}
use durandal.Dots.DisjointRanges.{Heap}
use durandal.Querylang.ParsedQuery.{
  ParsedQuery, DataQuery, QueryType, select_type, data_type, get_params, in_type, before_type,
  after_type, changed_type,
}
use durandal.Archiver.Stores.{Archiver}
use durandal.Archiver.Prepare.{prepare_data_params}
use durandal.Archiver.Select.{select_data_range, select_statistical_data}
use durandal.Archiver.Mask.{mask_metadata, select_data_before, select_data_after}

-- The named results of HandleQuery.
pub record QueryResults (F : Type 0) : Type 0 where
  pub md_result : List MetadataGroup
  pub ts_result : List (Timeseries F)
  pub stats_result : List (StatisticTimeseries F)
  pub changed_result : List ChangedRange

-- A []string as a value.
strings : List Str → Values
strings [] = nil
strings (s ∷ ss) = cons (str s) (strings ss)

-- The values of a distinct tag under one record.
unfoldable pub sandwich : Str → List Str → MetadataGroup
unfolding strings
sandwich tag results = record empty_group {
  records = (tag, record empty_record { key = tag; value = list (strings results) }) ∷ [];
}

unfoldable pub parse_error : Str → Str → Str → Str
parse_error e query at =
    codes "Error ("
    ++ e
    ++ codes ") in query \""
    ++ query
    ++ codes "\" (error at "
    ++ at
    ++ codes ")\n"

module _ {F : Type 0} (a : Archiver F) where
  unfoldable pub select_tags : Str → TagParams → Outcome (List MetadataGroup)
  select_tags vk params = do
    groups ← a.md.get_metadata vk params.tags params.where_clause
    mask_metadata a groups

  unfoldable pub distinct_tag : Str → DistinctParams → Outcome (List Str)
  distinct_tag vk params = a.md.get_distinct vk params.tag params.where_clause

  unfoldable pub get_changed_ranges : DataParams → Outcome (List ChangedRange)
  get_changed_ranges params = do
    q ← prepare_data_params a.md params
    a.ts.changed_ranges q.uuids q.from_gen q.to_gen q.resolution

  abbrev pub no_results : QueryResults F
  no_results = record { md_result = []; ts_result = []; stats_result = []; changed_result = [] }

  -- Each parameter type is asserted, and a failed assertion panics.
  unfoldable pub handle_select : Str → Bool → QueryParams → Outcome (QueryResults F)
  unfolding sandwich select_tags distinct_tag
  handle_select vk true (distinct_params params) = do
    results ← distinct_tag vk params
    ok (record no_results { md_result = sandwich params.tag results ∷ [] })
  handle_select vk true (tag_params params) = panic
  handle_select vk true (data_params params) = panic
  handle_select vk false (tag_params params) = do
    groups ← select_tags vk params
    ok (record no_results { md_result = groups })
  handle_select vk false (distinct_params params) = panic
  handle_select vk false (data_params params) = panic

  -- The readings of the queries in, before and after; other data queries give none.
  unfoldable pub select_readings : DataQuery → DataParams → Heap → ℕ → Outcome (List (Timeseries F))
  select_readings dq params h next = elim dq.dtype [
    | in_type ↦ select_data_range a params h next
    | before_type ↦ select_data_before a params h next
    | after_type ↦ select_data_after a params h next
    | changed_type ↦ ok []
  ]

  unfoldable pub handle_data : DataQuery → DataParams → Heap → ℕ → Outcome (QueryResults F)
  unfolding get_changed_ranges select_readings
  handle_data dq params h next =
      if params.is_statistical || params.is_window
      then (do
        stats ← select_statistical_data a params h next
        ok (record no_results { stats_result = stats }))
      else if params.is_changed_ranges
      then (do
        changed ← get_changed_ranges params
        ok (record no_results { changed_result = changed }))
      else do
        readings ← select_readings dq params h next
        ok (record no_results { ts_result = readings })

  unfoldable pub handle_params :
      ParsedQuery → Str → Option QueryParams → Heap → ℕ → Outcome (QueryResults F)
  unfolding handle_select handle_data
  handle_params parsed vk none h next = panic
  handle_params parsed vk (some params) h next = elim parsed.query_type [
    | select_type ↦ handle_select vk parsed.distinct params
    | data_type ↦ elim parsed.data_query [
      | none ↦ panic
      | some dq ↦ elim params [
        | data_params params ↦ handle_data dq params h next
        | tag_params params ↦ panic
        | distinct_params params ↦ panic
      ]
    ]
    | _ ↦ ok no_results
  ]

  -- Only the queries that read are answered; any other one, a delete too, has empty results.
  unfoldable pub handle_query :
      (Str → ParsedQuery) → Str → Str → Heap → ℕ → Outcome (QueryResults F)
  unfolding parse_error handle_params
  handle_query parse vk query h next =
      let parsed = parse query in
      elim parsed.err_text [
        | some e ↦ err (parse_error e query parsed.err_pos)
        | none ↦ elim parsed.query_type [
          | select_type ↦ do params ← get_params parsed; handle_params parsed vk params h next
          | data_type ↦ do params ← get_params parsed; handle_params parsed vk params h next
          | _ ↦ ok no_results
        ]
      ]
