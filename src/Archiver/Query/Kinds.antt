-- ===== src/Archiver/Query/Kinds.antt =====
-- The kinds of results of HandleQuery of archiver/archiver.go.
use durandal.Prelude.{
  ℕ, ◌≡◌, ◌⊎◌, inl, inr, Bool, true, false, ◌||◌, Option, none, some, List, [], ◌∷◌, if◌then◌else◌,
}
use durandal.Prelude.Str.{Str}
use durandal.Prelude.Outcome.{Outcome, ok, err, panic, ◌>>=◌, >>=-eq-ok, ok-injective}
use mathlib.Core.Path.{subst}
use durandal.Common.Timeseries.{Timeseries, StatisticTimeseries, ChangedRange}
use durandal.Common.Metadata.{MetadataGroup}
use durandal.Common.Params.{DataParams, QueryParams, tag_params, distinct_params, data_params}
use durandal.Dots.DisjointRanges.{Heap}
use durandal.Querylang.ParsedQuery.{
  ParsedQuery, DataQuery, QueryType, no_type, select_type, delete_type, data_type, apply_type,
  get_params,
}
use durandal.Archiver.Stores.{Archiver}
use durandal.Archiver.Select.{select_statistical_data}
use durandal.Archiver.Query.{
  QueryResults, no_results, parse_error, select_tags, distinct_tag, get_changed_ranges, sandwich,
  select_readings, handle_select, handle_data, handle_params, handle_query,
}

module _ {F : Type 0} (a : Archiver F) where
  -- At most one of the four results has an item.
  pub data Only : QueryResults F → Type 0 where
    only_metadata :
        (m : List MetadataGroup)
        → Only (record { md_result = m; ts_result = []; stats_result = []; changed_result = [] })
    only_readings :
        (t : List (Timeseries F))
        → Only (record { md_result = []; ts_result = t; stats_result = []; changed_result = [] })
    only_statistics :
        (t : List (StatisticTimeseries F))
        → Only (record { md_result = []; ts_result = []; stats_result = t; changed_result = [] })
    only_changes :
        (c : List ChangedRange)
        → Only (record { md_result = []; ts_result = []; stats_result = []; changed_result = c })

  ok-Only : (r s : QueryResults F) → ok s ≡ ok r → Only s → Only r
  ok-Only r s e o = subst (λ (x : QueryResults F). Only x) (ok-injective s r e) o

  handle_select-Only :
      (vk : Str) (distinct : Bool) (params : QueryParams) (r : QueryResults F)
      → handle_select a vk distinct params ≡ ok r
      → Only r
  unfolding handle_select
  handle_select-Only vk true (distinct_params params) r e =
      let (results, _, k) = >>=-eq-ok (distinct_tag a vk params) _ e in
      ok-Only r _ k (only_metadata (sandwich params.tag results ∷ []))
  handle_select-Only vk true (tag_params params) r e = cc
  handle_select-Only vk true (data_params params) r e = cc
  handle_select-Only vk false (tag_params params) r e =
      let (groups, _, k) = >>=-eq-ok (select_tags a vk params) _ e in
      ok-Only r _ k (only_metadata groups)
  handle_select-Only vk false (distinct_params params) r e = cc
  handle_select-Only vk false (data_params params) r e = cc

  if_cases :
      {r : QueryResults F} (b : Bool) (x y : Outcome (QueryResults F))
      → (if b then x else y) ≡ ok r
      → (x ≡ ok r) ⊎ (y ≡ ok r)
  if_cases true x y e = inl e
  if_cases false x y e = inr e

  handle_data-Only :
      (dq : DataQuery) (params : DataParams) (h : Heap) (next : ℕ) (r : QueryResults F)
      → handle_data a dq params h next ≡ ok r
      → Only r
  unfolding handle_data
  handle_data-Only dq params h next r e =
      elim (if_cases (params.is_statistical || params.is_window) _ _ e) [
        | inl k ↦
            let (stats, _, done) = >>=-eq-ok (select_statistical_data a params h next) _ k in
            ok-Only r _ done (only_statistics stats)
        | inr rest ↦ elim (if_cases params.is_changed_ranges _ _ rest) [
          | inl k ↦
              let (changed, _, done) = >>=-eq-ok (get_changed_ranges a params) _ k in
              ok-Only r _ done (only_changes changed)
          | inr k ↦
              let (readings, _, done) = >>=-eq-ok (select_readings a dq params h next) _ k in
              ok-Only r _ done (only_readings readings)
        ]
      ]

  handle_params-Only :
      (parsed : ParsedQuery) (vk : Str) (found : Option QueryParams) (h : Heap) (next : ℕ)
      (r : QueryResults F)
      → handle_params a parsed vk found h next ≡ ok r
      → Only r
  unfolding handle_params
  handle_params-Only parsed vk none h next r e = cc
  handle_params-Only parsed vk (some params) h next r e =
      by_type parsed.query_type parsed.data_query params e
    where
      by_type :
          (t : QueryType) (d : Option DataQuery) (params : QueryParams)
          → elim t [
            | select_type ↦ handle_select a vk parsed.distinct params
            | data_type ↦ elim d [
              | none ↦ panic
              | some dq ↦ elim params [
                | data_params params ↦ handle_data a dq params h next
                | tag_params params ↦ panic
                | distinct_params params ↦ panic
              ]
            ]
            | _ ↦ ok (no_results a)
          ]
            ≡ ok r
          → Only r
      by_type select_type d params k = handle_select-Only vk parsed.distinct params r k
      by_type data_type none params k = cc
      by_type data_type (some dq) (data_params params) k = handle_data-Only dq params h next r k
      by_type data_type (some dq) (tag_params params) k = cc
      by_type data_type (some dq) (distinct_params params) k = cc
      by_type no_type d params k = ok-Only r _ k (only_metadata [])
      by_type delete_type d params k = ok-Only r _ k (only_metadata [])
      by_type apply_type d params k = ok-Only r _ k (only_metadata [])

  -- A query that is answered has at most one kind of results: metadata, readings, statistics or changed
  -- ranges.
  pub handle_query-Only :
      (parse : Str → ParsedQuery) (vk query : Str) (h : Heap) (next : ℕ) (r : QueryResults F)
      → handle_query a parse vk query h next ≡ ok r
      → Only r
  unfolding handle_query
  handle_query-Only parse vk query h next r e =
      by_error (parse query).err_text (parse query).query_type e
    where
      by_error :
          (found : Option Str) (t : QueryType)
          → elim found [
            | some e ↦ err (parse_error e query (parse query).err_pos)
            | none ↦ elim t [
              | select_type ↦ do
                params ← get_params (parse query)
                handle_params a (parse query) vk params h next
              | data_type ↦ do
                params ← get_params (parse query)
                handle_params a (parse query) vk params h next
              | _ ↦ ok (no_results a)
            ]
          ]
            ≡ ok r
          → Only r
      by_error (some e) t k = cc
      by_error none select_type k =
          let (params, _, rest) = >>=-eq-ok (get_params (parse query)) _ k in
          handle_params-Only (parse query) vk params h next r rest
      by_error none data_type k =
          let (params, _, rest) = >>=-eq-ok (get_params (parse query)) _ k in
          handle_params-Only (parse query) vk params h next r rest
      by_error none no_type k = ok-Only r _ k (only_metadata [])
      by_error none delete_type k = ok-Only r _ k (only_metadata [])
      by_error none apply_type k = ok-Only r _ k (only_metadata [])
