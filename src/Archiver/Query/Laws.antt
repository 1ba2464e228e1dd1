-- ===== src/Archiver/Query/Laws.antt =====
-- The search for readings before a time: archiver/api.go and HandleQuery of archiver/archiver.go.
use durandal.Prelude.{
  ℕ, ◌*◌, ◌^◌, ◌<◌, ◌≡◌, refl, ◌∙◌, Bool, true, false, ◌||◌, none, some, List, [], arith,
  if◌then◌else◌,
}
use durandal.Prelude.Int.{pos}
use durandal.Prelude.Str.{Str}
use durandal.Prelude.Outcome.{ok, ◌>>=◌}
use durandal.Common.UnitOfTime.{guess_time_unit}
use durandal.Common.UnitOfTime.Exact.{ns_per}
use durandal.Common.Uuid.{Uuid}
use durandal.Common.Params.{DataParams, data_params}
use durandal.Dots.DisjointRanges.{Heap}
use durandal.Querylang.ParsedQuery.{ParsedQuery, DataQuery, data_type, get_params, before_type}
use durandal.Archiver.Stores.{Archiver}
use durandal.Archiver.Prepare.{prepare_data_params}
use durandal.Archiver.Prepare.Laws.{Matched, zero_time_nano, prepare_zero_end}
use durandal.Archiver.Mask.{pack_results, mask_timeseries, select_data_before}
use durandal.Archiver.Query.{no_results, select_readings, handle_data, handle_params, handle_query}

module _ {F : Type 0} (a : Archiver F) where
  -- A search for the readings before a time, which is not negative, where the end of the query is
  -- the zero time and the metadata store answers the where clause: if the time is an int64 and
  -- later than 697879660364562432 ns, a moment in February 1992, the readings are searched before
  -- that moment and not before the time.
  pub select_data_before_reference :
      (params : DataParams) (uuids : List Uuid) (h : Heap) (next b : ℕ)
      → Matched a.md params uuids
      → params.begin ≡ pos b
      → params.end ≡ zero_time_nano
      → b < 2 ^ 63
      → 697879660364562432 < b * ns_per (guess_time_unit (pos b))
      → (q : DataParams) × (prepare_data_params a.md params ≡ ok q)
        × (select_data_before a params h next ≡ (do
          result ← a.ts.prev q.uuids (pos 697879660364562432)
          mask_timeseries a (pack_results q result.0) h next))
  unfolding select_data_before
  select_data_before_reference params uuids h next b m eb ee hb late =
      let (q, ep, at) = prepare_zero_end a.md params uuids b m eb ee hb late in
      (q, ep, rw (ep, at) refl)

  select_data_before_failure :
      (params q : DataParams) (h : Heap) (next : ℕ)
      → prepare_data_params a.md params ≡ ok q
      → a.ts.prev q.uuids q.begin ≡ ok ([], true)
      → select_data_before a params h next ≡ ok []
  unfolding select_data_before pack_results mask_timeseries
  select_data_before_failure params q h next ep ef = rw (ep, ef) refl

  handle_data_failure :
      (dq : DataQuery) (params q : DataParams) (h : Heap) (next : ℕ)
      → dq.dtype ≡ before_type
      → params.is_statistical || params.is_window || params.is_changed_ranges ≡ false
      → prepare_data_params a.md params ≡ ok q
      → a.ts.prev q.uuids q.begin ≡ ok ([], true)
      → handle_data a dq params h next ≡ ok (no_results a)
  unfolding handle_data select_readings
  handle_data_failure dq params q h next et ef ep ee =
      by_flags _ _ _ (params.is_statistical || params.is_window) params.is_changed_ranges
        (ground arith) (ground arith)
      ∙ rw (et, select_data_before_failure params q h next ep ee) refl
    where
      by_flags :
          {A : Type 0} (x y z : A) (b c : Bool)
          → b ≡ false
          → c ≡ false
          → (if b then x else if c then y else z) ≡ z
      by_flags x y z true c e f = cc
      by_flags x y z false true e f = cc
      by_flags x y z false false e f = refl

  -- A query for the readings before a time that parses, is prepared, and asks for no statistics,
  -- windows or changed ranges: if the store fails to answer it, with no readings to show, the
  -- result is empty and there is no error.
  pub handle_query_failure :
      (parse : Str → ParsedQuery) (vk query : Str) (dq : DataQuery) (params q : DataParams)
      (h : Heap) (next : ℕ)
      → (parse query).err_text ≡ none
      → (parse query).query_type ≡ data_type
      → (parse query).data_query ≡ some dq
      → get_params (parse query) ≡ ok (some (data_params params))
      → dq.dtype ≡ before_type
      → params.is_statistical || params.is_window || params.is_changed_ranges ≡ false
      → prepare_data_params a.md params ≡ ok q
      → a.ts.prev q.uuids q.begin ≡ ok ([], true)
      → handle_query a parse vk query h next ≡ ok (no_results a)
  unfolding handle_query handle_params
  handle_query_failure parse vk query dq params q h next e0 e1 e2 e3 e4 e5 e6 e7 =
      rw (handle_query, e0, e1, e3, handle_params, e1, e2)
        (handle_data_failure dq params q h next e4 e5 e6 e7)
