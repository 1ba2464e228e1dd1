-- ===== src/Archiver/Select/Limit.antt =====
-- The limit on the readings of one stream in the selections of archiver/api.go.
use durandal.Prelude.{ℕ, suc, ◌≤◌, ◌≡◌, none, some, List, [], ◌∷◌, arith, length, length-take, All2}
use durandal.Prelude.Int.{ℤ, pos, pos_part, ◌<ℤ◌}
use durandal.Prelude.Outcome.{ok, >>=-eq-ok, ok-injective}
use mathlib.Core.Path.{subst}
use durandal.Common.UnitOfTime.{unix_nano}
use durandal.Common.Uuid.{Uuid}
use durandal.Common.Timeseries.{Timeseries, StatisticTimeseries, empty_timeseries, empty_statistics}
use durandal.Common.Params.{DataParams}
use durandal.Dots.DisjointRanges.{Ref, Heap, get_overlap}
use durandal.Archiver.Stores.{Archiver}
use durandal.Archiver.Prepare.{prepare_data_params}
use durandal.Archiver.Select.{
  limit_records, read_ranges, select_streams, select_data_range, read_statistics,
  read_statistics_ranges, select_statistics, select_statistical_data,
}

limit_records-bound :
    {A : Type 0} (limit : ℤ) (xs : List A)
    → pos 0 <ℤ limit
    → length (limit_records limit xs) ≤ pos_part limit
limit_records-bound limit xs h = ground (arith, length-take (pos_part limit) xs)

module _ {F : Type 0} (a : Archiver F) where
  abbrev pub AtMost : ℤ → Timeseries F → Type 0
  AtMost limit ts = length ts.records ≤ pos_part limit

  abbrev pub StatisticsAtMost : ℤ → StatisticTimeseries F → Type 0
  StatisticsAtMost limit ts = length ts.records ≤ pos_part limit

  read_ranges-limit :
      (params : DataParams) (uuid : Uuid) (h : Heap) (refs : List Ref) (result out : Timeseries F)
      → pos 0 <ℤ params.data_limit
      → AtMost params.data_limit result
      → read_ranges a params uuid h refs result ≡ ok out
      → AtMost params.data_limit out
  unfolding read_ranges
  read_ranges-limit params uuid h [] result out l k e =
      subst (λ (o : Timeseries F). AtMost params.data_limit o) (ok-injective result out e) k
  read_ranges-limit params uuid h (none ∷ refs) result out l k e = cc
  read_ranges-limit params uuid h (some q ∷ refs) result out l k e =
      let (ts, et, rest) =
        >>=-eq-ok
          (a.ts.get_data_uuid uuid (unix_nano (h q).start) (unix_nano (h q).end)
            params.convert_to_unit)
          _ e in
      read_ranges-limit params uuid h refs _ out l (limit_records-bound params.data_limit _ l) rest

  select_streams-limit :
      (params : DataParams) (p : ℕ) (uuids : List Uuid) (h : Heap) (next : ℕ)
      (out : List (Timeseries F))
      → pos 0 <ℤ params.data_limit
      → select_streams a params p uuids h next ≡ ok out
      → All2 (λ uuid ts. AtMost params.data_limit ts) uuids out
  unfolding select_streams
  select_streams-limit params p [] h next [] l e = tt
  select_streams-limit params p [] h next (ts ∷ out) l e = cc
  select_streams-limit params p (uuid ∷ uuids) h next out l e =
      let (uri, eu, e1) = >>=-eq-ok (a.md.uri_from_uuid uuid) _ e in
      let (rs, ev, e2) = >>=-eq-ok (a.valid_ranges uri h next) _ e1 in
      let (overlap, eo, e3) = >>=-eq-ok (get_overlap rs.heap rs.refs (some p)) _ e2 in
      let (ts, er, e4) =
        >>=-eq-ok (read_ranges a params uuid overlap.0 overlap.1 empty_timeseries) _ e3 in
      let (rest, es, e5) = >>=-eq-ok (select_streams a params p uuids overlap.0 rs.next) _ e4 in
      subst
        (λ (results : List (Timeseries F)).
          All2 (λ _ ts. AtMost params.data_limit ts) (uuid ∷ uuids) results)
        (ok-injective (ts ∷ rest) out e5)
        (
          read_ranges-limit params uuid overlap.0 overlap.1 empty_timeseries ts l (omega arith) er,
          select_streams-limit params p uuids overlap.0 rs.next rest l es,
        )

  -- With a data limit above zero, SelectDataRange returns one series for each stream of the prepared
  -- query, and none of them has more readings than the limit.
  pub select_data_range-limit :
      (params q : DataParams) (h : Heap) (next : ℕ) (out : List (Timeseries F))
      → prepare_data_params a.md params ≡ ok q
      → pos 0 <ℤ q.data_limit
      → select_data_range a params h next ≡ ok out
      → All2 (λ uuid ts. AtMost q.data_limit ts) q.uuids out
  unfolding select_data_range
  select_data_range-limit params q h next out ep l e =
      select_streams-limit q next q.uuids _ (suc next) out l (rw ep at e)

  read_statistics_ranges-limit :
      (params : DataParams) (uuid : Uuid) (h : Heap) (refs : List Ref)
      (result out : StatisticTimeseries F)
      → pos 0 <ℤ params.data_limit
      → StatisticsAtMost params.data_limit result
      → read_statistics_ranges a params uuid h refs result ≡ ok out
      → StatisticsAtMost params.data_limit out
  unfolding read_statistics_ranges
  read_statistics_ranges-limit params uuid h [] result out l k e =
      subst (λ (o : StatisticTimeseries F). StatisticsAtMost params.data_limit o)
        (ok-injective result out e) k
  read_statistics_ranges-limit params uuid h (none ∷ refs) result out l k e = cc
  read_statistics_ranges-limit params uuid h (some q ∷ refs) result out l k e =
      let (ts, et, rest) = >>=-eq-ok (read_statistics a params uuid (h q)) _ e in
      read_statistics_ranges-limit params uuid h refs _ out l
        (limit_records-bound params.data_limit _ l) rest

  select_statistics-limit :
      (params : DataParams) (p : ℕ) (uuids : List Uuid) (h : Heap) (next : ℕ)
      (out : List (StatisticTimeseries F))
      → pos 0 <ℤ params.data_limit
      → select_statistics a params p uuids h next ≡ ok out
      → All2 (λ uuid ts. StatisticsAtMost params.data_limit ts) uuids out
  unfolding select_statistics
  select_statistics-limit params p [] h next [] l e = tt
  select_statistics-limit params p [] h next (ts ∷ out) l e = cc
  select_statistics-limit params p (uuid ∷ uuids) h next out l e =
      let (uri, eu, e1) = >>=-eq-ok (a.md.uri_from_uuid uuid) _ e in
      let (rs, ev, e2) = >>=-eq-ok (a.valid_ranges uri h next) _ e1 in
      let (overlap, eo, e3) = >>=-eq-ok (get_overlap rs.heap rs.refs (some p)) _ e2 in
      let (ts, er, e4) =
        >>=-eq-ok (read_statistics_ranges a params uuid overlap.0 overlap.1 empty_statistics) _
          e3 in
      let (rest, es, e5) = >>=-eq-ok (select_statistics a params p uuids overlap.0 rs.next) _ e4 in
      subst
        (λ (results : List (StatisticTimeseries F)).
          All2 (λ _ ts. StatisticsAtMost params.data_limit ts) (uuid ∷ uuids) results)
        (ok-injective (ts ∷ rest) out e5)
        (
          read_statistics_ranges-limit params uuid overlap.0 overlap.1 empty_statistics ts l
              (omega arith) er,
          select_statistics-limit params p uuids overlap.0 rs.next rest l es,
        )

  -- With a data limit above zero, SelectStatisticalData returns one series for each stream of the
  -- prepared query, and none of them has more readings than the limit.
  pub select_statistical_data-limit :
      (params q : DataParams) (h : Heap) (next : ℕ) (out : List (StatisticTimeseries F))
      → prepare_data_params a.md params ≡ ok q
      → pos 0 <ℤ q.data_limit
      → select_statistical_data a params h next ≡ ok out
      → All2 (λ uuid ts. StatisticsAtMost q.data_limit ts) q.uuids out
  unfolding select_statistical_data
  select_statistical_data-limit params q h next out ep l e =
      select_statistics-limit q next q.uuids _ (suc next) out l (rw ep at e)
