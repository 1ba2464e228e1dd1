-- ===== src/Archiver/Select/Laws.antt =====
-- The readings that SelectDataRange of archiver/api.go returns, and the ranges of the key that asks.
use durandal.Prelude.{
  ℕ, suc, ◌<◌, ◌≡◌, sym, ◌∙◌, ◌⊎◌, inl, inr, none, some, List, [], ◌∷◌, arith, All, Any, All-map,
  All2, All2-map,
}
use durandal.Prelude.Int.{IsInt64}
use durandal.Prelude.Str.{Str}
use durandal.Prelude.Outcome.{ok, >>=-eq-ok, ok-injective}
use mathlib.Core.Path.{subst}
use durandal.Common.UnitOfTime.{Time}
use durandal.Common.Uuid.{Uuid}
use durandal.Common.Timeseries.{Timeseries, empty_timeseries}
use durandal.Common.Params.{DataParams}
use durandal.Dots.TimeRange.{TimeRange, new_time_range_nano}
use durandal.Dots.TimeRange.Laws.{Covers, Within}
use durandal.Dots.DisjointRanges.{Ref, Heap, write, get_overlap}
use durandal.Dots.DisjointRanges.Merge.{CoveredBy}
use durandal.Dots.DisjointRanges.Clip.{Apart}
use durandal.Dots.DisjointRanges.Overlap.{InsideRef}
use durandal.Dots.DisjointRanges.Bounds.{
  Int64Range, Int64Ref, get_overlap-Int64Range, get_overlap-facts,
}
use durandal.Dots.Master.ValidRanges.{Ranges}
use durandal.Archiver.Stores.{Archiver}
use durandal.Archiver.Prepare.{prepare_data_params}
use durandal.Archiver.Select.{read_ranges, select_streams, select_data_range}
use durandal.Archiver.Select.InRange.{
  write_at, InRange, StoreInRange, read_ranges-InRange, read_ranges-none,
}

module _ {F : Type 0} (a : Archiver F) where
  -- What the ranges of a key are: int64 times behind pointers other than the request's, which is not
  -- written.
  abbrev pub RangesApart : Type 0
  RangesApart =
      (uri : Str) (h : Heap) (next p : ℕ) (rs : Ranges)
      → p < next
      → a.valid_ranges uri h next ≡ ok rs
      → (rs.heap p ≡ h p) × (p < rs.next) × All (Apart p) rs.refs × All (Int64Ref rs.heap) rs.refs

  -- Some range that is valid for the stream's URI covers the instant.
  abbrev pub Permitted : Uuid → Time → Type 0
  Permitted uuid t =
      (uri : Str) × (h : Heap) × (next : ℕ) × (rs : Ranges) × (a.md.uri_from_uuid uuid ≡ ok uri)
      × (a.valid_ranges uri h next ≡ ok rs)
      × CoveredBy rs.heap rs.refs t

  -- The readings of the stream lie in the range, and the key may read them.
  abbrev pub Confined : TimeRange → Uuid → Timeseries F → Type 0
  Confined r uuid ts = All (λ x. Covers r x.time × Permitted uuid x.time) ts.records

  Confined-wider :
      (r o : TimeRange)
      → Within r o
      → (uuid : Uuid) (ts : Timeseries F) → Confined r uuid ts
      → Confined o uuid ts
  Confined-wider r o w uuid ts c = All-map ts.records (λ x k. (omega arith, k.1)) c

  CoveredBy-InsideRef :
      (r : TimeRange) (h : Heap) (refs : List Ref) (t : Time)
      → Any (InsideRef r h) refs
      → Covers r t
      → CoveredBy h refs t
  CoveredBy-InsideRef r h [] t w c = elim w [ ]
  CoveredBy-InsideRef r h (none ∷ refs) t (inl w) c = elim w [ ]
  CoveredBy-InsideRef r h (some q ∷ refs) t (inl w) c = inl (omega arith)
  CoveredBy-InsideRef r h (x ∷ refs) t (inr w) c = inr (CoveredBy-InsideRef r h refs t w c)

  module _ (store : StoreInRange a) (ranges : RangesApart) where
    -- One stream of the loop: what is left of the request is a part of it, and the readings lie in
    -- that part and are permitted.
    select_one :
        (params : DataParams) (p : ℕ) (uuid : Uuid) (h : Heap) (next : ℕ) (uri : Str) (rs : Ranges)
        (overlap : Heap × List Ref) (out : Timeseries F)
        → p < next
        → Int64Range (h p)
        → a.md.uri_from_uuid uuid ≡ ok uri
        → a.valid_ranges uri h next ≡ ok rs
        → get_overlap rs.heap rs.refs (some p) ≡ ok overlap
        → read_ranges a params uuid overlap.0 overlap.1 empty_timeseries ≡ ok out
        → Within (overlap.0 p) (h p)
          × Int64Range (overlap.0 p)
          × All (λ x. Covers (overlap.0 p) x.time × Permitted uuid x.time) out.records
    select_one params p uuid h next uri rs (h2, found) out lt i eu ev eo er =
        let (same, lt2, apart, ints) = ranges uri h next p rs lt ev in
        let i2 = subst (λ (r : TimeRange). Int64Range r) (sym same) i in
        let i3 = get_overlap-Int64Range rs.heap h2 p rs.refs found apart ints i2 eo in
        let (shared, w, inside) = get_overlap-facts rs.heap h2 p rs.refs found apart eo in
        (
          subst (λ (r : TimeRange). Within (h2 p) r) same w,
          i3,
          readings inside (
              read_ranges-InRange a store params uuid h2 p found empty_timeseries out i3 shared tt
                er),
        )
      where
        readings :
            (found ≡ []) ⊎ Any (InsideRef (h2 p) rs.heap) rs.refs
            → InRange (h2 p) out
            → All (λ x. Covers (h2 p) x.time × Permitted uuid x.time) out.records
        readings (inl none_found) c =
            subst
              (λ (ts : Timeseries F).
                All (λ x. Covers (h2 p) x.time × Permitted uuid x.time) ts.records)
              (sym (read_ranges-none a params uuid h2 found out none_found er)) tt
        readings (inr any) c =
            All-map out.records
              (λ x k. (
                k,
                (uri, h, next, rs, eu, ev, CoveredBy-InsideRef (h2 p) rs.heap rs.refs x.time any k),
              ))
              c

    -- The readings that the loop returns for a stream are permitted for it, and lie in what is left
    -- of the request at that time.
    select_streams-Confined :
        (params : DataParams) (p : ℕ) (uuids : List Uuid) (h : Heap) (next : ℕ)
        (out : List (Timeseries F))
        → p < next
        → Int64Range (h p)
        → select_streams a params p uuids h next ≡ ok out
        → All2 (Confined (h p)) uuids out
    unfolding select_streams
    select_streams-Confined params p [] h next [] lt i e = tt
    select_streams-Confined params p [] h next (ts ∷ out) lt i e = cc
    select_streams-Confined params p (uuid ∷ uuids) h next out lt i e =
        let (uri, eu, e1) = >>=-eq-ok (a.md.uri_from_uuid uuid) _ e in
        let (rs, ev, e2) = >>=-eq-ok (a.valid_ranges uri h next) _ e1 in
        let (overlap, eo, e3) = >>=-eq-ok (get_overlap rs.heap rs.refs (some p)) _ e2 in
        let (ts, er, e4) =
          >>=-eq-ok (read_ranges a params uuid overlap.0 overlap.1 empty_timeseries) _ e3 in
        let (rest, es, e5) = >>=-eq-ok (select_streams a params p uuids overlap.0 rs.next) _ e4 in
        let (w, i2, readings) =
          select_one params p uuid h next uri rs overlap ts lt i eu ev eo er in
        let lt2 = (ranges uri h next p rs lt ev).1 in
        let later = select_streams-Confined params p uuids overlap.0 rs.next rest lt2 i2 es in
        subst (λ (results : List (Timeseries F)). All2 (Confined (h p)) (uuid ∷ uuids) results)
          (ok-injective (ts ∷ rest) out e5)
          (
            Confined-wider (overlap.0 p) (h p) w uuid ts readings,
            All2-map uuids rest (Confined-wider (overlap.0 p) (h p) w) later,
          )

    -- For int64 bounds, every reading that SelectDataRange returns lies in the prepared range of
    -- the query, and in a range that is valid for the asking key at the URI of the reading's
    -- stream; there is one series for each stream. The conditions are that the store answers with
    -- readings of the range that it is asked for, and that the ranges of a key have int64 times,
    -- stand at other addresses than the request, and are found without writing to it: ranges that
    -- are computed anew, and not those that a cache shares between queries.
    pub select_data_range-Confined :
        (params q : DataParams) (h : Heap) (next : ℕ) (out : List (Timeseries F))
        → prepare_data_params a.md params ≡ ok q
        → IsInt64 q.begin
        → IsInt64 q.end
        → select_data_range a params h next ≡ ok out
        → All2 (Confined (new_time_range_nano q.begin q.end)) q.uuids out
    unfolding select_data_range
    select_data_range-Confined params q h next out ep ib ie e =
        let requested = new_time_range_nano q.begin q.end in
        let placed = write_at h next requested in
        subst (λ (r : TimeRange). All2 (Confined r) q.uuids out) placed
          (select_streams-Confined q next q.uuids (write h next requested) (suc next) out
            (omega arith) (subst (λ (r : TimeRange). Int64Range r) (sym placed) (ib, ie))
            (rw ep at e))

    -- The streams share one request: the readings of every later stream lie in what GetOverlap
    -- left of it for the first stream, whatever the key may read of the later ones. The
    -- conditions on the store and the ranges are those of select_data_range-Confined, which leave
    -- out ranges from a cache.
    pub select_streams_shared :
        (params : DataParams) (p : ℕ) (uuid : Uuid) (uuids : List Uuid) (h : Heap) (next : ℕ)
        (uri : Str) (rs : Ranges) (overlap : Heap × List Ref) (ts : Timeseries F)
        (rest : List (Timeseries F))
        → p < next
        → Int64Range (h p)
        → a.md.uri_from_uuid uuid ≡ ok uri
        → a.valid_ranges uri h next ≡ ok rs
        → get_overlap rs.heap rs.refs (some p) ≡ ok overlap
        → select_streams a params p (uuid ∷ uuids) h next ≡ ok (ts ∷ rest)
        → All2 (Confined (overlap.0 p)) uuids rest
    unfolding select_streams
    select_streams_shared params p uuid uuids h next uri rs overlap ts rest lt i eu ev eo e =
        let (ts2, er, e4) =
          >>=-eq-ok (read_ranges a params uuid overlap.0 overlap.1 empty_timeseries) _
            (rw (eu, ev, eo) at e) in
        let (rest2, es, e5) = >>=-eq-ok (select_streams a params p uuids overlap.0 rs.next) _ e4 in
        let (w, i2, readings) =
          select_one params p uuid h next uri rs overlap ts2 lt i eu ev eo er in
        select_streams-Confined params p uuids overlap.0 rs.next rest
          (ranges uri h next p rs lt ev).1 i2 (es ∙ same_rest ts2 ts rest2 rest e5)
      where
        same_rest :
            (x y : Timeseries F) (xs ys : List (Timeseries F))
            → ok (x ∷ xs) ≡ ok (y ∷ ys)
            → ok xs ≡ ok ys
        same_rest x y xs ys c = cc
