-- ===== src/Archiver/Select/InRange.antt =====
-- The loop of SelectDataRange of archiver/api.go over the valid ranges of one stream, and the range
-- that its readings lie in.
use durandal.Prelude.{
  ℕ, ◌≡◌, refl, sym, Bool, true, false, not, ◌&&◌, none, some, List, [], ◌∷◌, ◌++◌, ltb,
  if◌then◌else◌, ==-refl, length, take, All, All-append, All-take, All-map,
}
use durandal.Prelude.Int.{ℤ, pos, pos_part, ◌≤ℤ◌, ltb_ℤ, wrap64-eq_self}
use durandal.Prelude.Str.{is_empty}
use durandal.Prelude.Outcome.{ok, >>=-eq-ok, ok-injective}
use mathlib.Core.Path.{subst}
use durandal.Common.UnitOfTime.{UnitOfTime, Time, unix_nano}
use durandal.Common.Uuid.{Uuid, UuidLib}
use durandal.Common.Timeseries.{Timeseries, empty_timeseries, extend}
use durandal.Common.Params.{DataParams}
use durandal.Dots.TimeRange.{TimeRange}
use durandal.Dots.TimeRange.Laws.{Covers}
use durandal.Dots.DisjointRanges.{Ref, Heap, write}
use durandal.Dots.DisjointRanges.Bounds.{Int64Range}
use durandal.Archiver.Stores.{Archiver}
use durandal.Archiver.Select.{limit_records, read_ranges}

-- The range's times as UnixNano gives them.
abbrev pub nanoseconds : TimeRange → TimeRange
nanoseconds r = record { start = unix_nano r.start; end = unix_nano r.end }

Covers-nanoseconds :
    (r : TimeRange) (t : Time) → Int64Range r → Covers (nanoseconds r) t → Covers r t
Covers-nanoseconds r t (hs, he) c =
    let es = wrap64-eq_self r.start hs in
    let ee = wrap64-eq_self r.end he in
    (subst (λ (s : ℤ). s ≤ℤ t) es c.0, subst (λ (e : ℤ). t ≤ℤ e) ee c.1)

pub write_at : (h : Heap) (p : ℕ) (r : TimeRange) → write h p r p ≡ r
write_at h p r = rw ==-refl refl

limit_records-All :
    {A : Type 0} (P : A → Type 0) (limit : ℤ) (xs : List A)
    → All P xs
    → All P (limit_records limit xs)
limit_records-All P limit xs h = if_All (ltb_ℤ (pos 0) limit && ltb_ℤ limit (pos (length xs)))
  where
    if_All : (b : Bool) → All P (if b then take (pos_part limit) xs else xs)
    if_All true = All-take P (pos_part limit) xs h
    if_All false = h

module _ {F : Type 0} where
  -- Every reading of the series lies in the range.
  abbrev pub InRange : TimeRange → Timeseries F → Type 0
  InRange r ts = All (λ x. Covers r x.time) ts.records

  extend-InRange :
      (lib : UuidLib) (r : TimeRange) (ts newts : Timeseries F)
      → InRange r ts
      → InRange r newts
      → InRange r (extend lib ts newts)
  unfolding extend
  extend-InRange lib r ts newts h k =
      if_InRange (not (lib.equal (if is_empty ts.uuid then newts.uuid else ts.uuid) newts.uuid))
    where
      if_InRange :
          (b : Bool)
          → InRange r (
              if b
              then record ts { uuid = if is_empty ts.uuid then newts.uuid else ts.uuid }
              else record {
                records = ts.records ++ newts.records;
                generation =
                    if ltb ts.generation newts.generation then newts.generation else ts.generation;
                src_uri = ts.src_uri;
                uuid = if is_empty ts.uuid then newts.uuid else ts.uuid;
              })
      if_InRange true = h
      if_InRange false = All-append (λ x. Covers r x.time) ts.records newts.records h k

  module _ (a : Archiver F) where
    -- A range store answers with readings of the range that it is asked for.
    abbrev pub StoreInRange : Type 0
    StoreInRange =
        (uuid : Uuid) (r : TimeRange) (unit : UnitOfTime) (ts : Timeseries F)
        → a.ts.get_data_uuid uuid r.start r.end unit ≡ ok ts
        → InRange r ts

    pub read_ranges-InRange :
        StoreInRange
        → (params : DataParams) (uuid : Uuid) (h : Heap) (p : ℕ) (refs : List Ref)
          (result out : Timeseries F)
        → Int64Range (h p)
        → All (λ x. x ≡ some p) refs
        → InRange (h p) result
        → read_ranges a params uuid h refs result ≡ ok out
        → InRange (h p) out
    unfolding read_ranges
    read_ranges-InRange law params uuid h p [] result out i es k e =
        subst (λ (o : Timeseries F). InRange (h p) o) (ok-injective result out e) k
    read_ranges-InRange law params uuid h p (none ∷ refs) result out i es k e = cc
    read_ranges-InRange law params uuid h p (some q ∷ refs) result out i (eq, es) k e =
        let (ts, et, rest) = >>=-eq-ok _ _ e in
        let at_q = law uuid (nanoseconds (h q)) params.convert_to_unit ts et in
        let at_p = subst (λ (n : ℕ). InRange (nanoseconds (h n)) ts) (some_injective q p eq) at_q in
        let inside = All-map ts.records (λ x c. Covers-nanoseconds (h p) x.time i c) at_p in
        read_ranges-InRange law params uuid h p refs _ out i es
          (limit_records-All (λ x. Covers (h p) x.time) params.data_limit _
            (extend-InRange a.uuid_lib (h p) result ts k inside))
          rest
      where
        some_injective : (x y : ℕ) → some x ≡ some y → x ≡ y
        some_injective x y c = cc

    pub read_ranges-none :
        (params : DataParams) (uuid : Uuid) (h : Heap) (refs : List Ref) (out : Timeseries F)
        → refs ≡ []
        → read_ranges a params uuid h refs empty_timeseries ≡ ok out
        → out ≡ empty_timeseries
    unfolding read_ranges
    read_ranges-none params uuid h [] out _ e = sym (ok-injective empty_timeseries out e)
    read_ranges-none params uuid h (x ∷ refs) out c e = cc
