-- ===== src/Archiver/Mask/Laws.antt =====
-- The masks of archiver/api.go on sorted series.
use durandal.Prelude.{
  ℕ, zero, suc, ◌≤◌, ◌<◌, ◌≡◌, refl, sym, ap, ◌⊎◌, inl, inr, Bool, true, false, some, List, [], ◌∷◌,
  ◌++◌, arith, ◌==◌, if◌then◌else◌, Bool-cases, length, take, drop, All, All-map,
}
use durandal.Prelude.Int.{◌≤ℤ◌, ◌<ℤ◌}
use durandal.Prelude.Outcome.{ok}
use durandal.Common.UnitOfTime.{Time}
use durandal.Common.Timeseries.{TimeseriesReading, less}
use durandal.Dots.TimeRange.{TimeRange, before, after}
use durandal.Dots.DisjointRanges.{Heap}
use durandal.Archiver.Mask.{
  at_index, insert, sort_records, early_index, last_index, slice, mask_ranges,
}
use durandal.Archiver.Mask.Search.{
  IsTail, IsHead, IsBoundary, sort_search-IsBoundary, sort_search-head,
}

slice_head : {A : Type 0} (xs : List A) (r : ℕ) → slice xs 0 r ≡ ok (take r xs)
unfolding slice
slice_head xs r = ground arith

module _ {F : Type 0} where
  abbrev pub NotBefore : Time → TimeseriesReading F → Type 0
  NotBefore t r = t ≤ℤ r.time

  -- From the earliest to the most recent reading.
  abbrev pub IsSorted : List (TimeseriesReading F) → Type 0
  IsSorted [] = Unit
  IsSorted (x ∷ xs) = All (NotBefore x.time) xs × IsSorted xs

  insert-All :
      (P : TimeseriesReading F → Type 0) (x : TimeseriesReading F) (xs : List (TimeseriesReading F))
      → P x
      → All P xs
      → All P (insert x xs)
  unfolding insert
  insert-All P x [] px h = (px, tt)
  insert-All P x (y ∷ ys) px (py, h) = elim (Bool-cases (less y x)) [
    | inl e ↦ rw e (py, insert-All P x ys px h)
    | inr e ↦ rw e (px, (py, h))
  ]

  NotBefore-trans :
      (x y : TimeseriesReading F) (xs : List (TimeseriesReading F))
      → x.time ≤ℤ y.time
      → All (NotBefore y.time) xs
      → All (NotBefore x.time) xs
  NotBefore-trans x y xs h a = All-map xs (λ z k. omega arith) a

  insert-IsSorted :
      (x : TimeseriesReading F) (xs : List (TimeseriesReading F))
      → IsSorted xs
      → IsSorted (insert x xs)
  unfolding insert
  insert-IsSorted x [] h = (tt, tt)
  insert-IsSorted x (y ∷ ys) (a, h) = elim (Bool-cases (less y x)) [
    | inl e ↦ rw e (insert-All (NotBefore y.time) x ys (ground arith) a, insert-IsSorted x ys h)
    | inr e ↦ rw e ((ground arith, NotBefore-trans x y ys (ground arith) a), (a, h))
  ]

  pub sort_records-IsSorted : (xs : List (TimeseriesReading F)) → IsSorted (sort_records xs)
  unfolding sort_records
  sort_records-IsSorted [] = tt
  sort_records-IsSorted (x ∷ xs) = insert-IsSorted x (sort_records xs) (sort_records-IsSorted xs)

  module _ (f : TimeseriesReading F → Bool) where
    at_index-All :
        (xs : List (TimeseriesReading F)) (k : ℕ)
        → k < length xs
        → All (λ y. f y ≡ true) xs
        → at_index f xs k ≡ true
    unfolding at_index
    at_index-All [] k lt h = absurd (omega arith)
    at_index-All (x ∷ xs) zero lt (fx, h) = fx
    at_index-All (x ∷ xs) (suc k) lt (fx, h) = at_index-All xs k (omega arith) h

    at_index-some :
        {P : TimeseriesReading F → Type 0} (xs : List (TimeseriesReading F)) (k : ℕ)
        → All P xs
        → at_index f xs k ≡ true
        → (y : TimeseriesReading F) × P y × (f y ≡ true)
    unfolding at_index
    at_index-some [] k h e = cc
    at_index-some (x ∷ xs) zero (px, h) e = (x, px, e)
    at_index-some (x ∷ xs) (suc k) (px, h) e = at_index-some xs k h e

    at_index-IsTail :
        ((x y : TimeseriesReading F) → x.time ≤ℤ y.time → f x ≡ true → f y ≡ true)
        → (xs : List (TimeseriesReading F)) → IsSorted xs
        → IsTail (length xs) (at_index f xs)
    unfolding at_index
    at_index-IsTail up [] s i k ik kn e = absurd (omega arith)
    at_index-IsTail up (x ∷ xs) s zero zero ik kn e = e
    at_index-IsTail up (x ∷ xs) (a, s) zero (suc k) ik kn e =
        at_index-All xs k (omega arith) (All-map xs (λ y h. up x y h e) a)
    at_index-IsTail up (x ∷ xs) s (suc i) zero ik kn e = absurd (omega arith)
    at_index-IsTail up (x ∷ xs) (a, s) (suc i) (suc k) ik kn e =
        at_index-IsTail up xs s i k (omega arith) (omega arith) e

    at_index-IsHead :
        ((x y : TimeseriesReading F) → x.time ≤ℤ y.time → f y ≡ true → f x ≡ true)
        → (xs : List (TimeseriesReading F)) → IsSorted xs
        → IsHead (at_index f xs)
    unfolding at_index
    at_index-IsHead down [] s i k ik e = cc
    at_index-IsHead down (x ∷ xs) s zero zero ik e = e
    at_index-IsHead down (x ∷ xs) (a, s) zero (suc k) ik e =
        let (y, h, fy) = at_index-some xs k a e in down x y h fy
    at_index-IsHead down (x ∷ xs) s (suc i) zero ik e = absurd (omega arith)
    at_index-IsHead down (x ∷ xs) (a, s) (suc i) (suc k) ik e =
        at_index-IsHead down xs s i k (omega arith) e

    take-false :
        (xs : List (TimeseriesReading F)) (r : ℕ)
        → r ≤ length xs
        → ((k : ℕ) → k < r → at_index f xs k ≡ false)
        → All (λ y. f y ≡ false) (take r xs)
    unfolding at_index
    take-false xs zero le h = tt
    take-false [] (suc r) le h = tt
    take-false (x ∷ xs) (suc r) le h =
        (h 0 (omega arith), take-false xs r (omega arith) (λ k lt. h (suc k) (omega arith)))

    drop-true :
        (xs : List (TimeseriesReading F)) (r : ℕ)
        → ((k : ℕ) → r ≤ k → k < length xs → at_index f xs k ≡ true)
        → All (λ y. f y ≡ true) (drop r xs)
    unfolding at_index
    drop-true [] zero h = tt
    drop-true (x ∷ xs) zero h = (
      h 0 (omega arith) (omega arith),
      drop-true xs zero (λ k ik kn. h (suc k) (omega arith) (omega arith)),
    )
    drop-true [] (suc r) h = tt
    drop-true (x ∷ xs) (suc r) h = drop-true xs r (λ k rk kn. h (suc k) (omega arith) (omega arith))

  -- The search for the first reading to keep, on a sorted series, always ends at the first reading.
  pub early_index-zero :
      (records : List (TimeseriesReading F)) (rng : TimeRange)
      → IsSorted records
      → early_index records rng ≡ 0
  unfolding early_index
  early_index-zero records rng s = by_end (
      sort_search-head (at_index (λ r. before r.time rng.start) records) (length records)
        (at_index-IsHead (λ r. before r.time rng.start) (λ x y h e. ground arith) records s))
    where
      by_end : {n m : ℕ} → (n ≡ 0) ⊎ (n ≡ m) → (if n == m then 0 else n) ≡ 0
      by_end h = ground arith

  pub last_index-IsBoundary :
      (records : List (TimeseriesReading F)) (rng : TimeRange)
      → IsSorted records
      → IsBoundary
          (length records)
          (at_index (λ r. after r.time rng.end) records)
          (last_index records rng)
  unfolding last_index
  last_index-IsBoundary records rng s =
      sort_search-IsBoundary (length records) (at_index (λ r. after r.time rng.end) records)
        (at_index-IsTail (λ r. after r.time rng.end) (λ x y h e. ground arith) records s)

  -- Masking a series by one valid range keeps, of the sorted series, all readings that are not after
  -- the end of the range, those before its start included, and drops all the others.
  pub mask_ranges-keeps_earlier :
      (records : List (TimeseriesReading F)) (h : Heap) (q : ℕ)
      → (kept dropped : List (TimeseriesReading F)) × (mask_ranges
            (sort_records records)
            h
            (some q ∷ [])
            []
          ≡ ok kept)
        × (sort_records records ≡ kept ++ dropped)
        × All (λ r. r.time ≤ℤ (h q).end) kept
        × All (λ r. (h q).end <ℤ r.time) dropped
  unfolding mask_ranges
  mask_ranges-keeps_earlier records h q =
      let s = sort_records-IsSorted records in
      let r = last_index (sort_records records) (h q) in
      let (le, low, high) = last_index-IsBoundary (sort_records records) (h q) s in
      (
        take r (sort_records records),
        drop r (sort_records records),
        rw (early_index-zero (sort_records records) (h q) s, slice_head (sort_records records) r)
            refl,
        sym (take-drop (sort_records records) r),
        All-map (take r (sort_records records)) (λ x e. ground arith)
            (take-false (λ r. after r.time (h q).end) (sort_records records) r le low),
        All-map (drop r (sort_records records)) (λ x e. ground arith)
            (drop-true (λ r. after r.time (h q).end) (sort_records records) r high),
      )
    where
      take-drop : {A : Type 0} (xs : List A) (n : ℕ) → take n xs ++ drop n xs ≡ xs
      take-drop xs zero = refl
      take-drop [] (suc n) = refl
      take-drop (x ∷ xs) (suc n) = ap (λ t. x ∷ t) (take-drop xs n)
