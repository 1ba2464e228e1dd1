-- ===== src/Archiver/Stream/Laws.antt =====
-- What happens to the readings of archiver/stream.go between a message and the store.
use durandal.Prelude.{
  ◌==◌, ◌≡◌, refl, sym, ap, ◌∙◌, Bool, true, false, ◌||◌, inl, inr, some, List, [], ◌∷◌, ◌++◌,
  append-nil, arith, if◌then◌else◌, Bool-cases, length, drop, take, ℕ,
}
use durandal.Prelude.Str.{Str, str_eq, str_eq_refl, str_eq_iff}
use durandal.Prelude.Dict
use durandal.Prelude.Dict.{Dict, dict_laws}
use durandal.Common.Timeseries.{Timeseries, copy, TimeseriesReading}
use durandal.Archiver.Stream.{
  Floats, Request, Stream, series_of, Item, single, Message, Answers, get_times, item_number,
  reading, read_point,
}
use durandal.Archiver.Stream.Commits.{take_series, write_back, commit, commit_between}
use durandal.Common.UnitOfTime.{Time}
use durandal.Common.Uuid.{Uuid}
use durandal.Archiver.Stream.Reading.{Decoded, with_records, read_point-single}
use durandal.Prelude.Outcome.{ok}

take-length {ℓ} : {A : Type ℓ} (xs : List A) → take (length xs) xs ≡ xs
take-length [] = refl
take-length (x ∷ xs) = ap (λ t. x ∷ t) (take-length xs)

drop-length {ℓ} : {A : Type ℓ} (xs : List A) → drop (length xs) xs ≡ []
drop-length [] = refl
drop-length (x ∷ xs) = drop-length xs

or_right : (a b : Bool) → (a || b) ≡ false → b ≡ false
or_right a b h = ground arith

left_if_skipped {ℓ} :
    {A : Type ℓ} (xs : List A) (fails : Bool)
    → (length xs == 0 || fails) ≡ true
    → xs ≡ (if fails then xs else [])
left_if_skipped xs true h = refl
left_if_skipped [] false h = refl
left_if_skipped (x ∷ xs) false h = absurd (ground arith)

module _ {F : Type 0} where
  write_back-stored :
      (uri : Str) (ts : Timeseries F) (s : Stream F) → (write_back uri ts s).0 ≡ ts.records
  unfolding write_back copy
  write_back-stored uri ts s = take-length ts.records

  write_back-series :
      (uri j : Str) (ts : Timeseries F) (s : Stream F)
      → Dict.get j (write_back uri ts s).1.timeseries
        ≡ (if str_eq uri j then some (record ts { records = [] }) else Dict.get j s.timeseries)
  unfolding write_back copy
  write_back-series uri j ts s =
      rw (take-length ts.records, drop-length ts.records, Dict.get-put) refl

  take_series-write_back :
      (uri : Str) (ts : Timeseries F) (s : Stream F)
      → take_series uri (write_back uri ts s).1 ≡ record ts { records = [] }
  unfolding take_series
  take_series-write_back uri ts s =
      ap series_of (write_back-series uri uri ts s) ∙ rw (str_eq_refl uri) refl

  same_or_other :
      (uri j : Str) (s : Stream F)
      → take_series j s ≡ (if str_eq uri j then take_series uri s else take_series j s)
  same_or_other uri j s = elim (Bool-cases (str_eq uri j)) [
    | inl e ↦ rw e (ap (λ k. take_series k s) (sym ((str_eq_iff uri j).0 e)))
    | inr e ↦ rw e refl
  ]

  write_back-others :
      (uri j : Str) (ts : Timeseries F) (s : Stream F)
      → str_eq uri j ≡ false
      → Dict.get j (write_back uri ts s).1.timeseries ≡ Dict.get j s.timeseries
  write_back-others uri j ts s e = write_back-series uri j ts s ∙ rw e refl

  take_series-others :
      (uri j : Str) (ts : Timeseries F) (s : Stream F)
      → str_eq uri j ≡ false
      → take_series j (write_back uri ts s).1 ≡ take_series j s
  unfolding take_series
  take_series-others uri j ts s e = ap series_of (write_back-others uri j ts s e)

  take_series-write_back_all :
      (uri j : Str) (ts : Timeseries F) (s : Stream F)
      → take_series j (write_back uri ts s).1
        ≡ (if str_eq uri j then take_series uri (write_back uri ts s).1 else take_series j s)
  take_series-write_back_all uri j ts s = elim (Bool-cases (str_eq uri j)) [
    | inl e ↦ rw e (ap (λ k. take_series k (write_back uri ts s).1) (sym ((str_eq_iff uri j).0 e)))
    | inr e ↦ rw e (take_series-others uri j ts s e)
  ]

  -- Whether there is nothing to commit, or the store fails.
  abbrev skips : Bool → Str → Stream F → Bool
  skips fails uri s = length (take_series uri s).records == 0 || fails

  commit-skip :
      (fails : Bool) (uri : Str) (s : Stream F)
      → skips fails uri s ≡ true
      → commit fails uri s ≡ ([], s)
  unfolding commit commit_between
  commit-skip fails uri s h = rw (take-length (take_series uri s).records, h) refl

  commit-write :
      (fails : Bool) (uri : Str) (s : Stream F)
      → skips fails uri s ≡ false
      → commit fails uri s ≡ write_back uri (take_series uri s) s
  unfolding commit commit_between
  commit-write fails uri s h = rw (take-length (take_series uri s).records, h) refl

  -- A round of the loop that commits, with no message while it runs. What it stores, with what is
  -- left in the buffer of the URI, is what was buffered, in order; nothing is left if the store
  -- takes the readings, and all is left if it fails. Every other URI keeps its series.
  pub commit_exact :
      (fails : Bool) (uri : Str) (s : Stream F)
      → ((commit fails uri s).0 ++ (take_series uri (commit fails uri s).1).records
          ≡ (take_series uri s).records)
        × ((take_series uri (commit fails uri s).1).records
            ≡ (if fails then (take_series uri s).records else []))
        × ((j : Str)
            → take_series j (commit fails uri s).1
              ≡ (if str_eq uri j then take_series uri (commit fails uri s).1 else take_series j s))
  commit_exact fails uri s = elim (Bool-cases (skips fails uri s)) [
    | inl skip ↦
        rw (commit-skip fails uri s skip)
          (refl, left_if_skipped (take_series uri s).records fails skip, λ j. same_or_other uri j s)
    | inr write ↦
        let ts = take_series uri s in
        rw (commit-write fails uri s write) (
          rw (write_back-stored uri ts s, take_series-write_back uri ts s) (append-nil ts.records),
          ap (λ (r : Timeseries F). r.records) (take_series-write_back uri ts s)
              ∙ rw (or_right _ fails write) refl,
          λ j. take_series-write_back_all uri j ts s,
        )
  ]

module _ {F : Type 0} (floats : Floats F) {Thing : Type 0} (request : Request F Thing)
    (now : ℕ → Time) (answers : Answers) (msg : Message Thing) (s : Stream F) (thing : Thing)
    (uuid : Uuid) where
  -- What read_point buffers for the message, behind the readings of its URI.
  take_series-with_records :
      (records : List (TimeseriesReading F))
      → (take_series msg.uri
          (with_records floats request now answers msg s thing uuid records)).records
        ≡ records
  unfolding take_series
  take_series-with_records records =
      ap (λ o. (series_of o).records) (Dict.get-put msg.uri msg.uri _ s.timeseries)
      ∙ rw (str_eq_refl msg.uri) refl

  commit_between-write :
      (uri : Str) (s' : Stream F)
      → (length (take_series uri s).records == 0) ≡ false
      → commit_between false uri s s' ≡ write_back uri (take_series uri s) s'
  unfolding commit_between
  commit_between-write uri s' h = rw (take-length (take_series uri s).records, h) refl

  -- A message with one finite number, for a URI that was seen and has readings in its buffer, that is
  -- read while a round of the loop that commits is under way, between the reading of the series and
  -- its write-back. Its reading is buffered behind the others; the round stores the others, without
  -- it, and leaves the buffer of the URI empty: the reading is neither stored nor buffered.
  pub commit_loses_arrivals :
      (item : Item F) (x : F) (t : Time) (times : List Time)
      → Decoded floats request now answers msg s thing uuid
      → request.value_expr thing ≡ some (single item)
      → item_number floats (single item) item ≡ some x
      → floats.not_finite x ≡ false
      → get_times floats request now thing ≡ ok (t ∷ times)
      → (length (take_series msg.uri s).records == 0) ≡ false
      → ((take_series msg.uri (read_point floats request now answers msg s)).records
          ≡ (take_series msg.uri s).records ++ reading floats t x ∷ [])
        × ((commit_between false msg.uri s (read_point floats request now answers msg s)).0
            ≡ (take_series msg.uri s).records)
        × ((take_series msg.uri
              (commit_between false msg.uri s
                (read_point floats request now answers msg s)).1).records
            ≡ [])
  unfolding take_series
  commit_loses_arrivals item x t times d e numeric finite timed buffered =
      let s' = read_point floats request now answers msg s in
      let ts = take_series msg.uri s in
      (
        ap (λ z. (take_series msg.uri z).records)
              (read_point-single floats request now answers msg s thing uuid item x t times d e
                numeric finite timed)
            ∙ take_series-with_records (ts.records ++ reading floats t x ∷ []),
        rw (commit_between-write msg.uri s' buffered) (write_back-stored msg.uri ts s'),
        rw (commit_between-write msg.uri s' buffered)
            (ap (λ (r : Timeseries F). r.records) (take_series-write_back msg.uri ts s')),
      )
