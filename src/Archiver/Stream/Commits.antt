-- ===== src/Archiver/Stream/Commits.antt =====
-- archiver/stream.go: the goroutines that give the readings and the documents of a stream to the store.
use durandal.Prelude.{
  ◌==◌, Bool, ◌||◌, Option, none, some, List, [], ◌∷◌, if◌then◌else◌, length, drop,
}
use durandal.Prelude.Str.{Str}
use durandal.Prelude.Dict
use durandal.Prelude.Dict.{Dict}
use durandal.Common.Uuid.{Uuid}
use durandal.Common.Timeseries.{TimeseriesReading, Timeseries, copy}
use durandal.Archiver.Stream.{Stream, series_of}

-- The goroutine of initialize that commits: it takes a series, and writes it back without the
-- readings that were stored.
module _ {F : Type 0} where
  unfoldable pub take_series : Str → Stream F → Timeseries F
  take_series uri s = series_of (Dict.get uri s.timeseries)

  -- After AddReadings of the copy succeeded: the readings that went to the store, and the stream.
  unfoldable pub write_back : Str → Timeseries F → Stream F → List (TimeseriesReading F) × Stream F
  unfolding copy
  write_back uri ts s =
      let commitme = copy ts in
      (
        commitme.records,
        record s {
          timeseries =
              Dict.put uri (record ts { records = drop (length commitme.records) ts.records })
                s.timeseries;
        },
      )

  -- One round of the loop, from the stream where it reads the series to the one that it finds when
  -- AddReadings has returned; the store fails or not. With no readings it goes on to the next round.
  unfoldable pub commit_between :
      Bool → Str → Stream F → Stream F → List (TimeseriesReading F) × Stream F
  unfolding take_series write_back
  commit_between store_fails uri s s' =
      let ts = take_series uri s in
      if length (copy ts).records == 0 || store_fails then ([], s') else write_back uri ts s'

  -- A round with no message between its start and its end.
  unfoldable pub commit : Bool → Str → Stream F → List (TimeseriesReading F) × Stream F
  unfolding commit_between
  commit store_fails uri s = commit_between store_fails uri s s

  -- One round of the goroutine of `start`: the documents that go to the timeseries store.
  unfoldable pub annotations :
      {Doc : Type 0} → (Uuid → Option Doc) → List (Str × Timeseries F) → List (Uuid × Doc)
  annotations get_document [] = []
  annotations get_document ((uri, ts) ∷ series) =
      let rest = annotations get_document series in
      elim (get_document ts.uuid) [ none ↦ rest | some doc ↦ (ts.uuid, doc) ∷ rest ]
