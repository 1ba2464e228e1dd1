-- ===== src/Archiver/Stream.antt =====
-- archiver/stream.go: the readings of one archive request, from the messages to the store. `F`
-- stands for float64; expressions, regular expressions and the stores' answers are parameters.
pub mod Commits
pub mod Laws
pub mod Reading
pub mod Committing
use durandal.Prelude.{
  ℕ, zero, suc, ◌+◌, ◌==◌, ◌≡◌, refl, Bool, true, false, not, ◌&&◌, ◌||◌, Option, none, some, List,
  [], ◌∷◌, ◌++◌, if◌then◌else◌, length, get_elem?, drop,
}
use durandal.Prelude.Int.{ℤ, pos, signed64}
use durandal.Prelude.Str.{Str}
use durandal.Prelude.Dict
use durandal.Prelude.Dict.{Dict}
use durandal.Prelude.Outcome.{Outcome, ok, err, panic, ◌>>=◌}
use durandal.Common.Uuid.{Uuid}
use durandal.Common.UnitOfTime.{Time, uot_ns, guess_time_unit, convert_time}
use durandal.Common.TimeText.{unix}
use durandal.Common.Timeseries.{TimeseriesReading, Timeseries, empty_timeseries, copy}

-- What an expression evaluates to: the dynamic types that the code tells apart.
pub data Item (F : Type 0) : Type 0 where
  f64 : F → Item F
  u64 : ℕ → Item F
  i64 : ℤ → Item F
  bool : Bool → Item F
  str : Str → Item F
  other : Item F

pub data Evaluated (F : Type 0) : Type 0 where
  single : Item F → Evaluated F
  many : List (Item F) → Evaluated F

-- The conversions of float64 and its tests.
pub record Floats (F : Type 0) : Type 0 where
  pub from_u64 : ℕ → F
  pub from_i64 : ℤ → F
  pub to_i64 : F → ℤ
  pub not_finite : F → Bool

-- The part of a Stream that the archive request sets: the value and the time of a payload (a
-- stream without a time expression has none), the parsing of times, the rewriting of URIs and the
-- identifier of a rewritten URI.
pub record Request (F : Type 0) (Thing : Type 0) : Type 0 where
  pub value_expr : Thing → Option (Evaluated F)
  pub time_expr : Option (Thing → Option (Evaluated F))
  pub parse_time : Str → Option Time
  pub rewrite : Str → Str
  pub uuid_of : Str → Uuid

-- A message: whether it has payloads, and the one that could be decoded.
pub record Message (Thing : Type 0) : Type 0 where
  pub uri : Str
  pub no_payloads : Bool
  pub thing : Option Thing

-- What the stores answer to the calls of initialize: whether InitializeURI failed, what
-- StreamExists said (`none` is an error), whether RegisterStream failed.
pub record Answers : Type 0 where
  pub metadata_error : Bool
  pub exists : Option Bool
  pub register_error : Bool

-- The state of a Stream: the identifiers and the readings by URI, and the URIs for which a
-- goroutine commits readings.
pub record Stream (F : Type 0) : Type 0 where
  pub seen_uris : Dict Uuid
  pub timeseries : Dict (Timeseries F)
  pub committed_uris : List Str

-- A missing key of the map reads as Timeseries{}.
abbrev pub series_of : {F : Type 0} → Option (Timeseries F) → Timeseries F
series_of none = empty_timeseries
series_of (some ts) = ts

module _ {F : Type 0} (floats : Floats F) where
  -- time.Unix(0, ns) of a number in the unit that is guessed for it; an error is only logged.
  unfoldable pub number_time : ℤ → Outcome Time
  number_time n = do (ns, bad) ← convert_time n (guess_time_unit n) uot_ns; ok (unix (pos 0) ns)

  abbrev text_time : Option Time → Time → Time
  text_time none now = now
  text_time (some t) now = t

  -- getTime; a nil value is `none`.
  unfoldable pub get_time : (Str → Option Time) → Time → Item F → Outcome Time
  unfolding number_time
  get_time parse now (str s) = ok (text_time (parse s) now)
  get_time parse now (i64 n) = number_time n
  get_time parse now (u64 n) = number_time (signed64 n)
  get_time parse now (f64 x) = number_time (floats.to_i64 x)
  get_time parse now (bool b) = ok now
  get_time parse now other = ok now

  -- The loop of getTimes; the clock is read at most once for each item.
  unfoldable pub times_of :
      (Str → Option Time) → (ℕ → Time) → ℕ → List (Item F) → Outcome (List Time)
  unfolding get_time
  times_of parse now i [] = ok []
  times_of parse now i (x ∷ xs) = do
    let rest = times_of parse now (suc i) xs
    t ← get_time parse (now i) x
    ts ← rest
    ok (t ∷ ts)

  abbrev evaluated_times :
      (Str → Option Time) → (ℕ → Time) → Option (Evaluated F) → Outcome (List Time)
  evaluated_times parse now none = ok (now 0 ∷ [])
  evaluated_times parse now (some (single x)) = times_of parse now 0 (x ∷ [])
  evaluated_times parse now (some (many xs)) = times_of parse now 0 xs

  unfoldable pub get_times :
      {Thing : Type 0} → Request F Thing → (ℕ → Time) → Thing → Outcome (List Time)
  unfolding times_of
  get_times request now thing = elim request.time_expr [
    | none ↦ ok (now 0 ∷ [])
    | some expr ↦ evaluated_times request.parse_time now (expr thing)
  ]

  -- The type switch on `value` after it was found not to be a float64.
  abbrev pub other_number : Evaluated F → Option F
  other_number (single (u64 n)) = some (floats.from_u64 n)
  other_number (single (i64 n)) = some (floats.from_i64 n)
  other_number (single (bool b)) = some (floats.from_u64 (if b then 1 else 0))
  other_number (single (f64 x)) = none
  other_number (single (str s)) = none
  other_number (single other) = none
  other_number (many xs) = none

  -- The number of an item of the list `value`: an item that is no float64 is looked up in `value`.
  abbrev pub item_number : Evaluated F → Item F → Option F
  item_number value (f64 x) = some x
  item_number value (u64 n) = other_number value
  item_number value (i64 n) = other_number value
  item_number value (bool b) = other_number value
  item_number value (str s) = other_number value
  item_number value other = other_number value

  abbrev pub reading : Time → F → TimeseriesReading F
  reading t x = record { time = t; unit = 0; value = x }

  -- One append, at the time with an index: out of range, the index panics.
  abbrev append_time :
      Option Time → F → List (TimeseriesReading F) → Outcome (List (TimeseriesReading F))
  append_time none x records = panic
  append_time (some t) x records = ok (records ++ reading t x ∷ [])

  abbrev append_at :
      List Time → ℕ → F → List (TimeseriesReading F) → Outcome (List (TimeseriesReading F))
  append_at times i x records = append_time (get_elem? times i) x records

  abbrev append_item :
      List Time → Option F → List (TimeseriesReading F) → Outcome (List (TimeseriesReading F))
  append_item times none records = ok records
  append_item times (some x) records =
      if floats.not_finite x then ok records else append_at times (length records) x records

  -- The loop over the items of a list: the index is the number of readings that are buffered.
  unfoldable pub append_items :
      List Time
      → Evaluated F
      → List (Item F)
      → List (TimeseriesReading F)
      → Outcome (List (TimeseriesReading F))
  append_items times value [] records = ok records
  append_items times value (x ∷ xs) records = do
    records' ← append_item times (item_number value x) records
    append_items times value xs records'

  abbrev append_single :
      List Time → Option F → List (TimeseriesReading F) → Outcome (List (TimeseriesReading F))
  append_single times none records = ok records
  append_single times (some x) records =
      if floats.not_finite x then ok records else append_at times 0 x records

  -- The readings behind those that are buffered.
  unfoldable pub append_value :
      List Time → Evaluated F → List (TimeseriesReading F) → Outcome (List (TimeseriesReading F))
  unfolding append_items
  append_value times (many xs) records = append_items times (many xs) xs records
  append_value times (single x) records = append_single times (item_number (single x) x) records

  module _ {Thing : Type 0} (request : Request F Thing) where
    -- initialize: the maps are written before the stores are asked. True stands for an error.
    unfoldable pub initialize : Answers → Str → Stream F → Stream F × Bool
    initialize answers uri s =
        let uuid = request.uuid_of (request.rewrite uri) in
        let s1 = record s {
          seen_uris = Dict.put uri uuid s.seen_uris;
          timeseries =
              Dict.put uri (record { records = []; generation = 0; src_uri = uri; uuid = uuid })
                s.timeseries;
        } in
        let s2 = record s1 { committed_uris = uri ∷ s1.committed_uris } in
        if answers.metadata_error then (s1, true) else elim answers.exists [
          | none ↦ (s1, true)
          | some true ↦ (s2, false)
          | some false ↦ if answers.register_error then (s1, true) else (s2, false)
        ]

    -- A URI that was not seen before is initialized.
    abbrev initialize_unless : Option Uuid → Answers → Str → Stream F → Stream F × Bool
    initialize_unless (some uuid) answers uri s = (s, false)
    initialize_unless none answers uri s = initialize answers uri s

    unfoldable pub ensure_seen : Answers → Str → Stream F → Stream F × Bool
    unfolding initialize
    ensure_seen answers uri s = initialize_unless (Dict.get uri s.seen_uris) answers uri s

    abbrev pub buffered : Str → Stream F → Timeseries F
    buffered uri s = series_of (Dict.get uri s.timeseries)

    abbrev add_value :
        (ℕ → Time) → Thing → Str → Option (Evaluated F) → Stream F → Outcome (Stream F)
    add_value now thing uri none s = ok s
    add_value now thing uri (some value) s = do
      times ← get_times request now thing
      records ← append_value times value (buffered uri s).records
      ok (record s {
        timeseries = Dict.put uri (record (buffered uri s) { records = records }) s.timeseries;
      })

    -- What the payload of a message adds to the readings of its URI.
    unfoldable pub add_payload : (ℕ → Time) → Str → Option Thing → Stream F → Outcome (Stream F)
    unfolding get_times append_value
    add_payload now uri none s = ok s
    add_payload now uri (some thing) s = add_value now thing uri (request.value_expr thing) s

    -- The state that a call leaves behind: a panic is recovered, and the message is lost.
    abbrev pub recovered : Outcome (Stream F) → Stream F → Stream F
    recovered (ok s') s = s'
    recovered (err e) s = s
    recovered panic s = s

    abbrev pub add_if_seen : (ℕ → Time) → Message Thing → Stream F × Bool → Stream F
    add_if_seen now msg (s, true) = s
    add_if_seen now msg (s, false) = recovered (add_payload now msg.uri msg.thing s) s

    -- One round of readPoints.
    unfoldable pub read_point : (ℕ → Time) → Answers → Message Thing → Stream F → Stream F
    unfolding ensure_seen add_payload
    read_point now answers msg s =
        if msg.no_payloads then s else add_if_seen now msg (ensure_seen answers msg.uri s)

    -- What arrives for a stream: the clock, what the stores answer, and the message.
    abbrev pub Arrival : Type 0
    Arrival = (ℕ → Time) × Answers × Message Thing

    -- readPoints over the messages of the buffer
    unfoldable pub read_points : List Arrival → Stream F → Stream F
    unfolding read_point
    read_points [] s = s
    read_points ((now, answers, msg) ∷ arrivals) s =
        read_points arrivals (read_point now answers msg s)
