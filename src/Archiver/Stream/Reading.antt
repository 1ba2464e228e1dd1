-- ===== src/Archiver/Stream/Reading.antt =====
-- What archiver/stream.go makes of one message.
use durandal.Prelude.{
  ℕ, zero, suc, ◌+◌, ◌≤◌, ◌<◌, ◌≡◌, refl, ap, ◌∙◌, false, none, some, List, [], ◌∷◌, ◌++◌, map,
  append_assoc, append-nil, arith, length, get_elem?, drop, length-append, All,
}
use durandal.Prelude.Dict
use durandal.Prelude.Dict.{Dict, dict_laws}
use durandal.Prelude.Outcome.{ok, panic, ◌>>=◌}
use durandal.Common.Uuid.{Uuid}
use durandal.Common.UnitOfTime.{Time}
use durandal.Common.Timeseries.{TimeseriesReading}
use durandal.Archiver.Stream.{
  Item, f64, Evaluated, single, many, Floats, Request, Message, Answers, Stream, series_of,
  get_times, item_number, reading, append_items, append_value, ensure_seen, add_payload, recovered,
  read_point,
}

-- The item at an index, and the list from there on.
nth {ℓ} :
    {A : Type ℓ} (xs : List A) (n : ℕ)
    → n < length xs
    → (x : A) × (get_elem? xs n ≡ some x) × (drop n xs ≡ x ∷ drop (suc n) xs)
nth [] n h = elim h [ ]
nth (x ∷ xs) zero h = (x, refl, refl)
nth (x ∷ xs) (suc n) h = nth xs n (omega arith)

beyond {ℓ} : {A : Type ℓ} (xs : List A) (n : ℕ) → length xs ≤ n → get_elem? xs n ≡ none
beyond [] n h = refl
beyond (x ∷ xs) zero h = elim h [ ]
beyond (x ∷ xs) (suc n) h = beyond xs n (omega arith)

length-snoc {ℓ} : {A : Type ℓ} (xs : List A) (x : A) → length (xs ++ x ∷ []) ≡ suc (length xs)
length-snoc xs x = omega (arith, length-append xs (x ∷ []))

module _ {F : Type 0} (floats : Floats F) where
  -- Times and numbers, pair by pair.
  abbrev pub pairs : List Time → List F → List (TimeseriesReading F)
  pairs ts [] = []
  pairs [] (x ∷ xs) = []
  pairs (t ∷ ts) (x ∷ xs) = reading floats t x ∷ pairs ts xs

  append_items_lem :
      (times : List Time) (value : Evaluated F) (xs : List F) (records : List (TimeseriesReading F))
      → All (λ x. floats.not_finite x ≡ false) xs
      → length records + length xs ≤ length times
      → append_items floats times value (map f64 xs) records
        ≡ ok (records ++ pairs (drop (length records) times) xs)
  unfolding append_items
  append_items_lem times value [] records h fits = rw (append-nil records) refl
  append_items_lem times value (x ∷ xs) records (hx, h) fits =
      let (t, here, split) = nth times (length records) (omega arith) in
      let r = reading floats t x in
      rw (hx, here)
        (append_items_lem times value xs (records ++ r ∷ []) h
            (omega (arith, length-snoc records r))
          ∙ ap ok (
              rw (length-snoc records r, split)
                (append_assoc records (r ∷ []) (pairs (drop (suc (length records)) times) xs))))

  -- The first finite number of a list has no time if as many readings are buffered as there are
  -- times.
  append_items-panics :
      (times : List Time) (value : Evaluated F) (x : F) (xs : List (Item F))
      (records : List (TimeseriesReading F))
      → floats.not_finite x ≡ false
      → length times ≤ length records
      → append_items floats times value (f64 x ∷ xs) records ≡ panic
  unfolding append_items
  append_items-panics times value x xs records finite few =
      rw (finite, beyond times (length records) few) refl

  module _ {Thing : Type 0} (request : Request F Thing) (now : ℕ → Time) (answers : Answers)
      (msg : Message Thing) (s : Stream F) (thing : Thing) (uuid : Uuid) where
    -- The message has a payload that was decoded, and its URI has been seen.
    pub record Decoded : Type 0 where
      pub has_payloads : msg.no_payloads ≡ false
      pub decoded : msg.thing ≡ some thing
      pub seen : Dict.get msg.uri s.seen_uris ≡ some uuid

    -- The stream with other readings for the URI of the message.
    abbrev pub with_records : List (TimeseriesReading F) → Stream F
    with_records records = record s {
      timeseries =
          Dict.put msg.uri
            (record (series_of (Dict.get msg.uri s.timeseries)) { records = records }) s.timeseries;
    }

    abbrev pub before : List (TimeseriesReading F)
    before = (series_of (Dict.get msg.uri s.timeseries)).records

    read_point-value :
        (value : Evaluated F) (times : List Time)
        → Decoded
        → request.value_expr thing ≡ some value
        → get_times floats request now thing ≡ ok times
        → read_point floats request now answers msg s
          ≡ recovered floats request
              (append_value floats times value before >>= λ records. ok (with_records records))
              s
    unfolding read_point ensure_seen add_payload
    read_point-value value times d e timed = simp (d.has_payloads, d.seen, d.decoded, e, timed)

    -- A message for a URI that was seen, whose value is one number, or a truth value, that is
    -- finite: one reading with the first of the message's times is buffered behind those of the
    -- URI. All else stays.
    pub read_point-single :
        (item : Item F) (x : F) (t : Time) (times : List Time)
        → Decoded
        → request.value_expr thing ≡ some (single item)
        → item_number floats (single item) item ≡ some x
        → floats.not_finite x ≡ false
        → get_times floats request now thing ≡ ok (t ∷ times)
        → read_point floats request now answers msg s
          ≡ with_records (before ++ reading floats t x ∷ [])
    unfolding append_value
    read_point-single item x t times d e numeric finite timed =
        read_point-value (single item) (t ∷ times) d e timed ∙ rw (numeric, finite) refl

    -- A list of finite float64 numbers for a URI that was seen, with a time for each index from the
    -- number of buffered readings on: each number is buffered with the time at that index, so the
    -- first times, as many as there are readings in the buffer, are passed over.
    pub read_point-list :
        (xs : List F) (times : List Time)
        → Decoded
        → request.value_expr thing ≡ some (many (map f64 xs))
        → All (λ x. floats.not_finite x ≡ false) xs
        → get_times floats request now thing ≡ ok times
        → length before + length xs ≤ length times
        → read_point floats request now answers msg s
          ≡ with_records (before ++ pairs (drop (length before) times) xs)
    unfolding append_value
    read_point-list xs times d e finite timed fits =
        read_point-value (many (map f64 xs)) times d e timed
        ∙ rw (append_items_lem times (many (map f64 xs)) xs before finite fits) refl

    -- A list that begins with a finite float64 number, for a URI that was seen and has as many
    -- readings in the buffer as the message has times: the message is lost, nothing changes.
    pub read_point-lost :
        (x : F) (xs : List (Item F)) (times : List Time)
        → Decoded
        → request.value_expr thing ≡ some (many (f64 x ∷ xs))
        → floats.not_finite x ≡ false
        → get_times floats request now thing ≡ ok times
        → length times ≤ length before
        → read_point floats request now answers msg s ≡ s
    unfolding append_value
    read_point-lost x xs times d e finite timed few =
        read_point-value (many (f64 x ∷ xs)) times d e timed
        ∙ rw (append_items-panics times (many (f64 x ∷ xs)) x xs before finite few) refl
