-- ===== src/Archiver/Tests/Streams.antt =====
-- Tests of the streams and of the view manager.
use durandal.Prelude.{
  ℕ, ◌==◌, ◌≡◌, refl, Bool, true, false, none, some, List, [], ◌∷◌, ◌++◌, map, arith, if◌then◌else◌,
  length, All,
}
use durandal.Prelude.Int.{pos, pos_part}
use durandal.Prelude.Str.{Str, codes, str_eq}
use durandal.Prelude.Dict
use durandal.Prelude.Dict.{Dict}
use durandal.Prelude.Outcome.{ok}
use durandal.Common.UnitOfTime.{Time}
use durandal.Archiver.Stream.{
  f64, str, many, Floats, Request, Message, Answers, Stream, get_times, times_of, get_time, reading,
  read_point, Arrival, read_points, single,
}
use durandal.Archiver.Stream.Commits.{take_series, commit, commit_between}
use durandal.Archiver.Stream.Laws.{commit_exact, commit_loses_arrivals}
use durandal.Archiver.Stream.Reading.{Decoded, with_records, read_point-list, read_point-lost}
use durandal.Archiver.Stream.Committing.{one_of_uris, failed_uri_never_committed}
use durandal.Archiver.Requests.{ArchiveRequest}
use durandal.Archiver.Handling.{
  Payload, Client, Manager, refused, done, stream_of, handle_archive_request, permitted, handle_all,
}
use durandal.Archiver.Handling.Laws.{
  IsPermitted, IsHandled, permitted-All, buffers_of, handle-attaches, failed_subscription_stops,
}

-- Numbers below a thousand stand for the finite float64 numbers.
abbrev small : Floats ℕ
small = record {
  from_u64 = λ n. n;
  from_i64 = λ n. pos_part n;
  to_i64 = λ x. pos x;
  not_finite = λ x. x == 1000;
}

-- A payload is a list of numbers, with two times.
abbrev of_numbers : Request ℕ (List ℕ)
of_numbers = record {
  value_expr = λ xs. some (many (map f64 xs));
  time_expr = some (λ xs. some (many (str (codes "a") ∷ str (codes "bcd") ∷ [])));
  parse_time = λ s. some (pos (length s));
  rewrite = λ uri. uri;
  uuid_of = λ uri. uri;
}

abbrev clock : ℕ → Time
clock i = pos 100

abbrev fine : Answers
fine = record { metadata_error = false; exists = some true; register_error = false }

abbrev failing : Answers
failing = record { metadata_error = true; exists = none; register_error = false }

abbrev with_numbers : List ℕ → Message (List ℕ)
with_numbers xs = record { uri = codes "ns/a"; no_payloads = false; thing = some xs }

-- The stream after it has seen the URI, with these numbers buffered.
abbrev holding : List ℕ → Stream ℕ
holding xs = record {
  seen_uris = (codes "ns/a", codes "ns/a") ∷ [];
  timeseries =
      (
        codes "ns/a",
        record {
          records = map (reading small (pos 7)) xs;
          generation = 0;
          src_uri = codes "ns/a";
          uuid = codes "ns/a";
        },
      )
      ∷ [];
  committed_uris = codes "ns/a" ∷ [];
}

abbrev unseen : Stream ℕ
unseen = record { seen_uris = []; timeseries = []; committed_uris = [] }

commit_exact_example :
    ((commit false (codes "ns/a") (holding (4 ∷ []))).0
        ++ (take_series (codes "ns/a") (commit false (codes "ns/a") (holding (4 ∷ []))).1).records
      ≡ (take_series (codes "ns/a") (holding (4 ∷ []))).records)
    × ((take_series (codes "ns/a") (commit false (codes "ns/a") (holding (4 ∷ []))).1).records ≡ [])
    × ((j : Str)
        → take_series j (commit false (codes "ns/a") (holding (4 ∷ []))).1 ≡ (
            if str_eq (codes "ns/a") j
            then take_series (codes "ns/a") (commit false (codes "ns/a") (holding (4 ∷ []))).1
            else take_series j (holding (4 ∷ []))))
commit_exact_example = commit_exact false (codes "ns/a") (holding (4 ∷ []))

abbrev meanwhile : List (Arrival small of_numbers)
meanwhile = (clock, fine, with_numbers (5 ∷ 6 ∷ [])) ∷ []

-- A payload is one number, with no expression for its time.
abbrev of_number : Request ℕ ℕ
of_number = record {
  value_expr = λ n. some (single (f64 n));
  time_expr = none;
  parse_time = λ s. none;
  rewrite = λ uri. uri;
  uuid_of = λ uri. uri;
}

abbrev with_number : Message ℕ
with_number = record { uri = codes "ns/a"; no_payloads = false; thing = some 5 }

number_Decoded : Decoded small of_number clock fine with_number (holding (4 ∷ [])) 5 (codes "ns/a")
unfolding Dict.get str_eq
number_Decoded = record { has_payloads = refl; decoded = refl; seen = refl }

clock_time : get_times small of_number clock 5 ≡ ok (pos 100 ∷ [])
unfolding get_times
clock_time = refl

has_four : (length (take_series (codes "ns/a") (holding (4 ∷ []))).records == 0) ≡ false
unfolding take_series Dict.get str_eq
has_four = refl

abbrev with_four_and_five : Stream ℕ
with_four_and_five = read_point small of_number clock fine with_number (holding (4 ∷ []))

commit_loses_arrivals_example :
    ((take_series (codes "ns/a") with_four_and_five).records
      ≡ (take_series (codes "ns/a") (holding (4 ∷ []))).records ++ reading small (pos 100) 5 ∷ [])
    × ((commit_between false (codes "ns/a") (holding (4 ∷ [])) with_four_and_five).0
        ≡ (take_series (codes "ns/a") (holding (4 ∷ []))).records)
    × ((take_series
          (codes "ns/a")
          (commit_between false (codes "ns/a") (holding (4 ∷ [])) with_four_and_five).1).records
        ≡ [])
commit_loses_arrivals_example =
    commit_loses_arrivals small of_number clock fine with_number (holding (4 ∷ [])) 5 (codes "ns/a")
      (f64 5) 5 (pos 100) [] number_Decoded refl refl refl clock_time has_four

seen_Decoded :
    (xs ys : List ℕ)
    → Decoded small of_numbers clock fine (with_numbers xs) (holding ys) xs (codes "ns/a")
unfolding Dict.get str_eq
seen_Decoded xs ys = record { has_payloads = refl; decoded = refl; seen = refl }

two_times : (xs : List ℕ) → get_times small of_numbers clock xs ≡ ok (pos 1 ∷ pos 3 ∷ [])
unfolding get_times times_of get_time
two_times xs = refl

read_point-list_example :
    read_point small of_numbers clock fine (with_numbers (5 ∷ [])) (holding (4 ∷ []))
    ≡ with_records small of_numbers clock fine
        (with_numbers (5 ∷ []))
        (holding (4 ∷ []))
        (5 ∷ [])
        (codes "ns/a")
        (reading small (pos 7) 4 ∷ reading small (pos 3) 5 ∷ [])
unfolding Dict.get str_eq
read_point-list_example =
    read_point-list small of_numbers clock fine (with_numbers (5 ∷ [])) (holding (4 ∷ [])) (5 ∷ [])
      (codes "ns/a") (5 ∷ []) (pos 1 ∷ pos 3 ∷ []) (seen_Decoded (5 ∷ []) (4 ∷ [])) refl (refl, tt)
      (two_times (5 ∷ [])) (omega arith)

read_point-lost_example :
    read_point small of_numbers clock fine (with_numbers (5 ∷ [])) (holding (4 ∷ 4 ∷ []))
    ≡ holding (4 ∷ 4 ∷ [])
unfolding Dict.get str_eq
read_point-lost_example =
    read_point-lost small of_numbers clock fine (with_numbers (5 ∷ [])) (holding (4 ∷ 4 ∷ []))
      (5 ∷ []) (codes "ns/a") 5 [] (pos 1 ∷ pos 3 ∷ []) (seen_Decoded (5 ∷ []) (4 ∷ 4 ∷ [])) refl
      refl (two_times (5 ∷ [])) (omega arith)

failed_uri_never_committed_example :
    one_of_uris
      (codes "ns/a")
      (read_points small of_numbers meanwhile
        (read_point small of_numbers clock failing (with_numbers (5 ∷ [])) unseen)).committed_uris
    ≡ false
unfolding Dict.get
failed_uri_never_committed_example =
    failed_uri_never_committed small of_numbers clock failing (with_numbers (5 ∷ [])) unseen
      meanwhile refl refl refl refl

abbrev of_uri : Str → ArchiveRequest
of_uri uri = record {
  from_vk = codes "alice";
  uri = uri;
  attach_uri = codes "ns";
  po = codes "2.0.0.0/8";
  uuid_expr = [];
  value_expr = codes "t";
  time_expr = [];
  time_parse = [];
  name = codes "temp";
  unit = codes "C";
  uri_match = [];
  uri_replace = [];
}

abbrev client : Bool → Client
client subscribes = record {
  compiles = λ s. true;
  subscribes = λ uri. subscribes;
  may_archive = λ uri vk. true;
}

abbrev fresh_manager : Manager
fresh_manager = record { locked = false; subscribed = []; subscriptions = []; started = [] }

abbrev elided : ArchiveRequest
elided = record (of_uri (codes "ns/b")) { po = [] }

abbrev payloads : List Payload
payloads = some elided ∷ some (of_uri (codes "ns/a")) ∷ none ∷ []

permitted-All_example :
    All
      (λ r. (r.from_vk ≡ codes "bob") × IsPermitted (client true) (codes "bob") r)
      (permitted (client true) (codes "bob") payloads)
    × All
        (IsHandled (client true) (codes "bob") (permitted (client true) (codes "bob") payloads))
        payloads
permitted-All_example = permitted-All (client true) (codes "bob") payloads

handle-attaches_example :
    ((handle_archive_request (client true) (of_uri (codes "ns/a")) fresh_manager).1 ≡ done)
    × ((handle_archive_request (client true) (of_uri (codes "ns/a")) fresh_manager).0.locked
        ≡ false)
    × ((j : Str)
        → Dict.get j
            (handle_archive_request
              (client true)
              (of_uri (codes "ns/a"))
              fresh_manager).0.subscriptions
          ≡ (if str_eq (codes "ns/a") j
              then some (
                  buffers_of (client true) (Dict.get (codes "ns/a") [])
                  ++ stream_of (of_uri (codes "ns/a")) ∷ [])
              else Dict.get j []))
handle-attaches_example =
    handle-attaches (client true) (of_uri (codes "ns/a")) fresh_manager refl refl refl refl

failed_subscription_stops_example :
    ((handle_archive_request (client false) (of_uri (codes "ns/a")) fresh_manager).1 ≡ refused)
    × ((rs : List ArchiveRequest)
        → (handle_all
            (client false)
            rs
            (handle_archive_request (client false) (of_uri (codes "ns/a")) fresh_manager).0).0
          ≡ (handle_archive_request (client false) (of_uri (codes "ns/a")) fresh_manager).0)
unfolding Dict.get
failed_subscription_stops_example =
    failed_subscription_stops (client false) (of_uri (codes "ns/a")) fresh_manager refl refl refl
      refl refl
