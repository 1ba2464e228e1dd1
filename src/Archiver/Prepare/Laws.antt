-- ===== src/Archiver/Prepare/Laws.antt =====
-- The parameters that prepareDataParams of archiver/api.go leaves for the stores.
use durandal.Prelude.{
  ℕ, min, max, ◌*◌, ◌^◌, ◌≤◌, ◌<◌, ◌≡◌, refl, ap, Bool, true, false, List, arith, ◌==◌,
  if◌then◌else◌, ==→eq, length, length-take,
}
use durandal.Prelude.Int.{ℤ, pos, negsuc, pos_part, ◌*ℤ◌, ◌<ℤ◌, bits64, wrap64}
use durandal.Prelude.Outcome.{ok, ◌>>=◌}
use durandal.Common.UnitOfTime.{guess_time_unit, convert_time, uot_ns}
use durandal.Common.UnitOfTime.Exact.{ns_per, guess-convert_exact}
use durandal.Common.Uuid.{Uuid}
use durandal.Common.Params.{DataParams}
use durandal.Archiver.Stores.{MetadataStore}
use durandal.Archiver.Prepare.{
  evaluate_where, limit_streams, to_nanoseconds, checked, order_bounds, prepare_data_params,
}

-- The streams that the where clause matches, or the ones that were given without a clause.
abbrev pub Matched : MetadataStore → DataParams → List Uuid → Type 0
Matched md params uuids = evaluate_where md params.where_clause params.uuids ≡ ok uuids

if_same : {A : Type 0} (b : Bool) (x y : A) → (b ≡ true → x ≡ y) → (if b then x else y) ≡ y
if_same true x y h = h refl
if_same false x y h = refl

in_ns : (n u : ℕ) → (u == uot_ns) ≡ true → n ≡ n * ns_per u
in_ns n u e = rw (==→eq u uot_ns e) (omega arith)

by_unit :
    (n u : ℕ)
    → convert_time (pos n) u uot_ns ≡ ok (pos (n * ns_per u), false)
    → (if u == uot_ns then ok (pos n) else (convert_time (pos n) u uot_ns >>= checked))
      ≡ ok (pos (n * ns_per u))
unfolding checked
by_unit n u h = rw h (
    if_same (u == uot_ns) (ok (pos n)) (ok (pos (n * ns_per u)))
      λ e. ap (λ m. ok (pos m)) (in_ns n u e))

to_nanoseconds-exact :
    (n : ℕ) → n < 2 ^ 63 → to_nanoseconds (pos n) ≡ ok (pos (n * ns_per (guess_time_unit (pos n))))
unfolding to_nanoseconds
to_nanoseconds-exact n h = by_unit n (guess_time_unit (pos n)) (guess-convert_exact n h).0

-- Two bounds that are not negative.
abbrev pub MinMax : ℕ → ℕ → DataParams → Type 0
MinMax a b q = (q.begin ≡ pos (min a b)) × (q.end ≡ pos (max a b))

order_bounds-MinMax :
    (params : DataParams) (a b : ℕ)
    → params.begin ≡ pos a
    → params.end ≡ pos b
    → MinMax a b (order_bounds params)
unfolding order_bounds
order_bounds-MinMax params a b ea eb = ground arith

order_bounds-uuids : (params : DataParams) → (order_bounds params).uuids ≡ params.uuids
unfolding order_bounds
order_bounds-uuids params = ground arith

limit_streams-bound :
    (limit : ℤ) (uuids : List Uuid)
    → pos 0 <ℤ limit
    → length (limit_streams limit uuids) ≤ pos_part limit
unfolding limit_streams
limit_streams-bound limit uuids h = ground (arith, length-take (pos_part limit) uuids)

-- The queries of bounds that are not negative, for which the metadata store answers, are prepared with
-- no error and no overflow. Both bounds become exact numbers of nanoseconds and the earlier one begins
-- the range; the streams are the matched ones, no more than the limit, if there is one.
pub prepare_exact :
    (md : MetadataStore) (params : DataParams) (uuids : List Uuid) (b e : ℕ)
    → Matched md params uuids
    → params.begin ≡ pos b
    → params.end ≡ pos e
    → b < 2 ^ 63
    → e < 2 ^ 63
    → (q : DataParams) × (prepare_data_params md params ≡ ok q)
      × MinMax (b * ns_per (guess_time_unit (pos b))) (e * ns_per (guess_time_unit (pos e))) q
      × (q.uuids ≡ limit_streams params.stream_limit uuids)
      × (pos 0 <ℤ params.stream_limit → length q.uuids ≤ pos_part params.stream_limit)
unfolding prepare_data_params
prepare_exact md params uuids b e m eb ee hb he = (
  order_bounds prepared,
  rw (m, eb, to_nanoseconds-exact b hb, ee, to_nanoseconds-exact e he) refl,
  order_bounds-MinMax prepared (b * ns_per (guess_time_unit (pos b)))
      (e * ns_per (guess_time_unit (pos e))) refl refl,
  order_bounds-uuids prepared,
  λ h. rw (order_bounds-uuids prepared) (limit_streams-bound params.stream_limit uuids h),
)
  where
    prepared : DataParams
    prepared = record params {
      uuids = limit_streams params.stream_limit uuids;
      begin = pos (b * ns_per (guess_time_unit (pos b)));
      end = pos (e * ns_per (guess_time_unit (pos e)));
    }

-- unix_nano of the zero time.Time, 0001-01-01, which is far outside int64.
abbrev pub zero_time_nano : ℤ
zero_time_nano = wrap64 (negsuc 62135596799999999999)

to_nanoseconds-zero_time : to_nanoseconds zero_time_nano ≡ ok (pos 697879660364562432)
unfolding to_nanoseconds checked guess_time_unit convert_time wrap64 bits64 ◌*ℤ◌
to_nanoseconds-zero_time = refl

order_bounds-swap :
    (params : DataParams) (a b : ℕ)
    → params.begin ≡ pos a
    → params.end ≡ pos b
    → b < a
    → (order_bounds params).begin ≡ pos b
unfolding order_bounds
order_bounds-swap params a b ea eb lt = ground arith

-- A query whose end stayed the zero time, as that of a query for the reading before or after a time
-- does, loses that time: for every reference that begins later than 697879660364562432 ns, a moment in
-- February 1992 that the wrapped zero time converts to, the prepared range begins at that moment.
pub prepare_zero_end :
    (md : MetadataStore) (params : DataParams) (uuids : List Uuid) (b : ℕ)
    → Matched md params uuids
    → params.begin ≡ pos b
    → params.end ≡ zero_time_nano
    → b < 2 ^ 63
    → 697879660364562432 < b * ns_per (guess_time_unit (pos b))
    → (q : DataParams) × (prepare_data_params md params ≡ ok q) × (q.begin ≡ pos 697879660364562432)
unfolding prepare_data_params
prepare_zero_end md params uuids b m eb ee hb late = (
  order_bounds prepared,
  rw (m, eb, to_nanoseconds-exact b hb, ee, to_nanoseconds-zero_time) refl,
  order_bounds-swap prepared (b * ns_per (guess_time_unit (pos b))) 697879660364562432 refl refl
      late,
)
  where
    prepared : DataParams
    prepared = record params {
      uuids = limit_streams params.stream_limit uuids;
      begin = pos (b * ns_per (guess_time_unit (pos b)));
      end = pos 697879660364562432;
    }
