-- ===== src/Common/TimeText/Exact.antt =====
-- The times that the texts of the query language stand for: common/util.go.
use durandal.Prelude.{
  ℕ, ◌+◌, ◌-◌, ◌*◌, ◌/◌, ◌%◌, ◌^◌, ◌<◌, ◌≡◌, refl, inl, inr, true, false, List, [], ◌∷◌, arith,
  if◌then◌else◌, Bool-cases, All, Any,
}
use durandal.Prelude.Int.{pos, ◌+ℤ◌, ◌-ℤ◌, ◌*ℤ◌, quot, floor_div, bits64, wrap64}
use durandal.Prelude.Str.{Str, str_eq, str_eq_iff}
use durandal.Prelude.Outcome.{ok}
use durandal.Common.ParseInt.{parse_int, int64_half}
use durandal.Common.UnitOfTime.{
  uot_s, one_of, s_names, us_names, ms_names, ns_names, parse_uot, convert_time, unitmultiplier,
}
use durandal.Common.UnitOfTime.Exact.{IsUnit, unit_cases, ns_per}
use durandal.Common.TimeText.{time_of, parse_abs_time, parse_reltime, unix, unix_to_internal}

parse_uot-IsUnit : (units : Str) → IsUnit (parse_uot units).0
unfolding parse_uot
parse_uot-IsUnit units = ground arith

unix_exact :
    (a b : ℕ)
    → a < 2 ^ 63 - unix_to_internal
    → b < 1000000000
    → unix (pos a) (pos b) ≡ pos (a * 1000000000 + b)
unfolding wrap64 bits64 ◌*ℤ◌ ◌+ℤ◌ ◌-ℤ◌ floor_div unix
unix_exact a b h k = ground arith

to_seconds :
    (n u : ℕ) → IsUnit u → convert_time (pos n) u uot_s ≡ ok (pos (n / unitmultiplier u), false)
unfolding convert_time quot
to_seconds n u h = ground arith

time_of_s :
    (n : ℕ) → n < 2 ^ 63 - unix_to_internal → time_of (pos n) 4 ≡ ok (pos (n * 1000000000), false)
unfolding time_of convert_time quot wrap64 bits64 ◌*ℤ◌ ◌-ℤ◌
time_of_s n fits = ground (arith, unix_exact n 0)

time_of_ms :
    (n : ℕ) → n < 2 ^ 63 - unix_to_internal → time_of (pos n) 3 ≡ ok (pos (n * 1000000), false)
unfolding time_of convert_time quot wrap64 bits64 ◌*ℤ◌ ◌-ℤ◌
time_of_ms n fits = ground (arith, unix_exact (n / 1000) (n % 1000 * 1000000))

time_of_us :
    (n : ℕ) → n < 2 ^ 63 - unix_to_internal → time_of (pos n) 2 ≡ ok (pos (n * 1000), false)
unfolding time_of convert_time quot wrap64 bits64 ◌*ℤ◌ ◌-ℤ◌
time_of_us n fits = ground (arith, unix_exact (n / 1000000) (n % 1000000 * 1000))

time_of_ns : (n : ℕ) → n < 2 ^ 63 - unix_to_internal → time_of (pos n) 1 ≡ ok (pos n, false)
unfolding time_of convert_time quot wrap64 bits64 ◌*ℤ◌ ◌-ℤ◌
time_of_ns n fits = ground (arith, unix_exact (n / 1000000000) (n % 1000000000))

time_of_exact :
    (n u : ℕ)
    → IsUnit u
    → n < 2 ^ 63 - unix_to_internal
    → time_of (pos n) u ≡ ok (pos (n * ns_per u), false)
time_of_exact n u h fits = elim (unit_cases u h) [
  | inl e ↦ rw e (ground (arith, time_of_ns n fits))
  | inr (inl e) ↦ rw e (time_of_us n fits)
  | inr (inr (inl e)) ↦ rw e (time_of_ms n fits)
  | inr (inr (inr e)) ↦ rw e (time_of_s n fits)
]

-- An absolute time with a unit is the exact number of nanoseconds since 1970, with no error, if the
-- number is not negative and, whatever its unit, would as a number of seconds fit in a time.Time.
pub parse_abs_time-exact :
    (num units : Str) (n : ℕ)
    → parse_int num int64_half ≡ (pos n, false)
    → (parse_uot units).1 ≡ false
    → n < 2 ^ 63 - unix_to_internal
    → parse_abs_time num units ≡ ok (pos (n * ns_per (parse_uot units).0), false)
unfolding parse_abs_time
parse_abs_time-exact num units n p q fits =
    rw (p, q) (time_of_exact n (parse_uot units).0 (parse_uot-IsUnit units) fits)

one_of-Any : (s : Str) (ts : List Str) → one_of s ts ≡ true → Any (λ t. s ≡ t) ts
one_of-Any s [] h = cc
one_of-Any s (t ∷ ts) h = elim (Bool-cases (str_eq s t)) [
  | inl e ↦ inl ((str_eq_iff s t).0 e)
  | inr e ↦ inr (one_of-Any s ts (rw e at h))
]

All-at : (P : Str → Type 0) (s : Str) (ts : List Str) → All P ts → Any (λ t. s ≡ t) ts → P s
All-at P s [] _ h = elim h [ ]
All-at P s (t ∷ ts) (p, ps) (inl e) = rw e p
All-at P s (t ∷ ts) (p, ps) (inr h) = All-at P s ts ps h

-- Both parsers read the text as the unit, for every number.
record Agrees (units : Str) : Type 0 where
  agree :
      (num : Str)
      → parse_reltime num units ≡ (
          if (parse_int num int64_half).1
          then (pos 0, true)
          else (wrap64 ((parse_int num int64_half).0 *ℤ ns_per (parse_uot units).0), false))

agree_lists : All Agrees s_names × All Agrees us_names × All Agrees ms_names × All Agrees ns_names
unfolding parse_reltime parse_uot str_eq
agree_lists = (
  (
    record { agree = λ num. refl },
    (
      record { agree = λ num. refl },
      (record { agree = λ num. refl }, (record { agree = λ num. refl }, tt)),
    ),
  ),
  (
    record { agree = λ num. refl },
    (
      record { agree = λ num. refl },
      (record { agree = λ num. refl }, (record { agree = λ num. refl }, tt)),
    ),
  ),
  (
    record { agree = λ num. refl },
    (
      record { agree = λ num. refl },
      (record { agree = λ num. refl }, (record { agree = λ num. refl }, tt)),
    ),
  ),
  (
    record { agree = λ num. refl },
    (
      record { agree = λ num. refl },
      (record { agree = λ num. refl }, (record { agree = λ num. refl }, tt)),
    ),
  ),
)

known_unit : (units : Str) → (parse_uot units).1 ≡ false → Agrees units
unfolding parse_uot
known_unit units h = elim (Bool-cases (one_of units s_names)) [
  | inl e ↦ All-at Agrees units s_names agree_lists.0 (one_of-Any units s_names e)
  | inr e ↦ elim (Bool-cases (one_of units us_names)) [
    | inl e2 ↦ All-at Agrees units us_names agree_lists.1 (one_of-Any units us_names e2)
    | inr e2 ↦ elim (Bool-cases (one_of units ms_names)) [
      | inl e3 ↦ All-at Agrees units ms_names agree_lists.2 (one_of-Any units ms_names e3)
      | inr e3 ↦ elim (Bool-cases (one_of units ns_names)) [
        | inl e4 ↦ All-at Agrees units ns_names agree_lists.3 (one_of-Any units ns_names e4)
        | inr e4 ↦ absurd (cc (h, e, e2, e3, e4))
      ]
    ]
  ]
]

-- Every unit that an absolute time may have is a unit of a relative time too, with the same length:
-- the duration is the number times that length, in int64 arithmetic, with an error exactly when the
-- number does not parse.
parse_reltime-parse_uot :
    (num units : Str)
    → (parse_uot units).1 ≡ false
    → parse_reltime num units ≡ (
        if (parse_int num int64_half).1
        then (pos 0, true)
        else (wrap64 ((parse_int num int64_half).0 *ℤ ns_per (parse_uot units).0), false))
parse_reltime-parse_uot num units h = (known_unit units h).agree num
