-- ===== src/Common/TimeText/Total.antt =====
-- The units of ParseUOT in ParseAbsTime of common/util.go.
use durandal.Prelude.{ℕ, ◌≡◌, refl, Bool, true, false, arith, if◌then◌else◌}
use durandal.Prelude.Int.{ℤ, ◌-ℤ◌, wrap64}
use durandal.Prelude.Str.{Str}
use durandal.Prelude.Outcome.{Outcome, ok, err, panic, ◌>>=◌}
use durandal.Common.ParseInt.{parse_int, int64_half}
use durandal.Common.UnitOfTime.{Time, uot_s, uot_ns, parse_uot, convert_time}
use durandal.Common.UnitOfTime.Exact.{IsUnit}
use durandal.Common.TimeText.{zero_time, time_of, parse_abs_time}

abbrev Returns {ℓ} : {A : Type ℓ} → Outcome A → Type 0
Returns panic = ⊥
Returns (err e) = ⊥
Returns (ok a) = Unit

convert-Returns : (i : ℤ) (a b : ℕ) → IsUnit a → IsUnit b → Returns (convert_time i a b)
unfolding convert_time
convert-Returns i a b ha hb = ground arith

Returns-bind {ℓ κ} :
    {A : Type ℓ} {B : Type κ} (o : Outcome A) (f : A → Outcome B)
    → Returns o
    → ((a : A) → Returns (f a))
    → Returns (o >>= f)
Returns-bind panic f h k = elim h [ ]
Returns-bind (err e) f h k = elim h [ ]
Returns-bind (ok a) f h k = k a

if-Returns {ℓ} :
    {A : Type ℓ} (b : Bool) (x y : Outcome A) → Returns x → Returns y → Returns (if b then x else y)
if-Returns true x y hx hy = hx
if-Returns false x y hx hy = hy

time_of-Returns : (i : ℤ) (u : ℕ) → IsUnit u → Returns (time_of i u)
unfolding time_of
time_of-Returns i u h =
    Returns-bind (convert_time i u uot_s) _ (convert-Returns i u uot_s h (omega arith)) λ secs.
      if-Returns secs.1 _ _ tt (
        Returns-bind (convert_time secs.0 uot_s u) _
          (convert-Returns secs.0 uot_s u (omega arith) h)
          λ back. if-Returns back.1 _ _ tt (
            Returns-bind (convert_time (wrap64 (i -ℤ back.0)) u uot_ns) _
              (convert-Returns (wrap64 (i -ℤ back.0)) u uot_ns h (omega arith))
              λ rest. if-Returns rest.1 _ _ tt tt))

parse_uot-IsUnit : (units : Str) → IsUnit (parse_uot units).0
unfolding parse_uot
parse_uot-IsUnit units = ground arith

parse_abs_time-Returns : (num units : Str) → Returns (parse_abs_time num units)
unfolding parse_abs_time
parse_abs_time-Returns num units = if-Returns (parse_int num int64_half).1 _ _ tt (
    if-Returns (parse_uot units).1 _ _ tt
      (time_of-Returns (parse_int num int64_half).0 (parse_uot units).0 (parse_uot-IsUnit units)))

-- The time and whether there was an error, of a call that does not panic.
abbrev pub settled : Outcome (Time × Bool) → Time × Bool
settled (ok r) = r
settled (err e) = (zero_time, true)
settled panic = (zero_time, true)

Returns-settled : (o : Outcome (Time × Bool)) → Returns o → o ≡ ok (settled o)
Returns-settled panic h = elim h [ ]
Returns-settled (err e) h = elim h [ ]
Returns-settled (ok r) h = refl

pub parse_abs_time-settled :
    (num units : Str) → parse_abs_time num units ≡ ok (settled (parse_abs_time num units))
parse_abs_time-settled num units =
    Returns-settled (parse_abs_time num units) (parse_abs_time-Returns num units)
