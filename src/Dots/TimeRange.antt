-- ===== src/Dots/TimeRange.antt =====
-- TimeRange of dots/range.go. A range is written in place through a pointer by the Go code; here
-- each method returns what the range holds afterwards.
pub mod Laws
use durandal.Prelude.{
  ℕ, zero, suc, ◌+◌, ◌-◌, ◌*◌, ◌/◌, ◌%◌, ◌^◌, ◌≤◌, ◌<◌, ◌≡◌, refl, sym, ap, ◌∙◌, ◌≢◌, ◌↔◌, ◌⊎◌, inl,
  inr, Bool, true, false, not, ◌&&◌, ◌||◌, Option, none, some, List, [], ◌∷◌, ◌++◌, map,
  append_assoc, append-nil, arith, ltb, leb, ◌==◌, if◌then◌else◌, Bool-cases, Option-cases, length,
  get_elem?, take, drop, length-append, length-take, All, Any,
}
use durandal.Prelude.Int.{
  ℤ, pos, negsuc, pos_part, neg_part, sub_ℕ, ◌+ℤ◌, ◌-ℤ◌, ◌*ℤ◌, quot, floor_div, ◌≤ℤ◌, ◌<ℤ◌, ltb_ℤ,
  eqb_ℤ, bits64, wrap64, IsInt64, wrap64-eq_self,
}
use durandal.Prelude.Str.{
  Str, codes, str_eq, str_eq_refl, str_eq_iff, is_empty, has_prefix, index, last_index, has_suffix,
  trim_suffix, split, join,
}
use durandal.Prelude.Dict
use durandal.Prelude.Dict.{Dict, dict_laws}
use durandal.Prelude.Outcome.{Outcome, ok, err, panic, ◌>>=◌}
use durandal.Common.UnitOfTime.{Time}

pub record TimeRange : Type 0 where
  pub start : Time
  pub end : Time

-- Beginning and EndOfTime
abbrev pub beginning : Time
beginning = pos 0

abbrev pub end_of_time : Time
end_of_time = pos (2 ^ 63 - 1)

-- NewTimeRange, and NewTimeRangeNano, which reads the same numbers as nanoseconds.
abbrev pub new_time_range : Time → Time → TimeRange
new_time_range start end = record { start = start; end = end }

abbrev pub new_time_range_nano : ℤ → ℤ → TimeRange
new_time_range_nano start end = record { start = start; end = end }

abbrev pub before : Time → Time → Bool
before a b = ltb_ℤ a b

abbrev pub after : Time → Time → Bool
after a b = ltb_ℤ b a

unfoldable pub is_disjoint : TimeRange → TimeRange → Bool
is_disjoint rng rng2 = before rng.end rng2.start

unfoldable pub merge_from : TimeRange → TimeRange → TimeRange
merge_from rng rng2 = record {
  start = if after rng.start rng2.start then rng2.start else rng.start;
  end = if before rng.end rng2.end then rng2.end else rng.end;
}

-- Where the ranges are disjoint only the local variable is set to nil.
unfoldable pub intersect : TimeRange → TimeRange → TimeRange
unfolding is_disjoint
intersect rng rng2 = if is_disjoint rng rng2 then rng else record {
  start = if before rng.start rng2.start then rng2.start else rng.start;
  end = if after rng.end rng2.end then rng2.end else rng.end;
}

unfoldable pub contains : TimeRange → Time → Bool
contains rng t = (before rng.start t && after rng.end t) || eqb_ℤ rng.start t || eqb_ℤ rng.end t
