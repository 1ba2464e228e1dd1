-- ===== src/Common/UnitOfTime/Exact.antt =====
-- The conversion of timestamps of common/util.go against exact arithmetic.
use durandal.Prelude.{
  ℕ, ◌*◌, ◌/◌, ◌%◌, ◌^◌, ◌≤◌, ◌<◌, ◌≡◌, refl, ◌≢◌, ◌⊎◌, inl, inr, true, false, arith,
}
use durandal.Prelude.Int.{pos, negsuc, ◌*ℤ◌, quot, bits64, wrap64}
use durandal.Prelude.Outcome.{ok, ◌>>=◌}
use durandal.Common.UnitOfTime.{
  UnitOfTime, uot_ns, uot_us, uot_ms, uot_s, unitmultiplier, guess_time_unit, convert_time,
  marshal_json, unmarshal_json,
}

abbrev pub IsUnit : UnitOfTime → Type 0
IsUnit u = (uot_ns ≤ u) × (u ≤ uot_s)

pub unit_cases :
    (u : UnitOfTime) → IsUnit u → (u ≡ uot_ns) ⊎ (u ≡ uot_us) ⊎ (u ≡ uot_ms) ⊎ (u ≡ uot_s)
unit_cases u h = omega arith

-- The number of nanoseconds in a unit.
abbrev pub ns_per : UnitOfTime → ℕ
ns_per u = 1000000000 / unitmultiplier u

-- A timestamp that is not negative, read in the unit that is guessed for it, converts to
-- nanoseconds with no error and no overflow: the result is the exact product and an int64.
pub guess-convert_exact :
    (n : ℕ)
    → n < 2 ^ 63
    → (convert_time (pos n) (guess_time_unit (pos n)) uot_ns
        ≡ ok (pos (n * ns_per (guess_time_unit (pos n))), false))
      × (n * ns_per (guess_time_unit (pos n)) < 2 ^ 63)
unfolding convert_time guess_time_unit wrap64 bits64 ◌*ℤ◌
guess-convert_exact n h = ground arith

-- To a finer unit the result is the exact product, if that is an int64.
pub convert-finer :
    (n : ℕ) (stream_uot target_uot : UnitOfTime)
    → IsUnit stream_uot
    → IsUnit target_uot
    → target_uot < stream_uot
    → n * (unitmultiplier target_uot / unitmultiplier stream_uot) < 2 ^ 63
    → convert_time (pos n) stream_uot target_uot
      ≡ ok (pos (n * (unitmultiplier target_uot / unitmultiplier stream_uot)), false)
unfolding convert_time wrap64 bits64 ◌*ℤ◌
convert-finer n s t hs ht lt fits = ground arith

-- For a time that is not negative, the way to a finer unit and back gives the time again, if the
-- finer time is an int64.
convert-convert :
    (n : ℕ) (stream_uot target_uot : UnitOfTime)
    → IsUnit stream_uot
    → IsUnit target_uot
    → target_uot < stream_uot
    → n * (unitmultiplier target_uot / unitmultiplier stream_uot) < 2 ^ 63
    → (do
      fine ← convert_time (pos n) stream_uot target_uot
      convert_time fine.0 target_uot stream_uot)
      ≡ ok (pos n, false)
unfolding convert_time quot wrap64 bits64 ◌*ℤ◌
convert-convert n s t hs ht lt fits = ground arith

-- A time before 1970 converts to no other unit: every such conversion gives the time itself and
-- an error.
pub convert_negative :
    (n : ℕ) (stream_uot target_uot : UnitOfTime)
    → n < 9000000000
    → IsUnit stream_uot
    → IsUnit target_uot
    → stream_uot ≢ target_uot
    → convert_time (negsuc n) stream_uot target_uot ≡ ok (negsuc n, true)
unfolding convert_time quot wrap64 bits64 ◌*ℤ◌
convert_negative n s t h hs ht ne = ground arith

-- The test for an overflow misses it when the product wraps around to an int64 that is not below
-- the time: from seconds to nanoseconds the wrapped product is returned with no error.
pub convert_overflow_undetected :
    (n : ℕ)
    → n ≤ n * 1000000000 % 2 ^ 64
    → n * 1000000000 % 2 ^ 64 < 2 ^ 63
    → convert_time (pos n) uot_s uot_ns ≡ ok (pos (n * 1000000000 % 2 ^ 64), false)
unfolding convert_time wrap64 bits64 ◌*ℤ◌
convert_overflow_undetected n h k = ground arith

-- The JSON of a unit is read back as that unit, whatever the variable held.
pub unmarshal-marshal :
    (u old : UnitOfTime) → IsUnit u → unmarshal_json old (marshal_json u) ≡ (u, false)
unfolding unmarshal_json marshal_json
unmarshal-marshal u old h = elim (unit_cases u h) [
  | inl e ↦ rw e refl
  | inr (inl e) ↦ rw e refl
  | inr (inr (inl e)) ↦ rw e refl
  | inr (inr (inr e)) ↦ rw e refl
]
