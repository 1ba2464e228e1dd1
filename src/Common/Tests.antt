-- ===== src/Common/Tests.antt =====
-- Tests of the package common, and its theorems at concrete inputs.
use durandal.Prelude.{◌-◌, ◌*◌, ◌%◌, ◌^◌, ◌<◌, ◌≡◌, refl, inl, true, false, none, [], ◌∷◌, arith}
use durandal.Prelude.Int.{pos, negsuc}
use durandal.Prelude.Str.{codes, str_eq}
use durandal.Prelude.Outcome.{ok}
use durandal.Common.ParseInt.{parse_int, int64_half}
use durandal.Common.UnitOfTime.{uot_ns, uot_s, guess_time_unit, convert_time, parse_uot}
use durandal.Common.UnitOfTime.Exact.{ns_per, guess-convert_exact, convert_overflow_undetected}
use durandal.Common.TimeText.{parse_abs_time}
use durandal.Common.TimeText.Exact.{parse_abs_time-exact}
use durandal.Common.Value.{str}
use durandal.Common.Metadata.{MetadataRecord, MetadataGroup, empty_record, empty_group, merge}
use durandal.Common.Metadata.Laws.{merge_blocks}

guess-convert_exact_example :
    (convert_time (pos 1500000000) (guess_time_unit (pos 1500000000)) uot_ns
      ≡ ok (pos (1500000000 * ns_per (guess_time_unit (pos 1500000000))), false))
    × (1500000000 * ns_per (guess_time_unit (pos 1500000000)) < 2 ^ 63)
guess-convert_exact_example = guess-convert_exact 1500000000 (omega arith)

convert_overflow_undetected_example :
    convert_time (pos 20000000000) uot_s uot_ns
    ≡ ok (pos (20000000000 * 1000000000 % 2 ^ 64), false)
convert_overflow_undetected_example =
    convert_overflow_undetected 20000000000 (omega arith) (omega arith)

parse_42 : parse_int (codes "42") int64_half ≡ (pos 42, false)
unfolding parse_int
parse_42 = refl

known_ms : (parse_uot (codes "ms")).1 ≡ false
unfolding parse_uot str_eq
known_ms = refl

parse_abs_time-exact_example :
    parse_abs_time (codes "42") (codes "ms")
    ≡ ok (pos (42 * ns_per (parse_uot (codes "ms")).0), false)
parse_abs_time-exact_example =
    parse_abs_time-exact (codes "42") (codes "ms") 42 parse_42 known_ms (omega arith)

range_error : parse_int (codes "-9223372036854775809") int64_half ≡ (negsuc (2 ^ 63 - 1), true)
unfolding parse_int
range_error = refl

abbrev unit_record : MetadataRecord
unit_record = record empty_record { key = codes "unit"; value = str (codes "C") }

abbrev one_record : MetadataGroup
one_record = record empty_group { records = (codes "unit", unit_record) ∷ [] }

merge_blocks_example : merge empty_group one_record ≡ none
merge_blocks_example = merge_blocks empty_group one_record (inl refl)
