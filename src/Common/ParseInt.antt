-- ===== src/Common/ParseInt.antt =====
-- strconv.ParseInt in base 10, as common/util.go and querylang/query.go call it.
use durandal.Prelude.{
  ℕ, ◌+◌, ◌-◌, ◌*◌, ◌^◌, ◌≡◌, inl, inr, Bool, true, false, not, ◌&&◌, [], ◌∷◌, arith, ltb, leb,
  ◌==◌, if◌then◌else◌, Bool-cases,
}
use durandal.Prelude.Int.{ℤ, pos, sub_ℕ, IsInt64}
use durandal.Prelude.Str.{Str}

pub data Scan : Type 0 where
  value : ℕ → Scan
  syntax_error range_error : Scan

abbrev is_digit : ℕ → Bool
is_digit c = leb b'0' c && leb c b'9'

-- The digits of an unsigned number that is at most `max_value`.
scan : ℕ → ℕ → Str → Scan
scan max_value n [] = value n
scan max_value n (c ∷ s) =
    let m = n * 10 + (c - b'0') in
    if not (is_digit c)
    then syntax_error
    else if ltb max_value m
    then range_error
    else scan max_value m s

scan_digits : ℕ → Str → Scan
unfolding scan
scan_digits max_value [] = syntax_error
scan_digits max_value (c ∷ s) = scan max_value 0 (c ∷ s)

-- The number and whether there was an error; `half` is 2^(bits-1).
abbrev signed_result : Bool → ℕ → Scan → ℤ × Bool
signed_result negative half syntax_error = (pos 0, true)
signed_result true half range_error = (sub_ℕ 0 half, true)
signed_result false half range_error = (pos (half - 1), true)
signed_result true half (value n) = if ltb half n then (sub_ℕ 0 half, true) else (sub_ℕ 0 n, false)
signed_result false half (value n) = if leb half n then (pos (half - 1), true) else (pos n, false)

-- ParseInt(s, 10, bits) for an integer type with `half` = 2^(bits-1)
unfoldable pub parse_int : Str → ℕ → ℤ × Bool
unfolding scan_digits
parse_int [] half = (pos 0, true)
parse_int (c ∷ s) half =
    if c == b'-'
    then signed_result true half (scan_digits (half * 2 - 1) s)
    else if c == b'+'
    then signed_result false half (scan_digits (half * 2 - 1) s)
    else signed_result false half (scan_digits (half * 2 - 1) (c ∷ s))

abbrev pub int64_half : ℕ
int64_half = 2 ^ 63

signed_result-IsInt64 :
    (negative : Bool) (r : Scan)
    → (signed_result negative int64_half r).1 ≡ false
    → IsInt64 (signed_result negative int64_half r).0
signed_result-IsInt64 negative syntax_error h = cc
signed_result-IsInt64 true range_error h = cc
signed_result-IsInt64 false range_error h = cc
signed_result-IsInt64 true (value n) h = ground arith
signed_result-IsInt64 false (value n) h = ground arith

-- What is parsed without an error is an int64.
pub parse_int-IsInt64 :
    (s : Str) → (parse_int s int64_half).1 ≡ false → IsInt64 (parse_int s int64_half).0
unfolding parse_int
parse_int-IsInt64 [] h = cc
parse_int-IsInt64 (c ∷ s) h = elim (Bool-cases (c == b'-')) [
  | inl e ↦ rw e (signed_result-IsInt64 true (scan_digits (int64_half * 2 - 1) s) (rw e at h))
  | inr e ↦ elim (Bool-cases (c == b'+')) [
    | inl e2 ↦
        rw (e, e2)
          (signed_result-IsInt64 false (scan_digits (int64_half * 2 - 1) s) (rw (e, e2) at h))
    | inr e2 ↦
        rw (e, e2)
          (signed_result-IsInt64 false (scan_digits (int64_half * 2 - 1) (c ∷ s)) (rw (e, e2) at h))
  ]
]
