-- ===== src/Dots/TimeRange/Laws.antt =====
-- What the methods of a range mean for the instants in it.
use durandal.Prelude.{◌≡◌, ◌↔◌, ◌⊎◌, true, false, arith}
use durandal.Prelude.Int.{◌≤ℤ◌, ◌<ℤ◌}
use durandal.Common.UnitOfTime.{Time}
use durandal.Dots.TimeRange.{TimeRange, is_disjoint, merge_from, intersect, contains}

-- The instant lies in the closed range.
abbrev pub Covers : TimeRange → Time → Type 0
Covers r t = (r.start ≤ℤ t) × (t ≤ℤ r.end)

abbrev pub IsOrdered : TimeRange → Type 0
IsOrdered r = r.start ≤ℤ r.end

-- The range lies inside the other.
abbrev pub Within : TimeRange → TimeRange → Type 0
Within r o = (o.start ≤ℤ r.start) × (r.end ≤ℤ o.end)

-- Contains decides membership in the closed range, for a range whose start is not after its end.
contains_iff : (r : TimeRange) (t : Time) → IsOrdered r → (contains r t ≡ true) ↔ Covers r t
unfolding contains
contains_iff r t h = (λ e. ground arith, λ c. ground arith)

-- Intersecting with a range that IsDisjoint does not tell apart gives the instants of both.
intersect-Covers :
    (r o : TimeRange) (t : Time)
    → is_disjoint r o ≡ false
    → Covers (intersect r o) t ↔ (Covers r t × Covers o t)
unfolding intersect is_disjoint
intersect-Covers r o t h = (λ c. ground arith, λ c. ground arith)

-- A merged range covers what either range covered.
pub merge_from-Covers :
    (r o : TimeRange) (t : Time) → Covers r t ⊎ Covers o t → Covers (merge_from r o) t
unfolding merge_from
merge_from-Covers r o t h = ground arith

-- IsDisjoint tells apart exactly the ranges with the second behind the first: two ranges with the
-- second before the first share no instant, and IsDisjoint answers false.
pub is_disjoint_one_sided :
    (r o : TimeRange)
    → IsOrdered r
    → IsOrdered o
    → o.end <ℤ r.start
    → (is_disjoint r o ≡ false) × ((t : Time) → ¬ (Covers r t × Covers o t))
unfolding is_disjoint
is_disjoint_one_sided r o hr ho lt = (ground arith, λ t c. ground arith)
