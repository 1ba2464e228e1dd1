-- ===== src/Dots/DisjointRanges.antt =====
-- DisjointRanges of dots/range.go. The slice holds pointers, and Merge and GetOverlap write through
-- them: a heap gives the range that a pointer leads to, and a nil pointer panics when it is read.
pub mod Merge
pub mod Clip
pub mod Overlap
pub mod Bounds
use durandal.Prelude.{
  ℕ, zero, suc, ◌+◌, ◌-◌, ◌*◌, ◌/◌, ◌%◌, ◌^◌, ◌≤◌, ◌<◌, ◌≡◌, refl, sym, ap, ◌∙◌, ◌≢◌, ◌↔◌, ◌⊎◌, inl,
  inr, Bool, true, false, not, ◌&&◌, ◌||◌, Option, none, some, List, [], ◌∷◌, ◌++◌, map,
  append_assoc, append-nil, arith, ltb, leb, ◌==◌, if◌then◌else◌, Bool-cases, Option-cases, length,
  get_elem?, take, drop, length-append, length-take, All, Any,
}
use durandal.Prelude.Int.{
  ℤ, pos, negsuc, pos_part, neg_part, sub_ℕ, ◌+ℤ◌, ◌-ℤ◌, ◌*ℤ◌, quot, floor_div, ◌≤ℤ◌, ◌<ℤ◌, ltb_ℤ,
  eqb_ℤ, bits64, wrap64, IsInt64, wrap64-eq_self,
}
use durandal.Prelude.Str.{
  Str, codes, str_eq, str_eq_refl, str_eq_iff, is_empty, has_prefix, index, last_index, has_suffix,
  trim_suffix, split, join,
}
use durandal.Prelude.Dict
use durandal.Prelude.Dict.{Dict, dict_laws}
use durandal.Prelude.Outcome.{Outcome, ok, err, panic, ◌>>=◌}
use durandal.Dots.TimeRange.{TimeRange, is_disjoint, merge_from, intersect}

-- *TimeRange: `none` is nil.
abbrev pub Ref : Type 0
Ref = Option ℕ

abbrev pub Heap : Type 0
Heap = ℕ → TimeRange

abbrev pub write : Heap → ℕ → TimeRange → Heap
write h p r q = if p == q then r else h q

abbrev pub read : Heap → Ref → Outcome TimeRange
read h none = panic
read h (some p) = ok (h p)

abbrev pub store : Heap → Ref → TimeRange → Heap
store h none r = h
store h (some p) r = write h p r

-- The loop of Merge: the heap after the write, or `none` if no range overlaps.
unfoldable pub merge_loop : Heap → List Ref → Ref → Outcome (Option Heap)
merge_loop h [] rng = ok none
merge_loop h (oldrng ∷ ranges) rng = do
  r ← read h rng
  o ← read h oldrng
  if is_disjoint r o then merge_loop h ranges rng else ok (some (store h oldrng (merge_from o r)))

-- The heap and the slice after the loop: a range that overlaps none is appended.
abbrev pub after_loop : Heap → List Ref → Ref → Option Heap → Heap × List Ref
after_loop h ranges rng (some h') = (h', ranges)
after_loop h ranges rng none = (h, ranges ++ rng ∷ [])

-- Merge: the heap and the slice afterwards.
unfoldable pub merge : Heap → List Ref → Ref → Outcome (Heap × List Ref)
unfolding merge_loop
merge h ranges rng = do found ← merge_loop h ranges rng; ok (after_loop h ranges rng found)

-- The loop of GetOverlap; `newdj` is the slice that is built.
unfoldable pub overlap_loop : Heap → List Ref → Ref → List Ref → Outcome (Heap × List Ref)
overlap_loop h [] rng newdj = ok (h, newdj)
overlap_loop h (oldrange ∷ ranges) rng newdj = do
  r ← read h rng
  o ← read h oldrange
  if is_disjoint r o then overlap_loop h ranges rng newdj else do
    merged ← merge (store h rng (intersect r o)) newdj rng
    overlap_loop merged.0 ranges rng merged.1

-- GetOverlap: the heap and the slice that is returned.
unfoldable pub get_overlap : Heap → List Ref → Ref → Outcome (Heap × List Ref)
unfolding overlap_loop
get_overlap h ranges rng = overlap_loop h ranges rng []
