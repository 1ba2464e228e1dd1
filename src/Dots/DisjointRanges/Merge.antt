-- ===== src/Dots/DisjointRanges/Merge.antt =====
-- What Merge does to the instants that a set of ranges covers.
use durandal.Prelude.{
  ℕ, ◌≡◌, refl, ◌⊎◌, inl, inr, false, Option, none, some, List, [], ◌∷◌, arith, ◌==◌, Bool-cases,
  ==→eq, ==-refl, Any, Any-append_left, Any-append_right,
}
use durandal.Prelude.Int.{◌<ℤ◌}
use durandal.Prelude.Outcome.{ok, >>=-eq-ok, ok-injective, ok_some-injective}
use mathlib.Core.Path.{subst}
use durandal.Common.UnitOfTime.{Time}
use durandal.Dots.TimeRange.{TimeRange, is_disjoint, merge_from}
use durandal.Dots.TimeRange.Laws.{Covers, IsOrdered, merge_from-Covers, is_disjoint_one_sided}
use durandal.Dots.DisjointRanges.{Ref, Heap, write, merge_loop, after_loop, merge}

abbrev pub RefCovers : Heap → Time → Ref → Type 0
RefCovers h t none = ⊥
RefCovers h t (some q) = Covers (h q) t

-- Some range of the slice covers the instant.
abbrev pub CoveredBy : Heap → List Ref → Time → Type 0
CoveredBy h refs t = Any (RefCovers h t) refs

-- Nothing that a pointer leads to covers less afterwards.
record Grows (h h' : Heap) : Type 0 where
  grows : (q : ℕ) (t : Time) → Covers (h q) t → Covers (h' q) t

CoveredBy-Grows :
    (h h' : Heap) (refs : List Ref) (t : Time)
    → Grows h h'
    → CoveredBy h refs t
    → CoveredBy h' refs t
CoveredBy-Grows h h' [] t g c = c
CoveredBy-Grows h h' (none ∷ refs) t g (inl c) = elim c [ ]
CoveredBy-Grows h h' (some q ∷ refs) t g (inl c) = inl (g.grows q t c)
CoveredBy-Grows h h' (none ∷ refs) t g (inr c) = inr (CoveredBy-Grows h h' refs t g c)
CoveredBy-Grows h h' (some q ∷ refs) t g (inr c) = inr (CoveredBy-Grows h h' refs t g c)

write-Grows : (h : Heap) (q : ℕ) (r : TimeRange) → Grows h (write h q (merge_from (h q) r))
write-Grows h q r = record {
  grows = λ p t c. elim (Bool-cases (q == p)) [
    | inl e ↦ rw e (merge_from-Covers (h q) r t (inl (rw (==→eq q p e) c)))
    | inr e ↦ rw e c
  ];
}

-- What the loop has done when it found a range to merge into.
merge_loop-Covers :
    (h h' : Heap) (refs : List Ref) (p : ℕ) (t : Time)
    → merge_loop h refs (some p) ≡ ok (some h')
    → Grows h h' × (Covers (h p) t → CoveredBy h' refs t)
unfolding merge_loop
merge_loop-Covers h h' [] p t e = cc
merge_loop-Covers h h' (none ∷ refs) p t e = cc
merge_loop-Covers h h' (some q ∷ refs) p t e = elim (Bool-cases (is_disjoint (h p) (h q))) [
  | inl d ↦ let (g, c) = merge_loop-Covers h h' refs p t (rw d at e) in (g, λ x. inr (c x))
  | inr d ↦
      subst (λ g. Grows h g × (Covers (h p) t → CoveredBy g (some q ∷ refs) t))
        (ok_some-injective (write h q (merge_from (h q) (h p))) h' (rw d at e))
        (write-Grows h q (h p), λ c. inl (rw ==-refl (merge_from-Covers (h q) (h p) t (inr c))))
]

after_loop-Covers :
    (h : Heap) (refs : List Ref) (p : ℕ) (t : Time) (found : Option Heap)
    → merge_loop h refs (some p) ≡ ok found
    → CoveredBy h refs t ⊎ Covers (h p) t
    → CoveredBy (after_loop h refs (some p) found).0 (after_loop h refs (some p) found).1 t
after_loop-Covers h refs p t none l (inl c) = Any-append_left (RefCovers h t) refs (some p ∷ []) c
after_loop-Covers h refs p t none l (inr c) =
    Any-append_right (RefCovers h t) refs (some p ∷ []) (inl c)
after_loop-Covers h refs p t (some g) l (inl c) =
    CoveredBy-Grows h g refs t (merge_loop-Covers h g refs p t l).0 c
after_loop-Covers h refs p t (some g) l (inr c) = (merge_loop-Covers h g refs p t l).1 c

-- Merging a range into a set of ranges loses no instant: what a range of the set or the new range
-- covered is covered afterwards, through whichever pointers they share.
pub merge-Covers :
    (h h' : Heap) (refs refs' : List Ref) (p : ℕ) (t : Time)
    → merge h refs (some p) ≡ ok (h', refs')
    → CoveredBy h refs t ⊎ Covers (h p) t
    → CoveredBy h' refs' t
unfolding merge
merge-Covers h h' refs refs' p t e c =
    let (found, l, q) = >>=-eq-ok (merge_loop h refs (some p)) _ e in
    subst (λ r. CoveredBy r.0 r.1 t) (ok-injective _ (h', refs') q)
      (after_loop-Covers h refs p t found l c)

pub merge_first :
    (h : Heap) (q p : ℕ) (refs : List Ref)
    → is_disjoint (h p) (h q) ≡ false
    → merge h (some q ∷ refs) (some p) ≡ ok (write h q (merge_from (h q) (h p)), some q ∷ refs)
unfolding merge merge_loop
merge_first h q p refs d = rw d refl

hull-Covers :
    (o r : TimeRange) (t : Time)
    → IsOrdered o
    → IsOrdered r
    → o.end <ℤ t
    → t <ℤ r.start
    → Covers (merge_from o r) t
unfolding merge_from
hull-Covers o r t ho hr lt gt = ground arith

-- A range that lies after all of the first range is merged into it, and the result covers the gap
-- between them too.
pub merge_fills_gap :
    (h : Heap) (q p : ℕ) (refs : List Ref) (t : Time)
    → IsOrdered (h q)
    → IsOrdered (h p)
    → (h q).end <ℤ t
    → t <ℤ (h p).start
    → (h' : Heap) × (merge h (some q ∷ refs) (some p) ≡ ok (h', some q ∷ refs))
      × ¬ Covers (h q) t
      × ¬ Covers (h p) t
      × Covers (h' q) t
merge_fills_gap h q p refs t hq hp lt gt = (
  write h q (merge_from (h q) (h p)),
  merge_first h q p refs (is_disjoint_one_sided (h p) (h q) hp hq (ground arith)).0,
  ground arith,
  ground arith,
  rw ==-refl (hull-Covers (h q) (h p) t hq hp lt gt),
)
