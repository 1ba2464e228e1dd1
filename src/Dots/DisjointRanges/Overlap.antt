-- ===== src/Dots/DisjointRanges/Overlap.antt =====
-- What GetOverlap of dots/range.go returns, and what it does to the requested range.
use durandal.Prelude.{
  ℕ, zero, suc, ◌≡◌, refl, sym, ◌∙◌, ◌≢◌, ◌⊎◌, inl, inr, true, false, none, some, List, [], ◌∷◌,
  arith, Bool-cases, ==-refl, All, Any,
}
use durandal.Prelude.Int.{◌<ℤ◌}
use durandal.Prelude.Outcome.{ok}
use mathlib.Core.Path.{subst}
use durandal.Common.UnitOfTime.{Time}
use durandal.Dots.TimeRange.{TimeRange, is_disjoint, intersect}
use durandal.Dots.TimeRange.Laws.{Covers, Within}
use durandal.Dots.DisjointRanges.{Ref, Heap, write, get_overlap}
use durandal.Dots.DisjointRanges.Clip.{
  Apart, clip, bump, copies, replicate, get_overlap-clip, intersect_disjoint, ne→==,
}

pub Within-trans : (a b c : TimeRange) → Within a b → Within b c → Within a c
Within-trans a b c h k = omega arith

pub intersect-Within : (r o : TimeRange) → Within (intersect r o) r
unfolding intersect
intersect-Within r o = ground arith

intersect-Within_other : (r o : TimeRange) → is_disjoint r o ≡ false → Within (intersect r o) o
unfolding intersect
intersect-Within_other r o d = rw d (ground arith)

clip-Within : (r : TimeRange) (h : Heap) (refs : List Ref) → Within (clip r h refs) r
unfolding clip
clip-Within r h [] = omega arith
clip-Within r h (none ∷ refs) = clip-Within r h refs
clip-Within r h (some q ∷ refs) =
    Within-trans (clip (intersect r (h q)) h refs) (intersect r (h q)) r
      (clip-Within (intersect r (h q)) h refs) (intersect-Within r (h q))

-- The range lies inside the one that the pointer leads to.
abbrev pub InsideRef : TimeRange → Heap → Ref → Type 0
InsideRef r h none = ⊥
InsideRef r h (some q) = Within r (h q)

later : {P Q R : Type 0} → P ⊎ R → P ⊎ (Q ⊎ R)
later (inl x) = inl x
later (inr y) = inr (inr y)

clip-InsideRef :
    (r : TimeRange) (h : Heap) (refs : List Ref)
    → (copies r h refs 0 ≡ 0) ⊎ Any (InsideRef (clip r h refs) h) refs
unfolding clip copies
clip-InsideRef r h [] = inl refl
clip-InsideRef r h (none ∷ refs) = later (clip-InsideRef r h refs)
clip-InsideRef r h (some q ∷ refs) = elim (Bool-cases (is_disjoint r (h q))) [
  | inl d ↦ rw d (
      subst
        (λ (x : TimeRange).
          (copies r h refs 0 ≡ 0) ⊎ Any (InsideRef (clip x h refs) h) (some q ∷ refs))
        (sym (intersect_disjoint r (h q) d)) (later (clip-InsideRef r h refs)))
  | inr d ↦ inr (
      inl (
        Within-trans (clip (intersect r (h q)) h refs) (intersect r (h q)) (h q)
          (clip-Within (intersect r (h q)) h refs) (intersect-Within_other r (h q) d)))
]

All-replicate : (n p : ℕ) → All (λ x. x ≡ some p) (replicate n (some p))
unfolding replicate
All-replicate zero p = tt
All-replicate (suc n) p = (refl, All-replicate n p)

-- GetOverlap of live ranges that are not the requested range's own object never panics. Every range
-- that it returns is the caller's object, shrunk to a part of what was requested; if it returns any,
-- that part lies inside one of the valid ranges; and no other range changes.
pub get_overlap-Within :
    (h : Heap) (p : ℕ) (refs : List Ref)
    → All (Apart p) refs
    → (h' : Heap) × (found : List Ref) × (get_overlap h refs (some p) ≡ ok (h', found))
      × All (λ x. x ≡ some p) found
      × Within (h' p) (h p)
      × ((found ≡ []) ⊎ Any (InsideRef (h' p) h) refs)
      × ((q : ℕ) → p ≢ q → h' q ≡ h q)
unfolding replicate
get_overlap-Within h p refs a = (
  write h p (clip (h p) h refs),
  replicate (copies (h p) h refs 0) (some p),
  get_overlap-clip h p refs a,
  All-replicate (copies (h p) h refs 0) p,
  rw ==-refl (clip-Within (h p) h refs),
  rw ==-refl (none_or_inside (clip-InsideRef (h p) h refs)),
  λ q ne. rw (ne→== p q ne) refl,
)
  where
    none_or_inside :
        (copies (h p) h refs 0 ≡ 0) ⊎ Any (InsideRef (clip (h p) h refs) h) refs
        → (replicate (copies (h p) h refs 0) (some p) ≡ [])
          ⊎ Any (InsideRef (clip (h p) h refs) h) refs
    none_or_inside (inl e) = inl (rw e refl)
    none_or_inside (inr c) = inr c

disjoint_before : (r o : TimeRange) → r.end <ℤ o.start → is_disjoint r o ≡ true
unfolding is_disjoint
disjoint_before r o lt = ground arith

-- A valid range that begins after the end of the first valid range that was found is dropped: the
-- result is the part of the request in the first range, which shares no instant with the later one.
pub get_overlap_drops_later :
    (h : Heap) (p q q2 : ℕ)
    → p ≢ q
    → p ≢ q2
    → is_disjoint (h p) (h q) ≡ false
    → (h q).end <ℤ (h q2).start
    → (get_overlap h (some q ∷ some q2 ∷ []) (some p)
        ≡ ok (write h p (intersect (h p) (h q)), some p ∷ []))
      × ((t : Time) → Covers (h q2) t → ¬ Covers (intersect (h p) (h q)) t)
unfolding clip copies replicate bump
get_overlap_drops_later h p q q2 ne ne2 d lt =
    let inside = intersect-Within_other (h p) (h q) d in
    let gone = before_later (intersect (h p) (h q)) (h q) (h q2) inside lt in
    (
      get_overlap-clip h p (some q ∷ some q2 ∷ []) (ne, (ne2, tt))
          ∙ rw
              (
                d,
                disjoint_before (intersect (h p) (h q)) (h q2) gone,
                intersect_disjoint (intersect (h p) (h q)) (h q2)
                    (disjoint_before (intersect (h p) (h q)) (h q2) gone),
              )
              refl,
      λ t c k. omega arith,
    )
  where
    before_later : (r o o2 : TimeRange) → Within r o → o.end <ℤ o2.start → r.end <ℤ o2.start
    before_later r o o2 w l = omega arith
