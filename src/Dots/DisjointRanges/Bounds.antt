-- ===== src/Dots/DisjointRanges/Bounds.antt =====
-- The bounds of ranges under GetOverlap of dots/range.go, in int64.
use durandal.Prelude.{ℕ, ◌≡◌, sym, ◌∙◌, ◌⊎◌, none, some, List, [], ◌∷◌, arith, ==-refl, All, Any}
use durandal.Prelude.Int.{IsInt64}
use durandal.Prelude.Outcome.{Outcome, ok, ok-injective}
use mathlib.Core.Path.{subst}
use durandal.Dots.TimeRange.{TimeRange, intersect}
use durandal.Dots.DisjointRanges.{Ref, Heap, write, get_overlap}
use durandal.Dots.TimeRange.Laws.{Within}
use durandal.Dots.DisjointRanges.Overlap.{InsideRef, get_overlap-Within}
use durandal.Dots.DisjointRanges.Clip.{Apart, clip, get_overlap-clip}

-- A range of times that UnixNano represents.
abbrev pub Int64Range : TimeRange → Type 0
Int64Range r = IsInt64 r.start × IsInt64 r.end

abbrev pub Int64Ref : Heap → Ref → Type 0
Int64Ref h none = ⊥
Int64Ref h (some q) = Int64Range (h q)

intersect-Int64Range : (r o : TimeRange) → Int64Range r → Int64Range o → Int64Range (intersect r o)
unfolding intersect
intersect-Int64Range r o hr ho = ground arith

clip-Int64Range :
    (r : TimeRange) (h : Heap) (refs : List Ref)
    → Int64Range r
    → All (Int64Ref h) refs
    → Int64Range (clip r h refs)
unfolding clip
clip-Int64Range r h [] i a = i
clip-Int64Range r h (none ∷ refs) i a = elim a.0 [ ]
clip-Int64Range r h (some q ∷ refs) i (j, a) =
    clip-Int64Range (intersect r (h q)) h refs (intersect-Int64Range r (h q) i j) a

pub get_overlap-Int64Range :
    (h h' : Heap) (p : ℕ) (refs found : List Ref)
    → All (Apart p) refs
    → All (Int64Ref h) refs
    → Int64Range (h p)
    → get_overlap h refs (some p) ≡ ok (h', found)
    → Int64Range (h' p)
get_overlap-Int64Range h h' p refs found a b i e =
    subst (λ (g : Heap). Int64Range (g p))
      (same (write h p (clip (h p) h refs)) h' _ found (sym (get_overlap-clip h p refs a) ∙ e))
      (rw ==-refl (clip-Int64Range (h p) h refs i b))
  where
    same :
        (x y : Heap) (xs ys : List Ref)
        → ◌≡◌ {A = Outcome (Heap × List Ref)} (ok (x, xs)) (ok (y, ys))
        → x ≡ y
    same x y xs ys c = cc

-- The facts of GetOverlap at the result that it gave.
pub get_overlap-facts :
    (h h' : Heap) (p : ℕ) (refs found : List Ref)
    → All (Apart p) refs
    → get_overlap h refs (some p) ≡ ok (h', found)
    → All (λ x. x ≡ some p) found
      × Within (h' p) (h p)
      × ((found ≡ []) ⊎ Any (InsideRef (h' p) h) refs)
get_overlap-facts h h' p refs found apart e =
    let (hx, foundx, ex, es, w, inside, frame) = get_overlap-Within h p refs apart in
    subst
      (λ (o : Heap × List Ref).
        All (λ x. x ≡ some p) o.1
        × Within (o.0 p) (h p)
        × ((o.1 ≡ []) ⊎ Any (InsideRef (o.0 p) h) refs))
      (ok-injective (hx, foundx) (h', found) (sym ex ∙ e)) (es, w, inside)
