-- ===== src/Dots/DisjointRanges/Clip.antt =====
-- The loop of GetOverlap in closed form: the shared range is clipped by one valid range after the
-- other, and the slice holds copies of one pointer.
use durandal.Prelude.{
  ℕ, zero, suc, ◌≡◌, refl, ◌∙◌, ◌≢◌, inl, inr, true, false, none, some, List, [], ◌∷◌, ◌++◌, arith,
  ◌==◌, if◌then◌else◌, Bool-cases, ==→eq, ==-refl, All,
}
use durandal.Prelude.Outcome.{ok}
use mathlib.Core.Path.{subst, fun_ext}
use durandal.Dots.TimeRange.{TimeRange, is_disjoint, merge_from, intersect}
use durandal.Dots.DisjointRanges.Merge.{merge_first}
use durandal.Dots.DisjointRanges.{Ref, Heap, write, merge_loop, merge, overlap_loop, get_overlap}

-- Every pointer of the slice is live, and none of them is the requested range's.
abbrev pub Apart : ℕ → Ref → Type 0
Apart p none = ⊥
Apart p (some q) = p ≢ q

-- The requested range after the loop, and how many times it was appended.
unfoldable pub clip : TimeRange → Heap → List Ref → TimeRange
clip r h [] = r
clip r h (none ∷ refs) = clip r h refs
clip r h (some q ∷ refs) = clip (intersect r (h q)) h refs

-- One more copy in a slice of `k` copies of one pointer.
unfoldable pub bump : TimeRange → ℕ → ℕ
bump r zero = 1
bump r (suc k) = if is_disjoint r r then suc (suc k) else suc k

unfoldable pub copies : TimeRange → Heap → List Ref → ℕ → ℕ
copies r h [] k = k
copies r h (none ∷ refs) k = copies r h refs k
copies r h (some q ∷ refs) k =
    if is_disjoint r (h q)
    then copies r h refs k
    else copies (intersect r (h q)) h refs (bump (intersect r (h q)) k)

unfoldable pub replicate : ℕ → Ref → List Ref
replicate zero x = []
replicate (suc n) x = x ∷ replicate n x

replicate_behind : (n : ℕ) (x : Ref) → replicate n x ++ x ∷ [] ≡ replicate (suc n) x
unfolding replicate
replicate_behind zero x = refl
replicate_behind (suc n) x = rw (replicate_behind n x) refl

merge_from_self : (r : TimeRange) → merge_from r r ≡ r
unfolding merge_from
merge_from_self r = ground arith

write_same : (h : Heap) (p : ℕ) → write h p (h p) ≡ h
write_same h p =
    fun_ext λ q. elim (Bool-cases (p == q)) [ inl e ↦ rw (e, ==→eq p q e) refl | inr e ↦ rw e refl ]

write-write : (h : Heap) (p : ℕ) (a b : TimeRange) → write (write h p a) p b ≡ write h p b
write-write h p a b = fun_ext λ q. ground arith

merge_loop_behind :
    (h : Heap) (n p : ℕ)
    → is_disjoint (h p) (h p) ≡ true
    → merge_loop h (replicate n (some p)) (some p) ≡ ok none
unfolding merge_loop replicate
merge_loop_behind h zero p d = refl
merge_loop_behind h (suc n) p d = rw d (merge_loop_behind h n p d)

-- Merging the shared range into copies of itself.
merge_copies :
    (h : Heap) (n p : ℕ)
    → merge h (replicate n (some p)) (some p) ≡ ok (h, replicate (bump (h p) n) (some p))
unfolding merge replicate bump
merge_copies h zero p = unfold merge_loop in refl
merge_copies h (suc n) p = elim (Bool-cases (is_disjoint (h p) (h p))) [
  | inl d ↦ rw (merge_loop_behind h (suc n) p d, d, replicate_behind n (some p)) refl
  | inr d ↦
      rw (merge_first h p p (replicate n (some p)) d, merge_from_self (h p), write_same h p, d) refl
]

pub ne→== : (p q : ℕ) → p ≢ q → (p == q) ≡ false
ne→== p q ne = ground arith

merge_clipped :
    (h : Heap) (p n : ℕ) (r : TimeRange)
    → merge (write h p r) (replicate n (some p)) (some p)
      ≡ ok (write h p r, replicate (bump r n) (some p))
merge_clipped h p n r = merge_copies (write h p r) n p ∙ rw ==-refl refl

pub intersect_disjoint : (r o : TimeRange) → is_disjoint r o ≡ true → intersect r o ≡ r
unfolding intersect
intersect_disjoint r o d = rw d refl

-- The loop leaves the clipped range behind the shared pointer, and returns copies of that pointer.
overlap_loop-clip :
    (h : Heap) (p : ℕ) (refs : List Ref) (r : TimeRange) (k : ℕ)
    → All (Apart p) refs
    → overlap_loop (write h p r) refs (some p) (replicate k (some p))
      ≡ ok (write h p (clip r h refs), replicate (copies r h refs k) (some p))
unfolding overlap_loop clip copies
overlap_loop-clip h p [] r k a = refl
overlap_loop-clip h p (none ∷ refs) r k a = elim a.0 [ ]
overlap_loop-clip h p (some q ∷ refs) r k (ne, a) = elim (Bool-cases (is_disjoint r (h q))) [
  | inl d ↦
      rw (==-refl, ne→== p q ne, d, intersect_disjoint r (h q) d) (overlap_loop-clip h p refs r k a)
  | inr d ↦
      rw
        (
          ==-refl,
          ne→== p q ne,
          d,
          write-write h p r (intersect r (h q)),
          merge_clipped h p k (intersect r (h q)),
        )
        (overlap_loop-clip h p refs (intersect r (h q)) (bump (intersect r (h q)) k) a)
]

pub get_overlap-clip :
    (h : Heap) (p : ℕ) (refs : List Ref)
    → All (Apart p) refs
    → get_overlap h refs (some p)
      ≡ ok (write h p (clip (h p) h refs), replicate (copies (h p) h refs 0) (some p))
unfolding get_overlap replicate
get_overlap-clip h p refs a =
    subst
      (λ (g : Heap).
        overlap_loop g refs (some p) []
        ≡ ok (write h p (clip (h p) h refs), replicate (copies (h p) h refs 0) (some p)))
      (write_same h p) (overlap_loop-clip h p refs (h p) 0 a)
