-- ===== src/Dots/Master/Coverage.antt =====
-- The ranges of GetValidRanges of dots/master.go, and the instants that the chains of a key allow.
use durandal.Prelude.{
  ℕ, suc, ◌<◌, ◌≡◌, refl, sym, ◌∙◌, ◌⊎◌, inl, inr, false, Option, none, some, List, [], ◌∷◌, arith,
  ◌==◌, ==-refl, All, Any, All-append,
}
use durandal.Prelude.Str.{Str}
use durandal.Prelude.Outcome.{Outcome, ok, err, panic, >>=-eq-ok, ok-injective}
use mathlib.Core.Path.{subst}
use durandal.Common.UnitOfTime.{Time}
use durandal.Dots.TimeRange.{TimeRange}
use durandal.Dots.TimeRange.Laws.{Covers}
use durandal.Dots.DisjointRanges.{Ref, Heap, write, merge, merge_loop, after_loop}
use durandal.Dots.DisjointRanges.Merge.{CoveredBy, merge-Covers}
use durandal.Dots.Chains.{DChain, intersect_dchain_access_times, intersect_dchain_archival_times}
use durandal.Dots.Master.{Client, get_access_dot_chains, get_archival_dot_chains}
use durandal.Dots.Master.ValidRanges.{
  Ranges, merge_range, merge_chains, get_valid_ranges, access_ranges, archival_ranges,
  compute_ranges,
}

-- The slice holds only pointers to objects that were allocated before.
abbrev pub IsBelow : ℕ → Ref → Type 0
IsBelow n none = Unit
IsBelow n (some q) = q < n

IsBelow-suc : (n : ℕ) (refs : List Ref) → All (IsBelow n) refs → All (IsBelow (suc n)) refs
IsBelow-suc n [] a = tt
IsBelow-suc n (none ∷ refs) (_, a) = (tt, IsBelow-suc n refs a)
IsBelow-suc n (some q ∷ refs) (b, a) = (omega arith, IsBelow-suc n refs a)

-- A write to a new object leaves what the older pointers lead to.
CoveredBy-fresh :
    (h : Heap) (n : ℕ) (r : TimeRange) (refs : List Ref) (t : Time)
    → All (IsBelow n) refs
    → CoveredBy h refs t
    → CoveredBy (write h n r) refs t
CoveredBy-fresh h n r [] t a c = c
CoveredBy-fresh h n r (none ∷ refs) t (_, a) (inl c) = elim c [ ]
CoveredBy-fresh h n r (none ∷ refs) t (_, a) (inr c) = inr (CoveredBy-fresh h n r refs t a c)
CoveredBy-fresh h n r (some q ∷ refs) t (b, a) (inl c) = inl (rw (other n q b) c)
  where
    other : (m k : ℕ) → k < m → (m == k) ≡ false
    other m k lt = ground arith
CoveredBy-fresh h n r (some q ∷ refs) t (_, a) (inr c) = inr (CoveredBy-fresh h n r refs t a c)

after_loop-IsBelow :
    (h : Heap) (refs : List Ref) (x : Ref) (n : ℕ) (found : Option Heap)
    → All (IsBelow n) refs
    → IsBelow n x
    → All (IsBelow n) (after_loop h refs x found).1
after_loop-IsBelow h refs x n (some g) a b = a
after_loop-IsBelow h refs x n none a b = All-append (IsBelow n) refs (x ∷ []) a (b, tt)

merge-IsBelow :
    (h : Heap) (refs : List Ref) (x : Ref) (n : ℕ) (m : Heap × List Ref)
    → merge h refs x ≡ ok m
    → All (IsBelow n) refs
    → IsBelow n x
    → All (IsBelow n) m.1
unfolding merge
merge-IsBelow h refs x n m e a b =
    let (found, _, q) = >>=-eq-ok (merge_loop h refs x) _ e in
    subst (λ r. All (IsBelow n) r.1) (ok-injective _ m q) (after_loop-IsBelow h refs x n found a b)

-- Merging a nil range into a slice: it is appended if the slice is empty, and panics otherwise.
merge_nil :
    (h : Heap) (refs : List Ref) (m : Heap × List Ref) (t : Time)
    → merge h refs none ≡ ok m
    → CoveredBy h refs t
    → CoveredBy m.0 m.1 t
unfolding merge merge_loop
merge_nil h [] m t e c = elim c [ ]
merge_nil h (x ∷ refs) m t e c = cc

-- Some chain of the list allows the instant.
abbrev pub Allows : (DChain → Outcome (Option TimeRange)) → Time → DChain → Type 0
Allows range_of t c = (r : TimeRange) × (range_of c ≡ ok (some r)) × Covers r t

abbrev FoundCovers : Option TimeRange → Time → Type 0
FoundCovers none t = ⊥
FoundCovers (some r) t = Covers r t

merge_range-IsBelow :
    (rs out : Ranges) (found : Option TimeRange)
    → merge_range rs found ≡ ok out
    → All (IsBelow rs.next) rs.refs
    → All (IsBelow out.next) out.refs
unfolding merge_range
merge_range-IsBelow rs out none e a =
    let (m, em, q) = >>=-eq-ok (merge rs.heap rs.refs none) _ e in
    subst (λ o. All (IsBelow o.next) o.refs) (ok-injective _ out q)
      (merge-IsBelow rs.heap rs.refs none rs.next m em a tt)
merge_range-IsBelow rs out (some r) e a =
    let (m, em, q) = >>=-eq-ok (merge (write rs.heap rs.next r) rs.refs (some rs.next)) _ e in
    subst (λ o. All (IsBelow o.next) o.refs) (ok-injective _ out q)
      (merge-IsBelow (write rs.heap rs.next r) rs.refs (some rs.next) (suc rs.next) m em
        (IsBelow-suc rs.next rs.refs a) (omega arith))

merge_range-covers :
    (rs out : Ranges) (found : Option TimeRange) (t : Time)
    → merge_range rs found ≡ ok out
    → All (IsBelow rs.next) rs.refs
    → CoveredBy rs.heap rs.refs t ⊎ FoundCovers found t
    → CoveredBy out.heap out.refs t
unfolding merge_range
merge_range-covers rs out none t e a (inl c) =
    let (m, em, q) = >>=-eq-ok (merge rs.heap rs.refs none) _ e in
    subst (λ o. CoveredBy o.heap o.refs t) (ok-injective _ out q)
      (merge_nil rs.heap rs.refs m t em c)
merge_range-covers rs out none t e a (inr c) = elim c [ ]
merge_range-covers rs out (some r) t e a h =
    let (m, em, q) = >>=-eq-ok (merge (write rs.heap rs.next r) rs.refs (some rs.next)) _ e in
    subst (λ o. CoveredBy o.heap o.refs t) (ok-injective _ out q)
      (merge-Covers (write rs.heap rs.next r) m.0 rs.refs m.1 rs.next t em (either h))
  where
    either :
        CoveredBy rs.heap rs.refs t ⊎ Covers r t
        → CoveredBy (write rs.heap rs.next r) rs.refs t ⊎ Covers (write rs.heap rs.next r rs.next) t
    either (inl c) = inl (CoveredBy-fresh rs.heap rs.next r rs.refs t a c)
    either (inr c) = inr (rw ==-refl c)

-- Merging the ranges of the chains loses no instant that was covered before or that a chain allows.
pub merge_chains-covers :
    (range_of : DChain → Outcome (Option TimeRange)) (t : Time) (chains : List DChain)
    (rs out : Ranges)
    → merge_chains range_of chains rs ≡ ok out
    → All (IsBelow rs.next) rs.refs
    → CoveredBy rs.heap rs.refs t ⊎ Any (Allows range_of t) chains
    → CoveredBy out.heap out.refs t
unfolding merge_chains
merge_chains-covers range_of t [] rs out e a (inl c) =
    subst (λ o. CoveredBy o.heap o.refs t) (ok-injective rs out e) c
merge_chains-covers range_of t [] rs out e a (inr c) = elim c [ ]
merge_chains-covers range_of t (c ∷ chains) rs out e a h =
    let (found, ef, rest) = >>=-eq-ok (range_of c) _ e in
    let (rs', er, rest') = >>=-eq-ok (merge_range rs found) _ rest in
    merge_chains-covers range_of t chains rs' out rest' (merge_range-IsBelow rs rs' found er a)
      (split_case found ef rs' er h)
  where
    split_case :
        (found : Option TimeRange)
        → range_of c ≡ ok found
        → (rs' : Ranges) → merge_range rs found ≡ ok rs'
        → CoveredBy rs.heap rs.refs t ⊎ Any (Allows range_of t) (c ∷ chains)
        → CoveredBy rs'.heap rs'.refs t ⊎ Any (Allows range_of t) chains
    split_case found ef rs' er (inl k) = inl (merge_range-covers rs rs' found t er a (inl k))
    split_case found ef rs' er (inr (inl (r, el, k))) = inl (
        merge_range-covers rs rs' found t er a
          (inr (subst (λ f. FoundCovers f t) (ok-injective (some r) found (sym el ∙ ef)) k)))
    split_case found ef rs' er (inr (inr k)) = inr k

merge_chains-IsBelow :
    (range_of : DChain → Outcome (Option TimeRange)) (chains : List DChain) (rs out : Ranges)
    → merge_chains range_of chains rs ≡ ok out
    → All (IsBelow rs.next) rs.refs
    → All (IsBelow out.next) out.refs
unfolding merge_chains
merge_chains-IsBelow range_of [] rs out e a =
    subst (λ o. All (IsBelow o.next) o.refs) (ok-injective rs out e) a
merge_chains-IsBelow range_of (c ∷ chains) rs out e a =
    let (found, ef, rest) = >>=-eq-ok (range_of c) _ e in
    let (rs', er, rest') = >>=-eq-ok (merge_range rs found) _ rest in
    merge_chains-IsBelow range_of chains rs' out rest' (merge_range-IsBelow rs rs' found er a)

archival_ranges-covers :
    (found : Option (Outcome (List DChain))) (rs out : Ranges) (t : Time)
    → archival_ranges found rs ≡ some (ok out)
    → All (IsBelow rs.next) rs.refs
    → CoveredBy rs.heap rs.refs t
    → CoveredBy out.heap out.refs t
unfolding archival_ranges
archival_ranges-covers none rs out t e a c = cc
archival_ranges-covers (some (err s)) rs out t e a c = cc
archival_ranges-covers (some panic) rs out t e a c = cc
archival_ranges-covers (some (ok chains)) rs out t e a c =
    merge_chains-covers intersect_dchain_archival_times t chains rs out
      (some_injective (merge_chains intersect_dchain_archival_times chains rs) (ok out) e) a (inl c)
  where
    some_injective : (x y : Outcome Ranges) → some x ≡ some y → x ≡ y
    some_injective x y h = cc

-- With nothing in the cache, and if the search for chains ends with no error, the ranges cover
-- every instant that some access chain of the key for the URI allows.
pub get_valid_ranges-covers :
    (client : Client) (fuel : ℕ) (uri vk : Str) (heap : Heap) (next : ℕ) (access : List DChain)
    (out : Ranges) (t : Time)
    → get_access_dot_chains client uri vk ≡ ok access
    → Any (Allows intersect_dchain_access_times t) access
    → get_valid_ranges client fuel none uri vk heap next ≡ some (ok out)
    → CoveredBy out.heap out.refs t
unfolding get_valid_ranges compute_ranges access_ranges
get_valid_ranges-covers client fuel uri vk heap next access out t ea allowed e =
    by_access (merge_chains intersect_dchain_access_times access start) refl
  where
    start : Ranges
    start = record { heap = heap; next = next; refs = [] }

    by_access :
        (r : Outcome Ranges)
        → merge_chains intersect_dchain_access_times access start ≡ r
        → CoveredBy out.heap out.refs t
    by_access (err s) m =
        absurd (cc (rw (get_valid_ranges, compute_ranges, access_ranges, ea, m) at e))
    by_access panic m =
        absurd (cc (rw (get_valid_ranges, compute_ranges, access_ranges, ea, m) at e))
    by_access (ok rs) m =
        archival_ranges-covers (get_archival_dot_chains client fuel uri vk) rs out t
          (rw (get_valid_ranges, compute_ranges, access_ranges, ea, m) at e)
          (merge_chains-IsBelow intersect_dchain_access_times access start rs m tt)
          (merge_chains-covers intersect_dchain_access_times t access start rs m tt (inr allowed))
