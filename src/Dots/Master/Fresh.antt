-- ===== src/Dots/Master/Fresh.antt =====
-- The objects of GetValidRanges of dots/master.go, and those that its caller holds.
use durandal.Prelude.{
  ℕ, ◌<◌, ◌≡◌, refl, sym, ap, ◌∙◌, ◌≢◌, inl, inr, Option, none, some, List, [], ◌∷◌, arith,
  Bool-cases, All, All-append,
}
use durandal.Prelude.Str.{Str}
use durandal.Prelude.Outcome.{Outcome, ok, err, panic, >>=-eq-ok, ok-injective, ok_some-injective}
use mathlib.Core.Path.{subst}
use durandal.Dots.TimeRange.{TimeRange, is_disjoint, merge_from}
use durandal.Dots.DisjointRanges.{Ref, Heap, write, merge, merge_loop, after_loop}
use durandal.Dots.DisjointRanges.Clip.{Apart, ne→==}
use durandal.Dots.Chains.{DChain, intersect_dchain_access_times, intersect_dchain_archival_times}
use durandal.Dots.Master.{Client, get_access_dot_chains, get_archival_dot_chains}
use durandal.Dots.Master.ValidRanges.{
  Ranges, merge_range, merge_chains, access_ranges, archival_ranges, compute_ranges,
  get_valid_ranges,
}

abbrev pub Avoids : ℕ → Ref → Type 0
Avoids p x = x ≢ some p

-- No pointer of the slice leads to the address, which is in use and holds the range.
abbrev pub Kept : ℕ → TimeRange → Ranges → Type 0
Kept p v rs = (rs.heap p ≡ v) × (p < rs.next) × All (Avoids p) rs.refs

module _ (p : ℕ) where
  write-other : (h : Heap) (q : ℕ) (r : TimeRange) → Avoids p (some q) → write h q r p ≡ h p
  write-other h q r av = rw (ne→== q p λ e. av (ap (λ n. some n) e)) refl

  merge_loop-other :
      (h g : Heap) (refs : List Ref) (x : Ref)
      → merge_loop h refs x ≡ ok (some g)
      → All (Avoids p) refs
      → g p ≡ h p
  unfolding merge_loop
  merge_loop-other h g [] x e a = cc
  merge_loop-other h g (o ∷ refs) none e a = cc
  merge_loop-other h g (none ∷ refs) (some n) e a = cc
  merge_loop-other h g (some q ∷ refs) (some n) e (av, a) =
      elim (Bool-cases (is_disjoint (h n) (h q))) [
        | inl d ↦ merge_loop-other h g refs (some n) (rw d at e) a
        | inr d ↦
            subst (λ (k : Heap). k p ≡ h p) (same _ (rw d at e))
              (write-other h q (merge_from (h q) (h n)) av)
      ]
    where
      same : (k : Heap) → ok (some k) ≡ ok (some g) → k ≡ g
      same k c = ok_some-injective k g c

  after_loop-other :
      (h : Heap) (refs : List Ref) (x : Ref) (found : Option Heap)
      → merge_loop h refs x ≡ ok found
      → All (Avoids p) refs
      → Avoids p x
      → ((after_loop h refs x found).0 p ≡ h p) × All (Avoids p) (after_loop h refs x found).1
  after_loop-other h refs x none e a av = (refl, All-append (Avoids p) refs (x ∷ []) a (av, tt))
  after_loop-other h refs x (some g) e a av = (merge_loop-other h g refs x e a, a)

  merge-other :
      (h : Heap) (refs : List Ref) (x : Ref) (m : Heap × List Ref)
      → merge h refs x ≡ ok m
      → All (Avoids p) refs
      → Avoids p x
      → (m.0 p ≡ h p) × All (Avoids p) m.1
  unfolding merge
  merge-other h refs x m e a av =
      let (found, ef, q) = >>=-eq-ok (merge_loop h refs x) _ e in
      subst (λ (r : Heap × List Ref). (r.0 p ≡ h p) × All (Avoids p) r.1) (ok-injective _ m q)
        (after_loop-other h refs x found ef a av)

  module _ (v : TimeRange) where
    merge_range-Kept :
        (rs out : Ranges) (found : Option TimeRange)
        → merge_range rs found ≡ ok out
        → Kept p v rs
        → Kept p v out
    unfolding merge_range
    merge_range-Kept rs out none e (ev, lt, a) =
        let (m, em, q) = >>=-eq-ok (merge rs.heap rs.refs none) _ e in
        let (frame, a2) = merge-other rs.heap rs.refs none m em a (λ c. cc) in
        subst (λ (o : Ranges). Kept p v o) (ok-injective _ out q) (frame ∙ ev, lt, a2)
    merge_range-Kept rs out (some r) e (ev, lt, a) =
        let (m, em, q) = >>=-eq-ok (merge (write rs.heap rs.next r) rs.refs (some rs.next)) _ e in
        let (frame, a2) =
          merge-other (write rs.heap rs.next r) rs.refs (some rs.next) m em a (fresh rs.next lt) in
        subst (λ (o : Ranges). Kept p v o) (ok-injective _ out q)
          (frame ∙ write-other rs.heap rs.next r (fresh rs.next lt) ∙ ev, omega arith, a2)
      where
        fresh : (n : ℕ) → p < n → Avoids p (some n)
        fresh n lt c = ground arith

    merge_chains-Kept :
        (range_of : DChain → Outcome (Option TimeRange)) (chains : List DChain) (rs out : Ranges)
        → merge_chains range_of chains rs ≡ ok out
        → Kept p v rs
        → Kept p v out
    unfolding merge_chains
    merge_chains-Kept range_of [] rs out e k =
        subst (λ (o : Ranges). Kept p v o) (ok-injective rs out e) k
    merge_chains-Kept range_of (c ∷ chains) rs out e k =
        let (found, _, rest) = >>=-eq-ok (range_of c) _ e in
        let (rs', er, rest') = >>=-eq-ok (merge_range rs found) _ rest in
        merge_chains-Kept range_of chains rs' out rest' (merge_range-Kept rs rs' found er k)

    access_ranges-Kept :
        (client : Client) (uri vk : Str) (rs out : Ranges)
        → access_ranges client uri vk rs ≡ ok out
        → Kept p v rs
        → Kept p v out
    unfolding access_ranges
    access_ranges-Kept client uri vk rs out e k =
        let (access, _, rest) = >>=-eq-ok (get_access_dot_chains client uri vk) _ e in
        merge_chains-Kept intersect_dchain_access_times access rs out rest k

    archival_ranges-Kept :
        (found : Option (Outcome (List DChain))) (rs out : Ranges)
        → archival_ranges found rs ≡ some (ok out)
        → Kept p v rs
        → Kept p v out
    unfolding archival_ranges
    archival_ranges-Kept none rs out e k = cc
    archival_ranges-Kept (some (err s)) rs out e k = cc
    archival_ranges-Kept (some panic) rs out e k = cc
    archival_ranges-Kept (some (ok chains)) rs out e k =
        merge_chains-Kept intersect_dchain_archival_times chains rs out (same _ e) k
      where
        same : (x : Outcome Ranges) → some x ≡ some (ok out) → x ≡ ok out
        same x c = cc

  Avoids-Apart :
      (refs : List Ref) → All (Avoids p) refs → All (λ x. x ≢ none) refs → All (Apart p) refs
  Avoids-Apart [] a l = tt
  Avoids-Apart (none ∷ refs) a (ne, l) = absurd (ne refl)
  Avoids-Apart (some q ∷ refs) (av, a) (ne, l) =
      ((λ e. av (ap (λ n. some n) (sym e))), Avoids-Apart refs a l)

-- GetValidRanges with nothing in its cache leaves every object that was in use as it was, and the ranges
-- that it returns, if none of them is nil, are other objects.
pub get_valid_ranges-Apart :
    (client : Client) (fuel : ℕ) (uri vk : Str) (heap : Heap) (next p : ℕ) (out : Ranges)
    → get_valid_ranges client fuel none uri vk heap next ≡ some (ok out)
    → p < next
    → All (λ x. x ≢ none) out.refs
    → (out.heap p ≡ heap p) × (p < out.next) × All (Apart p) out.refs
unfolding get_valid_ranges compute_ranges
get_valid_ranges-Apart client fuel uri vk heap next p out e lt live =
    let (same, below, avoided) = by_access (access_ranges client uri vk start) refl in
    (same, below, Avoids-Apart p out.refs avoided live)
  where
    start : Ranges
    start = record { heap = heap; next = next; refs = [] }

    by_access : (r : Outcome Ranges) → access_ranges client uri vk start ≡ r → Kept p (heap p) out
    by_access (err s) m = cc (rw (get_valid_ranges, compute_ranges, m) at e)
    by_access panic m = cc (rw (get_valid_ranges, compute_ranges, m) at e)
    by_access (ok rs) m =
        archival_ranges-Kept p (heap p) (get_archival_dot_chains client fuel uri vk) rs out
          (rw (get_valid_ranges, compute_ranges, m) at e)
          (access_ranges-Kept p (heap p) client uri vk start rs m (refl, lt, tt))
