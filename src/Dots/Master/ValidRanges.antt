-- ===== src/Dots/Master/ValidRanges.antt =====
-- GetValidRanges of dots/master.go: the ranges of time in which a key may read of a URI.
use durandal.Prelude.{ℕ, suc, Bool, Option, none, some, List, [], ◌∷◌, if◌then◌else◌}
use durandal.Prelude.Str.{Str}
use durandal.Prelude.Outcome.{Outcome, ok, err, panic, ◌>>=◌}
use durandal.Dots.TimeRange.{TimeRange}
use durandal.Dots.DisjointRanges.{Ref, Heap, write, merge}
use durandal.Dots.Chains.{DChain, intersect_dchain_access_times, intersect_dchain_archival_times}
use durandal.Dots.Master.{Client, get_access_dot_chains, get_archival_dot_chains}

-- The objects that a query allocates: the heap, the next free address and the slice of ranges.
pub record Ranges : Type 0 where
  pub heap : Heap
  pub next : ℕ
  pub refs : List Ref

-- One round of the loops of GetValidRanges: a chain's range is a new object, or nil, and is merged.
unfoldable pub merge_range : Ranges → Option TimeRange → Outcome Ranges
merge_range rs none = do m ← merge rs.heap rs.refs none; ok (record rs { heap = m.0; refs = m.1 })
merge_range rs (some r) = do
  m ← merge (write rs.heap rs.next r) rs.refs (some rs.next)
  ok (record { heap = m.0; next = suc rs.next; refs = m.1 })

unfoldable pub merge_chains :
    (DChain → Outcome (Option TimeRange)) → List DChain → Ranges → Outcome Ranges
unfolding merge_range
merge_chains range_of [] rs = ok rs
merge_chains range_of (c ∷ cs) rs = do
  found ← range_of c
  rs' ← merge_range rs found
  merge_chains range_of cs rs'

-- An item of the cache of ranges.
pub record RangesItem : Type 0 where
  pub value : List Ref
  pub expired : Bool

-- The first half of GetValidRanges: the chains of access.
unfoldable pub access_ranges : Client → Str → Str → Ranges → Outcome Ranges
unfolding merge_chains get_access_dot_chains
access_ranges client uri vk rs = do
  access ← get_access_dot_chains client uri vk
  merge_chains intersect_dchain_access_times access rs

-- The second half, after the search for the archival chains.
unfoldable pub archival_ranges : Option (Outcome (List DChain)) → Ranges → Option (Outcome Ranges)
unfolding merge_chains
archival_ranges none rs = none
archival_ranges (some (err s)) rs = some (err s)
archival_ranges (some panic) rs = some panic
archival_ranges (some (ok chains)) rs =
    some (merge_chains intersect_dchain_archival_times chains rs)

-- The ranges computed anew, with no cache.
unfoldable pub compute_ranges : Client → ℕ → Str → Str → Heap → ℕ → Option (Outcome Ranges)
unfolding access_ranges archival_ranges get_archival_dot_chains
compute_ranges client fuel uri vk heap next =
    elim (access_ranges client uri vk (record { heap = heap; next = next; refs = [] })) [
      | err s ↦ some (err s)
      | panic ↦ some panic
      | ok rs ↦ archival_ranges (get_archival_dot_chains client fuel uri vk) rs
    ]

-- GetValidRanges: an item that has not expired is returned, anything else is computed and stored.
unfoldable pub get_valid_ranges :
    Client → ℕ → Option RangesItem → Str → Str → Heap → ℕ → Option (Outcome Ranges)
unfolding compute_ranges
get_valid_ranges client fuel none uri vk heap next = compute_ranges client fuel uri vk heap next
get_valid_ranges client fuel (some item) uri vk heap next =
    if item.expired
    then compute_ranges client fuel uri vk heap next
    else some (ok (record { heap = heap; next = next; refs = item.value }))
