-- ===== src/Dots/Tests.antt =====
-- Tests of the package dots, and its theorems at concrete inputs.
use durandal.Prelude.{
  ◌<◌, ℕ, ◌≡◌, refl, ◌≢◌, ◌↔◌, ◌⊎◌, inl, inr, true, false, Option, none, some, List, [], ◌∷◌, ◌++◌,
  arith, ◌==◌, if◌then◌else◌, All, Any,
}
use durandal.Prelude.Int.{pos}
use durandal.Prelude.Str.{Str, codes, str_eq, split, join}
use durandal.Prelude.Outcome.{Outcome, ok, err, panic}
use durandal.Common.ParseInt.{parse_int}
use durandal.Common.UnitOfTime.{Time}
use durandal.Dots.TimeRange.{TimeRange, beginning, end_of_time, is_disjoint, intersect}
use durandal.Dots.TimeRange.Laws.{Covers, Within}
use durandal.Dots.DisjointRanges.{Ref, Heap, write, merge, get_overlap}
use durandal.Dots.DisjointRanges.Merge.{CoveredBy, merge-Covers, merge_fills_gap}
use durandal.Dots.DisjointRanges.Clip.{Apart}
use durandal.Dots.DisjointRanges.Overlap.{InsideRef, get_overlap-Within, get_overlap_drops_later}
use durandal.Dots.ArchiveUri.{
  archive_vk, archive_vk_bytes, fmt_hash, time_part, parse_archive_uri, get_uri_from_suffix,
}
use durandal.Dots.ArchiveUri.RoundTrip.{archive_parts, parse-archive_uri}
use durandal.Dots.Chains.{
  Dot, DChain, intersect_dchain_access_times, intersect_dchain_archival_times,
}
use durandal.Dots.Chains.Exact.{Grant, chain_of, ValidAt, access_times_exact}
use durandal.Dots.Master.{
  Client, find_dots_from_vk, visit_all, resolve_entry, find_dot_chains, matches,
  get_access_dot_chains,
}
use durandal.Dots.Master.ValidRanges.{get_valid_ranges, Ranges}
use durandal.Dots.Master.Search.{AllChains, find_dot_chains-IsChain, find_dot_chains-loops}
use durandal.Dots.Master.Fresh.{get_valid_ranges-Apart}
use durandal.Dots.Master.Coverage.{get_valid_ranges-covers}
use durandal.Dots.Master.Failures.{access_times_unresolved}

archive_key : fmt_hash archive_vk_bytes ≡ archive_vk
unfolding fmt_hash
archive_key = refl

abbrev span : ℕ → ℕ → TimeRange
span a b = record { start = pos a; end = pos b }

-- Object 0 is the requested range, 1 and 2 are valid ranges.
abbrev three_ranges : Heap
three_ranges p = if p == 0 then span 0 100 else if p == 1 then span 10 20 else span 30 40

abbrev merged : Heap × List Ref
merged = (three_ranges, some 2 ∷ some 1 ∷ [])

merged_run : merge three_ranges (some 2 ∷ []) (some 1) ≡ ok merged
unfolding merge is_disjoint
merged_run = refl

merge-Covers_example : CoveredBy merged.0 merged.1 (pos 15)
merge-Covers_example =
    merge-Covers three_ranges merged.0 (some 2 ∷ []) merged.1 1 (pos 15) merged_run
      (inr (omega arith))

merge_fills_gap_example :
    (h' : Heap) × (merge three_ranges (some 1 ∷ []) (some 2) ≡ ok (h', some 1 ∷ []))
    × ¬ Covers (three_ranges 1) (pos 25)
    × ¬ Covers (three_ranges 2) (pos 25)
    × Covers (h' 1) (pos 25)
merge_fills_gap_example =
    merge_fills_gap three_ranges 1 2 [] (pos 25) (omega arith) (omega arith) (omega arith)
      (omega arith)

get_overlap-Within_example :
    (h' : Heap) × (found : List Ref) × (get_overlap three_ranges (some 1 ∷ some 2 ∷ []) (some 0)
      ≡ ok (h', found))
    × All (λ x. x ≡ some 0) found
    × Within (h' 0) (three_ranges 0)
    × ((found ≡ []) ⊎ Any (InsideRef (h' 0) three_ranges) (some 1 ∷ some 2 ∷ []))
    × ((q : ℕ) → 0 ≢ q → h' q ≡ three_ranges q)
get_overlap-Within_example = get_overlap-Within three_ranges 0 (some 1 ∷ some 2 ∷ []) (omega arith)

overlap_first : is_disjoint (three_ranges 0) (three_ranges 1) ≡ false
unfolding is_disjoint
overlap_first = refl

get_overlap_drops_later_example :
    (get_overlap three_ranges (some 1 ∷ some 2 ∷ []) (some 0)
      ≡ ok (write three_ranges 0 (intersect (three_ranges 0) (three_ranges 1)), some 0 ∷ []))
    × ((t : Time)
        → Covers (three_ranges 2) t
        → ¬ Covers (intersect (three_ranges 0) (three_ranges 1)) t)
get_overlap_drops_later_example =
    get_overlap_drops_later three_ranges 0 1 2 (omega arith) (omega arith) overlap_first
      (omega arith)

-- Two valid ranges found from the later to the earlier: the request is turned inside out, and its
-- pointer is returned twice.
backwards :
    get_overlap three_ranges (some 2 ∷ some 1 ∷ []) (some 0)
    ≡ ok (write (write three_ranges 0 (span 30 40)) 0 (span 30 20), some 0 ∷ some 0 ∷ [])
unfolding get_overlap merge intersect
backwards = refl

abbrev suffix_parts : List Str
suffix_parts = archive_parts (codes "5") (codes "+") (codes "ns") (codes "a" ∷ [])

number_5 : time_part (codes "5") beginning ≡ ok (pos 5)
unfolding str_eq parse_int
number_5 = refl

parse-archive_uri_example :
    parse_archive_uri (join (codes "archive" ∷ suffix_parts) b'/')
    ≡ ok
        (record { start = pos 5; end = end_of_time; uri = join (codes "ns" ∷ codes "a" ∷ []) b'/' })
unfolding str_eq
parse-archive_uri_example =
    parse-archive_uri (codes "archive") (codes "5") (codes "+") (codes "ns") (codes "a" ∷ [])
      (pos 5) end_of_time (inl refl) (omega arith) number_5 refl

-- The key that holds the bytes 1, 2, 3, whose text is AQID.
abbrev receiver : Str
receiver = 1 ∷ 2 ∷ 3 ∷ []

abbrev archive_dot : Dot
archive_dot = record {
  created = some (pos 10);
  expiry = some (pos 90);
  access_uri_mvk = archive_vk_bytes;
  access_uri_suffix = codes "start/+/end/+/ns/a";
  receiver_vk = receiver;
}

abbrev grant : ℕ → ℕ → Grant
grant a b = record { hash = codes "h"; dot = archive_dot; created = pos a; expiry = pos b }

access_times_exact_example :
    (out : TimeRange) × (intersect_dchain_access_times (chain_of (grant 10 50 ∷ grant 20 90 ∷ []))
      ≡ ok (some out))
    × ((t : Time) → Covers out t ↔ All (ValidAt t) (grant 10 50 ∷ grant 20 90 ∷ []))
access_times_exact_example = access_times_exact (grant 10 50) (grant 20 90 ∷ [])

abbrev one_chain : DChain
one_chain = chain_of (grant 10 90 ∷ [])

-- Every key has granted the one DOT; every chain of access is that DOT alone.
abbrev client : Client
client = record {
  build_any_chain = λ uri perm vk. record { found = false; failed = false };
  build_chain = λ uri perm vk. ok (record { dchain = some one_chain; failed = false } ∷ []);
  resolve_registry = λ hash. none;
  find_dots_from_vk = λ vk. ok (ok archive_dot ∷ [], true ∷ []);
  create_dchain = λ dots. ok one_chain;
  restrict_by = λ pattern uri. true;
}

found_one :
    find_dot_chains client 1 (codes "ns") (codes "AQID") (codes "ns/a")
    ≡ some (ok ((archive_dot ∷ []) ∷ []))
unfolding find_dot_chains find_dots_from_vk visit_all str_eq fmt_hash get_uri_from_suffix split
found_one = refl

find_dot_chains-IsChain_example :
    AllChains client
      (codes "ns/a")
      (codes "ns")
      (codes "AQID")
      (find_dot_chains client 1 (codes "ns") (codes "AQID") (codes "ns/a"))
find_dot_chains-IsChain_example =
    find_dot_chains-IsChain client 1 (codes "ns") (codes "AQID") (codes "ns/a")

offered : find_dots_from_vk client (codes "AQID") ≡ ok (archive_dot ∷ [], true ∷ [])
unfolding find_dots_from_vk
offered = refl

matched : matches client (codes "ns/a") archive_dot ≡ ok true
unfolding matches str_eq get_uri_from_suffix split
matched = refl

to_itself : fmt_hash receiver ≡ codes "AQID"
unfolding fmt_hash
to_itself = refl

other_key : codes "AQID" ≢ codes "vk"
other_key e = ground arith

find_dot_chains-loops_example :
    find_dot_chains client 1000 (codes "AQID") (codes "vk") (codes "ns/a") ≡ none
find_dot_chains-loops_example =
    find_dot_chains-loops client (codes "AQID") (codes "vk") (codes "ns/a") archive_dot [] []
      offered matched to_itself other_key 1000

access : get_access_dot_chains client (codes "ns/a") (codes "AQID") ≡ ok (one_chain ∷ [])
unfolding get_access_dot_chains resolve_entry
access = refl

abbrev no_ranges : Ranges
no_ranges = record { heap = λ p. span 0 0; next = 0; refs = [] }

abbrev ranges_of : Option (Outcome Ranges) → Ranges
ranges_of none = no_ranges
ranges_of (some (ok rs)) = rs
ranges_of (some (err s)) = no_ranges
ranges_of (some panic) = no_ranges

abbrev computed : Ranges
computed =
    ranges_of (get_valid_ranges client 1 none (codes "ns/a") (codes "AQID") (λ p. span 0 0) 0)

computed_run :
    get_valid_ranges client 1 none (codes "ns/a") (codes "AQID") (λ p. span 0 0) 0
    ≡ some (ok computed)
unfolding get_valid_ranges find_dots_from_vk visit_all str_eq fmt_hash get_uri_from_suffix
    intersect_dchain_access_times resolve_entry merge split intersect_dchain_archival_times
    parse_archive_uri is_disjoint
computed_run = refl

get_valid_ranges-covers_example : CoveredBy computed.heap computed.refs (pos 50)
unfolding intersect_dchain_access_times
get_valid_ranges-covers_example =
    get_valid_ranges-covers client 1 (codes "ns/a") (codes "AQID") (λ p. span 0 0) 0
      (one_chain ∷ []) computed (pos 50) access (inl (span 10 90, refl, omega arith)) computed_run

abbrev held : Heap
held p = span 7 8

abbrev apart : Ranges
apart = ranges_of (get_valid_ranges client 1 none (codes "ns/a") (codes "AQID") held 4)

apart_run : get_valid_ranges client 1 none (codes "ns/a") (codes "AQID") held 4 ≡ some (ok apart)
unfolding get_valid_ranges find_dots_from_vk visit_all str_eq fmt_hash get_uri_from_suffix
    intersect_dchain_access_times resolve_entry merge split intersect_dchain_archival_times
    parse_archive_uri is_disjoint
apart_run = refl

apart_live : All (λ x. x ≢ none) apart.refs
unfolding get_valid_ranges find_dots_from_vk visit_all str_eq fmt_hash get_uri_from_suffix
    intersect_dchain_access_times resolve_entry merge split intersect_dchain_archival_times
    parse_archive_uri is_disjoint
apart_live = ((λ e. cc), tt)

get_valid_ranges-Apart_example :
    (apart.heap 3 ≡ held 3) × (3 < apart.next) × All (Apart 3) apart.refs
get_valid_ranges-Apart_example =
    get_valid_ranges-Apart client 1 (codes "ns/a") (codes "AQID") held 4 3 apart apart_run
      (omega arith) apart_live

abbrev unresolved : DChain
unresolved = one_chain ++ record { hash = codes "x"; dot = none } ∷ []

access_times_unresolved_example : intersect_dchain_access_times unresolved ≡ panic
access_times_unresolved_example = access_times_unresolved unresolved (inr (inl refl))
