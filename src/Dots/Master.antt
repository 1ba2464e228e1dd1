-- ===== src/Dots/Master.antt =====
-- DotMaster of dots/master.go: which chains of permissions lead to a key, and the ranges and the
-- answers that are computed from them. The caches of ccache are outside: what their Get returned is
-- an argument.
pub mod Search
pub mod ValidRanges
pub mod Coverage
pub mod Fresh
pub mod Failures
use durandal.Prelude.{
  ℕ, zero, suc, ◌+◌, ◌-◌, ◌*◌, ◌/◌, ◌%◌, ◌^◌, ◌≤◌, ◌<◌, ◌≡◌, refl, sym, ap, ◌∙◌, ◌≢◌, ◌↔◌, ◌⊎◌, inl,
  inr, Bool, true, false, not, ◌&&◌, ◌||◌, Option, none, some, List, [], ◌∷◌, ◌++◌, map,
  append_assoc, append-nil, arith, ltb, leb, ◌==◌, if◌then◌else◌, Bool-cases, Option-cases, ==→eq,
  ==-refl, length, get_elem?, take, drop, length-append, length-take, All, Any,
}
use durandal.Prelude.Int.{
  ℤ, pos, negsuc, pos_part, neg_part, sub_ℕ, ◌+ℤ◌, ◌-ℤ◌, ◌*ℤ◌, quot, floor_div, ◌≤ℤ◌, ◌<ℤ◌, ltb_ℤ,
  eqb_ℤ, bits64, wrap64, IsInt64, wrap64-eq_self,
}
use durandal.Prelude.Str.{
  Str, codes, str_eq, str_eq_refl, str_eq_iff, is_empty, has_prefix, index, last_index, has_suffix,
  trim_suffix, split, join, Lacks, split-join,
}
use durandal.Prelude.Dict
use durandal.Prelude.Dict.{Dict, dict_laws}
use durandal.Prelude.Outcome.{
  Outcome, ok, err, panic, ◌>>=◌, >>=-eq-ok, ok-injective, ok_some-injective,
}
use durandal.Dots.TimeRange.{TimeRange}
use durandal.Dots.DisjointRanges.{Ref, Heap, write, merge}
use durandal.Dots.ArchiveUri.{archive_vk_bytes, fmt_hash, get_uri_from_suffix}
use durandal.Dots.Chains.{
  Dot, ChainEntry, DChain, intersect_dchain_access_times, intersect_dchain_archival_times,
}

-- What BuildAnyChain returns: whether the chain is not nil, and whether there is an error.
pub record AnyChain : Type 0 where
  pub found : Bool
  pub failed : Bool

-- A chain of BuildChain after NewDChain and the type assertion, and whether NewDChain failed.
pub record ParsedChain : Type 0 where
  pub dchain : Option DChain
  pub failed : Bool

-- bw2bind's client, the codecs of bw2/objects and util.RestrictBy.
pub record Client : Type 0 where
  pub build_any_chain : Str → Str → Str → AnyChain
  pub build_chain : Str → Str → Str → Outcome (List ParsedChain)
  -- ResolveRegistry and NewDOT: the DOT and whether it is valid, or an error
  pub resolve_registry : Str → Option (Dot × Bool)
  -- FindDOTsFromVK: objects that NewDOT reads or refuses, and whether each is valid
  pub find_dots_from_vk : Str → Outcome (List (Outcome Dot) × List Bool)
  pub create_dchain : List Dot → Outcome DChain
  pub restrict_by : Str → Str → Bool

-- An item of the cache `canread`; Get returns an expired item too.
pub record CanReadItem : Type 0 where
  pub value : Bool
  pub expired : Bool

-- CanRead: whether the key may read, and what is stored in the cache, if anything. The error is
-- errors.Wrap of the client's, which is nil for a nil error.
unfoldable pub can_read : Client → Option CanReadItem → Str → Str → Bool × Option Bool
can_read client none uri vk =
    let chain = client.build_any_chain uri (codes "C") vk in
    if chain.found && not chain.failed
    then (true, some true)
    else (not chain.failed, some (not chain.failed))
can_read client (some item) uri vk = (item.value, none)

-- buildChain: the loop returns at the first object that is no chain, with a nil error if NewDChain
-- had none.
unfoldable pub collect_chains : List ParsedChain → List DChain → Outcome (List DChain)
collect_chains [] acc = ok acc
collect_chains (p ∷ ps) acc = elim p.dchain [
  | some c ↦ collect_chains ps (acc ++ c ∷ [])
  | none ↦ if p.failed then err (codes "not a chain") else ok acc
]

unfoldable pub build_chain : Client → Str → Str → Outcome (List DChain)
unfolding collect_chains
build_chain client uri vk = do
  chains ← client.build_chain uri (codes "C") vk
  collect_chains chains []

-- An entry with no DOT gets the DOT that its hash resolves to, if that works and it is valid.
unfoldable pub resolve_entry : Client → ChainEntry → ChainEntry
resolve_entry client e = elim e.dot [
  | some d ↦ e
  | none ↦ elim (client.resolve_registry e.hash) [
    | some (d, valid) ↦ if valid then record e { dot = some d } else e
    | none ↦ e
  ]
]

abbrev pub resolve_chain : Client → DChain → DChain
resolve_chain client [] = []
resolve_chain client (e ∷ es) = resolve_entry client e ∷ resolve_chain client es

abbrev pub resolve_chains : Client → List DChain → List DChain
resolve_chains client [] = []
resolve_chains client (c ∷ cs) = resolve_chain client c ∷ resolve_chains client cs

unfoldable pub get_access_dot_chains : Client → Str → Str → Outcome (List DChain)
unfolding build_chain
get_access_dot_chains client uri vk = do
  chains ← build_chain client uri vk
  ok (resolve_chains client chains)

abbrev read_dots : List (Outcome Dot) → List Dot → Outcome (List Dot)
read_dots [] acc = ok acc
read_dots (d ∷ ds) acc = elim d [
  | ok dot ↦ read_dots ds (acc ++ dot ∷ [])
  | err s ↦ err s
  | panic ↦ panic
]

unfoldable pub find_dots_from_vk : Client → Str → Outcome (List Dot × List Bool)
find_dots_from_vk client fromvk = do
  found ← client.find_dots_from_vk fromvk
  dots ← read_dots found.0 []
  ok (dots, found.1)

abbrev pub DotChains : Type 0
DotChains = List (List Dot)

abbrev pub prefix_all : Dot → DotChains → DotChains
prefix_all d [] = []
prefix_all d (c ∷ cs) = (d ∷ c) ∷ prefix_all d cs

-- What the search has found: `none` is a search that has not returned within the fuel.
abbrev pub Found : Type 0
Found = Option (Outcome DotChains)

abbrev pub extend_found : DotChains → Dot → Found → Found
extend_found acc d none = none
extend_found acc d (some (ok chains)) = some (ok (acc ++ prefix_all d chains))
extend_found acc d (some (err s)) = some (err s)
extend_found acc d (some panic) = some panic

-- A DOT on the archive namespace whose URI pattern covers the URI, or not.
unfoldable pub matches : Client → Str → Dot → Outcome Bool
matches client uri dot = if not (str_eq dot.access_uri_mvk archive_vk_bytes) then ok false else do
  archive_uri ← get_uri_from_suffix dot.access_uri_suffix
  ok (client.restrict_by archive_uri uri)

-- One round of the loop of findDOTChains; `rec` is the recursive search from a key.
unfoldable pub visit : Client → (Str → Found) → Str → Str → Dot → Bool → DotChains → Found
unfolding matches
visit client rec findvk uri dot valid acc =
    if not valid then some (ok acc) else elim (matches client uri dot) [
      | err s ↦ some (err s)
      | panic ↦ some panic
      | ok false ↦ some (ok acc)
      | ok true ↦
          let recv = fmt_hash dot.receiver_vk in
          if str_eq recv findvk
          then some (ok (acc ++ (dot ∷ []) ∷ []))
          else extend_found acc dot (rec recv)
    ]

-- The loop of findDOTChains; `valids` that is too short panics.
unfoldable pub visit_all :
    Client → (Str → Found) → Str → Str → List Dot → List Bool → DotChains → Found
unfolding visit
visit_all client rec findvk uri [] valids acc = some (ok acc)
visit_all client rec findvk uri (dot ∷ dots) [] acc = some panic
visit_all client rec findvk uri (dot ∷ dots) (valid ∷ valids) acc =
    elim (visit client rec findvk uri dot valid acc) [
      | none ↦ none
      | some (err s) ↦ some (err s)
      | some panic ↦ some panic
      | some (ok acc') ↦ visit_all client rec findvk uri dots valids acc'
    ]

-- The search follows the DOTs from key to key with no note of the keys that it has seen; the fuel
-- bounds its depth. The chains that Go returns beside an error are dropped by the callers.
unfoldable pub find_dot_chains : Client → ℕ → Str → Str → Str → Found
find_dot_chains client zero fromvk findvk uri = none
find_dot_chains client (suc fuel) fromvk findvk uri = elim (find_dots_from_vk client fromvk) [
  | err s ↦ some (err s)
  | panic ↦ some panic
  | ok (dots, valids) ↦
      visit_all client (λ vk. find_dot_chains client fuel vk findvk uri) findvk uri dots valids []
]

abbrev create_all : Client → DotChains → List DChain → Outcome (List DChain)
create_all client [] acc = ok acc
create_all client (c ∷ cs) acc = elim (client.create_dchain c) [
  | ok dchain ↦ create_all client cs (acc ++ dchain ∷ [])
  | err s ↦ err s
  | panic ↦ panic
]

-- The namespace of a URI: what stands before its first slash.
unfoldable pub namespace_of : Str → Str
namespace_of uri = elim (index uri (b'/' ∷ [])) [
  | none ↦ uri
  | some i ↦ if ltb 0 i then take i uri else uri
]

unfoldable pub get_archival_dot_chains : Client → ℕ → Str → Str → Option (Outcome (List DChain))
unfolding find_dot_chains namespace_of
get_archival_dot_chains client fuel uri vk =
    elim (find_dot_chains client fuel (namespace_of uri) vk uri) [
      | none ↦ none
      | some (err s) ↦ some (err s)
      | some panic ↦ some panic
      | some (ok chains) ↦ some (create_all client chains [])
    ]
