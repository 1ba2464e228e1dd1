-- ===== src/Dots/Chains.antt =====
-- The chains of DOTs of bw2/objects as the program reads them, and the ranges that a chain allows:
-- the rest of dots/range.go.
pub mod Exact
use durandal.Prelude.{
  ℕ, zero, suc, ◌+◌, ◌-◌, ◌*◌, ◌/◌, ◌%◌, ◌^◌, ◌≤◌, ◌<◌, ◌≡◌, refl, sym, ap, ◌∙◌, ◌≢◌, ◌↔◌, ◌⊎◌, inl,
  inr, Bool, true, false, not, ◌&&◌, ◌||◌, Option, none, some, List, [], ◌∷◌, ◌++◌, map,
  append_assoc, append-nil, arith, ltb, leb, ◌==◌, if◌then◌else◌, Bool-cases, Option-cases, ==→eq,
  ==-refl, length, get_elem?, take, drop, length-append, length-take, All, Any,
}
use durandal.Prelude.Int.{
  ℤ, pos, negsuc, pos_part, neg_part, sub_ℕ, ◌+ℤ◌, ◌-ℤ◌, ◌*ℤ◌, quot, floor_div, ◌≤ℤ◌, ◌<ℤ◌, ltb_ℤ,
  eqb_ℤ, bits64, wrap64, IsInt64, wrap64-eq_self,
}
use durandal.Prelude.Str.{
  Str, codes, str_eq, str_eq_refl, str_eq_iff, is_empty, has_prefix, index, last_index, has_suffix,
  trim_suffix, split, join, Lacks, split-join,
}
use durandal.Prelude.Dict
use durandal.Prelude.Dict.{Dict, dict_laws}
use durandal.Prelude.Outcome.{
  Outcome, ok, err, panic, ◌>>=◌, >>=-eq-ok, ok-injective, ok_some-injective,
}
use durandal.Common.UnitOfTime.{Time}
use durandal.Dots.TimeRange.{TimeRange, new_time_range, before, after}
use durandal.Dots.ArchiveUri.{fmt_hash, parse_archive_uri}

-- objects.DOT by its getters; `none` is a nil time.
pub record Dot : Type 0 where
  pub created : Option Time
  pub expiry : Option Time
  pub access_uri_mvk : Str
  pub access_uri_suffix : Str
  pub receiver_vk : Str

-- One place of an objects.DChain: its hash, and its DOT once that is known.
pub record ChainEntry : Type 0 where
  pub hash : Str
  pub dot : Option Dot

abbrev pub DChain : Type 0
DChain = List ChainEntry

-- *dot.GetCreated()
abbrev pub deref : Option Time → Outcome Time
deref none = panic
deref (some t) = ok t

abbrev pub known : Option Dot → Outcome Dot
known none = panic
known (some d) = ok d

abbrev pub dot_of : ChainEntry → Outcome Dot
dot_of e = known e.dot

-- The later start and the earlier end.
abbrev pub narrow : TimeRange → Time → Time → TimeRange
narrow rng start end = record {
  start = if before rng.start start then start else rng.start;
  end = if after rng.end end then end else rng.end;
}

unfoldable pub access_loop : TimeRange → DChain → Outcome TimeRange
access_loop rng [] = ok rng
access_loop rng (e ∷ chain) = do
  dot ← dot_of e
  start ← deref dot.created
  end ← deref dot.expiry
  access_loop (narrow rng start end) chain

-- A nil range is `none`.
unfoldable pub intersect_dchain_access_times : DChain → Outcome (Option TimeRange)
unfolding access_loop
intersect_dchain_access_times [] = ok none
intersect_dchain_access_times (e ∷ chain) = do
  dot ← dot_of e
  start ← deref dot.created
  end ← deref dot.expiry
  rng ← access_loop (new_time_range start end) chain
  ok (some rng)

-- The loop stops with nil at a URI that cannot be parsed.
unfoldable pub archival_loop : Str → TimeRange → DChain → Outcome (Option TimeRange)
archival_loop namespace rng [] = ok (some rng)
archival_loop namespace rng (e ∷ chain) = do
  dot ← dot_of e
  elim (parse_archive_uri (namespace ++ b'/' ∷ dot.access_uri_suffix)) [
    | ok u ↦ archival_loop namespace (narrow rng u.start u.end) chain
    | err s ↦ ok none
    | panic ↦ panic
  ]

-- The namespace of the first DOT is used for all of them.
unfoldable pub intersect_dchain_archival_times : DChain → Outcome (Option TimeRange)
unfolding archival_loop
intersect_dchain_archival_times [] = ok none
intersect_dchain_archival_times (e ∷ chain) = do
  dot ← dot_of e
  let namespace = fmt_hash dot.access_uri_mvk
  elim (parse_archive_uri (namespace ++ b'/' ∷ dot.access_uri_suffix)) [
    | ok u ↦ archival_loop namespace (new_time_range u.start u.end) chain
    | err s ↦ ok none
    | panic ↦ panic
  ]
