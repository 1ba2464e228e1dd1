-- ===== src/Dots/ArchiveUri.antt =====
-- dots/util.go: the URIs of the archive namespace, and the base64 text of a key (fmtHash of
-- dots/master.go).
pub mod RoundTrip
use durandal.Prelude.{
  ℕ, zero, suc, ◌+◌, ◌-◌, ◌*◌, ◌/◌, ◌%◌, ◌^◌, ◌≤◌, ◌<◌, ◌≡◌, refl, sym, ap, ◌∙◌, ◌≢◌, ◌↔◌, ◌⊎◌, inl,
  inr, Bool, true, false, not, ◌&&◌, ◌||◌, Option, none, some, List, [], ◌∷◌, ◌++◌, map,
  append_assoc, append-nil, arith, ltb, leb, ◌==◌, if◌then◌else◌, Bool-cases, Option-cases, ==→eq,
  ==-refl, length, get_elem?, take, drop, length-append, length-take, All, Any,
}
use durandal.Prelude.Int.{
  ℤ, pos, negsuc, pos_part, neg_part, sub_ℕ, ◌+ℤ◌, ◌-ℤ◌, ◌*ℤ◌, quot, floor_div, ◌≤ℤ◌, ◌<ℤ◌, ltb_ℤ,
  eqb_ℤ, bits64, wrap64, IsInt64, wrap64-eq_self,
}
use durandal.Prelude.Str.{
  Str, codes, str_eq, str_eq_refl, str_eq_iff, is_empty, has_prefix, index, last_index, has_suffix,
  trim_suffix, split, join, Lacks, split-join,
}
use durandal.Prelude.Dict
use durandal.Prelude.Dict.{Dict, dict_laws}
use durandal.Prelude.Outcome.{
  Outcome, ok, err, panic, ◌>>=◌, >>=-eq-ok, ok-injective, ok_some-injective,
}
use durandal.Common.UnitOfTime.{Time}
use durandal.Common.ParseInt.{parse_int, int64_half}
use durandal.Dots.TimeRange.{beginning, end_of_time}

abbrev pub archive_vk : Str
archive_vk = codes "LMBbz7H1DeJICLTrEZk5EEpFGGmrZu-KiCllttWyZsI="

-- A character of base64.URLEncoding.
base64_char : ℕ → ℕ
base64_char v =
    if ltb v 26
    then b'A' + v
    else if ltb v 52
    then b'a' + (v - 26)
    else if ltb v 62
    then b'0' + (v - 52)
    else if v == 62
    then b'-'
    else b'_'

-- fmtHash: base64.URLEncoding.EncodeToString
unfoldable pub fmt_hash : Str → Str
unfolding base64_char
fmt_hash [] = []
fmt_hash (a ∷ []) = base64_char (a / 4) ∷ base64_char (a % 4 * 16) ∷ b'=' ∷ b'=' ∷ []
fmt_hash (a ∷ b ∷ []) =
    base64_char (a / 4) ∷ base64_char (a % 4 * 16 + b / 16) ∷ base64_char (b % 16 * 4) ∷ b'=' ∷ []
fmt_hash (a ∷ b ∷ c ∷ rest) =
    base64_char (a / 4)
    ∷ base64_char (a % 4 * 16 + b / 16)
    ∷ base64_char (b % 16 * 4 + c / 64)
    ∷ base64_char (c % 64)
    ∷ fmt_hash rest

-- ArchiveVKBytes, the bytes that archive_vk stands for.
abbrev pub archive_vk_bytes : Str
archive_vk_bytes =
    44 ∷ 192 ∷ 91 ∷ 207 ∷ 177 ∷ 245 ∷ 13 ∷ 226 ∷ 72 ∷ 8 ∷ 180 ∷ 235 ∷ 17 ∷ 153 ∷ 57 ∷ 16 ∷ 74 ∷ 69
    ∷ 24 ∷ 105 ∷ 171 ∷ 102 ∷ 239 ∷ 138 ∷ 136 ∷ 41 ∷ 101 ∷ 182 ∷ 213 ∷ 178 ∷ 102 ∷ 194 ∷ []

pub record ArchiveUri : Type 0 where
  pub start : Time
  pub end : Time
  pub uri : Str

-- parts[i]
abbrev pub part_at : List Str → ℕ → Outcome Str
part_at parts i = elim (get_elem? parts i) [ none ↦ panic | some p ↦ ok p ]

-- strings.Join(parts[i:], "/"): the slice panics past the end.
abbrev pub join_from : List Str → ℕ → Outcome Str
join_from parts i = if ltb (length parts) i then panic else ok (join (drop i parts) b'/')

-- A time in the URI: `+` stands for `open_end`.
abbrev pub time_part : Str → Time → Outcome Time
time_part part open_end =
    if str_eq part (codes "+")
    then ok open_end
    else (let (nano, bad) = parse_int part int64_half in
        if bad then err (codes "not a number") else ok nano)

unfoldable pub parse_archive_uri : Str → Outcome ArchiveUri
parse_archive_uri archiveuri =
    let parts = split archiveuri b'/' in
    do
      space ← part_at parts 0
      if not (str_eq space (codes "archive")) && not (str_eq space archive_vk)
          then err (codes "not from the archive namespace")
          else do
            p2 ← part_at parts 2
            start ← time_part p2 beginning
            p4 ← part_at parts 4
            end ← time_part p4 end_of_time
            uri ← join_from parts 5
            ok (record { start = start; end = end; uri = uri })

unfoldable pub get_uri_from_archive_uri : Str → Outcome Str
get_uri_from_archive_uri archiveuri = join_from (split archiveuri b'/') 5

unfoldable pub get_uri_from_suffix : Str → Outcome Str
get_uri_from_suffix urisuffix = join_from (split urisuffix b'/') 4
