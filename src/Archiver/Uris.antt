-- ===== src/Archiver/Uris.antt =====
-- The functions on URIs of archiver/util.go, and compareStringSliceAsSet.
pub mod Laws
use durandal.Prelude.{
  ℕ, zero, suc, ◌+◌, ◌-◌, ◌*◌, ◌/◌, ◌%◌, ◌^◌, ◌≤◌, ◌<◌, ◌≡◌, refl, sym, ap, ◌∙◌, ◌≢◌, ◌↔◌, ◌⊎◌, inl,
  inr, Bool, true, false, not, ◌&&◌, ◌||◌, Option, none, some, List, [], ◌∷◌, ◌++◌, map,
  append_assoc, append-nil, arith, ltb, leb, ◌==◌, if◌then◌else◌, Bool-cases, Option-cases, ==→eq,
  ==-refl, lt→ltb, length, get_elem?, take, drop, length-append, length-take, All, Any, All-append,
  Any-append_left, Any-append_right, All-take, All-map, All2, All2-map,
}
use durandal.Prelude.Int.{
  ℤ, pos, negsuc, pos_part, neg_part, sub_ℕ, ◌+ℤ◌, ◌-ℤ◌, ◌*ℤ◌, quot, floor_div, ◌≤ℤ◌, ◌<ℤ◌, ltb_ℤ,
  eqb_ℤ, bits64, wrap64, IsInt64, wrap64-eq_self,
}
use durandal.Prelude.Str.{
  Str, codes, str_eq, str_eq_refl, str_eq_iff, ne-str_eq, is_empty, has_prefix, index, last_index,
  has_suffix, trim_suffix, split, join, Lacks, split-join,
}
use durandal.Prelude.Dict
use durandal.Prelude.Dict.{Dict, dict_laws}
use durandal.Prelude.Outcome.{
  Outcome, ok, err, panic, ◌>>=◌, >>=-eq-ok, ok-injective, ok_some-injective,
}

abbrev pub slash : Str
slash = codes "/"

-- uri[start:]
unfoldable pub tail_from : Str → ℕ → Outcome Str
tail_from uri start = if ltb (length uri) start then panic else ok (drop start uri)

-- The loop of GetURIPrefixes; `none` stands for fuel that did not suffice.
unfoldable pub prefixes_loop : ℕ → Str → ℕ → List Str → Option (Outcome (List Str))
unfolding tail_from
prefixes_loop zero uri start prefixes = none
prefixes_loop (suc fuel) uri start prefixes = elim (tail_from uri start) [
  | panic ↦ some panic
  | err e ↦ some (err e)
  | ok rest ↦ if str_eq rest (codes "!") then some (ok prefixes) else elim (index rest slash) [
    | none ↦ some (ok (prefixes ++ uri ∷ []))
    | some i ↦ prefixes_loop fuel uri (start + i + 1) (prefixes ++ take (start + i) uri ∷ [])
  ]
]

-- GetURIPrefixes; the start grows in every round.
unfoldable pub get_uri_prefixes : Str → Option (Outcome (List Str))
unfolding prefixes_loop
get_uri_prefixes uri = prefixes_loop (suc (length uri)) uri 1 []

-- StripBangMeta cuts at the first "/!meta", unless the URI begins with it.
unfoldable pub strip_bang_meta : Str → Str
strip_bang_meta uri = elim (index uri (codes "/!meta")) [
  | none ↦ uri
  | some i ↦ if ltb 0 i then take i uri else uri
]

unfoldable pub drop_last_n : ℕ → Str → Str
drop_last_n zero prefix = prefix
drop_last_n (suc n) prefix = elim (last_index prefix slash) [
  | none ↦ prefix
  | some i ↦ drop_last_n n (take i prefix)
]

-- MatchIgnoreLastN
unfoldable pub match_ignore_last_n : Str → Str → ℕ → Bool
unfolding drop_last_n
match_ignore_last_n uri prefix n = str_eq uri (drop_last_n n prefix)

unfoldable pub listed_in : Str → List Str → Bool
listed_in val1 [] = false
listed_in val1 (val2 ∷ s2) = str_eq val1 val2 || listed_in val1 s2

unfoldable pub all_listed : List Str → List Str → Bool
unfolding listed_in
all_listed [] s2 = true
all_listed (val1 ∷ s1) s2 = listed_in val1 s2 && all_listed s1 s2

-- compareStringSliceAsSet
unfoldable pub compare_as_set : List Str → List Str → Bool
unfolding all_listed
compare_as_set s1 s2 = if not (length s1 == length s2) then false else all_listed s1 s2
