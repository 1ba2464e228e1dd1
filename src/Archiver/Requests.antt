-- ===== src/Archiver/Requests.antt =====
-- The archive requests of archiver/request.go, and their lists and maps of archiver/util.go.
pub mod Laws
use durandal.Prelude.{
  ℕ, zero, suc, ◌+◌, ◌-◌, ◌*◌, ◌/◌, ◌%◌, ◌^◌, ◌≤◌, ◌<◌, ◌≡◌, refl, sym, ap, ◌∙◌, ◌≢◌, ◌↔◌, ◌⊎◌, inl,
  inr, Bool, true, false, not, ◌&&◌, ◌||◌, Option, none, some, List, [], ◌∷◌, ◌++◌, map,
  append_assoc, append-nil, arith, ltb, leb, ◌==◌, if◌then◌else◌, Bool-cases, Option-cases, ==→eq,
  ==-refl, lt→ltb, length, get_elem?, take, drop, length-append, length-take, All, Any, All-append,
  Any-append_left, Any-append_right, All-take, All-map, All2, All2-map,
}
use durandal.Prelude.Int.{
  ℤ, pos, negsuc, pos_part, neg_part, sub_ℕ, ◌+ℤ◌, ◌-ℤ◌, ◌*ℤ◌, quot, floor_div, ◌≤ℤ◌, ◌<ℤ◌, ltb_ℤ,
  eqb_ℤ, bits64, wrap64, IsInt64, wrap64-eq_self,
}
use durandal.Prelude.Str.{
  Str, codes, str_eq, str_eq_refl, str_eq_iff, ne-str_eq, is_empty, has_prefix, index, last_index,
  has_suffix, trim_suffix, split, join, Lacks, split-join,
}
use durandal.Prelude.Dict
use durandal.Prelude.Dict.{Dict, dict_laws}
use durandal.Prelude.Outcome.{
  Outcome, ok, err, panic, ◌>>=◌, >>=-eq-ok, ok-injective, ok_some-injective,
}

pub record ArchiveRequest : Type 0 where
  pub from_vk : Str
  pub uri : Str
  pub attach_uri : Str
  pub po : Str
  pub uuid_expr : Str
  pub value_expr : Str
  pub time_expr : Str
  pub time_parse : Str
  pub name : Str
  pub unit : Str
  pub uri_match : Str
  pub uri_replace : Str

-- Hash
unfoldable pub hash : ArchiveRequest → Str
hash req = req.uri ++ req.name

unfoldable pub same_fields : ArchiveRequest → ArchiveRequest → Bool
same_fields req other =
    str_eq req.uri other.uri
    && (str_eq req.name other.name
        && (str_eq req.unit other.unit
            && (str_eq req.po other.po
                && (str_eq req.uuid_expr other.uuid_expr
                    && (str_eq req.value_expr other.value_expr
                        && (str_eq req.time_expr other.time_expr
                            && (str_eq req.time_parse other.time_parse
                                && (str_eq req.uri_match other.uri_match
                                    && (str_eq req.uri_replace other.uri_replace)))))))))

-- *ArchiveRequest: `none` is nil, which equals nothing.
unfoldable pub equals : Option ArchiveRequest → Option ArchiveRequest → Bool
unfolding same_fields
equals none other = false
equals (some req) none = false
equals (some req) (some other) = same_fields req other

abbrev pub ArchiveRequestList : Type 0
ArchiveRequestList = List (Option ArchiveRequest)

unfoldable pub contains : ArchiveRequestList → Option ArchiveRequest → Bool
contains [] req = false
contains (old ∷ arl) req = equals req old || contains arl req

unfoldable pub add_request : ArchiveRequestList → Option ArchiveRequest → ArchiveRequestList
add_request [] req = req ∷ []
add_request (old ∷ arl) req =
    let rest = add_request arl req in if equals req old then old ∷ arl else old ∷ rest

unfoldable pub remove_request : ArchiveRequestList → Option ArchiveRequest → ArchiveRequestList
remove_request [] req = []
remove_request (old ∷ arl) req =
    let rest = remove_request arl req in if equals req old then arl else old ∷ rest

-- The lists behind pointers, and a SynchronizedArchiveRequestMap: the addresses of the lists.
abbrev pub Lists : Type 0
Lists = ℕ → ArchiveRequestList

abbrev pub RequestMap : Type 0
RequestMap = Dict ℕ

abbrev pub write_list : Lists → ℕ → ArchiveRequestList → Lists
write_list h p l q = if p == q then l else h q

-- Get
unfoldable pub get_list : RequestMap → Str → Option ℕ
get_list m uri = Dict.get uri m

-- Set: the lists and the map afterwards; `next` is a free address.
unfoldable pub set_request :
    Lists → RequestMap → ℕ → Str → Option ArchiveRequest → Lists × RequestMap
set_request h m next uri req = elim (Dict.get uri m) [
  | none ↦ (write_list h next (add_request [] req), m)
  | some p ↦ (write_list h p (add_request (h p) req), m)
]

unfoldable pub add_all : ArchiveRequestList → ArchiveRequestList → ArchiveRequestList
add_all l [] = l
add_all l (r ∷ rs) = add_all (add_request l r) rs

-- SetList: the list at the address `p` is stored, or its requests are added to the one that is there.
unfoldable pub set_list : Lists → RequestMap → Str → ℕ → Lists × RequestMap
unfolding add_all
set_list h m uri p = elim (Dict.get uri m) [
  | none ↦ (h, Dict.put uri p m)
  | some q ↦ (write_list h q (add_all (h q) (h p)), m)
]

-- Del
unfoldable pub del_list : RequestMap → Str → RequestMap
del_list m uri = Dict.remove uri m

-- RemoveEntry
unfoldable pub remove_entry : Lists → RequestMap → Str → Option ArchiveRequest → Lists
remove_entry h m uri req = elim (Dict.get uri m) [
  | none ↦ h
  | some p ↦ write_list h p (remove_request (h p) req)
]
