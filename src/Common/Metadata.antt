-- ===== src/Common/Metadata.antt =====
-- The metadata records and groups of common/metadata.go.
pub mod Laws
use durandal.Prelude.{
  ℕ, zero, suc, ◌+◌, ◌-◌, ◌*◌, ◌/◌, ◌%◌, ◌^◌, ◌≤◌, ◌<◌, ◌≡◌, refl, sym, ap, ◌∙◌, ◌≢◌, ◌↔◌, ◌⊎◌, inl,
  inr, Bool, true, false, not, ◌&&◌, ◌||◌, Option, none, some, List, [], ◌∷◌, ◌++◌, map,
  append_assoc, append-nil, arith, ltb, leb, ◌==◌, if◌then◌else◌, Bool-cases, Option-cases, length,
  get_elem?, take, drop, length-append, length-take, All, Any,
}
use durandal.Prelude.Int.{
  ℤ, pos, negsuc, pos_part, neg_part, sub_ℕ, ◌+ℤ◌, ◌-ℤ◌, ◌*ℤ◌, quot, floor_div, ◌≤ℤ◌, ◌<ℤ◌, ltb_ℤ,
  eqb_ℤ, bits64, wrap64, IsInt64, wrap64-eq_self,
}
use durandal.Prelude.Str.{
  Str, codes, str_eq, str_eq_refl, str_eq_iff, is_empty, has_prefix, index, last_index, has_suffix,
  trim_suffix, split, join,
}
use durandal.Prelude.Dict
use durandal.Prelude.Dict.{Dict, dict_laws}
use durandal.Prelude.Outcome.{Outcome, ok, err, panic, ◌>>=◌}
use durandal.Common.UnitOfTime.{Time}
use durandal.Common.Uuid.{Uuid, UuidLib}
use durandal.Common.UriKey.{get_uri_key}
use durandal.Common.TimeText.{zero_time}
use durandal.Common.Value.{Value, str, bool, time, other, list, dict, bson, Fields, end, field}

pub record MetadataRecord : Type 0 where
  pub key : Str
  pub value : Value
  pub src_uri : Str
  pub time_valid : Time
  pub uuid : Uuid

pub record MetadataGroup : Type 0 where
  pub records : Dict MetadataRecord
  pub uuid : Uuid
  pub uri : Str

-- bw2bind's MetadataPayloadObject, as its Value method returns it.
pub record MetadataTuple : Type 0 where
  pub value : Str
  pub timestamp : ℤ

-- A payload object by what the program asks of it: IsTypeDF at the metadata type, and the type
-- assertion to MetadataPayloadObject.
pub record MetadataObject : Type 0 where
  pub is_metadata : Bool
  pub content : Option MetadataTuple

-- EMPTY_METADATA_RECORD, whose Value is nil
abbrev pub empty_record : MetadataRecord
empty_record = record { key = []; value = other 0; src_uri = []; time_valid = zero_time; uuid = [] }

record_of : Str → MetadataTuple → MetadataRecord
record_of uri md = record {
  key = get_uri_key uri;
  value = str md.value;
  src_uri = uri;
  time_valid = md.timestamp;
  uuid = [];
}

-- The argument is what GetOnePODF found in the message on the URI, nil as `none`.
unfoldable pub record_from_message : Str → Option MetadataObject → Option MetadataRecord
unfolding record_of
record_from_message uri none = none
record_from_message uri (some po) = elim po.content [
  | none ↦ none
  | some md ↦ some (record_of uri md)
]

unfoldable pub record_from_message_key : Str → Option MetadataObject → MetadataRecord
unfolding record_of
record_from_message_key uri none = empty_record
record_from_message_key uri (some po) = elim po.content [
  | none ↦ empty_record
  | some md ↦ record_of uri md
]

abbrev pub empty_group : MetadataGroup
empty_group = record { records = []; uuid = []; uri = [] }

put_all : List MetadataRecord → Dict MetadataRecord → Dict MetadataRecord
put_all [] d = d
put_all (r ∷ rs) d = put_all rs (Dict.put r.key r d)

unfoldable pub new_group : List MetadataRecord → MetadataGroup
unfolding put_all
new_group records = record empty_group { records = put_all records [] }

unfoldable pub add_record : MetadataGroup → MetadataRecord → MetadataGroup
add_record grp rec =
    if is_empty rec.key then grp else record grp { records = Dict.put rec.key rec grp.records }

add_objects : Str → List MetadataObject → MetadataGroup → MetadataGroup
unfolding record_of add_record
add_objects uri [] grp = grp
add_objects uri (po ∷ objs) grp = elim po.is_metadata [
  | false ↦ add_objects uri objs grp
  | true ↦ elim po.content [
    | none ↦ add_objects uri objs grp
    | some md ↦ add_objects uri objs (add_record grp (record_of uri md))
  ]
]

unfoldable pub group_from_message : Str → List MetadataObject → MetadataGroup
unfolding add_objects
group_from_message uri objs = add_objects uri objs empty_group

-- doc[key]
unfoldable pub find : Str → Fields → Option Value
find k end = none
find k (field j v d) = if str_eq j k then some v else find k d

-- delete(doc, key)
unfoldable pub discard : Str → Fields → Fields
discard k end = end
discard k (field j v d) = let rest = discard k d in if str_eq j k then rest else field j v rest

-- v.(string)
abbrev pub as_string : Value → Outcome Str
as_string (str s) = ok s
as_string (bool b) = panic
as_string (time t) = panic
as_string (other n) = panic
as_string (list vs) = panic
as_string (dict d) = panic
as_string (bson d) = panic

add_fields : Fields → MetadataGroup → MetadataGroup
unfolding add_record
add_fields end grp = grp
add_fields (field k v d) grp =
    add_fields d (add_record grp (record empty_record { key = k; value = v }))

abbrev string_at : Str → Fields → Outcome Str
string_at k doc = elim (find k doc) [ none ↦ ok [] | some v ↦ as_string v ]

unfoldable pub group_from_bson : UuidLib → Fields → Outcome MetadataGroup
unfolding add_fields find discard
group_from_bson lib doc = do
  uuid ← elim (find (codes "uuid") doc) [
    | none ↦ ok []
    | some v ↦ do s ← as_string v; ok (lib.parse s)
  ]
  uri ← string_at (codes "originaluri") doc
  ok (
      add_fields (discard (codes "originaluri") (discard (codes "uuid") doc))
        (record empty_group { uuid = uuid; uri = uri }))

-- The record that a document holds; a time that is missing or no time is 1970.
unfoldable pub record_from_bson : UuidLib → Fields → Outcome MetadataRecord
unfolding find
record_from_bson lib doc = do
  key ← string_at (codes "key") doc
  value ← string_at (codes "value") doc
  srcuri ← string_at (codes "srcuri") doc
  uuid ← string_at (codes "uuid") doc
  ok (record {
    key = key;
    value = str value;
    src_uri = srcuri;
    time_valid = elim (find (codes "timevalid") doc) [ some (time t) ↦ t | _ ↦ pos 0 ];
    uuid = lib.parse uuid;
  })

unfoldable pub group_is_empty : UuidLib → MetadataGroup → Bool
group_is_empty lib grp = (length grp.records == 0) && is_empty (lib.to_string grp.uuid)

unfoldable pub del_records : MetadataGroup → List Str → MetadataGroup
del_records grp [] = grp
del_records grp (k ∷ ks) = del_records (record grp { records = Dict.remove k grp.records }) ks

unfoldable pub has_key : MetadataGroup → Str → Bool
has_key grp key = elim (Dict.get key grp.records) [ none ↦ false | some rec ↦ true ]

unfoldable pub get_key : MetadataGroup → Str → Option MetadataRecord
get_key grp key = Dict.get key grp.records

-- AddRecord called by a goroutine that holds the group's lock, or does not: the lock is not
-- reentrant, and `none` is a call that never returns.
unfoldable pub add_record_under : Bool → MetadataGroup → MetadataRecord → Option MetadataGroup
add_record_under locked grp rec =
    if is_empty rec.key
    then some grp
    else if locked
    then none
    else some (record grp { records = Dict.put rec.key rec grp.records })

merge_records : Dict MetadataRecord → MetadataGroup → Option MetadataGroup
unfolding add_record_under
merge_records [] grp = some grp
merge_records ((k, rec) ∷ d) grp = elim (add_record_under true grp rec) [
  | none ↦ none
  | some grp' ↦ merge_records d grp'
]

-- Merge takes the lock of `grp` before its loop.
unfoldable pub merge : MetadataGroup → MetadataGroup → Option MetadataGroup
unfolding merge_records
merge grp g2 = merge_records g2.records grp
