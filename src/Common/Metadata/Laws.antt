-- ===== src/Common/Metadata/Laws.antt =====
-- Groups of metadata: what is found after adding, deleting and merging.
use durandal.Prelude.{
  ◌≡◌, refl, Bool, false, not, ◌&&◌, ◌||◌, none, some, List, [], ◌∷◌, arith, if◌then◌else◌, Any,
}
use durandal.Prelude.Str.{Str, str_eq, is_empty}
use durandal.Prelude.Dict
use durandal.Prelude.Dict.{Dict, dict_laws}
use durandal.Common.Metadata.{
  MetadataRecord, MetadataGroup, add_record, del_records, get_key, merge, merge_records,
}

-- Among a group's records there is one with a key.
abbrev pub HasNamed : Dict MetadataRecord → Type 0
HasNamed = Any (λ e. is_empty e.1.key ≡ false)

merge_records-blocks :
    (d : Dict MetadataRecord) (grp : MetadataGroup) → HasNamed d → merge_records d grp ≡ none
unfolding merge_records
merge_records-blocks [] grp h = elim h [ ]
merge_records-blocks ((k, rec) ∷ d) grp h = ground (arith, merge_records-blocks d grp)

-- Merging a group that holds a record with a key never returns: AddRecord waits for the lock that
-- Merge holds.
pub merge_blocks : (grp g2 : MetadataGroup) → HasNamed g2.records → merge grp g2 ≡ none
unfolding merge
merge_blocks grp g2 h = merge_records-blocks g2.records grp h

-- A lookup after an insertion: a record with a key is found under its key, other keys keep theirs,
-- and a record with no key changes nothing.
get_key-add_record :
    (grp : MetadataGroup) (rec : MetadataRecord) (k : Str)
    → get_key (add_record grp rec) k
      ≡ (if not (is_empty rec.key) && str_eq rec.key k then some rec else get_key grp k)
unfolding get_key add_record
get_key-add_record grp rec k = ground (arith, Dict.get-put rec.key k rec grp.records)

-- Some key of the list is this key.
abbrev pub listed : Str → List Str → Bool
listed k [] = false
listed k (j ∷ js) = str_eq j k || listed k js

-- After a deletion the listed keys are gone, and every other key has the record it had.
get_key-del_records :
    (ks : List Str) (grp : MetadataGroup) (k : Str)
    → get_key (del_records grp ks) k ≡ (if listed k ks then none else get_key grp k)
unfolding get_key del_records
get_key-del_records [] grp k = refl
get_key-del_records (j ∷ js) grp k = ground (
  arith,
  get_key-del_records js (record grp { records = Dict.remove j grp.records }) k,
  Dict.get-remove j k grp.records,
)
