-- ===== src/Requests/Tests.antt =====
-- Tests of the package requests, and its theorems at concrete inputs.
use durandal.Prelude.{Any, false, inl, none, Option, ◌≡◌, refl, true, some, List, [], ◌∷◌}
use durandal.Prelude.Str.{Str, codes, str_eq, has_prefix, index, has_suffix, trim_suffix}
use durandal.Prelude.Dict
use durandal.Prelude.Dict.{Dict, dict_laws}
use durandal.Prelude.Outcome.{ok, ok-injective}
use durandal.Archiver.Requests.{ArchiveRequest}
use durandal.Requests.Api.{
  failed, Bus, loose_same_as, matched_by, add_request_suffix, normalize_namespace,
  get_archive_requests, scan_uris, remove_archive_request_list,
}
use durandal.Requests.Api.Merge.{
  attached, message, Retains, merge_request, merge_request_idempotent,
}
use durandal.Requests.Api.Laws.{Separate, nothing, remove_archive_request_list_stops}

abbrev named : Str → Str → ArchiveRequest
named name at = record {
  from_vk = codes "alice";
  uri = codes "ns/t";
  attach_uri = at;
  po = codes "2.0.0.0/8";
  uuid_expr = [];
  value_expr = codes "t";
  time_expr = [];
  time_parse = [];
  name = name;
  unit = codes "C";
  uri_match = [];
  uri_replace = [];
}

-- A bus that retains what was published last at each URI, as from alice.
abbrev retained : Option (List ArchiveRequest) → List ArchiveRequest
retained none = []
retained (some reqs) = reqs

abbrev bus : Bus (Dict (List ArchiveRequest))
bus = record {
  query = λ s uri. ok (message (codes "alice") uri (retained (Dict.get uri s)) ∷ []);
  publish = λ s uri reqs. ok (Dict.put uri reqs s);
  resolve_registry = λ alias. failed;
}

abbrev to_remove : List ArchiveRequest
to_remove = named (codes "temp") (codes "ns/a") ∷ named (codes "temp") (codes "ns/b") ∷ []

abbrev at_a : ArchiveRequest
at_a = named (codes "temp") (codes "ns/a/!meta/archiverequest")

abbrev at_b : ArchiveRequest
at_b = named (codes "temp") (codes "ns/b/!meta/archiverequest")

abbrev full_uris : List ArchiveRequest
full_uris = at_a ∷ at_b ∷ []

abbrev both_attached : Dict (List ArchiveRequest)
both_attached = (at_a.attach_uri, at_a ∷ []) ∷ (at_b.attach_uri, at_b ∷ []) ∷ []

abbrev removed_at_a : Dict (List ArchiveRequest)
removed_at_a = (at_a.attach_uri, []) ∷ (at_b.attach_uri, at_b ∷ []) ∷ []

scanned : scan_uris bus to_remove [] ≡ ok (full_uris, (codes "ns/a", tt) ∷ (codes "ns/b", tt) ∷ [])
unfolding scan_uris normalize_namespace add_request_suffix index has_prefix has_suffix trim_suffix
    str_eq Dict.put
scanned = refl

fetched_a : get_archive_requests bus both_attached (codes "ns/a") ≡ ok (at_a ∷ [])
unfolding get_archive_requests normalize_namespace add_request_suffix index has_prefix has_suffix
    trim_suffix str_eq Dict.get
fetched_a = refl

fetched_b : get_archive_requests bus both_attached (codes "ns/b") ≡ ok (at_b ∷ [])
unfolding get_archive_requests normalize_namespace add_request_suffix index has_prefix has_suffix
    trim_suffix str_eq Dict.get
fetched_b = refl

a_matches : matched_by full_uris at_a ≡ true
unfolding matched_by loose_same_as str_eq
a_matches = refl

b_matches : matched_by full_uris at_b ≡ true
unfolding matched_by loose_same_as str_eq
b_matches = refl

published : bus.publish both_attached (add_request_suffix (codes "ns/a")) [] ≡ ok removed_at_a
unfolding add_request_suffix has_suffix trim_suffix str_eq Dict.put
published = refl

other_uri : str_eq (add_request_suffix (codes "ns/a")) (add_request_suffix (codes "ns/b")) ≡ false
unfolding add_request_suffix has_suffix trim_suffix str_eq
other_uri = refl

bus-Separate : Separate bus (codes "ns/a") (codes "ns/b")
bus-Separate s s' reqs e =
    rw
      (
        ← ok-injective _ _ e,
        Dict.get-put (add_request_suffix (codes "ns/a")) (add_request_suffix (codes "ns/b")) reqs s,
        other_uri,
      )
      refl

-- The request at ns/b is to be removed too, and is still attached.
remove_archive_request_list_stops_example :
    (remove_archive_request_list bus both_attached to_remove ≡ ok removed_at_a)
    × ((left : List ArchiveRequest) × (get_archive_requests bus removed_at_a (codes "ns/b")
          ≡ ok left)
        × Any (λ r. matched_by full_uris r ≡ true) left)
remove_archive_request_list_stops_example =
    remove_archive_request_list_stops bus both_attached both_attached removed_at_a to_remove
      full_uris (at_a ∷ []) (codes "ns/a") [] [] (codes "ns/b") (at_b ∷ []) scanned
      (nothing both_attached) fetched_a (a_matches, tt) published bus-Separate fetched_b
      (inl b_matches)

abbrev full_uri : Str
full_uri = codes "ns/a/!meta/archiverequest"

-- A bus with one URI, whose state is what is retained there.
abbrev keeper : Bus (List ArchiveRequest)
keeper = record {
  query = λ s uri. ok (message (codes "alice") full_uri s ∷ []);
  publish = λ s uri reqs. ok reqs;
  resolve_registry = λ alias. failed;
}

keeper-Retains : Retains keeper (codes "alice") full_uri
keeper-Retains s s' requests e = rw (← ok-injective _ _ e) refl

full_namespace : normalize_namespace keeper full_uri ≡ ok full_uri
unfolding normalize_namespace index has_prefix str_eq
full_namespace = refl

merges :
    merge_request keeper [] (named (codes "temp") full_uri)
    ≡ ok (named (codes "temp") full_uri ∷ [])
unfolding merge_request attached get_archive_requests
merges = refl

merge_request_idempotent_example :
    merge_request keeper (named (codes "temp") full_uri ∷ []) (named (codes "temp") full_uri)
    ≡ ok (named (codes "temp") full_uri ∷ [])
merge_request_idempotent_example =
    merge_request_idempotent keeper (codes "alice") full_uri [] (named (codes "temp") full_uri ∷ [])
      (named (codes "temp") full_uri) keeper-Retains full_namespace refl merges
