-- ===== src/Requests/Api.antt =====
-- requests/api.go: the archive requests that are retained on the message bus, and the operations that
-- read, extend and republish them. A fatal log ends the program, and is a panic here.
pub mod Merge
pub mod Laws
use durandal.Prelude.{
  ℕ, zero, suc, ◌+◌, ◌-◌, ◌*◌, ◌/◌, ◌%◌, ◌^◌, ◌≤◌, ◌<◌, ◌≡◌, refl, sym, ap, ◌∙◌, ◌≢◌, ◌↔◌, ◌⊎◌, inl,
  inr, Bool, true, false, not, ◌&&◌, ◌||◌, Option, none, some, List, [], ◌∷◌, ◌++◌, map,
  append_assoc, append-nil, arith, ltb, leb, ◌==◌, if◌then◌else◌, Bool-cases, Option-cases, ==→eq,
  ==-refl, lt→ltb, length, get_elem?, take, drop, length-append, length-take, All, Any, All-append,
  Any-append_left, Any-append_right, All-take, All-map, All2, All2-map,
}
use durandal.Prelude.Int.{
  ℤ, pos, negsuc, pos_part, neg_part, sub_ℕ, ◌+ℤ◌, ◌-ℤ◌, ◌*ℤ◌, quot, floor_div, ◌≤ℤ◌, ◌<ℤ◌, ltb_ℤ,
  eqb_ℤ, bits64, wrap64, IsInt64, wrap64-eq_self,
}
use durandal.Prelude.Str.{
  Str, codes, str_eq, str_eq_refl, str_eq_iff, ne-str_eq, is_empty, has_prefix, index, last_index,
  has_suffix, trim_suffix, split, join, Lacks, split-join,
}
use durandal.Prelude.Dict
use durandal.Prelude.Dict.{Dict, dict_laws}
use durandal.Prelude.Outcome.{
  Outcome, ok, err, panic, ◌>>=◌, >>=-eq-ok, ok-injective, ok_some-injective,
}
use durandal.Archiver.Requests.{ArchiveRequest, equals}

-- What ResolveRegistry returns for an alias: an error, or whether it is valid and the key of the
-- entity, if it is one.
pub data Registry : Type 0 where
  failed : Registry
  resolved : (valid : Bool) → Option Str → Registry

-- A retained message: its sender, its URI, and its payload objects, of which only archive requests are
-- decoded.
pub record Retained : Type 0 where
  pub from : Str
  pub uri : Str
  pub pos : List (Option (Outcome ArchiveRequest))

-- The client of the bus; `S` is the state of the bus. Packing a request never fails.
pub record Bus (S : Type 0) : Type 0 where
  pub query : S → Str → Outcome (List Retained)
  pub publish : S → Str → List ArchiveRequest → Outcome S
  pub resolve_registry : Str → Registry

-- SameAs has the tests of Equals.
unfoldable pub same_as : Option ArchiveRequest → Option ArchiveRequest → Bool
same_as req other = equals req other

unfoldable pub loose_same_as : ArchiveRequest → ArchiveRequest → Bool
loose_same_as req other =
    str_eq req.name other.name
    && (str_eq req.uri other.uri && str_eq req.attach_uri other.attach_uri)

unfoldable pub matched_by : List ArchiveRequest → ArchiveRequest → Bool
matched_by [] req = false
matched_by (rem ∷ removed) req = loose_same_as rem req || matched_by removed req

-- The requests that none of the removed ones matches.
unfoldable pub keep_requests : List ArchiveRequest → List ArchiveRequest → List ArchiveRequest
unfolding matched_by
keep_requests removed [] = []
keep_requests removed (req ∷ reqs) =
    let rest = keep_requests removed reqs in if matched_by removed req then rest else req ∷ rest

abbrev pub request_suffix : Str
request_suffix = codes "/!meta/archiverequest"

unfoldable pub add_request_suffix : Str → Str
add_request_suffix uri =
    if not (has_suffix uri request_suffix)
    then trim_suffix uri (codes "/") ++ request_suffix
    else uri

unfoldable pub alias_or_vk : Str → Registry → Str
alias_or_vk alias failed = alias
alias_or_vk alias (resolved valid none) = alias
alias_or_vk alias (resolved valid (some vk)) = if not valid then alias else vk

module _ {S : Type 0} (client : Bus S) where
  unfoldable pub resolve_alias_to_vk : Str → Str
  unfolding alias_or_vk
  resolve_alias_to_vk alias = alias_or_vk alias (client.resolve_registry alias)

  -- A URI with no slash has one component, and reading the second panics.
  unfoldable pub normalize_namespace : Str → Outcome Str
  unfolding resolve_alias_to_vk
  normalize_namespace uri = elim (index uri (codes "/")) [
    | none ↦ panic
    | some i ↦ ok (resolve_alias_to_vk (take i uri) ++ b'/' ∷ drop (i + 1) uri)
  ]

  pub requests_of :
      Retained
      → List (Option (Outcome ArchiveRequest))
      → List ArchiveRequest
      → Outcome (List ArchiveRequest)
  unfolding normalize_namespace
  requests_of msg [] requests = ok requests
  requests_of msg (none ∷ objects) requests = requests_of msg objects requests
  requests_of msg (some decoded ∷ objects) requests = do
    req ← decoded
    attach_uri ← normalize_namespace msg.uri
    requests_of msg objects
        (requests ++ record req { from_vk = msg.from; attach_uri = attach_uri } ∷ [])

  pub requests_of_all : List Retained → List ArchiveRequest → Outcome (List ArchiveRequest)
  unfolding requests_of
  requests_of_all [] requests = ok requests
  requests_of_all (msg ∷ msgs) requests = do
    more ← requests_of msg msg.pos requests
    requests_of_all msgs more

  unfoldable pub get_archive_requests : S → Str → Outcome (List ArchiveRequest)
  unfolding requests_of_all add_request_suffix
  get_archive_requests s uri = do
    msgs ← client.query s (add_request_suffix uri)
    requests_of_all msgs []

  unfoldable pub remove_all_archive_requests : S → Str → Outcome S
  unfolding add_request_suffix
  remove_all_archive_requests s uri = client.publish s (add_request_suffix uri) []

  -- The parameters that a request needs.
  unfoldable pub is_complete : ArchiveRequest → Bool
  is_complete req =
      not (is_empty req.po) && (not (is_empty req.value_expr) && not (is_empty req.name))

  -- The attach URIs of complete requests, with the suffix and the namespace's key.
  unfoldable pub complete_all : List ArchiveRequest → Outcome (List ArchiveRequest)
  unfolding is_complete normalize_namespace add_request_suffix
  complete_all [] = ok []
  complete_all (req ∷ reqs) = if not (is_complete req) then panic else do
    attach_uri ← normalize_namespace (add_request_suffix req.attach_uri)
    rest ← complete_all reqs
    ok (record req { attach_uri = attach_uri } ∷ rest)

  group : List ArchiveRequest → Dict (List ArchiveRequest) → Dict (List ArchiveRequest)
  group [] toadd = toadd
  group (req ∷ reqs) toadd = elim (Dict.get req.attach_uri toadd) [
    | none ↦ group reqs (Dict.put req.attach_uri (req ∷ []) toadd)
    | some others ↦ group reqs (Dict.put req.attach_uri (others ++ req ∷ []) toadd)
  ]

  publish_groups : S → Dict (List ArchiveRequest) → Outcome S
  publish_groups s [] = ok s
  publish_groups s ((uri, reqs) ∷ toadd) = do
    s' ← client.publish s uri reqs
    publish_groups s' toadd

  unfoldable pub attach_archive_requests : S → List ArchiveRequest → Outcome S
  unfolding complete_all group publish_groups
  attach_archive_requests s reqs = do
    complete ← complete_all reqs
    publish_groups s (group complete [])

  -- The removed requests with their full attach URIs, and the URIs to scan.
  unfoldable pub scan_uris :
      List ArchiveRequest → Dict (Unit {0}) → Outcome (List ArchiveRequest × Dict (Unit {0}))
  unfolding normalize_namespace add_request_suffix
  scan_uris [] scanned = ok ([], scanned)
  scan_uris (rem ∷ rems) scanned = do
    uri ← normalize_namespace rem.attach_uri
    rest ← scan_uris rems (Dict.put uri tt scanned)
    ok (record rem { attach_uri = add_request_suffix uri } ∷ rest.0, rest.1)

  -- An error of attaching ends the program; a URI that keeps nothing ends the loop.
  unfoldable pub reattach : S → Str → List ArchiveRequest → (S → Outcome S) → Outcome S
  unfolding remove_all_archive_requests attach_archive_requests
  reattach s uri [] rest = remove_all_archive_requests s uri
  reattach s uri (req ∷ keep) rest = elim (attach_archive_requests s (req ∷ keep)) [
    | ok s' ↦ rest s'
    | err e ↦ panic
    | panic ↦ panic
  ]

  unfoldable pub remove_loop : List ArchiveRequest → Dict (Unit {0}) → S → Outcome S
  unfolding get_archive_requests keep_requests reattach
  remove_loop removed [] s = ok s
  remove_loop removed ((uri, seen) ∷ scanned) s = do
    requests ← get_archive_requests s uri
    reattach s uri (keep_requests removed requests) (remove_loop removed scanned)

  unfoldable pub remove_archive_request_list : S → List ArchiveRequest → Outcome S
  unfolding scan_uris remove_loop
  remove_archive_request_list s removed = do
    scan ← scan_uris removed []
    remove_loop scan.0 scan.1 s
