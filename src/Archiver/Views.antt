-- ===== src/Archiver/Views.antt =====
-- The bookkeeping of archive requests by the viewManager of archiver/view.go.
pub mod Laws
use durandal.Prelude.{
  ℕ, zero, suc, ◌+◌, ◌-◌, ◌*◌, ◌/◌, ◌%◌, ◌^◌, ◌≤◌, ◌<◌, ◌≡◌, refl, sym, ap, ◌∙◌, ◌≢◌, ◌↔◌, ◌⊎◌, inl,
  inr, Bool, true, false, not, ◌&&◌, ◌||◌, Option, none, some, List, [], ◌∷◌, ◌++◌, map,
  append_assoc, append-nil, arith, ltb, leb, ◌==◌, if◌then◌else◌, Bool-cases, Option-cases, ==→eq,
  ==-refl, lt→ltb, length, get_elem?, take, drop, length-append, length-take, All, Any, All-append,
  Any-append_left, Any-append_right, All-take, All-map, All2, All2-map,
}
use durandal.Prelude.Int.{
  ℤ, pos, negsuc, pos_part, neg_part, sub_ℕ, ◌+ℤ◌, ◌-ℤ◌, ◌*ℤ◌, quot, floor_div, ◌≤ℤ◌, ◌<ℤ◌, ltb_ℤ,
  eqb_ℤ, bits64, wrap64, IsInt64, wrap64-eq_self,
}
use durandal.Prelude.Str.{
  Str, codes, str_eq, str_eq_refl, str_eq_iff, ne-str_eq, is_empty, has_prefix, index, last_index,
  has_suffix, trim_suffix, split, join, Lacks, split-join,
}
use durandal.Prelude.Dict
use durandal.Prelude.Dict.{Dict, dict_laws}
use durandal.Prelude.Outcome.{
  Outcome, ok, err, panic, ◌>>=◌, >>=-eq-ok, ok-injective, ok_some-injective,
}
use durandal.Archiver.Requests.{
  ArchiveRequest, ArchiveRequestList, contains, add_request, Lists, RequestMap, write_list,
  get_list, set_request, add_all, set_list, del_list, remove_entry,
}

-- The lists of both maps, by host URI and by archived URI; every address from `next` on is free.
pub record ViewState : Type 0 where
  pub lists : Lists
  pub request_hosts : RequestMap
  pub request_uris : RequestMap
  pub next : ℕ

-- The loop over the current list; the list to keep is at the address `k`. A nil request that is not
-- kept panics when its URI is read.
unfoldable pub prune_loop : Lists → RequestMap → ℕ → ArchiveRequestList → Outcome Lists
prune_loop h uris k [] = ok h
prune_loop h uris k (none ∷ rs) =
    if not (contains (h k) none)
    then panic
    else prune_loop (write_list h k (add_request (h k) none)) uris k rs
prune_loop h uris k (some req ∷ rs) =
    if not (contains (h k) (some req))
    then prune_loop (remove_entry h uris req.uri (some req)) uris k rs
    else prune_loop (write_list h k (add_request (h k) (some req))) uris k rs

prune_current : Lists → RequestMap → ℕ → Option ℕ → Outcome Lists
unfolding prune_loop
prune_current h uris k none = ok h
prune_current h uris k (some p) = prune_loop h uris k (h p)

unfoldable pub update_archive_requests : ViewState → Str → ArchiveRequestList → Outcome ViewState
unfolding prune_current
update_archive_requests vm host_uri recent = do
  let kept = write_list vm.lists vm.next (add_all [] recent)
  pruned ← prune_current kept vm.request_uris vm.next (get_list vm.request_hosts host_uri)
  let stored = set_list pruned vm.request_hosts host_uri vm.next
  ok (record vm { lists = stored.0; request_hosts = stored.1; next = suc vm.next })

unfoldable pub add_archive_request : ViewState → Str → Str → Option ArchiveRequest → ViewState
add_archive_request vm host_uri archive_uri request =
    let hosts = set_request vm.lists vm.request_hosts vm.next host_uri request in
    let uris = set_request hosts.0 vm.request_uris (suc vm.next) archive_uri request in
    record {
      lists = uris.0;
      request_hosts = hosts.1;
      request_uris = uris.1;
      next = suc (suc vm.next);
    }

remove_loop : ViewState → Str → ArchiveRequestList → Outcome ViewState
remove_loop vm host_uri [] = ok vm
remove_loop vm host_uri (none ∷ rs) = panic
remove_loop vm host_uri (some req ∷ rs) =
    remove_loop
      (record vm {
        lists = remove_entry vm.lists vm.request_uris req.uri (some req);
        request_hosts = del_list vm.request_hosts host_uri;
      })
      host_uri rs

unfoldable pub remove_archive_requests : ViewState → Str → Outcome ViewState
unfolding remove_loop
remove_archive_requests vm host_uri = elim (get_list vm.request_hosts host_uri) [
  | none ↦ ok vm
  | some p ↦ remove_loop vm host_uri (vm.lists p)
]
