-- ===== src/Archiver/Views/Laws.antt =====
-- The lists of a host's requests under the bookkeeping of archiver/view.go.
use durandal.Prelude.{
  ℕ, ◌≡◌, refl, ◌∙◌, ◌≢◌, inl, inr, true, not, Option, none, some, [], ◌∷◌, arith, Bool-cases,
  ==-refl,
}
use durandal.Prelude.Str.{Str}
use durandal.Prelude.Dict
use durandal.Prelude.Dict.{Dict, dict_laws}
use durandal.Prelude.Outcome.{ok, >>=-eq-ok, ok-injective}
use mathlib.Core.Path.{subst}
use durandal.Archiver.Requests.{
  ArchiveRequest, ArchiveRequestList, contains, add_request, Lists, RequestMap, write_list,
  get_list, add_all, set_list, remove_entry,
}
use durandal.Archiver.Requests.Laws.{contains-add_all}
use durandal.Archiver.Views.{ViewState, prune_loop, prune_current, update_archive_requests}

-- No URI of the map has the list at the address.
abbrev pub Elsewhere : ℕ → RequestMap → Type 0
Elsewhere p m = (uri : Str) (q : ℕ) → Dict.get uri m ≡ some q → q ≢ p

write_elsewhere : (h : Lists) (p q : ℕ) (l : ArchiveRequestList) → q ≢ p → write_list h q l p ≡ h p
write_elsewhere h p q l ne = ground arith

remove-Elsewhere :
    (h : Lists) (m : RequestMap) (uri : Str) (req : Option ArchiveRequest) (p : ℕ)
    → Elsewhere p m
    → remove_entry h m uri req p ≡ h p
unfolding remove_entry
remove-Elsewhere h m uri req p e = by_list (Dict.get uri m) refl
  where
    by_list : (o : Option ℕ) → Dict.get uri m ≡ o → remove_entry h m uri req p ≡ h p
    by_list none k = rw (remove_entry, k) refl
    by_list (some q) k = rw (remove_entry, k) (write_elsewhere h p q _ (e uri q k))

prune_loop-Elsewhere :
    (h h' : Lists) (uris : RequestMap) (k p : ℕ) (rs : ArchiveRequestList)
    → Elsewhere p uris
    → k ≢ p
    → prune_loop h uris k rs ≡ ok h'
    → h' p ≡ h p
unfolding prune_loop
prune_loop-Elsewhere h h' uris k p [] e ne r =
    subst (λ (g : Lists). g p ≡ h p) (ok-injective h h' r) refl
prune_loop-Elsewhere h h' uris k p (none ∷ rs) e ne r =
    elim (Bool-cases (not (contains (h k) none))) [
      | inl c ↦ cc (rw c at r)
      | inr c ↦ prune_loop-Elsewhere _ h' uris k p rs e ne (rw c at r) ∙ write_elsewhere h p k _ ne
    ]
prune_loop-Elsewhere h h' uris k p (some req ∷ rs) e ne r =
    elim (Bool-cases (not (contains (h k) (some req)))) [
      | inl c ↦
          prune_loop-Elsewhere (remove_entry h uris req.uri (some req)) h' uris k p rs e ne
            (rw c at r)
          ∙ remove-Elsewhere h uris req.uri (some req) p e
      | inr c ↦
          prune_loop-Elsewhere (write_list h k (add_request (h k) (some req))) h' uris k p rs e ne
            (rw c at r)
          ∙ write_elsewhere h p k _ ne
    ]

set_list_at :
    (h : Lists) (m : RequestMap) (uri : Str) (p q : ℕ)
    → Dict.get uri m ≡ some q
    → (set_list h m uri p).0 q ≡ add_all (h q) (h p)
unfolding set_list
set_list_at h m uri p q e = rw (set_list, e, ==-refl) refl

-- UpdateArchiveRequests removes nothing from the list of a host that has one: what the list contained
-- it contains afterwards, whether or not it is among the recent requests. The list of the host is not
-- at the free address and not one of the lists by archived URI.
pub update_archive_requests-keeps :
    (vm vm' : ViewState) (host_uri : Str) (recent : ArchiveRequestList) (p : ℕ)
    (old : Option ArchiveRequest)
    → get_list vm.request_hosts host_uri ≡ some p
    → vm.next ≢ p
    → Elsewhere p vm.request_uris
    → update_archive_requests vm host_uri recent ≡ ok vm'
    → contains (vm.lists p) old ≡ true
    → contains (vm'.lists p) old ≡ true
unfolding update_archive_requests prune_current get_list
update_archive_requests-keeps vm vm' host_uri recent p old at ne e r c =
    let kept = write_list vm.lists vm.next (add_all [] recent) in
    let (pruned, er, done) =
      >>=-eq-ok (prune_loop kept vm.request_uris vm.next (kept p)) _ (rw at at r) in
    let same = prune_loop-Elsewhere kept pruned vm.request_uris vm.next p (kept p) e ne er in
    subst (λ (vm2 : ViewState). contains (vm2.lists p) old ≡ true) (ok-injective _ vm' done)
      (rw (set_list_at pruned vm.request_hosts host_uri vm.next p at) (
        contains-add_all (pruned vm.next) (pruned p) old
          (rw (same, write_elsewhere vm.lists p vm.next (add_all [] recent) ne) c)))
