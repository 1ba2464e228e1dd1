-- ===== src/Requests/Api/Laws.antt =====
-- Removing archive requests and naming the URIs where they are attached: requests/api.go.
use durandal.Requests.Api.{
  attach_archive_requests, Bus, matched_by, keep_requests, request_suffix, add_request_suffix,
  get_archive_requests, remove_all_archive_requests, scan_uris, reattach, remove_loop,
  remove_archive_request_list,
}
use durandal.Prelude.{
  ap, ◌∙◌, Any, ◌-◌, ◌≡◌, refl, inl, inr, true, List, [], ◌∷◌, ◌++◌, arith, leb, Bool-cases, length,
  length-append, drop-append_length, All,
}
use durandal.Prelude.Str.{Str, codes, str_eq_refl, has_suffix, trim_suffix}
use durandal.Prelude.Dict.{Dict}
use durandal.Prelude.Outcome.{Outcome, ok, err, panic}
use durandal.Archiver.Requests.{ArchiveRequest}

has_suffix-append : (s suffix : Str) → has_suffix (s ++ suffix) suffix ≡ true
unfolding has_suffix
has_suffix-append s suffix =
    rw (no_longer, behind, drop-append_length s suffix, str_eq_refl suffix) refl
  where
    behind : length (s ++ suffix) - length suffix ≡ length s
    behind = omega (arith, length-append s suffix)

    no_longer : leb (length suffix) (length (s ++ suffix)) ≡ true
    no_longer = ground (arith, length-append s suffix)

-- A URI that has the suffix keeps it as it is: adding it twice is adding it once.
pub add_request_suffix_idempotent :
    (uri : Str) → add_request_suffix (add_request_suffix uri) ≡ add_request_suffix uri
unfolding add_request_suffix
add_request_suffix_idempotent uri = elim (Bool-cases (has_suffix uri request_suffix)) [
  | inl e ↦ rw (e, e) refl
  | inr e ↦ rw (e, has_suffix-append (trim_suffix uri (codes "/")) request_suffix) refl
]

keep_requests-none :
    (removed rs : List ArchiveRequest)
    → All (λ r. matched_by removed r ≡ true) rs
    → keep_requests removed rs ≡ []
unfolding keep_requests
keep_requests-none removed [] a = refl
keep_requests-none removed (r ∷ rs) (m, a) = rw m (keep_requests-none removed rs a)

module _ {S : Type 0} (client : Bus S) where
  -- The URIs that are scanned first, where requests are kept and attached again, from one state of the
  -- bus to another.
  pub data Passes (full : List ArchiveRequest) : Dict (Unit {0}) → S → S → Type 0 where
    nothing : (s : S) → Passes full [] s s
    keeps :
        (uri : Str) (scanned : Dict (Unit {0})) (s s' s1 : S) (reqs kept : List ArchiveRequest)
        (req : ArchiveRequest)
        → get_archive_requests client s uri ≡ ok reqs
        → keep_requests full reqs ≡ req ∷ kept
        → attach_archive_requests client s (req ∷ kept) ≡ ok s'
        → Passes full scanned s' s1
        → Passes full ((uri, tt) ∷ scanned) s s1

  -- What follows an attaching.
  abbrev after_attach : (S → Outcome S) → Outcome S → Outcome S
  after_attach rest (ok s') = rest s'
  after_attach rest (err e) = panic
  after_attach rest panic = panic

  reattach-eq :
      (s : S) (uri : Str) (req : ArchiveRequest) (kept : List ArchiveRequest) (rest : S → Outcome S)
      → reattach client s uri (req ∷ kept) rest
        ≡ after_attach rest (attach_archive_requests client s (req ∷ kept))
  unfolding reattach
  reattach-eq s uri req kept rest = go (attach_archive_requests client s (req ∷ kept))
    where
      go :
          (o : Outcome S)
          → ◌≡◌ {A = Outcome S}
              (elim o [ ok s' ↦ rest s' | err e ↦ panic | panic ↦ panic ])
              (after_attach rest o)
      go (ok s') = refl
      go (err e) = refl
      go panic = refl

  remove_loop-Passes :
      (full : List ArchiveRequest) (before rest : Dict (Unit {0})) (s s1 : S)
      → Passes full before s s1
      → remove_loop client full (before ++ rest) s ≡ remove_loop client full rest s1
  unfolding remove_loop
  remove_loop-Passes full _ rest s _ (nothing _) = refl
  remove_loop-Passes full _ rest s s1
        (keeps uri scanned _ s' _ reqs kept req fetched some_kept attached passes) =
      rw (fetched, some_kept)
        (reattach-eq s uri req kept (remove_loop client full (scanned ++ rest))
          ∙ ap (after_attach (remove_loop client full (scanned ++ rest))) attached
          ∙ remove_loop-Passes full scanned rest s' s1 passes)

  remove_loop-stops :
      (full reqs : List ArchiveRequest) (uri : Str) (rest : Dict (Unit {0})) (s1 : S)
      → get_archive_requests client s1 uri ≡ ok reqs
      → All (λ r. matched_by full r ≡ true) reqs
      → remove_loop client full ((uri, tt) ∷ rest) s1
        ≡ client.publish s1 (add_request_suffix uri) []
  unfolding remove_loop reattach remove_all_archive_requests
  remove_loop-stops full reqs uri rest s1 fetched all =
      rw (fetched, keep_requests-none full reqs all) refl

  remove_archive_request_list-scanned :
      (s : S) (removed full : List ArchiveRequest) (scanned : Dict (Unit {0}))
      → scan_uris client removed [] ≡ ok (full, scanned)
      → remove_archive_request_list client s removed ≡ remove_loop client full scanned s
  unfolding remove_archive_request_list
  remove_archive_request_list-scanned s removed full scanned e = rw e refl

  -- What is published for archive requests at one URI does not change what a query for those at the
  -- other returns.
  abbrev pub Separate : Str → Str → Type 0
  Separate uri other =
      (s s' : S) (reqs : List ArchiveRequest)
      → client.publish s (add_request_suffix uri) reqs ≡ ok s'
      → client.query s' (add_request_suffix other) ≡ client.query s (add_request_suffix other)

  fetched-stays :
      (s s' : S) (uri other : Str)
      → Separate uri other
      → client.publish s (add_request_suffix uri) [] ≡ ok s'
      → get_archive_requests client s' other ≡ get_archive_requests client s other
  unfolding get_archive_requests
  fetched-stays s s' uri other separate published = rw (separate s s' [] published) refl

  -- Removing requests stops at the first scanned URI where nothing is kept, whichever URIs with kept
  -- requests come before it: the empty list is published there, and the call returns with no error. A
  -- request that was to be removed at a URI that is scanned behind it, on a bus where publishing at
  -- the one does not change what is retained at the other, is still attached afterwards.
  pub remove_archive_request_list_stops :
      (s s1 s' : S) (removed full reqs : List ArchiveRequest) (uri : Str)
      (before behind : Dict (Unit {0})) (other : Str) (others : List ArchiveRequest)
      → scan_uris client removed [] ≡ ok (full, before ++ (uri, tt) ∷ (other, tt) ∷ behind)
      → Passes full before s s1
      → get_archive_requests client s1 uri ≡ ok reqs
      → All (λ r. matched_by full r ≡ true) reqs
      → client.publish s1 (add_request_suffix uri) [] ≡ ok s'
      → Separate uri other
      → get_archive_requests client s1 other ≡ ok others
      → Any (λ r. matched_by full r ≡ true) others
      → (remove_archive_request_list client s removed ≡ ok s')
        × ((left : List ArchiveRequest) × (get_archive_requests client s' other ≡ ok left)
            × Any (λ r. matched_by full r ≡ true) left)
  remove_archive_request_list_stops s s1 s' removed full reqs uri before behind other others scan
        passes fetched all published separate attached to_remove =
      (
        remove_archive_request_list-scanned s removed full _ scan
            ∙ remove_loop-Passes full before ((uri, tt) ∷ (other, tt) ∷ behind) s s1 passes
            ∙ remove_loop-stops full reqs uri ((other, tt) ∷ behind) s1 fetched all
            ∙ published,
        (others, fetched-stays s1 s' uri other separate published ∙ attached, to_remove),
      )
