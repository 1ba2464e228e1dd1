-- ===== src/Requests/Api/Merge.antt =====
-- MergeArchiveRequests of requests/api.go: attaching requests to those that are attached already.
use durandal.Prelude.{
  ◌≡◌, refl, sym, ap, ◌∙◌, Bool, true, false, ◌||◌, inl, inr, List, [], ◌∷◌, ◌++◌, append_assoc,
  append-nil, Option, some, arith, if◌then◌else◌, Bool-cases,
}
use durandal.Prelude.Str.{Str, str_eq_refl}
use durandal.Prelude.Outcome.{Outcome, ok, err, panic, ◌>>=◌, >>=-eq-ok, ok-injective}
use durandal.Archiver.Requests.{ArchiveRequest}
use durandal.Requests.Api.{
  Bus, Retained, loose_same_as, add_request_suffix, normalize_namespace, requests_of,
  requests_of_all, get_archive_requests, complete_all,
}

-- The loop over the existing requests
unfoldable pub attached : ArchiveRequest → List ArchiveRequest → Bool
attached request [] = false
attached request (existing ∷ others) = loose_same_as request existing || attached request others

-- An error of fetching ends the program.
abbrev pub fetched : Outcome (List ArchiveRequest) → Outcome (List ArchiveRequest)
fetched (ok requests) = ok requests
fetched (err e) = panic
fetched panic = panic

module _ {S : Type 0} (client : Bus S) where
  -- One round: a request that is attached already is not published.
  unfoldable pub merge_request : S → ArchiveRequest → Outcome S
  unfolding attached
  merge_request s request = do
    existing ← fetched (get_archive_requests client s request.attach_uri)
    if attached request existing
        then ok s
        else client.publish s request.attach_uri (existing ++ request ∷ [])

  unfoldable pub merge_requests : S → List ArchiveRequest → Outcome S
  unfolding merge_request
  merge_requests s [] = ok s
  merge_requests s (request ∷ requests) = do
    s' ← merge_request s request
    merge_requests s' requests

  unfoldable pub merge_archive_requests : S → List ArchiveRequest → Outcome S
  unfolding merge_requests
  merge_archive_requests s requests = do
    complete ← complete_all client requests
    merge_requests s complete

-- The requests of a list as they are fetched from a URI.
abbrev pub fetched_from : Str → Str → ArchiveRequest → ArchiveRequest
fetched_from vk uri r = record r { from_vk = vk; attach_uri = uri }

abbrev all_fetched : Str → Str → List ArchiveRequest → List ArchiveRequest
all_fetched vk uri [] = []
all_fetched vk uri (r ∷ rs) = fetched_from vk uri r ∷ all_fetched vk uri rs

abbrev pub payloads : List ArchiveRequest → List (Option (Outcome ArchiveRequest))
payloads [] = []
payloads (r ∷ rs) = some (ok r) ∷ payloads rs

abbrev pub message : Str → Str → List ArchiveRequest → Retained
message vk uri requests = record { from = vk; uri = uri; pos = payloads requests }

attached-appended :
    (vk uri : Str) (request : ArchiveRequest) (existing : List ArchiveRequest)
    → request.attach_uri ≡ uri
    → attached request (all_fetched vk uri (existing ++ request ∷ [])) ≡ true
unfolding attached loose_same_as
attached-appended vk uri request [] e =
    rw (str_eq_refl request.name, str_eq_refl request.uri, ← e, str_eq_refl request.attach_uri) refl
attached-appended vk uri request (r ∷ existing) e =
    ground (arith, attached-appended vk uri request existing)

module _ {S : Type 0} (client : Bus S) (vk uri : Str) where
  -- What is published at the URI is the one message that a query for it returns.
  abbrev pub Retains : Type 0
  Retains =
      (s s' : S) (requests : List ArchiveRequest)
      → client.publish s uri requests ≡ ok s'
      → client.query s' (add_request_suffix uri) ≡ ok (message vk uri requests ∷ [])

  requests_of-payloads :
      (msg : Retained) (rs before : List ArchiveRequest)
      → normalize_namespace client msg.uri ≡ ok uri
      → requests_of client msg (payloads rs) before ≡ ok (before ++ all_fetched msg.from uri rs)
  unfolding requests_of
  requests_of-payloads msg [] before full = rw (append-nil before) refl
  requests_of-payloads msg (r ∷ rs) before full = rw full (
      requests_of-payloads msg rs (before ++ fetched_from msg.from uri r ∷ []) full
      ∙ ap ok
          (append_assoc before (fetched_from msg.from uri r ∷ []) (all_fetched msg.from uri rs)))

  get-retained :
      (s s' : S) (requests : List ArchiveRequest)
      → Retains
      → normalize_namespace client uri ≡ ok uri
      → client.publish s uri requests ≡ ok s'
      → get_archive_requests client s' uri ≡ ok (all_fetched vk uri requests)
  unfolding get_archive_requests requests_of_all
  get-retained s s' requests retains full published =
      rw
        (
          retains s s' requests published,
          requests_of-payloads (message vk uri requests) requests [] full,
        )
        refl

  again :
      (s : S) (request : ArchiveRequest) (existing : List ArchiveRequest)
      → get_archive_requests client s request.attach_uri ≡ ok existing
      → attached request existing ≡ true
      → merge_request client s request ≡ ok s
  unfolding merge_request
  again s request existing e h = rw (e, h) refl

  fetched-eq-ok :
      (o : Outcome (List ArchiveRequest)) (rs : List ArchiveRequest) → fetched o ≡ ok rs → o ≡ ok rs
  fetched-eq-ok (ok requests) rs e = e
  fetched-eq-ok (err x) rs e = cc
  fetched-eq-ok panic rs e = cc

  -- On a bus that retains what is published at a URI with a full namespace: merging a request that is
  -- to be attached there once more, after it was merged, has no effect, whether the first time
  -- published it or found it attached.
  pub merge_request_idempotent :
      (s s' : S) (request : ArchiveRequest)
      → Retains
      → normalize_namespace client uri ≡ ok uri
      → request.attach_uri ≡ uri
      → merge_request client s request ≡ ok s'
      → merge_request client s' request ≡ ok s'
  unfolding merge_request
  merge_request_idempotent s s' request retains full here e =
      let (existing, e1, e2) =
        >>=-eq-ok (fetched (get_archive_requests client s request.attach_uri)) _ e in
      elim (Bool-cases (attached request existing)) [
        | inl found ↦
            let same : s ≡ s' = ok-injective _ _ (rw found at e2) in
            again s' request existing
              (ap (λ x. get_archive_requests client x request.attach_uri) (sym same)
                ∙ fetched-eq-ok _ _ e1)
              found
        | inr missing ↦
            again s' request (all_fetched vk uri (existing ++ request ∷ []))
              (ap (get_archive_requests client s') here
                ∙ get-retained s s' (existing ++ request ∷ []) retains full (
                    ap (λ u. client.publish s u (existing ++ request ∷ [])) (sym here)
                    ∙ (rw missing at e2)))
              (attached-appended vk uri request existing here)
      ]
