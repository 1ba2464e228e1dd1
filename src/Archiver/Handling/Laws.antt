-- ===== src/Archiver/Handling/Laws.antt =====
-- What the viewManager of archiver/view.go does with archive requests.
use durandal.Archiver.Handling.{
  is_complete, Client, NewStream, Manager, done, refused, stream_of, handle_archive_request,
  Payload, permitted, handle_all,
}
use durandal.Prelude.{
  not, Bool, ◌⊎◌, Any, ◌&&◌, Bool-cases, inl, inr, ◌≡◌, refl, true, false, Option, none, some, List,
  [], ◌∷◌, ◌++◌, arith, if◌then◌else◌, All,
}
use durandal.Prelude.Str.{Str, str_eq, is_empty}
use durandal.Prelude.Dict
use durandal.Archiver.Requests.{ArchiveRequest}

module _ (client : Client) where
  -- The tests of the loop, on a request that could be decoded.
  abbrev pub IsPermitted : Str → ArchiveRequest → Type 0
  IsPermitted from r =
      (client.may_archive r.uri from ≡ true)
      × (is_empty r.uri ≡ false)
      × (is_empty r.name ≡ false)
      × (is_empty r.po ≡ false)
      × (is_empty r.value_expr ≡ false)

  abbrev pub passes : Str → ArchiveRequest → Bool
  passes from r =
      client.may_archive r.uri from
      && (not (is_empty r.uri)
          && (not (is_empty r.name) && (not (is_empty r.po) && not (is_empty r.value_expr))))

  passes-IsPermitted : (from : Str) (r : ArchiveRequest) → passes from r ≡ true → IsPermitted from r
  passes-IsPermitted from r e = ground arith

  permitted_sound :
      (from : Str) (pos : List Payload)
      → All (λ r. (r.from_vk ≡ from) × IsPermitted from r) (permitted client from pos)
  unfolding permitted
  permitted_sound from [] = tt
  permitted_sound from (none ∷ pos) = permitted_sound from pos
  permitted_sound from (some r ∷ pos) = ground (arith, permitted_sound from pos)

  permitted-head :
      (from : Str) (pos : List Payload) (r : ArchiveRequest)
      → IsPermitted from r
      → permitted client from (some r ∷ pos)
        ≡ record r { from_vk = from } ∷ permitted client from pos
  unfolding permitted
  permitted-head from pos r (may, u, n, p, v) = rw (may, u, n, p, v) refl

  permitted-behind :
      (from : Str) (pos : List Payload) (p : Payload) (P : ArchiveRequest → Type 0)
      → Any P (permitted client from pos)
      → Any P (permitted client from (p ∷ pos))
  unfolding permitted
  permitted-behind from pos none P a = a
  permitted-behind from pos (some r) P a =
      elim (Bool-cases (is_complete client r && client.may_archive r.uri from)) [
        | inl e ↦ rw e (inr a)
        | inr e ↦ rw e a
      ]

  permitted_complete :
      (from : Str) (pos : List Payload) (r : ArchiveRequest)
      → Any (λ p. p ≡ some r) pos
      → IsPermitted from r
      → Any (λ q. q ≡ record r { from_vk = from }) (permitted client from pos)
  permitted_complete from [] r a passes = elim a [ ]
  permitted_complete from (p ∷ pos) r (inl e) passes =
      rw (e, permitted-head from pos r passes) (inl refl)
  permitted_complete from (p ∷ pos) r (inr a) passes =
      permitted-behind from pos p _ (permitted_complete from pos r a passes)

  -- The payload is no archive request, fails a test, or is passed on with the sender's key.
  abbrev pub IsHandled : Str → List ArchiveRequest → Payload → Type 0
  IsHandled from passed none = Unit
  IsHandled from passed (some r) =
      (passes from r ≡ false) ⊎ Any (λ q. q ≡ record r { from_vk = from }) passed

  IsHandled-All :
      (from : Str) (pos : List Payload) (passed : List ArchiveRequest)
      → ((r : ArchiveRequest)
          → Any (λ p. p ≡ some r) pos
          → IsPermitted from r
          → Any (λ q. q ≡ record r { from_vk = from }) passed)
      → All (IsHandled from passed) pos
  IsHandled-All from [] passed h = tt
  IsHandled-All from (none ∷ pos) passed h =
      (tt, IsHandled-All from pos passed (λ r a. h r (inr a)))
  IsHandled-All from (some r ∷ pos) passed h = (
    elim (Bool-cases (passes from r)) [
      | inl e ↦ inr (h r (inl refl) (passes-IsPermitted from r e))
      | inr e ↦ inl e
    ],
    IsHandled-All from pos passed (λ r a. h r (inr a)),
  )

  -- Every request that is passed on carries the sender's key, has a URI, a name, a PO and a value
  -- expression, and the sender may archive its URI; and every request of the message that passes these
  -- tests is passed on, with the sender's key. So a request that leaves out its URI or its PO is
  -- dropped, though the comments of archiver/request.go allow to leave them out.
  pub permitted-All :
      (from : Str) (pos : List Payload)
      → All (λ r. (r.from_vk ≡ from) × IsPermitted from r) (permitted client from pos)
        × All (IsHandled from (permitted client from pos)) pos
  permitted-All from pos = (
    permitted_sound from pos,
    IsHandled-All from pos (permitted client from pos) (permitted_complete from pos),
  )

  abbrev pub buffers_of : Option (List NewStream) → List NewStream
  buffers_of none = []
  buffers_of (some buffers) = buffers

  handle-subscriptions :
      (r : ArchiveRequest) (vm : Manager)
      → is_empty r.from_vk ≡ false
      → client.compiles r.uri_match ≡ true
      → vm.locked ≡ false
      → client.subscribes r.uri ≡ true
      → ((handle_archive_request client r vm).1 ≡ done)
        × ((handle_archive_request client r vm).0.locked ≡ false)
        × ((handle_archive_request client r vm).0.subscriptions
            ≡ Dict.put r.uri
                (buffers_of (Dict.get r.uri vm.subscriptions) ++ stream_of r ∷ [])
                vm.subscriptions)
  unfolding handle_archive_request
  handle-subscriptions r vm a b c e = ground arith

  -- A request with a key and an expression that compiles, while the lock is free and the client
  -- can subscribe: it is handled, the lock is free again, the stream of the request stands behind
  -- those that were on the mux of its URI, a new mux if there was none, and other URIs keep theirs.
  pub handle-attaches :
      (r : ArchiveRequest) (vm : Manager)
      → is_empty r.from_vk ≡ false
      → client.compiles r.uri_match ≡ true
      → vm.locked ≡ false
      → client.subscribes r.uri ≡ true
      → ((handle_archive_request client r vm).1 ≡ done)
        × ((handle_archive_request client r vm).0.locked ≡ false)
        × ((j : Str)
            → Dict.get j (handle_archive_request client r vm).0.subscriptions ≡ (
                if str_eq r.uri j
                then some (buffers_of (Dict.get r.uri vm.subscriptions) ++ stream_of r ∷ [])
                else Dict.get j vm.subscriptions))
  handle-attaches r vm a b c e =
      let attached = handle-subscriptions r vm a b c e in
      (attached.0, attached.1, λ j. rw attached.2 (Dict.get-put r.uri j _ vm.subscriptions))

  -- A manager whose lock is held changes no more.
  handle-locked :
      (r : ArchiveRequest) (vm : Manager)
      → vm.locked ≡ true
      → (handle_archive_request client r vm).0 ≡ vm
  unfolding handle_archive_request
  handle-locked r vm held = ground arith

  handle_all-locked :
      (rs : List ArchiveRequest) (vm : Manager)
      → vm.locked ≡ true
      → (handle_all client rs vm).0 ≡ vm
  unfolding handle_all
  handle_all-locked [] vm held = refl
  handle_all-locked (r ∷ rs) vm held =
      ground
        (arith, handle-locked r vm, handle_all-locked rs (handle_archive_request client r vm).0)

  handle-failed :
      (r : ArchiveRequest) (vm : Manager)
      → is_empty r.from_vk ≡ false
      → client.compiles r.uri_match ≡ true
      → vm.locked ≡ false
      → Dict.get r.uri vm.subscriptions ≡ none
      → client.subscribes r.uri ≡ false
      → ((handle_archive_request client r vm).1 ≡ refused)
        × ((handle_archive_request client r vm).0.locked ≡ true)
  unfolding handle_archive_request stream_of
  handle-failed r vm a b c d e = ground arith

  -- A request with a key and an expression that compiles, for a URI without a mux: if the
  -- subscription fails, the request is refused with the lock held, and from then on no request
  -- attaches a stream, whatever requests come: the manager stays as it is.
  pub failed_subscription_stops :
      (r : ArchiveRequest) (vm : Manager)
      → is_empty r.from_vk ≡ false
      → client.compiles r.uri_match ≡ true
      → vm.locked ≡ false
      → Dict.get r.uri vm.subscriptions ≡ none
      → client.subscribes r.uri ≡ false
      → ((handle_archive_request client r vm).1 ≡ refused)
        × ((rs : List ArchiveRequest)
            → (handle_all client rs (handle_archive_request client r vm).0).0
              ≡ (handle_archive_request client r vm).0)
  failed_subscription_stops r vm a b c d e =
      let fails = handle-failed r vm a b c d e in
      (fails.0, λ rs. handle_all-locked rs (handle_archive_request client r vm).0 fails.1)
