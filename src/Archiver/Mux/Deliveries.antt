-- ===== src/Archiver/Mux/Deliveries.antt =====
-- What the receivers of archiver/mux.go are sent, by sequences of what happens to a mux.
use durandal.Prelude.{
  ℕ, ◌≡◌, refl, sym, ap, ◌∙◌, inl, inr, Bool, true, false, ◌||◌, Option, none, some, List, [], ◌∷◌,
  ◌++◌, map, append_assoc, append-nil, arith, ◌==◌, if◌then◌else◌, Bool-cases, Option-cases,
  ==-refl, ==→eq, All,
}
use durandal.Archiver.Mux.{
  Receiver, Mux, found, add, delete, remove, send, close, broadcast, finish,
}
use durandal.Archiver.Mux.Laws.{lookup, add-head}

-- What may happen to a mux: a message arrives, a receiver is added with the numbers that are drawn, one
-- is removed, the context ends.
pub data Event (M : Type 0) : Type 0 where
  arrives : M → Event M
  adds : List ℕ → Event M
  removes : ℕ → Event M
  ends : Event M

by_finished {ℓ} :
    {A : Type ℓ} (b c : Bool) (x y : A) → b ≡ c → (if b then x else y) ≡ (if c then x else y)
by_finished b c x y e = ap (λ k. if k then x else y) e

module _ {M : Type 0} where
  -- An add that finds no free number has not returned.
  abbrev pub mux_of : Option (ℕ × Mux M) → Mux M → Mux M
  mux_of none mux = mux
  mux_of (some (h, mux')) mux = mux'

  abbrev pub happens : Event M → Mux M → Mux M
  happens (arrives msg) mux = broadcast msg mux
  happens (adds draws) mux = mux_of (add draws mux) mux
  happens (removes h) mux = remove h mux
  happens ends mux = finish mux

  unfoldable pub happen : List (Event M) → Mux M → Mux M
  happen [] mux = mux
  happen (e ∷ es) mux = happen es (happens e mux)

  -- The messages that arrive before the context ends, and whether it ends.
  unfoldable pub before_end : List (Event M) → List M
  before_end [] = []
  before_end (arrives msg ∷ es) = msg ∷ before_end es
  before_end (adds draws ∷ es) = before_end es
  before_end (removes h ∷ es) = before_end es
  before_end (ends ∷ es) = []

  unfoldable pub context_ends : List (Event M) → Bool
  context_ends [] = false
  context_ends (ends ∷ es) = true
  context_ends (arrives msg ∷ es) = context_ends es
  context_ends (adds draws ∷ es) = context_ends es
  context_ends (removes h ∷ es) = context_ends es

  -- The event does not remove the receiver.
  abbrev pub Spares : ℕ → Event M → Type 0
  Spares h (removes k) = (h == k) ≡ false
  Spares h (arrives msg) = Unit
  Spares h (adds draws) = Unit
  Spares h ends = Unit

  abbrev option_map : (Receiver M → Receiver M) → Option (Receiver M) → Option (Receiver M)
  option_map f none = none
  option_map f (some r) = some (f r)

  lookup-map :
      (f : Receiver M → Receiver M)
      → ((r : Receiver M) → (f r).handle ≡ r.handle)
      → (h : ℕ) (rs : List (Receiver M)) → lookup h (map f rs) ≡ option_map f (lookup h rs)
  unfolding lookup
  lookup-map f keeps h [] = refl
  lookup-map f keeps h (r ∷ rs) = elim (Bool-cases (h == r.handle)) [
    | inl e ↦ simp (keeps r, e) refl
    | inr e ↦ simp (keeps r, e) (lookup-map f keeps h rs)
  ]

  lookup-delete :
      (h k : ℕ) (rs : List (Receiver M)) → (h == k) ≡ false → lookup h (delete k rs) ≡ lookup h rs
  unfolding lookup delete
  lookup-delete h k [] other = refl
  lookup-delete h k (r ∷ rs) other = ground (arith, lookup-delete h k rs other)

  lookup-found :
      (h : ℕ) (rs : List (Receiver M)) (r : Receiver M) → lookup h rs ≡ some r → found h rs ≡ true
  unfolding lookup found
  lookup-found h [] r e = cc
  lookup-found h (x ∷ rs) r e = ground (arith, lookup-found h rs r)

  lookup-other :
      (h k : ℕ) (rs : List (Receiver M)) (r : Receiver M)
      → found k rs ≡ false
      → lookup h rs ≡ some r
      → lookup h (record { handle = k; sent = []; closed = false } ∷ rs) ≡ some r
  unfolding lookup
  lookup-other h k rs r free e = elim (Bool-cases (h == k)) [
    | inl same ↦ absurd (
        ground
          (arith, free, lookup-found k rs r (ap (λ i. lookup i rs) (sym (==→eq h k same)) ∙ e)))
    | inr other ↦ rw other e
  ]

  -- The receiver under a handle is not changed by the add of another.
  lookup-add :
      (draws : List ℕ) (h : ℕ) (mux : Mux M) (r : Receiver M)
      → lookup h mux.receivers ≡ some r
      → (lookup h (mux_of (add draws mux) mux).receivers ≡ some r)
        × ((mux_of (add draws mux) mux).finished ≡ mux.finished)
  lookup-add draws h mux r e = elim (Option-cases (add draws mux)) [
    | inl blocked ↦ rw blocked (e, refl)
    | inr ((k, mux'), added) ↦
        let (free, shape) = add-head draws mux mux' k added in
        rw (added, shape) (lookup-other h k mux.receivers r free e, refl)
  ]

  broadcast-eq :
      (msg : M) (mux : Mux M)
      → broadcast msg mux
        ≡ (if mux.finished then mux else record mux { receivers = map (send msg) mux.receivers })
  unfolding broadcast
  broadcast-eq msg mux = refl

  finish-eq :
      (mux : Mux M)
      → finish mux ≡ (
          if mux.finished
          then mux
          else record { receivers = map close mux.receivers; finished = true })
  unfolding finish
  finish-eq mux = refl

  receiver_in : ℕ → List (Event M) → Mux M → Option (Receiver M)
  unfolding happen
  receiver_in h es mux = lookup h (happen es mux).receivers

  -- Once the context has ended, a receiver stays as it is.
  after_end :
      (es : List (Event M)) (h : ℕ) (mux : Mux M) (r : Receiver M)
      → mux.finished ≡ true
      → lookup h mux.receivers ≡ some r
      → All (Spares h) es
      → lookup h (happen es mux).receivers ≡ some r
  unfolding happen receiver_in remove
  after_end [] h mux r done e spared = e
  after_end (arrives msg ∷ es) h mux r done e (_, spared) =
      ap (receiver_in h es) (broadcast-eq msg mux ∙ by_finished mux.finished true _ _ done)
      ∙ after_end es h mux r done e spared
  after_end (adds draws ∷ es) h mux r done e (_, spared) =
      let (here, same) = lookup-add draws h mux r e in
      after_end es h (mux_of (add draws mux) mux) r (same ∙ done) here spared
  after_end (removes k ∷ es) h mux r done e (other, spared) =
      after_end es h (remove k mux) r done (lookup-delete h k mux.receivers other ∙ e) spared
  after_end (ends ∷ es) h mux r done e (_, spared) =
      ap (receiver_in h es) (finish-eq mux ∙ by_finished mux.finished true _ _ done)
      ∙ after_end es h mux r done e spared

  -- What becomes of a receiver.
  abbrev pub later : List (Event M) → Receiver M → Receiver M
  later es r = record r { sent = r.sent ++ before_end es; closed = context_ends es || r.closed }

  receiver_later :
      (es : List (Event M)) (h : ℕ) (mux : Mux M) (r : Receiver M)
      → mux.finished ≡ false
      → lookup h mux.receivers ≡ some r
      → All (Spares h) es
      → lookup h (happen es mux).receivers ≡ some (later es r)
  unfolding happen receiver_in before_end context_ends remove
  receiver_later [] h mux r open_mux e spared = e ∙ rw (append-nil r.sent) refl
  receiver_later (arrives msg ∷ es) h mux r open_mux e (_, spared) =
      ap (receiver_in h es) (broadcast-eq msg mux ∙ by_finished mux.finished false _ _ open_mux)
      ∙ receiver_later es h (record mux { receivers = map (send msg) mux.receivers }) (send msg r)
          open_mux
          (lookup-map (send msg) (λ r. refl) h mux.receivers ∙ ap (option_map (send msg)) e) spared
      ∙ rw (append_assoc r.sent (msg ∷ []) (before_end es)) refl
  receiver_later (adds draws ∷ es) h mux r open_mux e (_, spared) =
      let (here, same) = lookup-add draws h mux r e in
      receiver_later es h (mux_of (add draws mux) mux) r (same ∙ open_mux) here spared
  receiver_later (removes k ∷ es) h mux r open_mux e (other, spared) =
      receiver_later es h (remove k mux) r open_mux (lookup-delete h k mux.receivers other ∙ e)
        spared
  receiver_later (ends ∷ es) h mux r open_mux e (_, spared) =
      ap (receiver_in h es) (finish-eq mux ∙ by_finished mux.finished false _ _ open_mux)
      ∙ after_end es h (record { receivers = map close mux.receivers; finished = true }) (close r)
          refl (lookup-map close (λ r. refl) h mux.receivers ∙ ap (option_map close) e) spared
      ∙ rw (append-nil r.sent) refl

  added-lookup :
      (h : ℕ) (rs : List (Receiver M)) (r : Receiver M) → r.handle ≡ h → lookup h (r ∷ rs) ≡ some r
  unfolding lookup
  added-lookup h rs r e = rw (e, ==-refl h) refl

  -- A receiver that is added to a mux whose context has not ended: whatever messages arrive from then
  -- on, whichever other receivers are added and removed in between, and whether or not the context
  -- ends, as long as the receiver itself is not removed, it is sent exactly the messages that arrive
  -- before the end of the context, in their order, and is closed if the context ends.
  pub add-happen :
      (draws : List ℕ) (mux mux' : Mux M) (handle : ℕ) (es : List (Event M))
      → mux.finished ≡ false
      → add draws mux ≡ some (handle, mux')
      → All (Spares handle) es
      → lookup handle (happen es mux').receivers
        ≡ some (record { handle = handle; sent = before_end es; closed = context_ends es })
  add-happen draws mux mux' handle es open_mux e spared =
      let (free, shape) = add-head draws mux mux' handle e in
      let new : Receiver M = record { handle = handle; sent = []; closed = false } in
      receiver_later es handle mux' new (ap (λ (m : Mux M). m.finished) shape ∙ open_mux)
        (ap (λ (m : Mux M). lookup handle m.receivers) shape
          ∙ added-lookup handle mux.receivers new refl)
        spared
      ∙ ground arith
