-- ===== src/Archiver/Mux/Laws.antt =====
-- The handles of archiver/mux.go, and what its receivers are sent.
use durandal.Prelude.{
  ℕ, ◌≡◌, refl, sym, ◌∙◌, inl, inr, false, Option, none, some, List, [], ◌∷◌, map, arith, ◌==◌,
  if◌then◌else◌, Bool-cases,
}
use mathlib.Core.Path.{subst}
use durandal.Archiver.Mux.{
  Receiver, Mux, found, draw, add, delete, remove, send, close, broadcast, finish, new_mux, Step,
  added, removed, delivered, cancelled, Reachable, fresh, next,
}

module _ {M : Type 0} where
  -- The receivers have different handles.
  abbrev pub Unique : List (Receiver M) → Type 0
  Unique [] = Unit
  Unique (r ∷ rs) = (found r.handle rs ≡ false) × Unique rs

  draw-fresh :
      (draws : List ℕ) (rs : List (Receiver M)) (handle : ℕ)
      → draw draws rs ≡ some handle
      → found handle rs ≡ false
  unfolding draw
  draw-fresh [] rs handle e = cc
  draw-fresh (d ∷ draws) rs handle e = elim (Bool-cases (found d rs)) [
    | inl k ↦ draw-fresh draws rs handle (rw k at e)
    | inr k ↦ subst (λ (n : ℕ). found n rs ≡ false) (same d (rw k at e)) k
  ]
    where
      same : (m : ℕ) → some m ≡ some handle → m ≡ handle
      same m e = cc

  found-map :
      (f : Receiver M → Receiver M)
      → ((r : Receiver M) → (f r).handle ≡ r.handle)
      → (n : ℕ) (rs : List (Receiver M)) → found n (map f rs) ≡ found n rs
  unfolding found
  found-map f keeps n [] = refl
  found-map f keeps n (r ∷ rs) = rw (keeps r, found-map f keeps n rs) refl

  Unique-map :
      (f : Receiver M → Receiver M)
      → ((r : Receiver M) → (f r).handle ≡ r.handle)
      → (rs : List (Receiver M)) → Unique rs
      → Unique (map f rs)
  Unique-map f keeps [] u = tt
  Unique-map f keeps (r ∷ rs) (a, u) =
      (rw (keeps r, found-map f keeps r.handle rs) a, Unique-map f keeps rs u)

  found-delete :
      (n h : ℕ) (rs : List (Receiver M)) → found n rs ≡ false → found n (delete h rs) ≡ false
  unfolding found delete
  found-delete n h [] a = refl
  found-delete n h (r ∷ rs) a = ground (arith, found-delete n h rs)

  Unique-delete : (h : ℕ) (rs : List (Receiver M)) → Unique rs → Unique (delete h rs)
  unfolding delete
  Unique-delete h [] u = tt
  Unique-delete h (r ∷ rs) (a, u) = elim (Bool-cases (h == r.handle)) [
    | inl k ↦ rw k (Unique-delete h rs u)
    | inr k ↦ rw k (found-delete r.handle h rs a, Unique-delete h rs u)
  ]

  added_at : List ℕ → Mux M → Option ℕ → Option (ℕ × Mux M)
  added_at draws mux none = none
  added_at draws mux (some h) = some (
    h,
    record mux { receivers = record { handle = h; sent = []; closed = false } ∷ mux.receivers },
  )

  -- The mux after an add has one more receiver, under a fresh handle.
  pub add-head :
      (draws : List ℕ) (mux mux' : Mux M) (handle : ℕ)
      → add draws mux ≡ some (handle, mux')
      → (found handle mux.receivers ≡ false)
        × (mux' ≡ record mux {
          receivers = record { handle = handle; sent = []; closed = false } ∷ mux.receivers;
        })
  unfolding add added_at
  add-head draws mux mux' handle e = by_draw (draw draws mux.receivers) refl e
    where
      by_draw :
          (o : Option ℕ)
          → draw draws mux.receivers ≡ o
          → added_at draws mux o ≡ some (handle, mux')
          → (found handle mux.receivers ≡ false)
            × (mux' ≡ record mux {
              receivers = record { handle = handle; sent = []; closed = false } ∷ mux.receivers;
            })
      by_draw none d k = cc
      by_draw (some h) d k = (
        subst (λ (n : ℕ). found n mux.receivers ≡ false) (first h _ k)
            (draw-fresh draws mux.receivers h d),
        sym (second h _ k) ∙ rw (first h _ k) refl,
      )
        where
          first :
              (n : ℕ) (x : Mux M)
              → ◌≡◌ {A = Option (ℕ × Mux M)} (some (n, x)) (some (handle, mux'))
              → n ≡ handle
          first n x c = cc

          second :
              (n : ℕ) (x : Mux M)
              → ◌≡◌ {A = Option (ℕ × Mux M)} (some (n, x)) (some (handle, mux'))
              → x ≡ mux'
          second n x c = cc

  add-Unique :
      (draws : List ℕ) (mux mux' : Mux M) (handle : ℕ)
      → add draws mux ≡ some (handle, mux')
      → Unique mux.receivers
      → Unique mux'.receivers
  add-Unique draws mux mux' handle e u =
      let (free, shape) = add-head draws mux mux' handle e in
      subst (λ (m : Mux M). Unique m.receivers) (sym shape) (free, u)

  Step-Unique : (mux mux' : Mux M) → Step mux mux' → Unique mux.receivers → Unique mux'.receivers
  unfolding add remove broadcast finish
  Step-Unique mux mux' (added draws _ _ handle e) u = add-Unique draws mux mux' handle e u
  Step-Unique mux _ (removed handle _) u = Unique-delete handle mux.receivers u
  Step-Unique mux _ (delivered msg _) u = elim (Bool-cases mux.finished) [
    | inl k ↦ rw k u
    | inr k ↦ rw k (Unique-map (send msg) (λ r. refl) mux.receivers u)
  ]
  Step-Unique mux _ (cancelled _) u = elim (Bool-cases mux.finished) [
    | inl k ↦ rw k u
    | inr k ↦ rw k (Unique-map close (λ r. refl) mux.receivers u)
  ]

  -- However adds, removals, deliveries and the end of the context interleave, no two receivers of a
  -- mux have one handle.
  pub Reachable-Unique : (mux : Mux M) → Reachable mux → Unique mux.receivers
  unfolding new_mux
  Reachable-Unique _ fresh = tt
  Reachable-Unique _ (next mux mux' r s) = Step-Unique mux mux' s (Reachable-Unique mux r)

  -- The receiver under a handle.
  unfoldable pub lookup : ℕ → List (Receiver M) → Option (Receiver M)
  lookup h [] = none
  lookup h (r ∷ rs) = if h == r.handle then some r else lookup h rs
