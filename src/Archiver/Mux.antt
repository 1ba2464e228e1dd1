-- ===== src/Archiver/Mux.antt =====
-- The subscriptionMux of archiver/mux.go: receivers by handle, and the messages that each was sent. A
-- send that blocks is one that has not happened yet.
pub mod Laws
pub mod Deliveries
use durandal.Prelude.{
  ℕ, zero, suc, ◌+◌, ◌-◌, ◌*◌, ◌/◌, ◌%◌, ◌^◌, ◌≤◌, ◌<◌, ◌≡◌, refl, sym, ap, ◌∙◌, ◌≢◌, ◌↔◌, ◌⊎◌, inl,
  inr, Bool, true, false, not, ◌&&◌, ◌||◌, Option, none, some, List, [], ◌∷◌, ◌++◌, map,
  append_assoc, append-nil, arith, ltb, leb, ◌==◌, if◌then◌else◌, Bool-cases, Option-cases, ==→eq,
  ==-refl, lt→ltb, length, get_elem?, take, drop, length-append, length-take, All, Any, All-append,
  Any-append_left, Any-append_right, All-take, All-map, All2, All2-map,
}
use durandal.Prelude.Int.{
  ℤ, pos, negsuc, pos_part, neg_part, sub_ℕ, ◌+ℤ◌, ◌-ℤ◌, ◌*ℤ◌, quot, floor_div, ◌≤ℤ◌, ◌<ℤ◌, ltb_ℤ,
  eqb_ℤ, bits64, wrap64, IsInt64, wrap64-eq_self,
}
use durandal.Prelude.Str.{
  Str, codes, str_eq, str_eq_refl, str_eq_iff, ne-str_eq, is_empty, has_prefix, index, last_index,
  has_suffix, trim_suffix, split, join, Lacks, split-join,
}
use durandal.Prelude.Dict
use durandal.Prelude.Dict.{Dict, dict_laws}
use durandal.Prelude.Outcome.{
  Outcome, ok, err, panic, ◌>>=◌, >>=-eq-ok, ok-injective, ok_some-injective,
}

module _ (M : Type 0) where
  -- A receiver: the messages that were sent to it, in order, and whether it was closed.
  pub record Receiver : Type 0 where
    pub handle : ℕ
    pub sent : List M
    pub closed : Bool

  -- The mux, and whether its goroutine has returned.
  pub record Mux : Type 0 where
    pub receivers : List Receiver
    pub finished : Bool

module _ {M : Type 0} where
  unfoldable pub found : ℕ → List (Receiver M) → Bool
  found handle [] = false
  found handle (r ∷ rs) = handle == r.handle || found handle rs

  -- The loop of add over the numbers that rand.Intn gives: the first one that is no handle.
  unfoldable pub draw : List ℕ → List (Receiver M) → Option ℕ
  unfolding found
  draw [] rs = none
  draw (handle ∷ draws) rs = if found handle rs then draw draws rs else some handle

  -- add: the handle and the mux, or `none` as long as every number that was drawn is taken.
  unfoldable pub add : List ℕ → Mux M → Option (ℕ × Mux M)
  unfolding draw
  add draws mux = elim (draw draws mux.receivers) [
    | none ↦ none
    | some handle ↦ some (
      handle,
      record mux {
        receivers = record { handle = handle; sent = []; closed = false } ∷ mux.receivers;
      },
    )
  ]

  unfoldable pub delete : ℕ → List (Receiver M) → List (Receiver M)
  delete handle [] = []
  delete handle (r ∷ rs) =
      let rest = delete handle rs in if handle == r.handle then rest else r ∷ rest

  unfoldable pub remove : ℕ → Mux M → Mux M
  unfolding delete
  remove handle mux = record mux { receivers = delete handle mux.receivers }

  abbrev pub send : M → Receiver M → Receiver M
  send msg r = record r { sent = r.sent ++ msg ∷ [] }

  abbrev pub close : Receiver M → Receiver M
  close r = record r { closed = true }

  -- The case of a message in the goroutine.
  unfoldable pub broadcast : M → Mux M → Mux M
  broadcast msg mux =
      if mux.finished then mux else record mux { receivers = map (send msg) mux.receivers }

  -- The case of the end of the context.
  unfoldable pub finish : Mux M → Mux M
  finish mux =
      if mux.finished then mux else record { receivers = map close mux.receivers; finished = true }

  unfoldable pub new_mux : Mux M
  new_mux = record { receivers = []; finished = false }

  -- One step of any of the goroutines that use the mux.
  pub data Step : Mux M → Mux M → Type 0 where
    added :
        (draws : List ℕ) (mux mux' : Mux M) (handle : ℕ)
        → add draws mux ≡ some (handle, mux')
        → Step mux mux'
    removed : (handle : ℕ) (mux : Mux M) → Step mux (remove handle mux)
    delivered : (msg : M) (mux : Mux M) → Step mux (broadcast msg mux)
    cancelled : (mux : Mux M) → Step mux (finish mux)

  -- What the mux may become from the start.
  pub data Reachable : Mux M → Type 0 where
    fresh : Reachable new_mux
    next : (mux mux' : Mux M) → Reachable mux → Step mux mux' → Reachable mux'
