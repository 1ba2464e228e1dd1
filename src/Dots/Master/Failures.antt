-- ===== src/Dots/Master/Failures.antt =====
-- Rights that are computed from what did not resolve, or with no chain: dots/master.go.
use durandal.Prelude.{◌≡◌, refl, inl, inr, Bool, not, Option, none, some, [], ◌∷◌, arith, Any}
use durandal.Prelude.Str.{Str, codes}
use durandal.Prelude.Outcome.{Outcome, panic, ◌>>=◌}
use durandal.Common.UnitOfTime.{Time}
use durandal.Dots.TimeRange.{TimeRange}
use durandal.Dots.Chains.{
  Dot, DChain, deref, known, narrow, intersect_dchain_access_times, access_loop,
}
use durandal.Dots.Master.{Client, can_read}

deref-panic {ℓ} :
    {A : Type ℓ} (o : Option Time) (f : Time → Outcome A)
    → ((t : Time) → f t ≡ panic)
    → (deref o >>= f) ≡ panic
deref-panic none f h = refl
deref-panic (some t) f h = h t

known-panic {ℓ} :
    {A : Type ℓ} (o : Option Dot) (f : Dot → Outcome A)
    → ((d : Dot) → f d ≡ panic)
    → (known o >>= f) ≡ panic
known-panic none f h = refl
known-panic (some d) f h = h d

access_loop-panic :
    (r : TimeRange) (chain : DChain) → Any (λ e. e.dot ≡ none) chain → access_loop r chain ≡ panic
unfolding access_loop
access_loop-panic r [] h = elim h [ ]
access_loop-panic r (e ∷ chain) (inl h) = rw h refl
access_loop-panic r (e ∷ chain) (inr h) = known-panic e.dot _ λ d.
    deref-panic d.created _
      λ s. deref-panic d.expiry _ λ x. access_loop-panic (narrow r s x) chain h

-- A chain with a DOT that stayed unknown, because its hash did not resolve or resolved to an invalid
-- DOT, has no range: computing it panics, wherever in the chain the DOT stands.
pub access_times_unresolved :
    (chain : DChain) → Any (λ e. e.dot ≡ none) chain → intersect_dchain_access_times chain ≡ panic
unfolding intersect_dchain_access_times
access_times_unresolved [] h = elim h [ ]
access_times_unresolved (e ∷ chain) (inl h) = rw h refl
access_times_unresolved (e ∷ chain) (inr h) = known-panic e.dot _ λ d. deref-panic d.created _ λ s.
    deref-panic d.expiry _ λ x. rw (access_loop-panic (record { start = s; end = x }) chain h) refl

-- A permission that is cached, or the lack of one, is the answer whether or not the item has expired,
-- and whatever chains there are now.
pub can_read_stale :
    (client : Client) (allowed expired : Bool) (uri vk : Str)
    → can_read client (some (record { value = allowed; expired = expired })) uri vk
      ≡ (allowed, none)
unfolding can_read
can_read_stale client allowed expired uri vk = refl

-- With nothing in the cache, CanRead answers yes, and caches yes, exactly when the client reports no
-- error: a nil chain with a nil error is taken for a permission.
pub can_read_fresh :
    (client : Client) (uri vk : Str)
    → can_read client none uri vk ≡ (
      not (client.build_any_chain uri (codes "C") vk).failed,
      some (not (client.build_any_chain uri (codes "C") vk).failed),
    )
unfolding can_read
can_read_fresh client uri vk = ground arith
