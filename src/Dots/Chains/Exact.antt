-- ===== src/Dots/Chains/Exact.antt =====
-- The range of an access chain of dots/range.go, and the instants at which its DOTs are valid.
use durandal.Prelude.{◌≡◌, refl, ◌↔◌, some, List, [], ◌∷◌, arith, All}
use durandal.Prelude.Int.{◌≤ℤ◌}
use durandal.Prelude.Str.{Str}
use durandal.Prelude.Outcome.{ok}
use durandal.Common.UnitOfTime.{Time}
use durandal.Dots.TimeRange.{TimeRange}
use durandal.Dots.TimeRange.Laws.{Covers}
use durandal.Dots.Chains.{
  Dot, ChainEntry, DChain, narrow, access_loop, intersect_dchain_access_times,
}

-- A chain of known DOTs that have both times.
abbrev pub entry : Str → Dot → Time → Time → ChainEntry
entry hash d created expiry = record {
  hash = hash;
  dot = some (record d { created = some created; expiry = some expiry });
}

pub record Grant : Type 0 where
  pub hash : Str
  pub dot : Dot
  pub created : Time
  pub expiry : Time

abbrev pub chain_of : List Grant → DChain
chain_of [] = []
chain_of (g ∷ gs) = entry g.hash g.dot g.created g.expiry ∷ chain_of gs

abbrev pub ValidAt : Time → Grant → Type 0
ValidAt t g = (g.created ≤ℤ t) × (t ≤ℤ g.expiry)

narrow-Covers :
    (r : TimeRange) (s e t : Time) → Covers (narrow r s e) t ↔ (Covers r t × (s ≤ℤ t) × (t ≤ℤ e))
narrow-Covers r s e t = (λ c. ground arith, λ c. ground arith)

access_loop-exact :
    (gs : List Grant) (r : TimeRange)
    → (out : TimeRange) × (access_loop r (chain_of gs) ≡ ok out)
      × ((t : Time) → Covers out t ↔ (Covers r t × All (ValidAt t) gs))
unfolding access_loop
access_loop-exact [] r = (r, refl, λ t. (λ c. (c, tt), λ c. c.0))
access_loop-exact (g ∷ gs) r =
    let (out, e, iff) = access_loop-exact gs (narrow r g.created g.expiry) in
    (
      out,
      e,
      λ t. (
        λ c.
            let (n, a) = (iff t).0 c in
            let (c0, s, x) = (narrow-Covers r g.created g.expiry t).0 n in (c0, ((s, x), a)),
        λ (c, (v, a)). (iff t).1 ((narrow-Covers r g.created g.expiry t).1 (c, v.0, v.1), a),
      ),
    )

-- A chain of DOTs that are known and have both times allows exactly the instants at which every DOT
-- of the chain is valid.
pub access_times_exact :
    (g : Grant) (gs : List Grant)
    → (out : TimeRange) × (intersect_dchain_access_times (chain_of (g ∷ gs)) ≡ ok (some out))
      × ((t : Time) → Covers out t ↔ All (ValidAt t) (g ∷ gs))
unfolding intersect_dchain_access_times
access_times_exact g gs =
    let (out, e, iff) = access_loop-exact gs (record { start = g.created; end = g.expiry }) in
    (out, rw e refl, iff)
