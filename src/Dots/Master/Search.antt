-- ===== src/Dots/Master/Search.antt =====
-- The search of findDOTChains of dots/master.go.
use durandal.Prelude.{
  ℕ, zero, suc, ◌≡◌, refl, ◌≢◌, ◌⊎◌, inl, inr, Bool, true, false, none, some, List, [], ◌∷◌,
  Bool-cases, All, All-append,
}
use durandal.Prelude.Str.{Str, str_eq, str_eq_iff, ne-str_eq}
use durandal.Prelude.Outcome.{Outcome, ok, err, panic}
use durandal.Dots.ArchiveUri.{fmt_hash}
use durandal.Dots.Chains.{Dot}
use durandal.Dots.Master.{
  Client, Found, DotChains, prefix_all, extend_found, matches, find_dots_from_vk, visit, visit_all,
  find_dot_chains,
}

-- The DOT is at a place of the list that is marked valid.
abbrev pub ListedValid : Dot → List Dot → List Bool → Type 0
ListedValid d [] vs = ⊥
ListedValid d (x ∷ xs) [] = ⊥
ListedValid d (x ∷ xs) (v ∷ vs) = ((d ≡ x) × (v ≡ true)) ⊎ ListedValid d xs vs

-- A key has granted the DOT, it is valid, and it is an archive DOT that covers the URI.
pub record Grants (client : Client) (uri from : Str) (d : Dot) : Type 0 where
  pub dots : List Dot
  pub valids : List Bool
  pub offered : find_dots_from_vk client from ≡ ok (dots, valids)
  pub listed : ListedValid d dots valids
  pub covers : matches client uri d ≡ ok true

-- A chain of DOTs from one key to another: each is granted by the key that receives the one before.
abbrev pub IsChain : Client → Str → Str → Str → List Dot → Type 0
IsChain client uri from to [] = ⊥
IsChain client uri from to (d ∷ []) = Grants client uri from d × (fmt_hash d.receiver_vk ≡ to)
IsChain client uri from to (d ∷ e ∷ ds) =
    Grants client uri from d × IsChain client uri (fmt_hash d.receiver_vk) to (e ∷ ds)

-- All chains that a search has found are chains from one key to another.
abbrev pub AllChains : Client → Str → Str → Str → Found → Type 0
AllChains client uri from to none = Unit
AllChains client uri from to (some (err s)) = Unit
AllChains client uri from to (some panic) = Unit
AllChains client uri from to (some (ok chains)) = All (IsChain client uri from to) chains

prefix_chains :
    (client : Client) (uri from to : Str) (d : Dot) (chains : DotChains)
    → Grants client uri from d
    → All (IsChain client uri (fmt_hash d.receiver_vk) to) chains
    → All (IsChain client uri from to) (prefix_all d chains)
prefix_chains client uri from to d [] g a = tt
prefix_chains client uri from to d ([] ∷ cs) g (c, a) = elim c [ ]
prefix_chains client uri from to d ((e ∷ ds) ∷ cs) g (c, a) =
    ((g, c), prefix_chains client uri from to d cs g a)

module _ (client : Client) (rec : Str → Found) (from to uri : Str)
    (rec_chains : (vk : Str) → AllChains client uri vk to (rec vk)) where
  extended :
      (d : Dot) (acc : DotChains) (r : Found)
      → Grants client uri from d
      → All (IsChain client uri from to) acc
      → AllChains client uri (fmt_hash d.receiver_vk) to r
      → AllChains client uri from to (extend_found acc d r)
  extended d acc none g a h = tt
  extended d acc (some (ok chains)) g a h =
      All-append (IsChain client uri from to) acc (prefix_all d chains) a
        (prefix_chains client uri from to d chains g h)
  extended d acc (some (err s)) g a h = tt
  extended d acc (some panic) g a h = tt

  visit-AllChains :
      (dot : Dot) (valid : Bool) (acc : DotChains)
      → (valid ≡ true → matches client uri dot ≡ ok true → Grants client uri from dot)
      → All (IsChain client uri from to) acc
      → AllChains client uri from to (visit client rec to uri dot valid acc)
  unfolding visit
  visit-AllChains dot false acc g a = a
  visit-AllChains dot true acc g a = by_match (matches client uri dot) refl
    where
      by_match :
          (m : Outcome Bool)
          → matches client uri dot ≡ m
          → AllChains client uri from to (visit client rec to uri dot true acc)
      by_match (err s) e = rw (e, visit) tt
      by_match panic e = rw (e, visit) tt
      by_match (ok false) e = rw (e, visit) a
      by_match (ok true) e = elim (Bool-cases (str_eq (fmt_hash dot.receiver_vk) to)) [
        | inl q ↦
            rw (e, visit, q)
              (All-append (IsChain client uri from to) acc ((dot ∷ []) ∷ []) a
                ((g refl e, (str_eq_iff (fmt_hash dot.receiver_vk) to).0 q), tt))
        | inr q ↦
            rw (e, visit, q)
              (extended dot acc (rec (fmt_hash dot.receiver_vk)) (g refl e) a
                (rec_chains (fmt_hash dot.receiver_vk)))
      ]

  visit_all-AllChains :
      (dots : List Dot) (valids : List Bool) (acc : DotChains)
      → ((d : Dot)
          → ListedValid d dots valids
          → matches client uri d ≡ ok true
          → Grants client uri from d)
      → All (IsChain client uri from to) acc
      → AllChains client uri from to (visit_all client rec to uri dots valids acc)
  unfolding visit_all
  visit_all-AllChains [] valids acc g a = a
  visit_all-AllChains (d ∷ dots) [] acc g a = tt
  visit_all-AllChains (d ∷ dots) (v ∷ valids) acc g a =
      next (visit client rec to uri d v acc) refl
        (visit-AllChains d v acc (λ e m. g d (inl (refl, e)) m) a)
        (λ acc' h. visit_all-AllChains dots valids acc' (λ x l m. g x (inr l) m) h)
    where
      next :
          (r : Found)
          → visit client rec to uri d v acc ≡ r
          → AllChains client uri from to r
          → ((acc' : DotChains)
              → All (IsChain client uri from to) acc'
              → AllChains client uri from to (visit_all client rec to uri dots valids acc'))
          → AllChains client uri from to (visit_all client rec to uri (d ∷ dots) (v ∷ valids) acc)
      next none e h k = rw (e, visit_all) tt
      next (some (err s)) e h k = rw (e, visit_all) tt
      next (some panic) e h k = rw (e, visit_all) tt
      next (some (ok acc')) e h k = rw (e, visit_all) (k acc' h)

-- Every chain that the search from one key to another returns, at any fuel, is a chain of valid
-- archive DOTs that cover the URI: the first is granted by the key where the search begins, each
-- next one by the key that receives the one before, and the last is received by the key searched for.
pub find_dot_chains-IsChain :
    (client : Client) (fuel : ℕ) (from to uri : Str)
    → AllChains client uri from to (find_dot_chains client fuel from to uri)
unfolding find_dot_chains
find_dot_chains-IsChain client zero from to uri = tt
find_dot_chains-IsChain client (suc fuel) from to uri =
    by_dots (find_dots_from_vk client from) refl
      (λ vk. find_dot_chains-IsChain client fuel vk to uri)
  where
    by_dots :
        (r : Outcome (List Dot × List Bool))
        → find_dots_from_vk client from ≡ r
        → ((vk : Str) → AllChains client uri vk to (find_dot_chains client fuel vk to uri))
        → AllChains client uri from to (find_dot_chains client (suc fuel) from to uri)
    by_dots (err s) e ih = rw (e, find_dot_chains) tt
    by_dots panic e ih = rw (e, find_dot_chains) tt
    by_dots (ok (dots, valids)) e ih =
        rw (e, find_dot_chains)
          (visit_all-AllChains client (λ vk. find_dot_chains client fuel vk to uri) from to uri ih
            dots valids []
            (λ d l m. record { dots = dots; valids = valids; offered = e; listed = l; covers = m })
            tt)

-- A key whose first DOT is a valid archive DOT for the URI that it granted to itself sends the search
-- back to that key: with any fuel the search for another key has not returned.
pub find_dot_chains-loops :
    (client : Client) (from to uri : Str) (d : Dot) (dots : List Dot) (valids : List Bool)
    → find_dots_from_vk client from ≡ ok (d ∷ dots, true ∷ valids)
    → matches client uri d ≡ ok true
    → fmt_hash d.receiver_vk ≡ from
    → from ≢ to
    → (fuel : ℕ) → find_dot_chains client fuel from to uri ≡ none
unfolding find_dot_chains visit_all visit
find_dot_chains-loops client from to uri d dots valids offered covers self other zero = refl
find_dot_chains-loops client from to uri d dots valids offered covers self other (suc fuel) =
    rw
      (
        find_dot_chains,
        offered,
        visit_all,
        visit,
        covers,
        self,
        ne-str_eq from to other,
        find_dot_chains-loops client from to uri d dots valids offered covers self other fuel,
      )
      refl
