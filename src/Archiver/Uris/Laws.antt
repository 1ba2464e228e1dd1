-- ===== src/Archiver/Uris/Laws.antt =====
-- What the functions on URIs of archiver/util.go compute.
use durandal.Prelude.{
  ℕ, zero, suc, ◌+◌, ◌≤◌, ◌<◌, ◌≡◌, refl, ap, ◌≢◌, inl, inr, Bool, true, false, Option, none, some,
  List, [], ◌∷◌, ◌++◌, append-nil, arith, ltb, ◌==◌, if◌then◌else◌, Bool-cases, Option-cases, ==→eq,
  length, length-drop, take, drop, All, Any, All-append,
}
use durandal.Prelude.Str.{Str, codes, str_eq, str_eq_iff, has_prefix, index}
use durandal.Prelude.Outcome.{ok, panic}
use mathlib.Core.Option
use durandal.Archiver.Uris.{
  slash, tail_from, prefixes_loop, get_uri_prefixes, listed_in, all_listed, compare_as_set,
}

index-slash-bound : (s : Str) (i : ℕ) → index s slash ≡ some i → i < length s
unfolding index
index-slash-bound [] i e = cc
index-slash-bound (c ∷ s) i e =
    step (has_prefix (c ∷ s) slash) (index s slash) e (λ j k. index-slash-bound s j k)
  where
    step :
        (b : Bool) (o : Option ℕ)
        → (if b then some 0 else Option.map suc o) ≡ some i
        → ((j : ℕ) → o ≡ some j → j < length s)
        → i < suc (length s)
    step true o k h = same 0 (omega arith) k
      where
        same : (m : ℕ) → m < suc (length s) → some m ≡ some i → i < suc (length s)
        same m lt k = ground arith
    step false none k h = cc
    step false (some j) k h = same (h j refl) k
      where
        same : j < length s → some (suc j) ≡ some i → i < suc (length s)
        same lt k = ground arith

-- The text begins with the other one.
abbrev pub Begins : Str → Str → Type 0
Begins uri p = (rest : Str) × (p ++ rest ≡ uri)

take-Begins : (n : ℕ) (s : Str) → Begins s (take n s)
take-Begins zero s = (s, refl)
take-Begins (suc n) [] = ([], refl)
take-Begins (suc n) (c ∷ s) = let (rest, e) = take-Begins n s in (rest, ap (λ t. c ∷ t) e)

prefixes_loop-total :
    (fuel : ℕ) (uri : Str) (start : ℕ) (prefixes : List Str)
    → start ≤ length uri
    → length uri < start + fuel
    → All (Begins uri) prefixes
    → (ps : List Str) × (prefixes_loop fuel uri start prefixes ≡ some (ok ps)) × All (Begins uri) ps
unfolding prefixes_loop tail_from
prefixes_loop-total zero uri start prefixes le enough a = absurd (omega arith)
prefixes_loop-total (suc fuel) uri start prefixes le enough a =
    rw (prefixes_loop, in_bounds uri start le)
      (elim (Bool-cases (str_eq (drop start uri) (codes "!"))) [
        | inl bang ↦ rw bang (prefixes, refl, a)
        | inr plain ↦ rw plain (elim (Option-cases (index (drop start uri) slash)) [
          | inl last ↦ rw last (
            prefixes ++ uri ∷ [],
            refl,
            All-append (Begins uri) prefixes (uri ∷ []) a (([], append-nil uri), tt),
          )
          | inr (i, found) ↦
              let inside = index-slash-bound (drop start uri) i found in
              let size = length-drop start uri in
              rw found (
                prefixes_loop-total fuel uri (start + i + 1) (prefixes ++ take (start + i) uri ∷ [])
                  (omega arith) (omega arith)
                  (All-append (Begins uri) prefixes (take (start + i) uri ∷ []) a
                    (take-Begins (start + i) uri, tt)))
        ])
      ])
  where
    in_bounds :
        (uri : Str) (start : ℕ)
        → start ≤ length uri
        → (if ltb (length uri) start then panic else ok (drop start uri)) ≡ ok (drop start uri)
    in_bounds uri start le = ground arith

-- GetURIPrefixes of a URI that is not empty ends without a panic, and every text that it returns begins
-- the URI; of the empty URI it panics.
get_uri_prefixes-total :
    (uri : Str)
    → (uri ≢ [] → (ps : List Str) × (get_uri_prefixes uri ≡ some (ok ps)) × All (Begins uri) ps)
      × (uri ≡ [] → get_uri_prefixes uri ≡ some panic)
unfolding get_uri_prefixes prefixes_loop tail_from
get_uri_prefixes-total [] = (λ ne. absurd (ne refl), λ e. refl)
get_uri_prefixes-total (c ∷ uri) = (
  λ ne. prefixes_loop-total (suc (length (c ∷ uri))) (c ∷ uri) 1 [] (omega arith) (omega arith) tt,
  λ e. cc,
)

listed_in-mem : (v : Str) (s : List Str) → listed_in v s ≡ true → Any (λ x. v ≡ x) s
unfolding listed_in
listed_in-mem v [] e = cc
listed_in-mem v (x ∷ s) e = elim (Bool-cases (str_eq v x)) [
  | inl k ↦ inl ((str_eq_iff v x).0 k)
  | inr k ↦ inr (listed_in-mem v s (rw k at e))
]

all_listed-mem : (s1 s2 : List Str) → all_listed s1 s2 ≡ true → All (λ v. Any (λ x. v ≡ x) s2) s1
unfolding all_listed
all_listed-mem [] s2 e = tt
all_listed-mem (v ∷ s1) s2 e = elim (Bool-cases (listed_in v s2)) [
  | inl k ↦ (listed_in-mem v s2 k, all_listed-mem s1 s2 (rw k at e))
  | inr k ↦ cc (rw k at e)
]

-- Slices that compareStringSliceAsSet takes for equal have one length, and every text of the first is in
-- the second; the converse inclusion fails where the first repeats a text.
pub compare_as_set-mem :
    (s1 s2 : List Str)
    → compare_as_set s1 s2 ≡ true
    → (length s1 ≡ length s2) × All (λ v. Any (λ x. v ≡ x) s2) s1
unfolding compare_as_set
compare_as_set-mem s1 s2 e = elim (Bool-cases (length s1 == length s2)) [
  | inl k ↦ (==→eq (length s1) (length s2) k, all_listed-mem s1 s2 (rw k at e))
  | inr k ↦ cc (rw k at e)
]
