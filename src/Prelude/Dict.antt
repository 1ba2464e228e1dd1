-- ===== src/Prelude/Dict.antt =====
-- A Go map with string keys, as an association list with at most one entry for a key that `put`
-- wrote. A `range` over the map visits the list in order: one of the orders that Go may choose.
use mathlib.Core.Path.{◌≡◌, refl}
use mathlib.Core.Option.{Option, none, some}
use mathlib.Core.List.{List, [], ◌∷◌}
use native.Mathlib.Omega.{arith}
use durandal.Prelude.Tests.{if◌then◌else◌}
use durandal.Prelude.Str.{Str, str_eq, str_eq_iff}

abbrev pub Dict {ℓ} : Type ℓ → Type ℓ
Dict V = List (Str × V)

module _ {ℓ} {V : Type ℓ} where
  -- v, found := d[k]
  unfoldable pub get : Str → Dict V → Option V
  get k [] = none
  get k ((j, v) ∷ d) = if str_eq j k then some v else get k d

  -- d[k] = v
  unfoldable pub put : Str → V → Dict V → Dict V
  put k v [] = (k, v) ∷ []
  put k v ((j, w) ∷ d) = if str_eq j k then (k, v) ∷ d else (j, w) ∷ put k v d

  -- delete(d, k)
  unfoldable pub remove : Str → Dict V → Dict V
  remove k [] = []
  remove k ((j, v) ∷ d) = let rest = remove k d in if str_eq j k then rest else (j, v) ∷ rest

  pub get-put :
      (k j : Str) (v : V) (d : Dict V)
      → get j (put k v d) ≡ (if str_eq k j then some v else get j d)
  unfolding get put
  get-put k j v [] = refl
  get-put k j v ((i, w) ∷ d) =
      ground (arith, str_eq_iff k j, str_eq_iff i k, str_eq_iff i j, get-put k j v d)

  pub get-remove :
      (k j : Str) (d : Dict V) → get j (remove k d) ≡ (if str_eq k j then none else get j d)
  unfolding get remove
  get-remove k j [] = ground arith
  get-remove k j ((i, v) ∷ d) =
      ground (arith, str_eq_iff k j, str_eq_iff i k, str_eq_iff i j, get-remove k j d)

pub ruleset dict_laws = (get-put, get-remove)
