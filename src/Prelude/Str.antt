-- ===== src/Prelude/Str.antt =====
-- Go strings: sequences of bytes, with the functions of package strings that the program calls.
use Prim.Native.Nat.{ℕ, suc, ◌-◌}
use Prim.Native.Char.{code}
use Prim.Native.String.{String}
use mathlib.Core.Path.{◌≡◌, refl, ◌∙◌}
use mathlib.Core.Logic.{◌↔◌, ◌≢◌}
use mathlib.Core.Bool.{Bool, true, false, ◌&&◌}
use mathlib.Core.Option
use mathlib.Core.Option.{Option, none, some}
use mathlib.Core.List.{List, [], ◌∷◌, ◌++◌}
use native.Mathlib.Omega.{arith}
use durandal.Prelude.Tests.{◌==◌, leb, if◌then◌else◌}
use durandal.Prelude.Lists.{length, take, drop, All}

abbrev pub Str : Type 0
Str = List ℕ

-- The bytes of a literal that is ASCII.
abbrev pub codes : String → Str
codes String.[] = []
codes (String.◌∷◌ c s) = code c ∷ codes s

unfoldable pub str_eq : Str → Str → Bool
str_eq [] [] = true
str_eq [] (c ∷ t) = false
str_eq (c ∷ s) [] = false
str_eq (c ∷ s) (d ∷ t) = c == d && str_eq s t

str_eq_sound : (s t : Str) → str_eq s t ≡ true → s ≡ t
unfolding str_eq
str_eq_sound [] [] h = refl
str_eq_sound [] (c ∷ t) h = cc
str_eq_sound (c ∷ s) [] h = cc
str_eq_sound (c ∷ s) (d ∷ t) h = ground (arith, str_eq_sound s t)

pub str_eq_refl : (s : Str) → str_eq s s ≡ true
unfolding str_eq
str_eq_refl [] = refl
str_eq_refl (c ∷ s) = ground (arith, str_eq_refl s)

pub str_eq_iff : (s t : Str) → (str_eq s t ≡ true) ↔ (s ≡ t)
str_eq_iff s t = (str_eq_sound s t, λ e. rw e (str_eq_refl t))

pub ne-str_eq : (s t : Str) → s ≢ t → str_eq s t ≡ false
ne-str_eq s t h = ground (arith, str_eq_iff s t)

-- s == ""
abbrev pub is_empty : Str → Bool
is_empty [] = true
is_empty (c ∷ s) = false

-- strings.HasPrefix
unfoldable pub has_prefix : Str → Str → Bool
has_prefix s [] = true
has_prefix [] (p ∷ ps) = false
has_prefix (c ∷ s) (p ∷ ps) = c == p && has_prefix s ps

-- strings.Index: `none` stands for -1.
unfoldable pub index : Str → Str → Option ℕ
unfolding has_prefix
index [] sep = if is_empty sep then some 0 else none
index (c ∷ s) sep = if has_prefix (c ∷ s) sep then some 0 else Option.map suc (index s sep)

-- The later of two positions of a match, the first being that of the rest of the text.
abbrev later : Option ℕ → Bool → Option ℕ
later (some i) here = some (suc i)
later none here = if here then some 0 else none

-- strings.LastIndex
unfoldable pub last_index : Str → Str → Option ℕ
unfolding has_prefix
last_index [] sep = if is_empty sep then some 0 else none
last_index (c ∷ s) sep = later (last_index s sep) (has_prefix (c ∷ s) sep)

-- strings.HasSuffix
unfoldable pub has_suffix : Str → Str → Bool
unfolding str_eq
has_suffix s suffix =
    leb (length suffix) (length s) && str_eq (drop (length s - length suffix) s) suffix

-- strings.TrimSuffix
unfoldable pub trim_suffix : Str → Str → Str
unfolding has_suffix
trim_suffix s suffix = if has_suffix s suffix then take (length s - length suffix) s else s

-- The first field behind the byte `c`.
abbrev prepend : ℕ → List Str → List Str
prepend c [] = (c ∷ []) ∷ []
prepend c (p ∷ ps) = (c ∷ p) ∷ ps

-- strings.Split at one byte
unfoldable pub split : Str → ℕ → List Str
split [] sep = [] ∷ []
split (c ∷ s) sep = let rest = split s sep in if c == sep then [] ∷ rest else prepend c rest

-- strings.Join with one byte
unfoldable pub join : List Str → ℕ → Str
join [] sep = []
join (p ∷ []) sep = p
join (p ∷ q ∷ ps) sep = p ++ sep ∷ join (q ∷ ps) sep

-- No byte of the text is the byte.
abbrev pub Lacks : ℕ → Str → Type 0
Lacks b = All (λ c. c ≢ b)

module _ (sep : ℕ) where
  split-Lacks : (p : Str) → Lacks sep p → split p sep ≡ p ∷ []
  unfolding split
  split-Lacks [] h = refl
  split-Lacks (c ∷ p) h = ground (arith, split-Lacks p)

  split-append : (p s : Str) → Lacks sep p → split (p ++ sep ∷ s) sep ≡ p ∷ split s sep
  unfolding split
  split-append [] s h = ground arith
  split-append (c ∷ p) s h = ground (arith, split-append p s)

  -- Splitting a join of texts that hold no separator gives the texts back.
  pub split-join :
      (p : Str) (ps : List Str) → All (Lacks sep) (p ∷ ps) → split (join (p ∷ ps) sep) sep ≡ p ∷ ps
  unfolding join
  split-join p [] (h, _) = split-Lacks p h
  split-join p (q ∷ ps) (h, hs) =
      split-append p (join (q ∷ ps) sep) h ∙ rw (split-join q ps hs) refl
