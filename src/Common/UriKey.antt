-- ===== src/Common/UriKey.antt =====
-- getURIKey of common/util.go and of scraper/util.go: the last segment of a URI.
use native.Mathlib.Numerals.{add-one}
use durandal.Prelude.{
  suc, ◌+◌, ◌≡◌, refl, ◌≢◌, none, some, [], ◌∷◌, ◌++◌, arith, ltb, if◌then◌else◌, length, drop,
}
use durandal.Prelude.Str.{Str, last_index, Lacks}

abbrev pub slash : Str
slash = b'/' ∷ []

unfoldable pub get_uri_key : Str → Str
get_uri_key uri = elim (last_index uri slash) [
  | none ↦ uri
  | some li ↦ if ltb 0 li then drop (li + 1) uri else uri
]

pub last_index-Lacks : (s : Str) → Lacks b'/' s → last_index s slash ≡ none
unfolding last_index
last_index-Lacks [] h = refl
last_index-Lacks (c ∷ s) h = ground (arith, last_index-Lacks s)

pub last_index-append :
    (s key : Str) → Lacks b'/' key → last_index (s ++ b'/' ∷ key) slash ≡ some (length s)
unfolding last_index
last_index-append [] key h = rw (last_index-Lacks key h) refl
last_index-append (c ∷ s) key h = rw (last_index-append s key h) refl

drop_behind : (s key : Str) → drop (length s + 1) (s ++ b'/' ∷ key) ≡ key
drop_behind s key = rw add-one (suc_behind s)
  where
    suc_behind : (t : Str) → drop (suc (length t)) (t ++ b'/' ∷ key) ≡ key
    suc_behind [] = refl
    suc_behind (c ∷ t) = suc_behind t

-- The key of a URI with a path before its last slash is what stands behind that slash.
pub get_uri_key-append :
    (path key : Str) → path ≢ [] → Lacks b'/' key → get_uri_key (path ++ b'/' ∷ key) ≡ key
unfolding get_uri_key
get_uri_key-append [] key ne h = absurd (ne refl)
get_uri_key-append (c ∷ s) key ne h =
    rw (last_index-append (c ∷ s) key h, get_uri_key) (ground (arith, drop_behind (c ∷ s) key))
