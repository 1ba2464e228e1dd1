-- ===== src/Dots/ArchiveUri/RoundTrip.antt =====
-- Putting URIs of the archive namespace together, and taking them apart: dots/util.go.
use durandal.Prelude.{ℕ, suc, ◌≡◌, refl, ◌⊎◌, false, not, ◌&&◌, List, ◌∷◌, arith, ltb, length, All}
use durandal.Prelude.Str.{Str, codes, str_eq, str_eq_iff, join, Lacks, split-join}
use durandal.Prelude.Outcome.{ok}
use durandal.Common.UnitOfTime.{Time}
use durandal.Dots.TimeRange.{beginning, end_of_time}
use durandal.Dots.ArchiveUri.{
  archive_vk, time_part, parse_archive_uri, get_uri_from_archive_uri, get_uri_from_suffix,
}

-- <space>/start/<t1>/end/<t2>/<uri>, the URI being its segments.
abbrev pub archive_parts : Str → Str → Str → List Str → List Str
archive_parts t1 t2 u us = codes "start" ∷ t1 ∷ codes "end" ∷ t2 ∷ u ∷ us

in_space :
    (space : Str)
    → (space ≡ codes "archive") ⊎ (space ≡ archive_vk)
    → (not (str_eq space (codes "archive")) && not (str_eq space archive_vk)) ≡ false
in_space space h = ground (arith, str_eq_iff space (codes "archive"), str_eq_iff space archive_vk)

long_enough : (n : ℕ) → ltb (suc (suc (suc (suc (suc n))))) 5 ≡ false
long_enough n = ground arith

-- The times and the URI behind them come back from <space>/start/<t1>/end/<t2>/<uri>, where the
-- space is the archive namespace, no part holds a slash and both times can be read.
pub parse-archive_uri :
    (space t1 t2 u : Str) (us : List Str) (start end : Time)
    → (space ≡ codes "archive") ⊎ (space ≡ archive_vk)
    → All (Lacks b'/') (space ∷ archive_parts t1 t2 u us)
    → time_part t1 beginning ≡ ok start
    → time_part t2 end_of_time ≡ ok end
    → parse_archive_uri (join (space ∷ archive_parts t1 t2 u us) b'/')
      ≡ ok (record { start = start; end = end; uri = join (u ∷ us) b'/' })
unfolding parse_archive_uri
parse-archive_uri space t1 t2 u us start end sp h e1 e2 =
    rw
      (
        split-join b'/' space (archive_parts t1 t2 u us) h,
        in_space space sp,
        e1,
        e2,
        long_enough (suc (length us)),
      )
      refl

-- Both functions that cut a URI out give the same one: from the whole archive URI, and from the
-- suffix that stands behind its first segment.
pub get_uri-archive_uri :
    (space t1 t2 u : Str) (us : List Str)
    → All (Lacks b'/') (space ∷ archive_parts t1 t2 u us)
    → (get_uri_from_archive_uri (join (space ∷ archive_parts t1 t2 u us) b'/')
        ≡ ok (join (u ∷ us) b'/'))
      × (get_uri_from_suffix (join (archive_parts t1 t2 u us) b'/') ≡ ok (join (u ∷ us) b'/'))
unfolding get_uri_from_archive_uri get_uri_from_suffix
get_uri-archive_uri space t1 t2 u us (h, hs) = (
  rw (split-join b'/' space (archive_parts t1 t2 u us) (h, hs), long_enough (suc (length us))) refl,
  rw (split-join b'/' (codes "start") (t1 ∷ codes "end" ∷ t2 ∷ u ∷ us) hs, enough (length us)) refl,
)
  where
    enough : (n : ℕ) → ltb (suc (suc (suc (suc (suc n))))) 4 ≡ false
    enough n = ground arith
