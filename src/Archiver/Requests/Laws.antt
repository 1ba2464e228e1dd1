-- ===== src/Archiver/Requests/Laws.antt =====
-- Comparing, adding, removing and storing the archive requests of archiver/request.go and
-- archiver/util.go.
use durandal.Prelude.{
  ℕ, ◌≡◌, refl, ◌≢◌, ◌↔◌, Bool, true, false, ◌&&◌, Option, none, some, List, [], ◌∷◌, arith, ◌==◌,
}
use durandal.Prelude.Str.{Str, str_eq, str_eq_iff}
use durandal.Prelude.Dict
use durandal.Prelude.Dict.{Dict, dict_laws}
use durandal.Archiver.Requests.{
  ArchiveRequest, same_fields, equals, ArchiveRequestList, contains, add_request, remove_request,
  Lists, RequestMap, get_list, set_request, add_all,
}

-- Every field but the key that asks and the URI where the request is attached.
abbrev pub key_fields : ArchiveRequest → List Str
key_fields r =
    r.uri ∷ r.name ∷ r.unit ∷ r.po ∷ r.uuid_expr ∷ r.value_expr ∷ r.time_expr ∷ r.time_parse
    ∷ r.uri_match ∷ r.uri_replace ∷ []

same_texts : List Str → List Str → Bool
same_texts [] [] = true
same_texts [] (t ∷ ts) = false
same_texts (s ∷ ss) [] = false
same_texts (s ∷ ss) (t ∷ ts) = str_eq s t && same_texts ss ts

same_texts_iff : (ss ts : List Str) → (same_texts ss ts ≡ true) ↔ (ss ≡ ts)
unfolding same_texts
same_texts_iff [] [] = (λ e. refl, λ e. refl)
same_texts_iff [] (t ∷ ts) = (λ e. cc, λ e. cc)
same_texts_iff (s ∷ ss) [] = (λ e. cc, λ e. cc)
same_texts_iff (s ∷ ss) (t ∷ ts) = (
  λ e. ground (arith, str_eq_iff s t, same_texts_iff ss ts),
  λ e. ground (arith, str_eq_iff s t, same_texts_iff ss ts),
)

and_true : (b : Bool) → (b && true) ≡ b
and_true true = refl
and_true false = refl

same_fields-texts :
    (a b : ArchiveRequest) → same_fields a b ≡ same_texts (key_fields a) (key_fields b)
unfolding same_fields same_texts
same_fields-texts a b = rw (and_true (str_eq a.uri_replace b.uri_replace)) refl

-- Requests are equal exactly when all fields are that say what is archived and how; who asks for it and
-- where the request is attached make no difference.
equals_iff :
    (a b : ArchiveRequest) → (equals (some a) (some b) ≡ true) ↔ (key_fields a ≡ key_fields b)
unfolding equals
equals_iff a b = rw (same_fields-texts a b) (same_texts_iff (key_fields a) (key_fields b))

equals_refl : (a : ArchiveRequest) → equals (some a) (some a) ≡ true
equals_refl a = (equals_iff a a).1 refl

contains-add :
    (arl : ArchiveRequestList) (req : ArchiveRequest)
    → contains (add_request arl (some req)) (some req) ≡ true
unfolding contains add_request
contains-add [] req = rw (equals_refl req) refl
contains-add (old ∷ arl) req = ground (arith, contains-add arl req)

add_present :
    (arl : ArchiveRequestList) (req : Option ArchiveRequest)
    → contains arl req ≡ true
    → add_request arl req ≡ arl
unfolding contains add_request
add_present [] req h = cc
add_present (old ∷ arl) req h = ground (arith, add_present arl req)

remove-add :
    (arl : ArchiveRequestList) (req : ArchiveRequest)
    → contains arl (some req) ≡ false
    → remove_request (add_request arl (some req)) (some req) ≡ arl
unfolding contains add_request remove_request
remove-add [] req h = rw (equals_refl req) refl
remove-add (old ∷ arl) req h = ground (arith, remove-add arl req)

-- Adding a request that is not nil to a list makes the list contain it; it changes nothing if the list
-- contained it, and otherwise removing the request gives the list back.
pub add_request_laws :
    (arl : ArchiveRequestList) (req : ArchiveRequest)
    → (contains (add_request arl (some req)) (some req) ≡ true)
      × (contains arl (some req) ≡ true → add_request arl (some req) ≡ arl)
      × (contains arl (some req) ≡ false
          → remove_request (add_request arl (some req)) (some req) ≡ arl)
add_request_laws arl req = (contains-add arl req, add_present arl (some req), remove-add arl req)

-- A request that is set for a URI without a list is lost: the map still has no list for the URI, and
-- every list that was there is as before.
set_request_lost :
    (h : Lists) (m : RequestMap) (next : ℕ) (uri : Str) (req : Option ArchiveRequest)
    → get_list m uri ≡ none
    → (get_list (set_request h m next uri req).1 uri ≡ none)
      × ((p : ℕ) → p ≢ next → (set_request h m next uri req).0 p ≡ h p)
unfolding get_list set_request
set_request_lost h m next uri req absent =
    rw (set_request, found) (found, λ p ne. rw (apart p ne) refl)
  where
    found : Dict.get uri m ≡ none
    found = absent

    apart : (p : ℕ) → p ≢ next → (next == p) ≡ false
    apart p ne = ground arith

pub contains-add_other :
    (arl : ArchiveRequestList) (req old : Option ArchiveRequest)
    → contains arl old ≡ true
    → contains (add_request arl req) old ≡ true
unfolding contains add_request
contains-add_other [] req old h = cc
contains-add_other (x ∷ arl) req old h = ground (arith, contains-add_other arl req old)

pub contains-add_all :
    (rs arl : ArchiveRequestList) (old : Option ArchiveRequest)
    → contains arl old ≡ true
    → contains (add_all arl rs) old ≡ true
unfolding add_all
contains-add_all [] arl old h = h
contains-add_all (r ∷ rs) arl old h =
    contains-add_all rs (add_request arl r) old (contains-add_other arl r old h)
