-- ===== src/Archiver/Tests/Bookkeeping.antt =====
-- Tests of archive requests, URIs and the mux.
use durandal.Prelude.{List, ℕ, ◌≡◌, refl, true, false, some, [], ◌∷◌, arith, ◌==◌, if◌then◌else◌}
use durandal.Prelude.Str.{codes, str_eq, has_prefix, index}
use durandal.Prelude.Dict
use durandal.Prelude.Dict.{Dict, dict_laws}
use durandal.Prelude.Outcome.{ok}
use durandal.Archiver.Requests.{
  ArchiveRequest, equals, contains, add_request, remove_request, get_list, set_list, add_all,
  remove_entry, write_list,
}
use durandal.Archiver.Requests.Laws.{add_request_laws}
use durandal.Archiver.Views.{ViewState, update_archive_requests}
use durandal.Archiver.Views.Laws.{Elsewhere, update_archive_requests-keeps}
use durandal.Archiver.Uris.{get_uri_prefixes}
use durandal.Archiver.Mux.{Mux, add, new_mux, fresh, next, added}
use durandal.Archiver.Mux.Laws.{Unique, lookup, Reachable-Unique}
use durandal.Archiver.Mux.Deliveries.{
  Event, arrives, adds, removes, ends, happen, before_end, context_ends, add-happen,
}

abbrev temperature : ArchiveRequest
temperature = record {
  from_vk = codes "alice";
  uri = codes "ns/a";
  attach_uri = codes "ns";
  po = codes "2.0.0.0/8";
  uuid_expr = [];
  value_expr = codes "t";
  time_expr = [];
  time_parse = [];
  name = codes "temp";
  unit = codes "C";
  uri_match = [];
  uri_replace = [];
}

abbrev of_bob : ArchiveRequest
of_bob = record temperature { from_vk = codes "bob" }

add_request_laws_example :
    (contains (add_request [] (some temperature)) (some temperature) ≡ true)
    × (contains [] (some temperature) ≡ true → add_request [] (some temperature) ≡ [])
    × (contains [] (some temperature) ≡ false
        → remove_request (add_request [] (some temperature)) (some temperature) ≡ [])
add_request_laws_example = add_request_laws [] temperature

abbrev managed : ViewState
managed = record {
  lists = λ p. if p == 0 then some temperature ∷ [] else [];
  request_hosts = (codes "ns", 0) ∷ [];
  request_uris = [];
  next = 1;
}

ns_listed : get_list managed.request_hosts (codes "ns") ≡ some 0
unfolding get_list Dict.get str_eq
ns_listed = refl

managed-Elsewhere : Elsewhere 0 managed.request_uris
unfolding Dict.get
managed-Elsewhere uri q e = cc

abbrev updated : ViewState
updated = record managed {
  lists = write_list (write_list managed.lists 1 []) 0 (some temperature ∷ []);
  next = 2;
}

-- No recent request remains, and the old one stays in the list of the host.
updates : update_archive_requests managed (codes "ns") [] ≡ ok updated
unfolding update_archive_requests get_list Dict.get str_eq set_list add_all contains remove_entry
updates = refl

temperature_listed : contains (managed.lists 0) (some temperature) ≡ true
unfolding contains equals str_eq
temperature_listed = refl

update_archive_requests-keeps_example : contains (updated.lists 0) (some temperature) ≡ true
update_archive_requests-keeps_example =
    update_archive_requests-keeps managed updated (codes "ns") [] 0 (some temperature) ns_listed
      (omega arith) managed-Elsewhere updates temperature_listed

prefixes_of_path :
    get_uri_prefixes (codes "/a/!meta/t")
    ≡ some (ok (codes "/a" ∷ codes "/a/!meta" ∷ codes "/a/!meta/t" ∷ []))
unfolding get_uri_prefixes index has_prefix str_eq
prefixes_of_path = refl

abbrev one_receiver : Mux ℕ
one_receiver = record {
  receivers = record { handle = 4; sent = []; closed = false } ∷ [];
  finished = false;
}

add_four : add (4 ∷ []) new_mux ≡ some (4, one_receiver)
unfolding add new_mux
add_four = refl

Reachable-Unique_example : Unique one_receiver.receivers
Reachable-Unique_example =
    Reachable-Unique one_receiver
      (next new_mux one_receiver fresh (added (4 ∷ []) new_mux one_receiver 4 add_four))

open_mux : (new_mux {M = ℕ}).finished ≡ false
unfolding new_mux
open_mux = refl

-- Another receiver comes and goes, and a message comes after the end.
abbrev events : List (Event ℕ)
events = arrives 1 ∷ adds (9 ∷ []) ∷ arrives 2 ∷ removes 9 ∷ ends ∷ arrives 3 ∷ []

add-happen_example :
    lookup 4 (happen events one_receiver).receivers
    ≡ some (record { handle = 4; sent = before_end events; closed = context_ends events })
add-happen_example =
    add-happen (4 ∷ []) new_mux one_receiver 4 events open_mux add_four
      (tt, (tt, (tt, (refl, (tt, (tt, tt))))))

sent_before_end : before_end events ≡ 1 ∷ 2 ∷ []
unfolding before_end
sent_before_end = refl
