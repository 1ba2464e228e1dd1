-- ===== src/Archiver/Handling.antt =====
-- The viewManager of archiver/view.go at work: the loop over the messages with archive requests,
-- and HandleArchiveRequest with the lock that it takes.
pub mod Laws
use durandal.Prelude.{
  ℕ, zero, suc, ◌≡◌, refl, Bool, true, false, not, ◌&&◌, ◌||◌, Option, none, some, List, [], ◌∷◌,
  ◌++◌, if◌then◌else◌,
}
use durandal.Prelude.Str.{Str, codes, str_eq, is_empty, split}
use durandal.Prelude.Dict
use durandal.Prelude.Dict.{Dict}
use durandal.Archiver.Requests.{ArchiveRequest}

-- The answers of package regexp and of the BOSSWAVE client: whether an expression compiles, a
-- subscription succeeds, and a chain lets a key archive a URI.
pub record Client : Type 0 where
  pub compiles : Str → Bool
  pub subscribes : Str → Bool
  pub may_archive : Str → Str → Bool

-- A new Stream, with what it takes from its request; its maps and its buffer are empty.
pub record NewStream : Type 0 where
  pub subscribe_uri : Str
  pub name : Str
  pub unit : Str
  pub po : Str
  pub value_expr : Str
  pub time_expr : Option Str
  pub time_parse : Str
  pub urimatch : Str
  pub urireplace : Str

-- subscriptionLock, the namespaces with a scraper, the buffers on the mux of each URI, in the order
-- in which they were added, and the streams that were started.
pub record Manager : Type 0 where
  pub locked : Bool
  pub subscribed : List Str
  pub subscriptions : Dict (List NewStream)
  pub started : List NewStream

-- How a call ends: handled, with an error, or never, since the lock is held.
pub data Handled : Type 0 where
  done refused blocks : Handled

abbrev time_expr_of : Str → Option Str
time_expr_of expr = if is_empty expr then none else some expr

unfoldable pub stream_of : ArchiveRequest → NewStream
stream_of request = record {
  subscribe_uri = request.uri;
  name = request.name;
  unit = request.unit;
  po = request.po;
  value_expr = request.value_expr;
  time_expr = time_expr_of request.time_expr;
  time_parse = request.time_parse;
  urimatch = request.uri_match;
  urireplace = request.uri_replace;
}

-- strings.Split(uri, "/")[0]
abbrev pub namespace_of : List Str → Str
namespace_of [] = []
namespace_of (part ∷ parts) = part

abbrev pub listed : Str → List Str → Bool
listed s [] = false
listed s (t ∷ ts) = str_eq t s || listed s ts

unfoldable pub mark_subscribed : Str → Manager → Manager
mark_subscribed ns vm =
    if listed ns vm.subscribed then vm else record vm { subscribed = ns ∷ vm.subscribed }

-- mux.add, and the start of the stream
unfoldable pub attach : NewStream → List NewStream → Manager → Manager
attach s buffers vm = record vm {
  subscriptions = Dict.put s.subscribe_uri (buffers ++ s ∷ []) vm.subscriptions;
  started = s ∷ vm.started;
}

-- A payload: an archive request, if it has the type of one and can be decoded.
abbrev pub Payload : Type 0
Payload = Option ArchiveRequest

module _ (client : Client) where
  -- Behind subscriptionLock.Lock(): a mux that exists is used. Otherwise the namespace is marked,
  -- and a subscription that fails returns with the lock held.
  abbrev with_mux : NewStream → Option (List NewStream) → Manager → Manager × Handled
  with_mux s (some buffers) vm = (attach s buffers vm, done)
  with_mux s none vm =
      let vm' = mark_subscribed (namespace_of (split s.subscribe_uri b'/')) vm in
      if client.subscribes s.subscribe_uri
      then (attach s [] vm', done)
      else (record vm' { locked = true }, refused)

  unfoldable pub handle_archive_request : ArchiveRequest → Manager → Manager × Handled
  unfolding stream_of mark_subscribed attach
  handle_archive_request request vm =
      if is_empty request.from_vk
      then (vm, refused)
      else if not (client.compiles request.uri_match)
      then (vm, refused)
      else if vm.locked
      then (vm, blocks)
      else with_mux (stream_of request) (Dict.get request.uri vm.subscriptions) vm

  abbrev pub is_complete : ArchiveRequest → Bool
  is_complete r =
      not (is_empty r.po)
      && (not (is_empty r.name) && (not (is_empty r.value_expr) && not (is_empty r.uri)))

  -- The requests of a message that are complete and whose sender may archive the URI.
  unfoldable pub permitted : Str → List Payload → List ArchiveRequest
  permitted from [] = []
  permitted from (none ∷ pos) = permitted from pos
  permitted from (some r ∷ pos) =
      let rest = permitted from pos in
      if is_complete r && client.may_archive r.uri from
      then record r { from_vk = from } ∷ rest
      else rest

  -- The loop over the requests: errors are logged; a call that blocks ends it, and false says so.
  unfoldable pub handle_all : List ArchiveRequest → Manager → Manager × Bool
  unfolding handle_archive_request
  handle_all [] vm = (vm, true)
  handle_all (r ∷ rs) vm =
      let (vm', end) = handle_archive_request r vm in
      elim end [ done ↦ handle_all rs vm' | refused ↦ handle_all rs vm' | blocks ↦ (vm', false) ]

  -- The last part of the URI of a message
  abbrev last_part : List Str → Str
  last_part [] = []
  last_part (part ∷ []) = part
  last_part (part ∷ q ∷ parts) = last_part (q ∷ parts)

  -- One message: its URI, its sender and its payloads.
  unfoldable pub on_message : Str → Str → List Payload → Manager → Manager × Bool
  unfolding permitted handle_all
  on_message uri from pos vm =
      if str_eq (last_part (split uri b'/')) (codes "archiverequest")
      then handle_all (permitted from pos) vm
      else (vm, true)
