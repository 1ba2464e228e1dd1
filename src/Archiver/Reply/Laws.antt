-- ===== src/Archiver/Reply/Laws.antt =====
-- The replies of listenQueries of archiver/archiver.go, and the payloads of archiver/transforms.go.
use durandal.Prelude.{
  ℕ, suc, ◌+◌, ◌<◌, ◌≡◌, refl, ◌∙◌, ◌≢◌, false, some, List, [], ◌∷◌, ◌++◌, map, append_assoc,
  append-nil, arith, ◌==◌, length, take,
}
use durandal.Prelude.Str.{Str, codes}
use durandal.Prelude.Outcome.{Outcome, ok, err, panic}
use durandal.Common.UnitOfTime.{time_as_unit}
use durandal.Common.Uuid.{UuidLib}
use durandal.Common.Timeseries.{Timeseries, TimeseriesReading}
use durandal.Dots.DisjointRanges.{Heap}
use durandal.Querylang.ParsedQuery.{ParsedQuery}
use durandal.Archiver.Stores.{Archiver}
use durandal.Archiver.Query.{QueryResults, handle_query}
use durandal.Archiver.Query.Kinds.{
  Only, only_metadata, only_readings, only_statistics, only_changes, handle_query-Only,
}
use durandal.Archiver.Reply.{
  KeyValueQuery, SeriesReply, Payload, metadata_result, timeseries_result, changed_result,
  query_error, key_value_query, append_readings, series_of, pos_from_metadata_group,
  pos_from_timeseries_group, pos_from_changed_group, assemble, signal_uri, reply_to, answer,
  listen_queries,
}

-- The nonce by which the client recognises the reply.
abbrev pub nonce_of : {F : Type 0} → Payload F → ℕ
nonce_of (metadata_result n m) = n
nonce_of (timeseries_result n t s) = n
nonce_of (changed_result n c) = n
nonce_of (query_error q n e) = n

not_zero : (n : ℕ) → 0 < n → (n == 0) ≡ false
not_zero n h = ground arith

module _ {F : Type 0} where
  -- One payload, under the nonce.
  abbrev pub OneReply : ℕ → List (Payload F) → Type 0
  OneReply n ps = (p : Payload F) × (ps ≡ p ∷ []) × (nonce_of p ≡ n)

  assemble-OneReply :
      (a : Archiver F) (n : ℕ) (r : QueryResults F)
      → Only a r
      → OneReply n (assemble a.uuid_lib n r)
  unfolding assemble pos_from_metadata_group pos_from_timeseries_group pos_from_changed_group
  assemble-OneReply a n _ (only_metadata []) = (_, refl, refl)
  assemble-OneReply a n _ (only_metadata (m ∷ ms)) = (
    pos_from_metadata_group a.uuid_lib n (m ∷ ms),
    rw (not_zero (suc (length ms)) (omega arith)) refl,
    refl,
  )
  assemble-OneReply a n _ (only_readings []) = (_, refl, refl)
  assemble-OneReply a n _ (only_readings (t ∷ ts)) = (
    pos_from_timeseries_group a.uuid_lib n (t ∷ ts) [],
    rw (not_zero (suc (length ts) + 0) (omega arith)) refl,
    refl,
  )
  assemble-OneReply a n _ (only_statistics []) = (_, refl, refl)
  assemble-OneReply a n _ (only_statistics (t ∷ ts)) = (
    pos_from_timeseries_group a.uuid_lib n [] (t ∷ ts),
    rw (not_zero (0 + suc (length ts)) (omega arith)) refl,
    refl,
  )
  assemble-OneReply a n _ (only_changes []) = (_, refl, refl)
  assemble-OneReply a n _ (only_changes (c ∷ cs)) = (
    pos_from_changed_group a.uuid_lib n (c ∷ cs),
    rw (not_zero (suc (length cs)) (omega arith)) refl,
    refl,
  )

  reply_to-OneReply :
      (a : Archiver F) (q : KeyValueQuery) (m : Outcome (QueryResults F))
      → m ≢ panic
      → ((r : QueryResults F) → m ≡ ok r → Only a r)
      → (ps : List (Payload F)) × (reply_to a q m ≡ ok ps) × OneReply q.nonce ps
  unfolding reply_to
  reply_to-OneReply a q (ok r) safe only = (_, refl, assemble-OneReply a q.nonce r (only r refl))
  reply_to-OneReply a q (err e) safe only = (_, refl, (query_error q.query q.nonce e, refl, refl))
  reply_to-OneReply a q panic safe only = absurd (safe refl)

  -- A readable query of a key that is not empty gets exactly one payload with its nonce, at the signal of
  -- the key, unless answering it panics: results of any one kind, no results and errors alike. The
  -- ranges of a key are found in finite time here: a search for chains that never returns is left out.
  pub listen_queries-OneReply :
      (a : Archiver F) (parse : Str → ParsedQuery) (c : ℕ) (vk : Str) (q : KeyValueQuery) (h : Heap)
      (next : ℕ)
      → handle_query a parse (c ∷ vk) q.query h next ≢ panic
      → (ps : List (Payload F)) × OneReply q.nonce ps
        × (listen_queries a parse (c ∷ vk) (key_value_query q) h next
            ≡ ok (some (take (length vk) (c ∷ vk) ++ codes ",queries", ps)))
  unfolding listen_queries answer signal_uri
  listen_queries-OneReply a parse c vk q h next safe =
      let (ps, er, one) =
        reply_to-OneReply a q (handle_query a parse (c ∷ vk) q.query h next) safe
          λ r e. handle_query-Only a parse (c ∷ vk) q.query h next r e in
      (ps, one, rw er refl)

  module _ (lib : UuidLib) where
    append_readings-append :
        (xs : List (TimeseriesReading F)) (ts : SeriesReply F)
        → append_readings lib xs ts ≡ record ts {
          times = ts.times ++ map (λ r. time_as_unit r.time r.unit) xs;
          values = ts.values ++ map (λ r. r.value) xs;
        }
    unfolding append_readings
    append_readings-append [] ts = rw (append-nil ts.times, append-nil ts.values) refl
    append_readings-append (x ∷ xs) ts =
        append_readings-append xs _ ∙ rw (append_assoc ts.times, append_assoc ts.values) refl

    -- The payload of a series has the times of its readings, in their units, and their values, at the
    -- same positions and nothing else.
    pub series_of-readings :
        (g : Timeseries F)
        → series_of lib g ≡ record {
          uuid = lib.to_string g.uuid;
          path = g.src_uri;
          generation = g.generation;
          times = map (λ r. time_as_unit r.time r.unit) g.records;
          values = map (λ r. r.value) g.records;
        }
    unfolding series_of
    series_of-readings g = append_readings-append g.records _
