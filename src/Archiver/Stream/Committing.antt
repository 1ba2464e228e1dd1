-- ===== src/Archiver/Stream/Committing.antt =====
-- Which URIs of archiver/stream.go have a goroutine that commits their readings.
use durandal.Prelude.{
  ℕ, ◌≡◌, ◌≢◌, sym, ap, ◌∙◌, Bool, true, false, ◌||◌, inl, inr, Option, none, some, List, [], ◌∷◌,
  arith, if◌then◌else◌, Bool-cases, Option-cases,
}
use durandal.Prelude.Str.{Str, str_eq, str_eq_refl, ne-str_eq}
use durandal.Prelude.Dict
use durandal.Common.Uuid.{Uuid}
use durandal.Common.UnitOfTime.{Time}
use durandal.Archiver.Stream.{
  Floats, Request, Message, Answers, Stream, initialize, ensure_seen, add_payload, recovered,
  add_if_seen, read_point, Arrival, read_points,
}

abbrev pub one_of_uris : Str → List Str → Bool
one_of_uris uri [] = false
one_of_uris uri (u ∷ us) = str_eq u uri || one_of_uris uri us

module _ {F : Type 0} (floats : Floats F) {Thing : Type 0} (request : Request F Thing)
    (uri : Str) where
  -- The URI counts as seen, and nothing commits its readings.
  abbrev pub IsStuck : Stream F → Type 0
  IsStuck s = (Dict.get uri s.seen_uris ≢ none) × (one_of_uris uri s.committed_uris ≡ false)

  -- What a payload adds changes neither.
  add_payload-keeps :
      (now : ℕ → Time) (u : Str) (thing : Option Thing) (s : Stream F)
      → ((recovered floats request (add_payload floats request now u thing s) s).seen_uris
          ≡ s.seen_uris)
        × ((recovered floats request (add_payload floats request now u thing s) s).committed_uris
            ≡ s.committed_uris)
  unfolding add_payload
  add_payload-keeps now u thing s = ground arith

  initialize-seen :
      (answers : Answers) (u : Str) (s : Stream F)
      → Dict.get uri (initialize floats request answers u s).0.seen_uris ≡ (
          if str_eq u uri
          then some (request.uuid_of (request.rewrite u))
          else Dict.get uri s.seen_uris)
  unfolding initialize
  initialize-seen answers u s =
      ground (arith, Dict.get-put u uri (request.uuid_of (request.rewrite u)) s.seen_uris)

  initialize-committed :
      (answers : Answers) (u : Str) (s : Stream F)
      → str_eq u uri ≡ false
      → one_of_uris uri s.committed_uris ≡ false
      → one_of_uris uri (initialize floats request answers u s).0.committed_uris ≡ false
  unfolding initialize
  initialize-committed answers u s other h = ground arith

  initialize-failed :
      (answers : Answers) (u : Str) (s : Stream F)
      → answers.metadata_error ≡ true
      → (initialize floats request answers u s).0.committed_uris ≡ s.committed_uris
  unfolding initialize
  initialize-failed answers u s fails = ground arith

  ensure_seen-IsStuck :
      (answers : Answers) (u : Str) (s : Stream F)
      → IsStuck s
      → IsStuck (ensure_seen floats request answers u s).0
  unfolding ensure_seen
  ensure_seen-IsStuck answers u s (seen, uncommitted) =
      elim (Option-cases (Dict.get u s.seen_uris)) [
        | inr (uuid, e) ↦ rw e (seen, uncommitted)
        | inl e ↦
            let other : str_eq u uri ≡ false =
              ne-str_eq u uri (λ same. seen (ap (λ k. Dict.get k s.seen_uris) (sym same) ∙ e)) in
            rw e (
              rw (initialize-seen answers u s, other) seen,
              initialize-committed answers u s other uncommitted,
            )
      ]

  add_if_seen-IsStuck :
      (now : ℕ → Time) (msg : Message Thing) (s : Stream F) (failed : Bool)
      → IsStuck s
      → IsStuck (add_if_seen floats request now msg (s, failed))
  add_if_seen-IsStuck now msg s true stuck = stuck
  add_if_seen-IsStuck now msg s false stuck =
      rw
        (
          (add_payload-keeps now msg.uri msg.thing s).0,
          (add_payload-keeps now msg.uri msg.thing s).1,
        )
        stuck

  read_point-IsStuck :
      (now : ℕ → Time) (answers : Answers) (msg : Message Thing) (s : Stream F)
      → IsStuck s
      → IsStuck (read_point floats request now answers msg s)
  unfolding read_point
  read_point-IsStuck now answers msg s stuck = elim (Bool-cases msg.no_payloads) [
    | inl e ↦ simp e stuck
    | inr e ↦ simp e (
        add_if_seen-IsStuck now msg (ensure_seen floats request answers msg.uri s).0
          (ensure_seen floats request answers msg.uri s).1
          (ensure_seen-IsStuck answers msg.uri s stuck))
  ]

  read_points-IsStuck :
      (arrivals : List (Arrival floats request)) (s : Stream F)
      → IsStuck s
      → IsStuck (read_points floats request arrivals s)
  unfolding read_points
  read_points-IsStuck [] s stuck = stuck
  read_points-IsStuck ((now, answers, msg) ∷ arrivals) s stuck =
      read_points-IsStuck arrivals (read_point floats request now answers msg s)
        (read_point-IsStuck now answers msg s stuck)

some-ne-none : (uuid : Uuid) → some uuid ≢ none
some-ne-none uuid e = cc

module _ {F : Type 0} (floats : Floats F) {Thing : Type 0} (request : Request F Thing) where
  failed-IsStuck :
      (now : ℕ → Time) (answers : Answers) (msg : Message Thing) (s : Stream F)
      → Dict.get msg.uri s.seen_uris ≡ none
      → answers.metadata_error ≡ true
      → msg.no_payloads ≡ false
      → one_of_uris msg.uri s.committed_uris ≡ false
      → IsStuck floats request msg.uri (read_point floats request now answers msg s)
  unfolding read_point ensure_seen
  failed-IsStuck now answers msg s new fails full uncommitted =
      simp (full, new)
        (add_if_seen-IsStuck floats request msg.uri now msg
          (initialize floats request answers msg.uri s).0
          (initialize floats request answers msg.uri s).1
          (
            rw (initialize-seen floats request msg.uri answers msg.uri s, str_eq_refl msg.uri)
                (some-ne-none (request.uuid_of (request.rewrite msg.uri))),
            rw (initialize-failed floats request msg.uri answers msg.uri s fails) uncommitted,
          ))

  -- The first message for a URI, while the metadata store fails: the URI counts as seen from then
  -- on, and whatever arrives later, and whatever the stores answer then, no goroutine ever commits
  -- the readings of the URI.
  pub failed_uri_never_committed :
      (now : ℕ → Time) (answers : Answers) (msg : Message Thing) (s : Stream F)
      (arrivals : List (Arrival floats request))
      → Dict.get msg.uri s.seen_uris ≡ none
      → answers.metadata_error ≡ true
      → msg.no_payloads ≡ false
      → one_of_uris msg.uri s.committed_uris ≡ false
      → one_of_uris msg.uri
          (read_points floats request arrivals
            (read_point floats request now answers msg s)).committed_uris
        ≡ false
  failed_uri_never_committed now answers msg s arrivals new fails full uncommitted =
      (read_points-IsStuck floats request msg.uri arrivals
        (read_point floats request now answers msg s)
        (failed-IsStuck now answers msg s new fails full uncommitted)).1
