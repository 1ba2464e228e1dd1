-- ===== src/Querylang/Parser/Tails.antt =====
-- The runs of the parser of querylang/query.go over the limit and the unit at the end of a data clause.
use durandal.Prelude.{◌≡◌, refl, Bool, true, false, Option, none, some, List, ◌∷◌}
use durandal.Prelude.Int.{ℤ, pos}
use durandal.Prelude.Str.{Str}
use durandal.Querylang.Parser.Lexer.{Scanned, Meaning}
use durandal.Querylang.Parser.Values.{SymType, Clock}
use durandal.Querylang.Parser.Machine.{Slot, Machine, step, run}
use durandal.Querylang.Parser.Runs.{Memory, ahead, to_come, parser, Reads, reads}
use durandal.Querylang.Parser.Grammar.{
  Token, name, number, unlimited, limited, stream_limited, both_limited, Tail, plain, as_unit,
}
use durandal.Querylang.Parser.Spelling.{tail, where_token, as_token, streamlimit_token}
use durandal.Querylang.Parser.Sense.{tail_sense}
use durandal.Querylang.Parser.Places.{
  Stop, limit_next, streamlimit_next, as_next, where_next, stop_token, stop_number,
}

-- The states behind the last time, where the next token has been read, and the states behind the
-- limit and the unit.
pub data Peeked : Type 0 where
  of_before of_after of_bare : Peeked

abbrev pub peeked_state : Peeked → ℤ
peeked_state of_before = pos 51
peeked_state of_after = pos 52
peeked_state of_bare = pos 97

abbrev pub peeked_limit : Peeked → ℤ
peeked_limit of_before = pos 77
peeked_limit of_after = pos 80
peeked_limit of_bare = pos 111

abbrev pub peeked_end : Peeked → ℤ
peeked_end of_before = pos 99
peeked_end of_after = pos 103
peeked_end of_bare = pos 120

-- The same behind a parenthesis.
pub data Fresh : Type 0 where
  of_paren of_statistical of_statistics of_window : Fresh

abbrev pub fresh_state : Fresh → ℤ
fresh_state of_paren = pos 119
fresh_state of_statistical = pos 139
fresh_state of_statistics = pos 140
fresh_state of_window = pos 144

abbrev pub fresh_limit : Fresh → ℤ
fresh_limit of_paren = pos 126
fresh_limit of_statistical = pos 142
fresh_limit of_statistics = pos 143
fresh_limit of_window = pos 147

abbrev pub fresh_end : Fresh → ℤ
fresh_end of_paren = pos 131
fresh_end of_statistical = pos 145
fresh_end of_statistics = pos 146
fresh_end of_window = pos 148

-- The first token of a tail that a where clause follows, and what comes behind it.
abbrev pub first_stop : Tail → Stop
first_stop (plain unlimited) = where_next
first_stop (plain (limited n)) = limit_next
first_stop (plain (stream_limited n)) = streamlimit_next
first_stop (plain (both_limited n k)) = limit_next
first_stop (as_unit unlimited u) = as_next
first_stop (as_unit (limited n) u) = limit_next
first_stop (as_unit (stream_limited n) u) = streamlimit_next
first_stop (as_unit (both_limited n k) u) = limit_next

abbrev pub behind_first : Tail → List Token → List Token
behind_first (plain unlimited) r = r
behind_first (plain (limited n)) r = number n ∷ where_token ∷ r
behind_first (plain (stream_limited n)) r = number n ∷ where_token ∷ r
behind_first (plain (both_limited n k)) r =
    number n ∷ streamlimit_token ∷ number k ∷ where_token ∷ r
behind_first (as_unit unlimited u) r = name u ∷ where_token ∷ r
behind_first (as_unit (limited n) u) r = number n ∷ as_token ∷ name u ∷ where_token ∷ r
behind_first (as_unit (stream_limited n) u) r = number n ∷ as_token ∷ name u ∷ where_token ∷ r
behind_first (as_unit (both_limited n k) u) r =
    number n ∷ streamlimit_token ∷ number k ∷ as_token ∷ name u ∷ where_token ∷ r

pub tail-first :
    (t : Tail) (r : List Token)
    → tail t (where_token ∷ r) ≡ stop_token (first_stop t) ∷ behind_first t r
tail-first (plain unlimited) r = refl
tail-first (as_unit unlimited u) r = refl
tail-first (plain (limited n)) r = refl
tail-first (as_unit (limited n) u) r = refl
tail-first (plain (stream_limited n)) r = refl
tail-first (as_unit (stream_limited n) u) r = refl
tail-first (plain (both_limited n k)) r = refl
tail-first (as_unit (both_limited n k) u) r = refl

-- Whether the where clause has been looked at when the tail is reduced.
abbrev pub peeks : Tail → Bool
peeks (plain l) = true
peeks (as_unit l u) = false

module _ (clock : Clock) (at_end : Scanned) (shown : List Token → Str) where
  abbrev at_state : List Slot → ℤ → SymType → Option ℤ → List Token → Memory → Meaning → Machine
  at_state = parser at_end shown

  -- The tail is read to the state behind its unit.
  abbrev ReadsTail :
      ℤ → ℤ → ℤ → Machine → Tail → List Slot → SymType → List Token → Meaning → Type 0
  ReadsTail state limit_state end_state a t stack v rest m =
      Reads clock at_end shown a
        ((limit_state, SymType.limit (tail_sense t m).0) ∷ (state, v) ∷ stack) end_state
        (SymType.timeconv (tail_sense t m).1) (ahead (peeks t) (pos 12))
        (to_come (peeks t) where_token rest) (tail_sense t m).2

  pub peeked_lem :
      (q : Peeked) (t : Tail) (stack : List Slot) (v : SymType) (rest : List Token)
      (memory : Memory) (m : Meaning)
      → ReadsTail
          (peeked_state q)
          (peeked_limit q)
          (peeked_end q)
          (at_state stack
            (peeked_state q)
            v
            (some (stop_number (first_stop t)))
            (behind_first t rest)
            memory
            m)
          t
          stack
          v
          rest
          m
  unfolding run step
  peeked_lem of_before (plain unlimited) stack v rest memory m = reads (_, _, _) 2 refl
  peeked_lem of_before (as_unit unlimited u) stack v rest memory m = reads (_, _, _) 4 refl
  peeked_lem _ (plain unlimited) stack v rest memory m = reads (_, _, _) 2 refl
  peeked_lem _ (as_unit unlimited u) stack v rest memory m = reads (_, _, _) 4 refl
  peeked_lem of_before (plain (limited n)) stack v rest memory m = reads (_, _, _) 4 refl
  peeked_lem of_before (as_unit (limited n) u) stack v rest memory m = reads (_, _, _) 6 refl
  peeked_lem _ (plain (limited n)) stack v rest memory m = reads (_, _, _) 4 refl
  peeked_lem _ (as_unit (limited n) u) stack v rest memory m = reads (_, _, _) 6 refl
  peeked_lem of_before (plain (stream_limited n)) stack v rest memory m = reads (_, _, _) 4 refl
  peeked_lem of_before (as_unit (stream_limited n) u) stack v rest memory m = reads (_, _, _) 6 refl
  peeked_lem _ (plain (stream_limited n)) stack v rest memory m = reads (_, _, _) 4 refl
  peeked_lem _ (as_unit (stream_limited n) u) stack v rest memory m = reads (_, _, _) 6 refl
  peeked_lem of_before (plain (both_limited n k)) stack v rest memory m = reads (_, _, _) 6 refl
  peeked_lem of_before (as_unit (both_limited n k) u) stack v rest memory m = reads (_, _, _) 8 refl
  peeked_lem _ (plain (both_limited n k)) stack v rest memory m = reads (_, _, _) 6 refl
  peeked_lem _ (as_unit (both_limited n k) u) stack v rest memory m = reads (_, _, _) 8 refl

  pub fresh_lem :
      (q : Fresh) (t : Tail) (stack : List Slot) (v : SymType) (rest : List Token) (memory : Memory)
      (m : Meaning)
      → ReadsTail
          (fresh_state q)
          (fresh_limit q)
          (fresh_end q)
          (at_state stack (fresh_state q) v none (tail t (where_token ∷ rest)) memory m)
          t
          stack
          v
          rest
          m
  unfolding run step
  fresh_lem of_paren (plain unlimited) stack v rest memory m = reads (_, _, _) 2 refl
  fresh_lem of_paren (as_unit unlimited u) stack v rest memory m = reads (_, _, _) 4 refl
  fresh_lem _ (plain unlimited) stack v rest memory m = reads (_, _, _) 2 refl
  fresh_lem _ (as_unit unlimited u) stack v rest memory m = reads (_, _, _) 4 refl
  fresh_lem of_paren (plain (limited n)) stack v rest memory m = reads (_, _, _) 4 refl
  fresh_lem of_paren (as_unit (limited n) u) stack v rest memory m = reads (_, _, _) 6 refl
  fresh_lem _ (plain (limited n)) stack v rest memory m = reads (_, _, _) 4 refl
  fresh_lem _ (as_unit (limited n) u) stack v rest memory m = reads (_, _, _) 6 refl
  fresh_lem of_paren (plain (stream_limited n)) stack v rest memory m = reads (_, _, _) 4 refl
  fresh_lem of_paren (as_unit (stream_limited n) u) stack v rest memory m = reads (_, _, _) 6 refl
  fresh_lem _ (plain (stream_limited n)) stack v rest memory m = reads (_, _, _) 4 refl
  fresh_lem _ (as_unit (stream_limited n) u) stack v rest memory m = reads (_, _, _) 6 refl
  fresh_lem of_paren (plain (both_limited n k)) stack v rest memory m = reads (_, _, _) 6 refl
  fresh_lem of_paren (as_unit (both_limited n k) u) stack v rest memory m = reads (_, _, _) 8 refl
  fresh_lem _ (plain (both_limited n k)) stack v rest memory m = reads (_, _, _) 6 refl
  fresh_lem _ (as_unit (both_limited n k) u) stack v rest memory m = reads (_, _, _) 8 refl
