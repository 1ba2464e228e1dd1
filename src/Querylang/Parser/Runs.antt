-- ===== src/Querylang/Parser/Runs.antt =====
-- Runs of the parser of querylang/query.go: how they compose, and where they stand in an input.
use Prim.Native.Nat.add
use native.Mathlib.Nat.{zero-add}
use durandal.Prelude.{
  ℕ, zero, suc, ◌+◌, ◌≡◌, refl, ap, ◌∙◌, Bool, true, false, Option, none, some, List, [], ◌∷◌, ◌++◌,
}
use durandal.Prelude.Int.{ℤ}
use durandal.Prelude.Str.{Str}
use durandal.Prelude.Outcome.{Outcome, ok, err, panic, ◌>>=◌}
use durandal.Querylang.Parser.Lexer.{Scanned, Meaning}
use durandal.Querylang.Parser.Values.{SymType, Clock}
use durandal.Querylang.Parser.Machine.{Slot, Machine, Next, more, done, step, run}
use durandal.Querylang.Parser.Grammar.{Token}

-- What the lexer remembers and no step looks at: the last token shown, the tokens, the last text.
abbrev pub Memory : Type 0
Memory = Str × List Str × Str

module _ (at_end : Scanned) (shown : List Token → Str) where
  -- The results of the scanner for tokens of the first line. How a token is shown may depend on
  -- where it stands.
  abbrev pub place : List Token → List Scanned
  place [] = []
  place ((code, value) ∷ ts) =
      record { token = code; value = value; line = 1; shown = shown ((code, value) ∷ ts) }
      ∷ place ts

  -- The parser with a stack, the number of a token that was read ahead, and tokens to come.
  abbrev pub parser : List Slot → ℤ → SymType → Option ℤ → List Token → Memory → Meaning → Machine
  parser stack state value token ts memory meaning = record {
    stack = (state, value) ∷ stack;
    state = state;
    token = token;
    value = value;
    errflag = 0;
    lexer = record {
      input = place ts;
      at_end = at_end;
      lasttoken = memory.0;
      tokens = memory.1;
      text = memory.2;
    };
    meaning = meaning;
  }

continue : Clock → ℕ → Next → Outcome Next
continue clock n (more m) = run clock n m
continue clock n (done code m) = ok (done code m)

continue-add :
    (clock : Clock) (n k : ℕ)
    → ((m : Machine) → run clock (n + k) m ≡ (run clock n m >>= continue clock k))
    → (o : Outcome Next)
    → (o >>= continue clock (n + k)) ≡ (o >>= continue clock n >>= continue clock k)
unfolding continue
continue-add clock n k ih panic = refl
continue-add clock n k ih (err e) = refl
continue-add clock n k ih (ok (done code m)) = refl
continue-add clock n k ih (ok (more m)) = ih m

run-add :
    (clock : Clock) (n k : ℕ) (m : Machine)
    → run clock (n + k) m ≡ (run clock n m >>= continue clock k)
unfolding run continue
run-add clock zero k m = rw zero-add
run-add clock (suc n) k m = rw add.suc (continue-add clock n k (run-add clock n k) (step clock m))

-- A run, and then another from where it ends, to whatever end.
pub run-run :
    (clock : Clock) (n k : ℕ) (a b : Machine) {r : Outcome Next}
    → run clock n a ≡ ok (more b)
    → run clock k b ≡ r
    → run clock (n + k) a ≡ r
unfolding continue
run-run clock n k a b first second =
    run-add clock n k a ∙ (ap (λ o. o >>= continue clock k) first ∙ second)

-- More steps than a parse needs change nothing.
pub run_done :
    (clock : Clock) (n k : ℕ) (a : Machine) {code : ℕ} {b : Machine}
    → run clock n a ≡ ok (done code b)
    → run clock (n + k) a ≡ ok (done code b)
unfolding continue
run_done clock n k a ends = run-add clock n k a ∙ ap (λ o. o >>= continue clock k) ends

-- The memory after a token.
abbrev pub remember : (List Token → Str) → Token → List Token → Memory → Memory
remember shown t ts memory = (shown (t ∷ ts), memory.1 ++ t.1 ∷ [], t.1)

-- A token that may have been read ahead already: the one ahead, those to come, the memory.
abbrev pub ahead : Bool → ℤ → Option ℤ
ahead true number = some number
ahead false number = none

abbrev pub to_come : Bool → Token → List Token → List Token
to_come true t ts = ts
to_come false t ts = t ∷ ts

abbrev pub peek_memory : Bool → (List Token → Str) → Token → List Token → Memory → Memory
peek_memory true shown t ts memory = memory
peek_memory false shown t ts memory = remember shown t ts memory

-- Some steps lead from a machine to the parser with a stack, a state and its value, a token read
-- ahead, tokens to come and a meaning, whatever the lexer remembers.
module _ (clock : Clock) (at_end : Scanned) (shown : List Token → Str) where
  pub data Reads (a : Machine) (stack : List Slot) (state : ℤ) (value : SymType) (token : Option ℤ)
      (ts : List Token) (meaning : Meaning) : Type 0 where
    reads :
        (memory : Memory) (n : ℕ)
        → run clock n a ≡ ok (more (parser at_end shown stack state value token ts memory meaning))
        → Reads a stack state value token ts meaning

  pub before :
      (n : ℕ) {a b : Machine} {stack : List Slot} {state : ℤ} {value : SymType} {token : Option ℤ}
      {ts : List Token} {meaning : Meaning}
      → Reads b stack state value token ts meaning
      → run clock n a ≡ ok (more b)
      → Reads a stack state value token ts meaning
  before n (reads memory k second) first = reads memory (n + k) (run-run clock n k _ _ first second)

  module _ {a : Machine} {stack : List Slot} {state : ℤ} {value : SymType} {token : Option ℤ}
      {ts : List Token} {meaning : Meaning} where
    pub Reads-Reads :
        {stack' : List Slot} {state' : ℤ} {value' : SymType} {token' : Option ℤ} {ts' : List Token}
        {meaning' : Meaning}
        → Reads a stack state value token ts meaning
        → ((memory : Memory)
            → Reads
                (parser at_end shown stack state value token ts memory meaning)
                stack'
                state'
                value'
                token'
                ts'
                meaning')
        → Reads a stack' state' value' token' ts' meaning'
    Reads-Reads (reads memory n first) others = before n (others memory) first

    pub Reads-run :
        {r : Outcome Next}
        → Reads a stack state value token ts meaning
        → (k : ℕ)
        → ((memory : Memory)
            → run clock k (parser at_end shown stack state value token ts memory meaning) ≡ r)
        → (n : ℕ) × (run clock n a ≡ r)
    Reads-run (reads memory n first) k second = (n + k, run-run clock n k a _ first (second memory))
