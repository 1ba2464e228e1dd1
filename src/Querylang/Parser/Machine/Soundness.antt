-- ===== src/Querylang/Parser/Machine/Soundness.antt =====
-- The stacks of the parser of querylang/query.go, from step to step.
use durandal.Querylang.Parser.Lexer.{Scanned, lex, entry, token_of}
use durandal.Querylang.Parser.Machine.{
  Slot, Machine, Next, more, done, look_ahead, goto_state, handle_error, pop_values, top_state,
  action_of, reduce, by_production, find_exceptions, default_action, shift, step, run,
}
use mathlib.Core.Path.{subst}
use durandal.Prelude.{
  false, sym, ◌∙◌, ℕ, zero, suc, ◌≡◌, refl, Bool, true, false, not, some, Option-cases, Bool-cases,
  inl, inr, List, [], ◌∷◌, arith, if◌then◌else◌,
}
use durandal.Prelude.Int.{ℤ, pos, negsuc, pos_part, ltb_ℤ, eqb_ℤ, ◌+ℤ◌, ◌-ℤ◌}
use durandal.Prelude.Outcome.{Outcome, ok, err, panic, ◌>>=◌, >>=-eq-ok, ok-injective}
use durandal.Querylang.Parser.Tables.{
  sq_act, sq_pact, sq_chk, sq_def, sq_exca, sq_r1, sq_r2, sq_pgo,
}
use durandal.Querylang.Parser.Values.{SymType, Clock}
use durandal.Querylang.Parser.Process.{start}
use durandal.Querylang.Parser.Machine.Recovery.{
  is_state, AllStates, Sound, handle_error_lem, act-is_state,
}

-- What goes on from a step is sound.
abbrev pub Keeps : Outcome Next → Type 0
Keeps panic = Unit
Keeps (err e) = Unit
Keeps (ok (done code m)) = Unit
Keeps (ok (more m)) = Sound m

bind-Keeps {ℓ} :
    {A : Type ℓ} (o : Outcome A) (f : A → Outcome Next)
    → ((a : A) → o ≡ ok a → Keeps (f a))
    → Keeps (o >>= f)
bind-Keeps panic f k = tt
bind-Keeps (err e) f k = tt
bind-Keeps (ok a) f k = k a refl

if-Keeps : (b : Bool) (x y : Outcome Next) → Keeps x → Keeps y → Keeps (if b then x else y)
if-Keeps true x y hx hy = hx
if-Keeps false x y hx hy = hy

handle_error-Keeps : (m : Machine) → Sound m → Keeps (handle_error m)
handle_error-Keeps m sound = rw (handle_error_lem m sound) tt

pop_values-AllStates :
    (n : ℕ) (stack : List Slot) (values : List SymType)
    → AllStates stack
    → (r : List SymType × List Slot) → pop_values n stack values ≡ ok r
    → AllStates r.1
unfolding pop_values
pop_values-AllStates zero stack values h r e = rw (← ok-injective _ _ e) h
pop_values-AllStates (suc n) [] values h r e = cc
pop_values-AllStates (suc n) ((s, v) ∷ stack) values (hs, h) r e =
    pop_values-AllStates n stack (v ∷ values) h r e

goto-is_state : (symbol state s : ℤ) → goto_state symbol state ≡ ok s → is_state s ≡ true
unfolding goto_state
goto-is_state symbol state s e =
    let (g, _, e1) = >>=-eq-ok (entry sq_pgo symbol) _ e in
    let (base, e2, e3) = >>=-eq-ok (entry sq_act g) _ e1 in
    elim (Bool-cases (not (ltb_ℤ (g +ℤ state +ℤ pos 1) (pos 169)))) [
      | inl far ↦ rw (← ok-injective _ _ (rw far at e3)) (act-is_state g base e2)
      | inr near ↦
          let (target, e4, e5) = >>=-eq-ok (entry sq_act (g +ℤ state +ℤ pos 1)) _ (rw near at e3) in
          let (entered, _, e6) = >>=-eq-ok (entry sq_chk target) _ e5 in
          elim (Bool-cases (eqb_ℤ entered (pos 0 -ℤ symbol))) [
            | inl fits ↦
                rw (← ok-injective _ _ (rw fits at e6))
                  (act-is_state (g +ℤ state +ℤ pos 1) target e4)
            | inr other ↦ rw (← ok-injective _ _ (rw other at e6)) (act-is_state g base e2)
          ]
    ]

reduce-Keeps :
    (clock : Clock) (production : ℤ) (m : Machine) → Sound m → Keeps (reduce clock production m)
unfolding reduce
reduce-Keeps clock production m (states, clear) = bind-Keeps (entry sq_r2 production) _ λ count _.
    bind-Keeps (pop_values (pos_part count) m.stack []) _ λ popped e.
      bind-Keeps (entry sq_r1 production) _ λ symbol _. bind-Keeps (top_state popped.1) _ λ below _.
        bind-Keeps (goto_state symbol below) _ λ state goes.
          bind-Keeps (action_of clock (pos_part production) popped.0 m.meaning) _ λ result _. (
            (
              goto-is_state symbol below state goes,
              pop_values-AllStates (pos_part count) m.stack [] states popped e,
            ),
            clear,
          )

by_production-Keeps :
    (clock : Clock) (n : ℤ) (m : Machine) → Sound m → Keeps (by_production clock n m)
by_production-Keeps clock n m sound =
    if-Keeps (eqb_ℤ n (pos 0)) _ _ (handle_error-Keeps m sound) (reduce-Keeps clock n m sound)

pub look_ahead-present : (m : Machine) (t : ℤ) → m.token ≡ some t → look_ahead m ≡ ok (t, m)
unfolding look_ahead
look_ahead-present m t present = cc

-- Looking ahead moves the lexer only, and keeps the token that it finds.
pub looked_ahead :
    (m : Machine) (r : ℤ × Machine)
    → Sound m
    → look_ahead m ≡ ok r
    → Sound r.1 × (r.1.meaning ≡ m.meaning) × (r.1.state ≡ m.state) × (r.1.token ≡ some (r.0))
unfolding look_ahead
looked_ahead m r sound e = elim (Option-cases m.token) [
  | inl absent ↦
      let (t, _, e1) = >>=-eq-ok (token_of (lex m.lexer).0) _ (rw absent at e) in
      rw (← ok-injective _ _ e1) (sound, refl, refl, refl)
  | inr (t, present) ↦
      let same : (t, m) ≡ r = ok-injective _ _ (sym (look_ahead-present m t present) ∙ e) in
      subst
        (λ (x : ℤ × Machine).
          Sound x.1 × (x.1.meaning ≡ m.meaning) × (x.1.state ≡ m.state) × (x.1.token ≡ some (x.0)))
        same (sound, refl, refl, present)
]

look_ahead-Sound : (m : Machine) (r : ℤ × Machine) → Sound m → look_ahead m ≡ ok r → Sound r.1
look_ahead-Sound m r sound e = (looked_ahead m r sound e).0

default_action-Keeps : (clock : Clock) (m : Machine) → Sound m → Keeps (default_action clock m)
unfolding default_action
default_action-Keeps clock m sound = bind-Keeps (entry sq_def m.state) _ λ n _.
    if-Keeps (not (eqb_ℤ n (negsuc 1))) _ _ (by_production-Keeps clock n m sound) (
      bind-Keeps (look_ahead m) _ λ ahead looks.
        bind-Keeps (find_exceptions sq_exca ahead.1.state ahead.0) _ λ x _.
          if-Keeps (ltb_ℤ x (pos 0)) _ _ tt
            (by_production-Keeps clock x ahead.1 (look_ahead-Sound m ahead sound looks)))

step-Keeps : (clock : Clock) (m : Machine) → Sound m → Keeps (step clock m)
unfolding step shift
step-Keeps clock m sound = bind-Keeps (entry sq_pact m.state) _ λ base _.
    if-Keeps (not (ltb_ℤ (negsuc 999) base)) _ _ (default_action-Keeps clock m sound) (
      bind-Keeps (look_ahead m) _ λ ahead looks.
        let here = look_ahead-Sound m ahead sound looks in
        if-Keeps _ _ _ (default_action-Keeps clock ahead.1 here) (
          bind-Keeps (entry sq_act (base +ℤ ahead.0)) _ λ state acts.
            bind-Keeps (entry sq_chk state) _ λ entered _.
              if-Keeps (eqb_ℤ entered ahead.0) _ _
                ((act-is_state (base +ℤ ahead.0) state acts, here.0), omega (arith, here.1))
                (default_action-Keeps clock ahead.1 here)))

more-injective : (a b : Machine) → ok (more a) ≡ ok (more b) → a ≡ b
more-injective a b e = cc

pub Keeps-more : (o : Outcome Next) (m : Machine) → Keeps o → o ≡ ok (more m) → Sound m
Keeps-more panic m k e = cc
Keeps-more (err x) m k e = cc
Keeps-more (ok (done code b)) m k e = cc
Keeps-more (ok (more b)) m k e = rw (← more-injective b m e) k

next-Keeps :
    (clock : Clock) (n : ℕ) (next : Next)
    → ((b : Machine) → Sound b → Keeps (run clock n b))
    → (o : Outcome Next) → Keeps o
    → o ≡ ok next
    → Keeps (elim next [ more b ↦ run clock n b | done code b ↦ ok (done code b) ])
next-Keeps clock n (more b) ih o keeps e = ih b (Keeps-more o b keeps e)
next-Keeps clock n (done code b) ih o keeps e = tt

pub run-Keeps : (clock : Clock) (n : ℕ) (m : Machine) → Sound m → Keeps (run clock n m)
unfolding run
run-Keeps clock zero m sound = sound
run-Keeps clock (suc n) m sound = bind-Keeps (step clock m) _ λ next steps.
    next-Keeps clock n next (run-Keeps clock n) (step clock m) (step-Keeps clock m sound) steps

pub start-Sound : (input : List Scanned) (at_end : Scanned) → Sound (start input at_end)
start-Sound input at_end = ((refl, tt), refl)
