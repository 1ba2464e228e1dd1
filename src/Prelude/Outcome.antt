-- ===== src/Prelude/Outcome.antt =====
-- The end of a Go call: a value, an error that is returned, or a panic that unwinds the caller.
use mathlib.Core.Path.{◌≡◌, refl}
use mathlib.Core.Option.{some}
use durandal.Prelude.Str.{Str}

-- An error is named by its text.
pub data Outcome {ℓ} (A : Type ℓ) : Type ℓ where
  panic : Outcome A
  err : (text : Str) → Outcome A
  ok : (value : A) → Outcome A

module _ {ℓ κ} {A : Type ℓ} {B : Type κ} where
  infixl 5 ◌>>=◌
  -- The caller goes on only with a value.
  abbrev pub ◌>>=◌ : Outcome A → (A → Outcome B) → Outcome B
  panic >>= rest = panic
  err text >>= rest = err text
  ok value >>= rest = rest value

  -- A chain that ends with a value has a first call that does.
  pub >>=-eq-ok :
      (call : Outcome A) (rest : A → Outcome B) {last : B}
      → (call >>= rest) ≡ ok last
      → (value : A) × (call ≡ ok value) × (rest value ≡ ok last)
  >>=-eq-ok panic rest ends = cc
  >>=-eq-ok (err text) rest ends = cc
  >>=-eq-ok (ok value) rest ends = (value, refl, ends)

pub ok-injective {ℓ} : {A : Type ℓ} (a b : A) → ok a ≡ ok b → a ≡ b
ok-injective a b h = cc

pub ok_some-injective {ℓ} : {A : Type ℓ} (a b : A) → ok (some a) ≡ ok (some b) → a ≡ b
ok_some-injective a b h = cc
