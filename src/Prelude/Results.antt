-- ===== src/Prelude/Results.antt =====
-- Rust's `Result`, with the error type as a parameter, and its `?` operator as bind.
use mathlib.Core.Bool.{Bool, true, false}
use mathlib.Core.Option.{Option, none, some}
use mathlib.Core.Path.{◌≡◌, refl, ap, sym, ◌∙◌}
use native.Mathlib.Omega.{arith}

pub data Result (E A : Type 0) : Type 0 where
  err : E → Result E A
  ok : A → Result E A

infixl 5 ◌>>=◌ ◌>>◌
-- `let a = outcome?; rest a`
abbrev pub ◌>>=◌ : {E A B : Type 0} → Result E A → (A → Result E B) → Result E B
err failure >>= rest = err failure
ok value >>= rest = rest value

-- `check?; rest`
abbrev pub ◌>>◌ : {E B : Type 0} → Result E (Unit {0}) → Result E B → Result E B
check >> rest = check >>= λ _. rest

-- `if failed { return Err(e) }`
abbrev pub refuse_if : {E : Type 0} → Bool → E → Result E (Unit {0})
refuse_if true e = err e
refuse_if false e = ok tt

-- `Option::ok_or`
abbrev pub ok_or : {E A : Type 0} → Option A → E → Result E A
ok_or none e = err e
ok_or (some a) e = ok a

-- `Result::ok`
abbrev pub to_option : {E A : Type 0} → Result E A → Option A
to_option (ok a) = some a
to_option (err e) = none

-- A chain that succeeds has succeeded at its first step.
pub >>=-ok :
    {E A B : Type 0} (r : Result E A) (k : A → Result E B) (b : B)
    → (r >>= k) ≡ ok b
    → (a : A) × (r ≡ ok a) × (k a ≡ ok b)
>>=-ok (err e) k b h = grind arith
>>=-ok (ok a) k b h = (a, refl, h)

pub refuse_if-ok :
    {E B : Type 0} (refused : Bool) (e : E) (rest : Result E B) (b : B)
    → (refuse_if refused e >> rest) ≡ ok b
    → (refused ≡ false) × (rest ≡ ok b)
refuse_if-ok true e rest b h = grind arith
refuse_if-ok false e rest b h = (refl, h)

pub ok_inj : {E A : Type 0} (x y : A) (r : Result E A) → r ≡ ok x → r ≡ ok y → x ≡ y
ok_inj {E} {A} x y r h k = ap (λ (r : Result E A). elim r [ err e ↦ x | ok v ↦ v ]) (sym h ∙ k)
