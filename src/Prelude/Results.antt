-- ===== src/Prelude/Results.antt =====
-- A Go result with an error: the value, or the error's text.
use mathlib.Core.Path.{◌≡◌, refl}
use mocking_box.Prelude.Strings.{GoString}

pub data Result {ℓ} (A : Type ℓ) : Type ℓ where
  ok : A → Result A
  fail : GoString → Result A

-- What follows `if err != nil { return err }`
abbrev pub and_then {ℓ κ} : {A : Type ℓ} {B : Type κ} → Result A → (A → Result B) → Result B
and_then (ok a) f = f a
and_then (fail e) f = fail e

-- The result is a value.
abbrev pub IsOk {ℓ} : {A : Type ℓ} → Result A → Type 0
IsOk (ok a) = Unit
IsOk (fail e) = ⊥

-- A chain that succeeds succeeded at its first step.
pub and_then-ok {ℓ κ} :
    {A : Type ℓ} {B : Type κ} (r : Result A) (f : A → Result B) (b : B)
    → and_then r f ≡ ok b
    → (a : A) × ((r ≡ ok a) × (f a ≡ ok b))
and_then-ok (ok a) f b e = (a, (refl, e))
and_then-ok (fail m) f b e = cc

pub ok_inj {ℓ} : {A : Type ℓ} {a b : A} → ok a ≡ ok b → a ≡ b
ok_inj e = cc

pub fail-ne_ok {ℓ} : {A : Type ℓ} {m : GoString} {a : A} → fail m ≡ ok a → ⊥
fail-ne_ok e = cc

-- A step that may fail and changes a state, and what follows it if it succeeds.
abbrev pub then_run {ℓ κ ι} :
    {A : Type ℓ} {B : Type κ} {S : Type ι} → Result A × S → (A → S → Result B × S) → Result B × S
then_run (ok a, s) f = f a s
then_run (fail e, s) f = (fail e, s)

pub then_run-return {ℓ κ} :
    {A : Type ℓ} {S : Type κ} (r : Result A × S) → then_run r (λ a s. (ok a, s)) ≡ r
then_run-return (ok a, s) = refl
then_run-return (fail e, s) = refl

pub then_run-ext {ℓ κ ι} :
    {A : Type ℓ} {B : Type κ} {S : Type ι} (r : Result A × S) (f g : A → S → Result B × S)
    → ((a : A) (s : S) → f a s ≡ g a s)
    → then_run r f ≡ then_run r g
then_run-ext (ok a, s) f g h = h a s
then_run-ext (fail e, s) f g h = refl

-- A chain that succeeds succeeded at its first step.
pub then_run-ok {ℓ κ ι} :
    {A : Type ℓ} {B : Type κ} {S : Type ι} (r : Result A × S) (f : A → S → Result B × S) (b : B)
    (t : S)
    → then_run r f ≡ (ok b, t)
    → (a : A) × ((s : S) × ((r ≡ (ok a, s)) × (f a s ≡ (ok b, t))))
then_run-ok (ok a, s) f b t e = (a, (s, (refl, e)))
then_run-ok (fail m, s) f b t e = cc
