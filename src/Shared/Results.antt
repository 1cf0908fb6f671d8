-- ===== src/Shared/Results.antt =====
-- What a call of the C code comes to: a normal return, the ERROR macro's message and exit(1),
-- or an access outside an array, which C leaves undefined.
use mathlib.Core.Path.{◌≡◌, refl}
use mathlib.Core.Option.{Option, none, some}

pub data Outcome {ℓ} (A : Type ℓ) : Type ℓ where
  ok : A → Outcome A
  exit_error : Outcome A
  out_of_bounds : Outcome A

infixl 5 ◌>>=◌
abbrev pub ◌>>=◌ {ℓ κ} : {A : Type ℓ} {B : Type κ} → Outcome A → (A → Outcome B) → Outcome B
ok a >>= f = f a
exit_error >>= f = exit_error
out_of_bounds >>= f = out_of_bounds

-- An array access: `none` is an index out of range.
abbrev pub access {ℓ} : {A : Type ℓ} → Option A → Outcome A
access none = out_of_bounds
access (some a) = ok a

-- A sequence that returned: its first part returned, and so did the rest on that value.
pub >>=-inverse {ℓ κ} :
    {A : Type ℓ} {B : Type κ} (o : Outcome A) (next : A → Outcome B) {result : B}
    → o >>= next ≡ ok result
    → (value : A) × (o ≡ ok value) × (next value ≡ ok result)
>>=-inverse (ok value) next returned = (value, refl, returned)
>>=-inverse exit_error next returned = cc
>>=-inverse out_of_bounds next returned = cc
