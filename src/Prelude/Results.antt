-- ===== src/Prelude/Results.antt =====
-- What a Python call ends with: a value or an exception. `diverge` is no Python value. It stands
-- for a loop that is still running when the fuel of the model is used up.
use mathlib.Core.Path.{◌≡◌, refl}
use mathlib.Core.Logic.{◌≢◌}

pub data Exception : Type 0 where
  struct_error key_error index_error value_error type_error attribute_error assertion_error
        runtime_error name_error io_error svn_error sftp_error :
      Exception

pub data Result {ℓ} (A : Type ℓ) : Type ℓ where
  ok : A → Result A
  raise : Exception → Result A
  diverge : Result A

infixl 5 ◌>>=◌ ◌>>◌
abbrev pub ◌>>=◌ {ℓ κ} : {B : Type κ} {A : Type ℓ} → Result A → (A → Result B) → Result B
diverge >>= next = diverge
raise error >>= next = raise error
ok value >>= next = next value

abbrev pub ◌>>◌ {ℓ κ} : {A : Type ℓ} {B : Type κ} → Result A → Result B → Result B
m >> k = m >>= λ _. k

-- What returns has returned step by step.
pub >>=-eq-ok {ℓ κ} :
    {B : Type κ} {A : Type ℓ} (step : Result A) (next : A → Result B) {last : B}
    → (step >>= next) ≡ ok last
    → (first : A) × (step ≡ ok first) × (next first ≡ ok last)
>>=-eq-ok diverge next e = cc
>>=-eq-ok (raise error) next e = cc
>>=-eq-ok (ok first) next e = (first, refl, e)

pub >>=-ne-ok {ℓ κ} :
    {A : Type ℓ} {B : Type κ} (m : Result A) (f : A → Result B) (b : B)
    → ((a : A) → f a ≢ ok b)
    → (m >>= f) ≢ ok b
>>=-ne-ok (ok a) f b h = h a
>>=-ne-ok (raise e) f b h = λ p. cc
>>=-ne-ok diverge f b h = λ p. cc
