-- ===== src/Base/Outcome.antt =====
-- A Go result `(value, error)`; an error is read only through its text.
use mathlib.Core.Path.{◌≡◌, refl, ap}
use mathlib.Core.Logic.{◌⊎◌, inl, inr}
use Prim.Native.String.{String, ◌++◌ as ◌<>◌}

pub data Result {ℓ} (A : Type ℓ) : Type ℓ where
  ok : (value : A) → Result A
  err : (problem : String) → Result A

infixl 5 ◌>>=◌
abbrev pub ◌>>=◌ {ℓ κ} : {A : Type ℓ} {B : Type κ} → Result A → (A → Result B) → Result B
err problem >>= next = err problem
ok value >>= next = next value

-- `fmt.Errorf("prefix: %w", err)`
abbrev pub wrap {ℓ} : {A : Type ℓ} → String → Result A → Result A
wrap prefix (ok a) = ok a
wrap prefix (err e) = err (prefix <> ": " <> e)

-- The parts of a chain that ended well.
pub >>=-eq-ok {ℓ κ} :
    {A : Type ℓ} {B : Type κ} {last : B} (first : Result A) (next : A → Result B)
    → (first >>= next) ≡ ok last
    → (value : A) × (first ≡ ok value) × (next value ≡ ok last)
>>=-eq-ok (err problem) next ended = cc
>>=-eq-ok (ok value) next ended = (value, refl, ended)

pub wrap-eq-ok {ℓ} :
    {A : Type ℓ} (prefix : String) (m : Result A) {a : A} → wrap prefix m ≡ ok a → m ≡ ok a
wrap-eq-ok prefix (ok a) e = e
wrap-eq-ok prefix (err e) h = cc

pub ok-injective {ℓ} : {A : Type ℓ} {a b : A} → ok a ≡ ok b → a ≡ b
ok-injective {a} e = ap (λ r. elim r [ ok x ↦ x | err _ ↦ a ]) e

pub ok-ne-err {ℓ} : {A : Type ℓ} {a : A} {e : String} → ok a ≡ err e → ⊥
ok-ne-err h = cc

pub Result-cases {ℓ} :
    {A : Type ℓ} (r : Result A) → ((a : A) × (r ≡ ok a)) ⊎ ((e : String) × (r ≡ err e))
Result-cases (ok a) = inl (a, refl)
Result-cases (err e) = inr (e, refl)
