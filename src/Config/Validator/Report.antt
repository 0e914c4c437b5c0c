-- ===== src/Config/Validator/Report.antt =====
-- The result of a validation pass, of internal/config/validator.go.
use mathlib.Core.Bool.{and_assoc}
use nginx_operator.Base.{
  Option, none, some, ℕ, suc, ◌∙◌, all, String, ◌<>◌, Bool, true, false, List, [], ◌∷◌, ◌++◌, map,
  ◌≡◌, refl, if◌then◌else◌, not, ◌&&◌, arith,
}
use nginx_operator.Base.Text.{quote, join}

pub record ValidationError : Type 0 where
  pub field : String
  pub message : String

pub record ValidationResult : Type 0 where
  pub valid : Bool
  pub errors : List ValidationError
  pub warnings : List String

-- `ValidationResult{Valid: true}`
abbrev pub no_errors : ValidationResult
no_errors = record { valid = true; errors = []; warnings = [] }

unfoldable pub add_error : String → String → ValidationResult → ValidationResult
add_error field message r = record r {
  valid = false;
  errors = r.errors ++ (record { field = field; message = message } ∷ []);
}

-- `if failed { result.addError(field, message) }`
unfoldable pub add_error_if : Bool → String → String → ValidationResult → ValidationResult
unfolding add_error
add_error_if failed field message r = if failed then add_error field message r else r

-- `if noted { result.Warnings = append(result.Warnings, message) }`
unfoldable pub add_warning_if : Bool → String → ValidationResult → ValidationResult
add_warning_if noted message r =
    if noted then record r { warnings = r.warnings ++ (message ∷ []) } else r

-- `(*ValidationError).Error`
unfoldable pub error_text : ValidationError → String
unfolding quote
error_text e = "validation error on field " <> quote e.field <> ": " <> e.message

unfoldable pub error_messages : ValidationResult → String
unfolding join error_text
error_messages r = join "; " (map error_text r.errors)

pub add_error_if-valid :
    (failed : Bool) (field message : String) (r : ValidationResult)
    → (add_error_if failed field message r).valid ≡ (r.valid && not failed)
unfolding add_error_if
add_error_if-valid failed field message r = ground arith

-- What holds of a value behind a pointer, if there is one.
abbrev pub Given {ℓ κ} : {A : Type ℓ} → (A → Type κ) → Option A → Type κ
Given P none = Unit
Given P (some a) = P a

-- The flag says whether an error was recorded.
pub record IsConsistent (r : ValidationResult) : Type 0 where
  pub no_error : r.valid ≡ true → r.errors ≡ []
  pub accepted : r.errors ≡ [] → r.valid ≡ true

concat-ne-nil {ℓ} : {A : Type ℓ} (xs : List A) (x : A) → xs ++ (x ∷ []) ≡ [] → false ≡ true
concat-ne-nil [] x h = cc
concat-ne-nil (y ∷ xs) x h = cc

pub no_errors-IsConsistent : IsConsistent no_errors
no_errors-IsConsistent = record { no_error = λ _. refl; accepted = λ _. refl }

pub add_error_if-IsConsistent :
    (failed : Bool) (field message : String) (r : ValidationResult)
    → IsConsistent r
    → IsConsistent (add_error_if failed field message r)
unfolding add_error_if
add_error_if-IsConsistent true field message r c = record {
  no_error = λ h. cc;
  accepted = λ h. concat-ne-nil r.errors (record { field = field; message = message }) h;
}
add_error_if-IsConsistent false field message r c = record {
  no_error = c.no_error;
  accepted = c.accepted;
}

pub add_warning_if-valid :
    (noted : Bool) (message : String) (r : ValidationResult)
    → (add_warning_if noted message r).valid ≡ r.valid
unfolding add_warning_if
add_warning_if-valid noted message r = ground arith

pub add_warning_if-IsConsistent :
    (noted : Bool) (message : String) (r : ValidationResult)
    → IsConsistent r
    → IsConsistent (add_warning_if noted message r)
unfolding add_warning_if
add_warning_if-IsConsistent true message r c = record {
  no_error = c.no_error;
  accepted = c.accepted;
}
add_warning_if-IsConsistent false message r c = record {
  no_error = c.no_error;
  accepted = c.accepted;
}

module _ {ℓ} {A : Type ℓ} (step : ℕ → A → ValidationResult → ValidationResult) where
  -- `for i, x := range xs { … }`, where a round only records errors
  unfoldable pub validate_each : ℕ → List A → ValidationResult → ValidationResult
  validate_each i [] r = r
  validate_each i (x ∷ xs) r = validate_each (suc i) xs (step i x r)

  pub validate_each-valid :
      (p : A → Bool)
      → ((i : ℕ) (x : A) (r : ValidationResult) → (step i x r).valid ≡ (r.valid && p x))
      → (i : ℕ) (xs : List A) (r : ValidationResult)
      → (validate_each i xs r).valid ≡ (r.valid && all p xs)
  unfolding validate_each
  validate_each-valid p h i [] r = ground arith
  validate_each-valid p h i (x ∷ xs) r =
      validate_each-valid p h (suc i) xs (step i x r) ∙ rw (h i x r) (and_assoc r.valid (p x) _)

  pub validate_each-IsConsistent :
      ((i : ℕ) (x : A) (r : ValidationResult) → IsConsistent r → IsConsistent (step i x r))
      → (i : ℕ) (xs : List A) (r : ValidationResult) → IsConsistent r
      → IsConsistent (validate_each i xs r)
  unfolding validate_each
  validate_each-IsConsistent h i [] r c = c
  validate_each-IsConsistent h i (x ∷ xs) r c =
      validate_each-IsConsistent h (suc i) xs (step i x r) (h i x r c)

pub ruleset consistency =
    (no_errors-IsConsistent, add_error_if-IsConsistent, add_warning_if-IsConsistent)
