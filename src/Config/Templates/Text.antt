-- ===== src/Config/Templates/Text.antt =====
-- What the templates use of Go's text/template: `range`, and `if` on a pointer.
pub mod Contains
use Prim.Native.Nat.{Ordering}
use Prim.Native.String.{compare}
use nginx_operator.Base.{String, ◌<>◌, Bool, true, false, List, [], ◌∷◌, Option, none, some}
use nginx_operator.Base.Dict.{Dict}
use nginx_operator.Base.Sort.{sort_slice}

unfoldable pub text : List String → String
text [] = ""
text (s ∷ ss) = s <> text ss

module _ {ℓ} {A : Type ℓ} where
  -- `{{ range .xs }} … {{ end }}`
  unfoldable pub range : (A → String) → List A → String
  range f [] = ""
  range f (x ∷ xs) = f x <> range f xs

  -- `{{ if .p }} … {{ else }} … {{ end }}`
  abbrev pub with_some : Option A → (A → String) → String → String
  with_some none f other = other
  with_some (some a) f other = f a

  abbrev key_before : String × A → String × A → Bool
  key_before (j, _) (k, _) = elim (compare j k) [ Ordering.lt ↦ true | _ ↦ false ]

  -- `range` goes through a map by its sorted keys.
  unfoldable pub sorted_entries : Dict A → List (String × A)
  unfolding sort_slice
  sorted_entries = sort_slice key_before
