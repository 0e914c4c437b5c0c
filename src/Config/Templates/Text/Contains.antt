-- ===== src/Config/Templates/Text/Contains.antt =====
-- Texts that stand in the texts which templates make.
use package.text.Mathlib.TextLemmas.{nil-append, append_assoc}
use nginx_operator.Base.{
  ◌≡◌, sym, ◌∙◌, ap, subst, ℕ, zero, suc, String, ◌<>◌, List, [], ◌∷◌, ◌++◌, Option, none, some,
  All, All-map,
}
use nginx_operator.Config.Templates.Text.{text, range}

-- One text stands in another.
abbrev pub Contains : String → String → Type 0
Contains part whole = (before : String) × (after : String) × (whole ≡ before <> (part <> after))

pub Contains-first : (s t : String) → Contains s (s <> t)
Contains-first s t = ("", t, sym (nil-append (s <> t)))

pub Contains-behind : (s part : String) {t : String} → Contains part t → Contains part (s <> t)
Contains-behind s part (before, after, e) =
    (s <> before, after, ap (λ u. s <> u) e ∙ sym (append_assoc s before (part <> after)))

pub Contains-before :
    (part : String) {s : String} (t : String) → Contains part s → Contains part (s <> t)
Contains-before part t (before, after, e) = (
  before,
  after <> t,
  ap (λ u. u <> t) e
      ∙ append_assoc before (part <> after) t
      ∙ ap (λ u. before <> u) (append_assoc part after t),
)

pub Contains-trans : (a b c : String) → Contains a b → Contains b c → Contains a c
Contains-trans a b c inner (before, after, e) =
    subst (Contains a) (sym e) (Contains-behind before a (Contains-before a after inner))

pub text-append : (xs ys : List String) → text (xs ++ ys) ≡ text xs <> text ys
unfolding text
text-append [] ys = sym (nil-append (text ys))
text-append (x ∷ xs) ys = ap (λ t. x <> t) (text-append xs ys) ∙ sym (append_assoc x _ _)

-- Pieces that follow one another.
pub text-Contains :
    (before part after : List String) → Contains (text part) (text (before ++ (part ++ after)))
text-Contains before part after = (
  text before,
  text after,
  text-append before (part ++ after) ∙ ap (λ t. text before <> t) (text-append part after),
)

-- Pieces that follow one another, the last ones at the head of a piece that is made of others.
pub spliced-Contains :
    (before part inner more after : List String)
    → Contains (text (part ++ inner)) (text (before ++ (part ++ (text (inner ++ more) ∷ after))))
unfolding text
spliced-Contains before part inner more after =
    (text before, text more <> text after, simp (text-append, append_assoc))

some-injective : {a b : String} → some a ≡ some b → a ≡ b
some-injective {a} e = ap (λ o. elim o [ some x ↦ x | none ↦ a ]) e

abbrev get_elem? : List String → ℕ → Option String
get_elem? [] i = none
get_elem? (x ∷ xs) zero = some x
get_elem? (x ∷ xs) (suc i) = get_elem? xs i

-- The piece of an index.
pub piece-Contains :
    (i : ℕ) (xs : List String) {s : String} → get_elem? xs i ≡ some s → Contains s (text xs)
unfolding text
piece-Contains i [] e = cc
piece-Contains zero (x ∷ xs) {s} e =
    subst (λ t. Contains t (x <> text xs)) (some-injective e) (Contains-first x (text xs))
piece-Contains (suc i) (x ∷ xs) {s} e = Contains-behind x s (piece-Contains i xs e)

pub range-Contains :
    {A : Type 0} (f : A → String) (xs : List A) → All (λ x. Contains (f x) (range f xs)) xs
unfolding range
range-Contains f [] = tt
range-Contains f (x ∷ xs) = (
  Contains-first (f x) _,
  All-map (λ y h. Contains-behind (f x) (f y) h) xs (range-Contains f xs),
)
