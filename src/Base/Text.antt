-- ===== src/Base/Text.antt =====
-- What the source uses of Go's `strings`, `strconv` and `fmt`, over the characters of a text.
use Prim.Native.String.{char_at}
use nginx_operator.Base.{
  arith, subst, ◌≤◌, Bool-cases, inl, inr, ap, ℕ, suc, zero, ◌+◌, ◌/◌, ◌%◌, ◌≡◌, refl, Bool, true,
  false, ltb, eqb, Char, code, String, ◌<>◌, List, [], ◌∷◌, Option, none, some, if◌then◌else◌, ◌||◌,
}
use nginx_operator.Base.Int.{ℤ, pos, negsuc}

-- `s != ""`, or `{{ if .s }}` in a template
abbrev pub is_nonempty : String → Bool
is_nonempty String.[] = false
is_nonempty (String.◌∷◌ c s) = true

-- `strings.Repeat`
unfoldable pub repeat : ℕ → String → String
repeat zero s = ""
repeat (suc n) s = s <> repeat n s

-- `strings.Join(xs, sep)`
unfoldable pub join : String → List String → String
join sep [] = ""
join sep (x ∷ []) = x
join sep (x ∷ y ∷ ys) = x <> sep <> join sep (y ∷ ys)

-- `strings.Contains(s, c)` for a text of one character
unfoldable pub contains_char : ℕ → String → Bool
contains_char n String.[] = false
contains_char n (String.◌∷◌ c s) = eqb (code c) n || contains_char n s

-- `strings.ReplaceAll(s, old, new)` for texts of one character
unfoldable pub replace_char : ℕ → Char → String → String
replace_char n new String.[] = ""
replace_char n new (String.◌∷◌ c s) =
    String.◌∷◌ (if eqb (code c) n then new else c) (replace_char n new s)

-- `strings.SplitN(s, sep, 2)` for a separator of one character: the text behind the first one
unfoldable pub after_char : ℕ → String → Option String
after_char n String.[] = none
after_char n (String.◌∷◌ c s) = if eqb (code c) n then some s else after_char n s

-- `strings.Split(s, sep)` for a separator of one character: `cur` is the part read so far
unfoldable pub split_char_from : ℕ → String → String → List String
split_char_from n cur String.[] = cur ∷ []
split_char_from n cur (String.◌∷◌ c s) =
    let closed = cur ∷ split_char_from n "" s in
    let longer = split_char_from n (cur <> String.◌∷◌ c String.[]) s in
    if eqb (code c) n then closed else longer

abbrev singleton : Char → String
singleton c = String.◌∷◌ c String.[]

-- The decimal digits of a number; a number is more than enough fuel for its own digits.
unfoldable pub digits_from : ℕ → ℕ → String
digits_from zero n = singleton (char_at "0123456789" (n % 10))
digits_from (suc fuel) n =
    let more = digits_from fuel (n / 10) <> singleton (char_at "0123456789" (n % 10)) in
    if ltb n 10 then singleton (char_at "0123456789" n) else more

le_zero : (n : ℕ) → n ≤ 0 → 0 ≡ n
le_zero n small = omega arith

-- Fuel beyond the number changes nothing.
digits_from_enough : (fuel n : ℕ) → n ≤ fuel → digits_from fuel n ≡ digits_from (suc fuel) n
unfolding digits_from
digits_from_enough zero n small =
    subst (λ m. digits_from zero m ≡ digits_from 1 m) (le_zero n small) refl
digits_from_enough (suc fuel) n small = elim (Bool-cases (ltb n 10)) [
  | inl one ↦ rw one refl
  | inr more ↦ rw more (
      ap (λ s. s <> singleton (char_at "0123456789" (n % 10)))
        (digits_from_enough fuel (n / 10) (ground arith)))
]

-- `%d`
unfoldable pub show : ℕ → String
unfolding digits_from
show n = digits_from n n

unfoldable pub show_ℤ : ℤ → String
unfolding show
show_ℤ (pos n) = show n
show_ℤ (negsuc n) = "-" <> show (n + 1)

abbrev hex_digit : ℕ → String
hex_digit n = singleton (char_at "0123456789abcdef" n)

-- One character under `%q`. Characters from U+0080 on are taken for printable ones.
quote_char : Char → String
quote_char c =
    if eqb (code c) 0x22
    then "\\\""
    else if eqb (code c) 0x5c
    then "\\\\"
    else if eqb (code c) 7
    then "\\a"
    else if eqb (code c) 8
    then "\\b"
    else if eqb (code c) 9
    then "\\t"
    else if eqb (code c) 10
    then "\\n"
    else if eqb (code c) 11
    then "\\v"
    else if eqb (code c) 12
    then "\\f"
    else if eqb (code c) 13
    then "\\r"
    else if ltb (code c) 32 || eqb (code c) 127
    then "\\x" <> hex_digit (code c / 16) <> hex_digit (code c % 16)
    else singleton c

quote_body : String → String
quote_body String.[] = ""
quote_body (String.◌∷◌ c s) = quote_char c <> quote_body s

-- `%q`
unfoldable pub quote : String → String
unfolding quote_body quote_char
quote s = "\"" <> quote_body s <> "\""

text_tests :
    (show 65535 ≡ "65535")
    × (show_ℤ (negsuc 11) ≡ "-12")
    × (quote "a\"b\n" ≡ "\"a\\\"b\\n\"")
    × (join ", " ("a" ∷ "b" ∷ "c" ∷ []) ≡ "a, b, c")
    × (after_char b':' "nginx:1:2" ≡ some "1:2")
    × (split_char_from b'/' "" "a//b" ≡ "a" ∷ "" ∷ "b" ∷ [])
unfolding show_ℤ show quote join after_char split_char_from
text_tests = (refl, refl, refl, refl, refl, refl)
