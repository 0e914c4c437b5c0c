-- ===== src/Config/Generator/Names/Laws.antt =====
-- What `sanitizeName` of internal/config/generator.go promises, and which names it confuses.
use text.Mathlib.TextLemmas.{
  nil≢cons, cons≢nil, head-eq_of_cons-eq, tail-eq_of_cons-eq, nil-append, cons-append,
}
use text.Mathlib.TextEquality.{Char-path}
use nginx_operator.Base.{
  arith, code, ◌≡◌, refl, ◌↔◌, ◌⊎◌, inl, inr, String, ◌<>◌, Char, true, false, ap, sym, ◌∙◌,
  Bool-cases,
}
use nginx_operator.Config.Generator.Names.{is_special, sanitize_char, sanitize_name}

-- No character of a text is a dot, a slash, a dash or a space.
abbrev pub IsPlain : String → Type 0
IsPlain String.[] = Unit
IsPlain (String.◌∷◌ c s) = (is_special c ≡ false) × IsPlain s

-- A dot, a slash, a dash, a space or an underscore.
abbrev pub IsBlurred : Char → Type 0
IsBlurred c =
    (code c ≡ b'.') ⊎ (code c ≡ b'/') ⊎ (code c ≡ b'-') ⊎ (code c ≡ b' ') ⊎ (code c ≡ b'_')

-- Two texts of one length that differ only where both have one of these characters.
abbrev pub Alike : String → String → Type 0
Alike String.[] String.[] = Unit
Alike (String.◌∷◌ c s) (String.◌∷◌ d t) = ((c ≡ d) ⊎ (IsBlurred c × IsBlurred d)) × Alike s t
Alike _ _ = ⊥

sanitize_char-plain : (c : Char) → is_special (sanitize_char c) ≡ false
unfolding sanitize_char
sanitize_char-plain c = elim (Bool-cases (is_special c)) [
  | inl special ↦ rw special refl
  | inr plain ↦ rw plain plain
]

sanitize_char_of_plain : (c : Char) → is_special c ≡ false → sanitize_char c ≡ c
unfolding sanitize_char
sanitize_char_of_plain c h = rw h refl

-- The result of `sanitizeName` has no dot, slash, dash or space.
pub sanitize_name-IsPlain : (s : String) → IsPlain (sanitize_name s)
unfolding sanitize_name
sanitize_name-IsPlain String.[] = tt
sanitize_name-IsPlain (String.◌∷◌ c s) = (sanitize_char-plain c, sanitize_name-IsPlain s)

-- A text without these characters is left as it is.
pub sanitize_name_of_IsPlain : (s : String) → IsPlain s → sanitize_name s ≡ s
unfolding sanitize_name
sanitize_name_of_IsPlain String.[] h = refl
sanitize_name_of_IsPlain (String.◌∷◌ c s) (p, h) =
    rw (sanitize_char_of_plain c p, sanitize_name_of_IsPlain s h)

pub sanitize_name-append :
    (s t : String) → sanitize_name (s <> t) ≡ sanitize_name s <> sanitize_name t
unfolding sanitize_name
sanitize_name-append String.[] t = rw (nil-append, nil-append)
sanitize_name-append (String.◌∷◌ c s) t =
    rw (cons-append, cons-append) (ap (String.◌∷◌ (sanitize_char c)) (sanitize_name-append s t))

sanitize_char_of_special : (c : Char) → is_special c ≡ true → sanitize_char c ≡ "_"
unfolding sanitize_char
sanitize_char_of_special c h = rw h refl

special-IsBlurred : (c : Char) → is_special c ≡ true → IsBlurred c
unfolding is_special
special-IsBlurred c h = ground arith

blurred_special : (c : Char) → IsBlurred c → (is_special c ≡ true) ⊎ (code c ≡ b'_')
unfolding is_special
blurred_special c h = ground arith

-- The characters whose image is an underscore are these.
sanitize_char-IsBlurred : (c : Char) → (sanitize_char c ≡ "_") ↔ IsBlurred c
unfolding is_special sanitize_char
sanitize_char-IsBlurred c = (
  λ e. elim (Bool-cases (is_special c)) [
    | inl special ↦ special-IsBlurred c special
    | inr plain ↦ inr (inr (inr (inr (ap code (sym (sanitize_char_of_plain c plain) ∙ e)))))
  ],
  λ h. elim (blurred_special c h) [
    | inl special ↦ sanitize_char_of_special c special
    | inr same ↦ ap sanitize_char (Char-path c "_" same)
  ],
)

sanitize_char_alike :
    (c d : Char) → sanitize_char c ≡ sanitize_char d → (c ≡ d) ⊎ (IsBlurred c × IsBlurred d)
sanitize_char_alike c d e =
    let of_c = (sanitize_char-IsBlurred c).0 in
    let of_d = (sanitize_char-IsBlurred d).0 in
    elim (Bool-cases (is_special c)) [
      | inl special ↦
          let c_is = sanitize_char_of_special c special in inr (of_c c_is, of_d (sym e ∙ c_is))
      | inr plain ↦ elim (Bool-cases (is_special d)) [
        | inl special ↦
            let d_is = sanitize_char_of_special d special in inr (of_c (e ∙ d_is), of_d d_is)
        | inr plain' ↦
            inl (sym (sanitize_char_of_plain c plain) ∙ e ∙ sanitize_char_of_plain d plain')
      ]
    ]

same_char :
    (c d : Char) → ((c ≡ d) ⊎ (IsBlurred c × IsBlurred d)) → sanitize_char c ≡ sanitize_char d
same_char c d (inl e) = ap sanitize_char e
same_char c d (inr (a, b)) = (sanitize_char-IsBlurred c).1 a ∙ sym ((sanitize_char-IsBlurred d).1 b)

-- `sanitizeName` gives two texts one name exactly if they have one length and differ only where both
-- have a dot, a slash, a dash, a space or an underscore.
pub sanitize_name-eq_iff : (s t : String) → (sanitize_name s ≡ sanitize_name t) ↔ Alike s t
unfolding sanitize_name
sanitize_name-eq_iff String.[] String.[] = (λ _. tt, λ _. refl)
sanitize_name-eq_iff String.[] (String.◌∷◌ d t) = (λ e. nil≢cons e, λ h. absurd h)
sanitize_name-eq_iff (String.◌∷◌ c s) String.[] = (λ e. cons≢nil e, λ h. absurd h)
sanitize_name-eq_iff (String.◌∷◌ c s) (String.◌∷◌ d t) =
    let (to, from) = sanitize_name-eq_iff s t in
    (
      λ e. (sanitize_char_alike c d (head-eq_of_cons-eq e), to (tail-eq_of_cons-eq e)),
      λ (h, k). cc (same_char c d h, from k),
    )
