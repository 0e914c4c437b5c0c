-- ===== src/Config/Generator/Names.antt =====
-- The text helpers of internal/config/generator.go.
pub mod Laws
use nginx_operator.Base.{
  ℕ, String, ◌<>◌, ◌==◌, Char, code, Bool, List, [], ◌∷◌, eqb, ◌||◌, if◌then◌else◌,
}
use nginx_operator.Base.Text.{repeat, join, split_char_from}

-- The characters that the replacer takes to an underscore.
unfoldable pub is_special : Char → Bool
is_special c = eqb (code c) b'.' || eqb (code c) b'/' || eqb (code c) b'-' || eqb (code c) b' '

unfoldable pub sanitize_char : Char → Char
unfolding is_special
sanitize_char c = if is_special c then "_" else c

-- `sanitizeName`: a replacer of single bytes goes through the text once.
unfoldable pub sanitize_name : String → String
sanitize_name String.[] = ""
sanitize_name (String.◌∷◌ c s) = String.◌∷◌ (sanitize_char c) (sanitize_name s)

-- the loop of `indentString` over the lines
unfoldable pub indent_lines : String → List String → List String
indent_lines pad [] = []
indent_lines pad (line ∷ lines) =
    (if line == "" then line else pad <> line) ∷ indent_lines pad lines

unfoldable pub indent_string : ℕ → String → String
unfolding indent_lines split_char_from repeat join
indent_string spaces s = join "\n" (indent_lines (repeat spaces " ") (split_char_from 10 "" s))

unfoldable pub default_value : String → String → String
default_value def val = if val == "" then def else val
