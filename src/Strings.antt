-- ===== src/Strings.antt =====
-- JavaScript's methods on strings that several parts use: `trim`, `split('\n')`, `join('\n')` and
-- `endsWith('\n')`, by recursion on the characters.
use Prim.Native.Char.{Char, code}
use Prim.Native.String
use text.Mathlib.TextLemmas.{nil-append, cons-append}
use inter_claude_connector.Base.{
  ℕ, String, ◌≡◌, refl, Bool, false, ◌&&◌, ◌||◌, List, [], ◌∷◌, ◌==◌, leb, nat_eq, if◌then◌else◌,
  any,
}

-- White space and line ends of ECMAScript beyond U+0020.
abbrev wide_spaces : List ℕ
wide_spaces = 160 ∷ 5760 ∷ 8232 ∷ 8233 ∷ 8239 ∷ 8287 ∷ 12288 ∷ 65279 ∷ []

abbrev pub is_space : Char → Bool
is_space c =
    nat_eq (code c) b' '
    || (leb 9 (code c) && leb (code c) 13)
    || (leb 8192 (code c) && leb (code c) 8202)
    || any (λ n. nat_eq n (code c)) wide_spaces

unfoldable pub trim_start : String → String
trim_start String.[] = ""
trim_start (String.◌∷◌ c s) = let rest = trim_start s in if is_space c then rest else String.◌∷◌ c s

unfoldable pub trim_end : String → String
trim_end String.[] = ""
trim_end (String.◌∷◌ c s) =
    let rest = trim_end s in if is_space c && rest == "" then "" else String.◌∷◌ c rest

abbrev pub trim : String → String
trim s = trim_end (trim_start s)

abbrev pub is_newline : Char → Bool
is_newline c = nat_eq (code c) 10

abbrev pub prepend_char : Char → List String → List String
prepend_char c [] = String.◌∷◌ c "" ∷ []
prepend_char c (l ∷ ls) = String.◌∷◌ c l ∷ ls

unfoldable pub split_lines : String → List String
split_lines String.[] = "" ∷ []
split_lines (String.◌∷◌ c s) =
    let rest = split_lines s in if is_newline c then "" ∷ rest else prepend_char c rest

unfoldable pub join_lines : List String → String
join_lines [] = ""
join_lines (l ∷ []) = l
join_lines (l ∷ m ∷ ls) = String.◌++◌ l (String.◌++◌ "\n" (join_lines (m ∷ ls)))

unfoldable pub ends_with_newline : String → Bool
ends_with_newline String.[] = false
ends_with_newline (String.◌∷◌ c String.[]) = is_newline c
ends_with_newline (String.◌∷◌ c (String.◌∷◌ d s)) = ends_with_newline (String.◌∷◌ d s)

-- A text put in front of another by its characters, which computes where the first one is known.
abbrev pub chain : String → String → String
chain String.[] x = x
chain (String.◌∷◌ c s) x = String.◌∷◌ c (chain s x)

pub append-chain : (s x : String) → String.◌++◌ s x ≡ chain s x
append-chain String.[] x = nil-append x
append-chain (String.◌∷◌ c s) x = rw (cons-append, append-chain s x) refl
