-- ===== src/Manifest/Migration.antt =====
-- `migrateClaudeMd` of src/manifest.ts and the headings that it looks for.
use Prim.Native.Char.{Char, code}
use Prim.Native.String
use inter_claude_connector.Base.{
  ℕ, zero, suc, String, Bool, true, false, not, ◌&&◌, ◌||◌, Option, none, some, List, [], ◌∷◌, ◌++◌,
  ◌==◌, leb, nat_eq, if◌then◌else◌, is_some, any, includes,
}
use inter_claude_connector.Strings.{
  is_space, trim_start, trim, split_lines, join_lines, ends_with_newline,
}
use inter_claude_connector.Server.Routes.{strip_prefix}
use inter_claude_connector.Manifest.{match_begin, find_region, wrap_claude_md_with_markers}

abbrev pub icc_canonical_headings : List String
icc_canonical_headings =
    "# ICC Inbox" ∷ "# ICC Activation & Mail Watcher" ∷ "# ICC Config Drift" ∷ []

abbrev pub is_word : Char → Bool
is_word c =
    (leb b'a' (code c) && leb (code c) b'z')
    || (leb b'A' (code c) && leb (code c) b'Z')
    || (leb b'0' (code c) && leb (code c) b'9')
    || nat_eq (code c) b'_'

-- `\b` behind a word character
abbrev pub at_boundary : String → Bool
at_boundary String.[] = true
at_boundary (String.◌∷◌ c s) = not (is_word c)

-- `ICC\b`
abbrev pub icc_word : String → Bool
icc_word s = elim (strip_prefix "ICC" s) [ none ↦ false | some rest ↦ at_boundary rest ]

abbrev pub either_case : Char → (upper lower : ℕ) → Bool
either_case c upper lower = nat_eq (code c) upper || nat_eq (code c) lower

-- `ICC\b` without regard to case
abbrev pub any_icc_word : String → Bool
any_icc_word (String.◌∷◌ a (String.◌∷◌ b (String.◌∷◌ c s))) =
    either_case a b'I' b'i' && either_case b b'C' b'c' && either_case c b'C' b'c' && at_boundary s
any_icc_word _ = false

abbrev pub starts_with_space : String → Bool
starts_with_space String.[] = false
starts_with_space (String.◌∷◌ c s) = is_space c

-- Drops at most `n` characters `#`.
unfoldable pub drop_hashes : (n : ℕ) → String → String
drop_hashes zero s = s
drop_hashes (suc n) String.[] = ""
drop_hashes (suc n) (String.◌∷◌ c s) =
    let rest = drop_hashes n s in if nat_eq (code c) b'#' then rest else String.◌∷◌ c s

-- `/^#{1,6}\s+ICC\b/i`
unfoldable pub is_fuzzy_icc_heading : String → Bool
unfolding drop_hashes
is_fuzzy_icc_heading line =
    let rest = drop_hashes 6 line in
    is_some (strip_prefix "#" line) && starts_with_space rest && any_icc_word (trim_start rest)

abbrev pub not_icc_behind_space : String → Bool
not_icc_behind_space String.[] = false
not_icc_behind_space (String.◌∷◌ c s) = is_space c && not (icc_word s)

-- `/^#\s+(?!ICC\b)/`: of several spaces the expression can leave one to the lookahead.
unfoldable pub is_non_icc_h1 : String → Bool
is_non_icc_h1 line = elim (strip_prefix "#" line) [
  | none ↦ false
  | some rest ↦ not_icc_behind_space rest
]

-- The lines before the first canonical heading, and the lines behind it.
unfoldable pub split_heading : List String → Option (List String × List String)
split_heading [] = none
split_heading (l ∷ ls) =
    let later = split_heading ls in
    if includes icc_canonical_headings (trim l)
    then some ([], ls)
    else elim later [ none ↦ none | some (before, rest) ↦ some (l ∷ before, rest) ]

-- The lines from the next heading on that is not of ICC.
unfoldable pub after_region : List String → List String
unfolding is_non_icc_h1
after_region [] = []
after_region (l ∷ ls) = let rest = after_region ls in if is_non_icc_h1 l then l ∷ ls else rest

unfoldable pub drop_blank : List String → List String
drop_blank [] = []
drop_blank (l ∷ ls) = let rest = drop_blank ls in if trim l == "" then rest else l ∷ ls

unfoldable pub drop_blank_end : List String → List String
drop_blank_end [] = []
drop_blank_end (l ∷ ls) = elim (drop_blank_end ls) [
  | [] ↦ if trim l == "" then [] else l ∷ []
  | m ∷ ms ↦ l ∷ m ∷ ms
]

-- The texts with an empty line between them: `parts.join('\n\n')`.
abbrev pub join_parts : List String → String
join_parts [] = ""
join_parts (p ∷ []) = p
join_parts (p ∷ q ∷ []) = String.◌++◌ p (String.◌++◌ "\n\n" q)
join_parts (p ∷ q ∷ r ∷ ps) =
    String.◌++◌ p (String.◌++◌ "\n\n" (String.◌++◌ q (String.◌++◌ "\n\n" r)))

abbrev pub part : List String → List String
part [] = []
part (l ∷ ls) = join_lines (l ∷ ls) ∷ []

unfoldable pub replace_lines : (wrapped : String) (before rest : List String) → String
unfolding after_region drop_blank drop_blank_end
replace_lines wrapped before rest =
    join_parts (part (drop_blank_end before) ++ wrapped ∷ part (drop_blank (after_region rest)))

-- The replacement text of `replace`: `$$`, `$&`, and the texts around the match.
unfoldable pub expand : (matched before after : String) → String → String
expand matched before after String.[] = ""
expand matched before after (String.◌∷◌ c String.[]) = String.◌∷◌ c ""
expand matched before after (String.◌∷◌ c (String.◌∷◌ d s)) =
    let skip = expand matched before after s in
    let plain = String.◌∷◌ c (expand matched before after (String.◌∷◌ d s)) in
    if not (nat_eq (code c) b'$')
    then plain
    else if nat_eq (code d) b'$'
    then String.◌++◌ "$" skip
    else if nat_eq (code d) b'&'
    then String.◌++◌ matched skip
    else if nat_eq (code d) 96
    then String.◌++◌ before skip
    else if nat_eq (code d) 39
    then String.◌++◌ after skip
    else plain

unfoldable pub replace_region : String → (replacement : String) → String
unfolding expand
replace_region existing replacement = elim (find_region existing) [
  | none ↦ existing
  | some r ↦
      let matched = String.◌++◌ r.opening (String.◌++◌ r.inner r.closing) in
      String.◌++◌ r.before (String.◌++◌ (expand matched r.before r.after replacement) r.after)
]

unfoldable pub has_begin : String → Bool
unfolding match_begin
has_begin String.[] = false
has_begin (String.◌∷◌ c s) = is_some (match_begin (String.◌∷◌ c s)) || has_begin s

-- The block behind the text.
unfoldable pub append_block : String → (wrapped : String) → String
append_block existing wrapped =
    if trim existing == ""
    then wrapped
    else String.◌++◌ existing
        (String.◌++◌ (if ends_with_newline existing then "\n" else "\n\n") wrapped)

-- Whether the user is warned, and the new text.
unfoldable pub migrate_claude_md : (existing new_inner : String) → Bool × String
unfolding has_begin replace_region split_heading replace_lines is_fuzzy_icc_heading append_block
migrate_claude_md existing new_inner =
    let wrapped = wrap_claude_md_with_markers new_inner in
    if has_begin existing
    then (false, replace_region existing wrapped)
    else elim (split_heading (split_lines existing)) [
      | some (before, rest) ↦ (false, replace_lines wrapped before rest)
      | none ↦ (any is_fuzzy_icc_heading (split_lines existing), append_block existing wrapped)
    ]
