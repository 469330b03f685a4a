-- ===== src/Instances/Sanitize.antt =====
-- `sanitize` of src/instances.ts, and the names that it makes. `to_lower_case` is JavaScript's, and given
-- by the caller.
use Prim.Native.Char.{Char, code}
use inter_claude_connector.Base.{String, Bool, false, ◌&&◌, ◌||◌, ◌==◌, leb, nat_eq, if◌then◌else◌}
use inter_claude_connector.Inbox.Signals.{take_chars}

abbrev pub is_dash : Char → Bool
is_dash c = nat_eq (code c) b'-'

-- `[a-z0-9_-]`
abbrev pub is_name_char : Char → Bool
is_name_char c =
    (leb b'a' (code c) && leb (code c) b'z')
    || (leb b'0' (code c) && leb (code c) b'9')
    || nat_eq (code c) b'_'
    || is_dash c

abbrev pub dash : Char
dash = "-"

unfoldable pub replace_chars : String → String
replace_chars String.[] = ""
replace_chars (String.◌∷◌ c s) =
    let rest = replace_chars s in if is_name_char c then String.◌∷◌ c rest else String.◌∷◌ dash rest

abbrev pub starts_with_dash : String → Bool
starts_with_dash String.[] = false
starts_with_dash (String.◌∷◌ c s) = is_dash c

-- `replace(/-+/g, '-')`
unfoldable pub collapse : String → String
collapse String.[] = ""
collapse (String.◌∷◌ c s) =
    let rest = collapse s in if is_dash c && starts_with_dash s then rest else String.◌∷◌ c rest

unfoldable pub drop_dashes : String → String
drop_dashes String.[] = ""
drop_dashes (String.◌∷◌ c s) =
    let rest = drop_dashes s in if is_dash c then rest else String.◌∷◌ c s

unfoldable pub drop_dashes_end : String → String
drop_dashes_end String.[] = ""
drop_dashes_end (String.◌∷◌ c s) =
    let rest = drop_dashes_end s in if is_dash c && rest == "" then "" else String.◌∷◌ c rest

-- `replace(/^-+|-+$/g, '')`
abbrev pub trim_dashes : String → String
trim_dashes s = drop_dashes_end (drop_dashes s)

unfoldable pub sanitize : (to_lower_case : String → String) → String → String
unfolding replace_chars collapse drop_dashes drop_dashes_end take_chars
sanitize to_lower_case name =
    let s =
      trim_dashes (take_chars 32 (trim_dashes (collapse (replace_chars (to_lower_case name))))) in
    if s == "" then "default" else s
