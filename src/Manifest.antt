-- ===== src/Manifest.antt =====
-- src/manifest.ts: the region of a CLAUDE.md that is between the markers, its hash, and the migration
-- to the markers. A regular expression is a function that gives the text it matches at the front and
-- the rest. SHA-256 and JSON are given by the caller.
pub mod Migration
pub mod Markers
pub mod Blocks
pub mod Syncing
mod Tests
use Prim.Native.Char.{Char, code}
use Prim.Native.String
use inter_claude_connector.Base.{String, Option, none, some, nat_eq, if◌then◌else◌}
use inter_claude_connector.Dict.{Dict, get, set, delete}
use inter_claude_connector.Strings.{is_space, trim_start, trim, ends_with_newline}
use inter_claude_connector.Server.Routes.{strip_prefix}

abbrev pub marker_begin : String
marker_begin = "<!-- ICC:BEGIN -->"

abbrev pub marker_end : String
marker_end = "<!-- ICC:END -->"

-- The white space at the front.
unfoldable pub leading_space : String → String
leading_space String.[] = ""
leading_space (String.◌∷◌ c s) =
    let rest = leading_space s in if is_space c then String.◌∷◌ c rest else ""

-- A character in front of the first part of a result.
abbrev pub prepend : Char → Option (String × String) → Option (String × String)
prepend c none = none
prepend c (some (t, rest)) = some (String.◌∷◌ c t, rest)

-- `[^>]*-->`
unfoldable pub close_begin : String → Option (String × String)
close_begin String.[] = none
close_begin (String.◌∷◌ c s) =
    let later = close_begin s in
    elim (strip_prefix "-->" (String.◌∷◌ c s)) [
      | some rest ↦ some ("-->", rest)
      | none ↦ if nat_eq (code c) b'>' then none else prepend c later
    ]

-- `\s*-->`
unfoldable pub close_end : String → Option (String × String)
close_end s = elim (strip_prefix "-->" (trim_start s)) [
  | none ↦ none
  | some rest ↦ some (String.◌++◌ (leading_space s) "-->", rest)
]

-- `<!--\s*` with a word behind it
unfoldable pub open_marker : (word : String) → String → Option (String × String)
open_marker word s = elim (strip_prefix "<!--" s) [
  | none ↦ none
  | some a ↦ elim (strip_prefix word (trim_start a)) [
    | none ↦ none
    | some b ↦ some (String.◌++◌ "<!--" (String.◌++◌ (leading_space a) word), b)
  ]
]

abbrev pub closed :
    (String → Option (String × String)) → Option (String × String) → Option (String × String)
closed close none = none
closed close (some (opening, rest)) = elim (close rest) [
  | none ↦ none
  | some (closing, behind) ↦ some (String.◌++◌ opening closing, behind)
]

-- `<!--\s*ICC:BEGIN[^>]*-->` and `<!--\s*ICC:END\s*-->`
unfoldable pub match_begin : String → Option (String × String)
unfolding open_marker close_begin
match_begin s = closed close_begin (open_marker "ICC:BEGIN" s)

unfoldable pub match_end : String → Option (String × String)
unfolding open_marker close_end
match_end s = closed close_end (open_marker "ICC:END" s)

-- `([\s\S]*?)` up to the first end marker: the text before it, the marker, and the text behind it.
unfoldable pub find_end : String → Option (String × (String × String))
unfolding match_end
find_end String.[] = none
find_end (String.◌∷◌ c s) =
    let later = find_end s in
    elim (match_end (String.◌∷◌ c s)) [
      | some (marker, rest) ↦ some ("", (marker, rest))
      | none ↦ elim later [ none ↦ none | some (inner, found) ↦ some (String.◌∷◌ c inner, found) ]
    ]

pub record Region : Type 0 where
  pub before : String
  pub opening : String
  pub inner : String
  pub closing : String
  pub after : String

unfoldable pub region_at : String → Option Region
unfolding match_begin find_end
region_at s = elim (match_begin s) [
  | none ↦ none
  | some (opening, rest) ↦ elim (find_end rest) [
    | none ↦ none
    | some (inner, (closing, after)) ↦
        some (record {
          before = "";
          opening = opening;
          inner = inner;
          closing = closing;
          after = after;
        })
  ]
]

-- The first match of `MARKER_REGEX`.
unfoldable pub find_region : String → Option Region
unfolding region_at
find_region String.[] = none
find_region (String.◌∷◌ c s) =
    let later = find_region s in
    elim (region_at (String.◌∷◌ c s)) [
      | some r ↦ some r
      | none ↦ elim later [
        | none ↦ none
        | some r ↦ some (record r { before = String.◌∷◌ c r.before })
      ]
    ]

unfoldable pub extract_claude_md_region : String → Option String
unfolding find_region
extract_claude_md_region content = elim (find_region content) [
  | none ↦ none
  | some r ↦ some (trim r.inner)
]

unfoldable pub hash_claude_md_region : (sha256 : String → String) → String → Option String
unfolding extract_claude_md_region
hash_claude_md_region sha256 content = elim (extract_claude_md_region content) [
  | none ↦ none
  | some inner ↦ some (sha256 inner)
]

unfoldable pub with_newline : String → String
with_newline inner = if ends_with_newline inner then inner else String.◌++◌ inner "\n"

unfoldable pub wrap_claude_md_with_markers : String → String
unfolding with_newline
wrap_claude_md_with_markers inner =
    String.◌++◌ marker_begin (String.◌++◌ "\n" (String.◌++◌ (with_newline inner) marker_end))

pub record AppliedConfigManifest : Type 0 where
  pub version : Option String
  pub applied_at : String
  pub files : Dict String

unfoldable pub read_manifest :
    (parse : String → Option AppliedConfigManifest) (path : String)
    → Dict String
    → Option AppliedConfigManifest
read_manifest parse path disk = elim (get path disk) [ none ↦ none | some text ↦ parse text ]

-- `tmp` is the name made of the path, the process and the time.
unfoldable pub write_manifest :
    (print : AppliedConfigManifest → String) (path tmp : String)
    → AppliedConfigManifest
    → Dict String
    → Dict String
write_manifest print path tmp manifest disk =
    let text = String.◌++◌ (print manifest) "\n" in set path text (delete tmp (set tmp text disk))
