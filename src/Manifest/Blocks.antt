-- ===== src/Manifest/Blocks.antt =====
-- The block that src/manifest.ts writes, and that it reads and replaces the same block again.
use Prim.Native.String
use text.Mathlib.TextLemmas.{cons-append, nil-append, append_assoc}
use inter_claude_connector.Base.{String, ◌≡◌, refl, sym, inl, inr, true, false, some, Bool-cases}
use inter_claude_connector.Manifest.{
  marker_begin, marker_end, leading_space, close_begin, close_end, open_marker, match_begin,
  match_end, Region, region_at, with_newline, wrap_claude_md_with_markers,
}
use inter_claude_connector.Strings.{
  is_space, trim_start, trim_end, trim, ends_with_newline, chain, append-chain,
}
use inter_claude_connector.Server.Routes.{strip_prefix, contains}
use inter_claude_connector.Manifest.Markers.{
  ends_with_newline-append, Clear, find_end-Clear, contains-marker_newline,
}

pub match_begin-marker : (x : String) → match_begin (chain marker_begin x) ≡ some (marker_begin, x)
unfolding match_begin open_marker close_begin strip_prefix trim_start leading_space
match_begin-marker x = refl

match_end-marker : (x : String) → match_end (chain marker_end x) ≡ some (marker_end, x)
unfolding match_end open_marker close_end strip_prefix trim_start leading_space
match_end-marker x = refl

abbrev pub block_region : (inner after : String) → Region
block_region inner after = record {
  before = "";
  opening = marker_begin;
  inner = String.◌++◌ "\n" inner;
  closing = marker_end;
  after = after;
}

-- The block is a match with what follows it.
pub region_at-block :
    (w a : String)
    → Clear (String.◌++◌ "\n" w)
    → region_at (chain marker_begin (String.◌++◌ (String.◌++◌ "\n" w) (chain marker_end a)))
      ≡ some (block_region w a)
unfolding region_at
region_at-block w a c =
    let behind = String.◌++◌ (String.◌++◌ "\n" w) (chain marker_end a) in
    let ends = find_end-Clear (String.◌++◌ "\n" w) marker_end a _ _ c (match_end-marker a) in
    rw (region_at, match_begin-marker behind, ends) refl

-- The block and what follows it, by its parts.
pub wrap-parts :
    (i a : String)
    → String.◌++◌ (wrap_claude_md_with_markers i) a
      ≡ chain marker_begin (String.◌++◌ (String.◌++◌ "\n" (with_newline i)) (chain marker_end a))
unfolding wrap_claude_md_with_markers
wrap-parts i a =
    rw
      (
        sym (
            append-chain marker_begin
              (String.◌++◌ (String.◌++◌ "\n" (with_newline i)) (chain marker_end a))),
        sym (append-chain marker_end a),
      )
      (simp append_assoc)

newline-Clear :
    (w : String)
    → contains "<!--" w ≡ false
    → ends_with_newline w ≡ true
    → Clear (String.◌++◌ "\n" w)
unfolding contains ends_with_newline strip_prefix
newline-Clear String.[] h e = absurd (cc e)
newline-Clear (String.◌∷◌ c w) h e = rw (cons-append, nil-append) (h, e)

pub with_newline-Clear :
    (i : String) → contains "<!--" i ≡ false → Clear (String.◌++◌ "\n" (with_newline i))
unfolding with_newline
with_newline-Clear i h = elim (Bool-cases (ends_with_newline i)) [
  | inl e ↦ rw (with_newline, e) (newline-Clear i h e)
  | inr e ↦
      rw (with_newline, e)
        (newline-Clear (String.◌++◌ i "\n") (contains-marker_newline i h)
          (ends_with_newline-append i))
]

trim_end-newline : (s : String) → trim_end (String.◌++◌ s "\n") ≡ trim_end s
unfolding trim_end
trim_end-newline String.[] = refl
trim_end-newline (String.◌∷◌ c s) = rw (cons-append, trim_end-newline s) refl

-- A newline behind a text does not matter to `trim`, nor one in front.
trim-newline : (s : String) → trim (String.◌++◌ s "\n") ≡ trim s
unfolding trim_start
trim-newline String.[] = refl
trim-newline (String.◌∷◌ c s) = elim (Bool-cases (is_space c)) [
  | inl e ↦ rw (cons-append, trim_start, e) (trim-newline s)
  | inr e ↦
      rw (cons-append, trim_start, e)
        (rw (sym (cons-append c s "\n")) (trim_end-newline (String.◌∷◌ c s)))
]

pub trim-with_newline : (i : String) → trim (String.◌++◌ "\n" (with_newline i)) ≡ trim i
unfolding with_newline trim_start
trim-with_newline i = elim (Bool-cases (ends_with_newline i)) [
  | inl e ↦ rw (with_newline, e) (rw (cons-append, nil-append) refl)
  | inr e ↦ rw (with_newline, e) (rw (cons-append, nil-append) (trim-newline i))
]
