-- ===== src/Manifest/Syncing.antt =====
-- What migrating a CLAUDE.md by src/manifest.ts keeps: the texts around the block, and that a second
-- migration has nothing left to do.
use Prim.Native.Char.{code}
use Prim.Native.String
use text.Mathlib.TextLemmas.{nil-append, append-nil, append_assoc}
use inter_claude_connector.Base.{
  String, ◌≡◌, refl, ap, inl, inr, true, false, none, some, arith, ◌==◌, nat_eq, Bool-cases,
}
use inter_claude_connector.Server.Routes.{strip_prefix, contains}
use inter_claude_connector.Strings.{trim, split_lines, ends_with_newline}
use inter_claude_connector.Manifest.{
  find_region, extract_claude_md_region, with_newline, wrap_claude_md_with_markers,
}
use inter_claude_connector.Manifest.Migration.{
  split_heading, expand, replace_region, has_begin, append_block, migrate_claude_md,
}
use inter_claude_connector.Manifest.Markers.{
  Clear, has_begin-none, find_region-Clear, has_begin-Clear, has_begin_found,
  contains-marker_newline, Clear-newline,
}
use inter_claude_connector.Manifest.Blocks.{
  match_begin-marker, block_region, region_at-block, wrap-parts, with_newline-Clear,
  trim-with_newline,
}

-- A text with the block in it.
abbrev pub marked : (before inner after : String) → String
marked b i a = String.◌++◌ b (String.◌++◌ (wrap_claude_md_with_markers i) a)

find_region-marked :
    (b i a : String)
    → Clear b
    → contains "<!--" i ≡ false
    → find_region (marked b i a) ≡ some (record (block_region (with_newline i) a) { before = b })
find_region-marked b i a c h =
    let region = region_at-block (with_newline i) a (with_newline-Clear i h) in
    rw wrap-parts
      (rw (find_region-Clear b _ _ (block_region (with_newline i) a) c region, append-nil) refl)

has_begin-marked : (b i a : String) → Clear b → has_begin (marked b i a) ≡ true
has_begin-marked b i a c =
    rw wrap-parts (has_begin-Clear b _ c (has_begin_found _ _ _ _ (match_begin-marker _)))

-- Between a text without `<!--` that is empty or ends with a newline, and any text, the region of the
-- block with an inner text without `<!--` is that inner text.
pub extract_claude_md_region-marked :
    (b i a : String)
    → Clear b
    → contains "<!--" i ≡ false
    → extract_claude_md_region (marked b i a) ≡ some (trim i)
unfolding extract_claude_md_region
extract_claude_md_region-marked b i a c h =
    rw (extract_claude_md_region, find_region-marked b i a c h)
      (ap (λ x. some x) (trim-with_newline i))

expand-plain : (m b a s : String) → contains "$" s ≡ false → expand m b a s ≡ s
unfolding expand contains strip_prefix
expand-plain m b a String.[] h = refl
expand-plain m b a (String.◌∷◌ c String.[]) h = refl
expand-plain m b a (String.◌∷◌ c (String.◌∷◌ d s)) h =
    let plain : nat_eq (code c) b'$' ≡ false = ground arith in
    let rest : contains "$" (String.◌∷◌ d s) ≡ false = ground arith in
    rw (expand, plain) (ap (λ x. String.◌∷◌ c x) (expand-plain m b a (String.◌∷◌ d s) rest))

-- Migrating a text that has the block between a text without `<!--` that is empty or ends with a
-- newline, and any text, replaces the block alone. The old inner text is without `<!--`, and the new
-- block without `$`, which `replace` would read.
pub migrate_claude_md-marked :
    (b i a new : String)
    → Clear b
    → contains "<!--" i ≡ false
    → contains "$" (wrap_claude_md_with_markers new) ≡ false
    → migrate_claude_md (marked b i a) new ≡ (false, marked b new a)
unfolding migrate_claude_md replace_region
migrate_claude_md-marked b i a new c h n =
    let r = block_region (with_newline i) a in
    let plain =
      expand-plain (String.◌++◌ r.opening (String.◌++◌ r.inner r.closing)) b a
        (wrap_claude_md_with_markers new) n in
    rw (migrate_claude_md, has_begin-marked b i a c)
      (ap (λ x. (false, x)) (rw (replace_region, find_region-marked b i a c h, plain) refl))

-- Where the block is put behind a text.
append_block-marked :
    (existing i : String)
    → contains "<!--" existing ≡ false
    → (b : String) × Clear b
      × (append_block existing (wrap_claude_md_with_markers i) ≡ marked b i "")
unfolding append_block
append_block-marked existing i h = elim (Bool-cases (trim existing == "")) [
  | inl e ↦ ("", tt, rw (append_block, e) (rw (nil-append, append-nil) refl))
  | inr e ↦
      let block = wrap_claude_md_with_markers i in
      elim (Bool-cases (ends_with_newline existing)) [
        | inl n ↦ (
          String.◌++◌ existing "\n",
          Clear-newline existing h,
          rw (append_block, e, n) (simp (append_assoc, append-nil)),
        )
        | inr n ↦ (
          String.◌++◌ (String.◌++◌ existing "\n") "\n",
          Clear-newline (String.◌++◌ existing "\n") (contains-marker_newline existing h),
          rw (append_block, e, n, append_assoc "\n" "\n" block) (simp (append_assoc, append-nil)),
        )
      ]
]

migrate_claude_md-append_block :
    (existing i : String)
    → contains "<!--" existing ≡ false
    → split_heading (split_lines existing) ≡ none
    → (b : String) × Clear b × ((migrate_claude_md existing i).1 ≡ marked b i "")
unfolding migrate_claude_md
migrate_claude_md-append_block existing i h l =
    let (b, clear, block) = append_block-marked existing i h in
    (b, clear, rw (migrate_claude_md, has_begin-none existing h, l) block)

-- A text without `<!--` and without a heading of ICC gets the block: its region is then the new inner
-- text, and migrating again changes nothing. The inner text is without `<!--`, and the block without
-- `$`.
pub migrate_claude_md_again :
    (existing i : String)
    → contains "<!--" existing ≡ false
    → split_heading (split_lines existing) ≡ none
    → contains "<!--" i ≡ false
    → contains "$" (wrap_claude_md_with_markers i) ≡ false
    → let migrated = (migrate_claude_md existing i).1 in
      (extract_claude_md_region migrated ≡ some (trim i))
      × (migrate_claude_md migrated i ≡ (false, migrated))
migrate_claude_md_again existing i h l c n =
    let (b, clear, first) = migrate_claude_md-append_block existing i h l in
    rw first
      (extract_claude_md_region-marked b i "" clear c, migrate_claude_md-marked b i "" i clear c n)
