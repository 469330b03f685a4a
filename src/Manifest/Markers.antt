-- ===== src/Manifest/Markers.antt =====
-- Where the markers of src/manifest.ts are found: not in a text without `<!--`.
use Prim.Native.Char.{Char}
use Prim.Native.String
use text.Mathlib.TextLemmas.{cons-append, nil-append}
use inter_claude_connector.Base.{String, ◌≡◌, refl, sym, true, false, none, some, arith}
use inter_claude_connector.Strings.{is_newline, ends_with_newline}
use inter_claude_connector.Manifest.{
  open_marker, match_begin, match_end, find_end, Region, region_at, find_region,
}
use inter_claude_connector.Manifest.Migration.{has_begin}
use inter_claude_connector.Server.Routes.{strip_prefix, contains}

-- No character of a text is a newline.
abbrev pub OneLine : String → Type 0
OneLine String.[] = Unit
OneLine (String.◌∷◌ c s) = (is_newline c ≡ false) × OneLine s

-- A text that ends with a newline keeps a word from starting in it and ending behind it.
strip_prefix-append :
    (p s t : String)
    → OneLine p
    → ends_with_newline s ≡ true
    → strip_prefix p s ≡ none
    → strip_prefix p (String.◌++◌ s t) ≡ none
unfolding strip_prefix ends_with_newline
strip_prefix-append String.[] s t o n h = cc
strip_prefix-append (String.◌∷◌ c p) String.[] t o n h = cc
strip_prefix-append (String.◌∷◌ c p) (String.◌∷◌ d String.[]) t (o, os) n h =
    rw cons-append (ground arith)
strip_prefix-append (String.◌∷◌ c p) (String.◌∷◌ d (String.◌∷◌ e s)) t (o, os) n h =
    rw cons-append (ground (arith, strip_prefix-append p (String.◌∷◌ e s) t os))

-- The same for a newline put behind the text.
strip_prefix-newline :
    (p s : String)
    → OneLine p
    → strip_prefix p s ≡ none
    → strip_prefix p (String.◌++◌ s "\n") ≡ none
unfolding strip_prefix
strip_prefix-newline String.[] s o h = cc
strip_prefix-newline (String.◌∷◌ c p) String.[] (o, os) h = ground arith
strip_prefix-newline (String.◌∷◌ c p) (String.◌∷◌ d s) (o, os) h =
    rw cons-append (ground (arith, strip_prefix-newline p s os))

pub contains-newline :
    (p s : String)
    → OneLine p
    → strip_prefix p "" ≡ none
    → contains p s ≡ false
    → contains p (String.◌++◌ s "\n") ≡ false
unfolding contains
contains-newline p String.[] o e h = ground (arith, strip_prefix-newline p "" o e, e)
contains-newline p (String.◌∷◌ c s) o e h =
    let whole : strip_prefix p (String.◌∷◌ c s) ≡ none = ground arith in
    let here : strip_prefix p (String.◌∷◌ c (String.◌++◌ s "\n")) ≡ none =
      rw (sym (cons-append c s "\n")) (strip_prefix-newline p (String.◌∷◌ c s) o whole) in
    rw cons-append (ground (arith, contains-newline p s o e))

pub ends_with_newline-append : (s : String) → ends_with_newline (String.◌++◌ s "\n") ≡ true
unfolding ends_with_newline
ends_with_newline-append String.[] = refl
ends_with_newline-append (String.◌∷◌ c String.[]) = rw cons-append refl
ends_with_newline-append (String.◌∷◌ c (String.◌∷◌ d s)) =
    let rest : ends_with_newline (String.◌∷◌ d (String.◌++◌ s "\n")) ≡ true =
      rw (sym (cons-append d s "\n")) (ends_with_newline-append (String.◌∷◌ d s)) in
    rw (cons-append c (String.◌∷◌ d s) "\n", cons-append d s "\n") rest

-- A text in which no marker starts, nor across its end: it is empty, or it ends with a newline.
abbrev pub Clear : String → Type 0
Clear String.[] = Unit
Clear (String.◌∷◌ c s) =
    (contains "<!--" (String.◌∷◌ c s) ≡ false) × (ends_with_newline (String.◌∷◌ c s) ≡ true)

no_marker :
    (c : Char) (s t : String)
    → Clear (String.◌∷◌ c s)
    → strip_prefix "<!--" (String.◌∷◌ c (String.◌++◌ s t)) ≡ none
unfolding contains
no_marker c s t (h, e) =
    let whole : strip_prefix "<!--" (String.◌∷◌ c s) ≡ none = ground arith in
    rw (sym (cons-append c s t))
      (strip_prefix-append "<!--" (String.◌∷◌ c s) t (refl, (refl, (refl, (refl, tt)))) e whole)

Clear-tail : (c : Char) (s : String) → Clear (String.◌∷◌ c s) → Clear s
unfolding contains ends_with_newline
Clear-tail c String.[] (h, e) = tt
Clear-tail c (String.◌∷◌ d s) (h, e) = (ground arith, e)

match_begin-none : (s : String) → strip_prefix "<!--" s ≡ none → match_begin s ≡ none
unfolding match_begin open_marker
match_begin-none s h = rw (open_marker, h) refl

match_end-none : (s : String) → strip_prefix "<!--" s ≡ none → match_end s ≡ none
unfolding match_end open_marker
match_end-none s h = rw (open_marker, h) refl

pub has_begin-none : (s : String) → contains "<!--" s ≡ false → has_begin s ≡ false
unfolding has_begin contains
has_begin-none String.[] h = refl
has_begin-none (String.◌∷◌ c s) h =
    ground (arith, match_begin-none (String.◌∷◌ c s), has_begin-none s)

-- The first end marker is the one behind a clear text.
pub find_end-Clear :
    (s marker rest : String) (h : Char) (t : String)
    → Clear s
    → match_end (String.◌∷◌ h t) ≡ some (marker, rest)
    → find_end (String.◌++◌ s (String.◌∷◌ h t)) ≡ some (s, (marker, rest))
unfolding find_end
find_end-Clear String.[] marker rest h t c m = rw nil-append (rw (find_end, m) refl)
find_end-Clear (String.◌∷◌ d s) marker rest h t c m =
    let later = find_end-Clear s marker rest h t (Clear-tail d s c) m in
    let none_here =
      match_end-none (String.◌∷◌ d (String.◌++◌ s (String.◌∷◌ h t)))
        (no_marker d s (String.◌∷◌ h t) c) in
    rw cons-append (rw (find_end, none_here, later) refl)

region_at-none : (s : String) → strip_prefix "<!--" s ≡ none → region_at s ≡ none
unfolding region_at
region_at-none s h = rw (region_at, match_begin-none s h) refl

pub find_region-Clear :
    (s : String) (h : Char) (t : String) (r : Region)
    → Clear s
    → region_at (String.◌∷◌ h t) ≡ some r
    → find_region (String.◌++◌ s (String.◌∷◌ h t))
      ≡ some (record r { before = String.◌++◌ s r.before })
unfolding find_region
find_region-Clear String.[] h t r c m = rw (nil-append, nil-append) (rw (find_region, m) refl)
find_region-Clear (String.◌∷◌ d s) h t r c m =
    let later = find_region-Clear s h t r (Clear-tail d s c) m in
    let none_here =
      region_at-none (String.◌∷◌ d (String.◌++◌ s (String.◌∷◌ h t)))
        (no_marker d s (String.◌∷◌ h t) c) in
    rw (cons-append, cons-append) (rw (find_region, none_here, later) refl)

-- A begin marker behind a clear text is found.
pub has_begin-Clear :
    (s t : String) → Clear s → has_begin t ≡ true → has_begin (String.◌++◌ s t) ≡ true
unfolding has_begin
has_begin-Clear String.[] t c h = rw nil-append h
has_begin-Clear (String.◌∷◌ d s) t c h =
    rw cons-append (ground (arith, has_begin-Clear s t (Clear-tail d s c) h))

pub has_begin_found :
    (h : Char) (t marker rest : String)
    → match_begin (String.◌∷◌ h t) ≡ some (marker, rest)
    → has_begin (String.◌∷◌ h t) ≡ true
unfolding has_begin
has_begin_found h t marker rest m = rw (has_begin, m) refl

Clear-of : (s : String) → contains "<!--" s ≡ false → ends_with_newline s ≡ true → Clear s
Clear-of String.[] h e = tt
Clear-of (String.◌∷◌ c s) h e = (h, e)

pub contains-marker_newline :
    (s : String) → contains "<!--" s ≡ false → contains "<!--" (String.◌++◌ s "\n") ≡ false
unfolding strip_prefix
contains-marker_newline s h = contains-newline "<!--" s (refl, (refl, (refl, (refl, tt)))) refl h

pub Clear-newline : (s : String) → contains "<!--" s ≡ false → Clear (String.◌++◌ s "\n")
Clear-newline s h =
    Clear-of (String.◌++◌ s "\n") (contains-marker_newline s h) (ends_with_newline-append s)
