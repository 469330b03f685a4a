-- ===== src/Instances/Names.antt =====
-- What names `sanitize` of src/instances.ts makes.
use Prim.Native.Char.{Char}
use Prim.Native.String
use text.Mathlib.TextLemmas.{length-cons}
use inter_claude_connector.Base.{
  ℕ, zero, suc, ◌≤◌, String, ◌≡◌, refl, ◌≢◌, inl, inr, Bool, true, false, ◌&&◌, arith, ◌==◌,
  eq_refl, Bool-cases, different,
}
use inter_claude_connector.Inbox.Signals.{take_chars}
use inter_claude_connector.Instances.Sanitize.{
  is_dash, is_name_char, replace_chars, starts_with_dash, collapse, drop_dashes, drop_dashes_end,
  trim_dashes, sanitize,
}

-- All characters are those of a name.
abbrev pub NameChars : String → Type 0
NameChars String.[] = Unit
NameChars (String.◌∷◌ c s) = (is_name_char c ≡ true) × NameChars s

replace_chars-NameChars : (s : String) → NameChars (replace_chars s)
unfolding replace_chars
replace_chars-NameChars String.[] = tt
replace_chars-NameChars (String.◌∷◌ c s) = elim (Bool-cases (is_name_char c)) [
  | inl h ↦ rw (replace_chars, h) (h, replace_chars-NameChars s)
  | inr h ↦ rw (replace_chars, h) (refl, replace_chars-NameChars s)
]

collapse-NameChars : (s : String) → NameChars s → NameChars (collapse s)
unfolding collapse
collapse-NameChars String.[] n = tt
collapse-NameChars (String.◌∷◌ c s) (h, n) = elim (Bool-cases (is_dash c && starts_with_dash s)) [
  | inl e ↦ rw (collapse, e) (collapse-NameChars s n)
  | inr e ↦ rw (collapse, e) (h, collapse-NameChars s n)
]

drop_dashes-NameChars : (s : String) → NameChars s → NameChars (drop_dashes s)
unfolding drop_dashes
drop_dashes-NameChars String.[] n = tt
drop_dashes-NameChars (String.◌∷◌ c s) (h, n) = elim (Bool-cases (is_dash c)) [
  | inl e ↦ rw (drop_dashes, e) (drop_dashes-NameChars s n)
  | inr e ↦ rw (drop_dashes, e) (h, n)
]

drop_dashes_end-NameChars : (s : String) → NameChars s → NameChars (drop_dashes_end s)
unfolding drop_dashes_end
drop_dashes_end-NameChars String.[] n = tt
drop_dashes_end-NameChars (String.◌∷◌ c s) (h, n) =
    elim (Bool-cases (is_dash c && drop_dashes_end s == "")) [
      | inl e ↦ rw (drop_dashes_end, e) tt
      | inr e ↦ rw (drop_dashes_end, e) (h, drop_dashes_end-NameChars s n)
    ]

take_chars-NameChars : (n : ℕ) (s : String) → NameChars s → NameChars (take_chars n s)
unfolding take_chars
take_chars-NameChars zero s h = tt
take_chars-NameChars (suc n) String.[] h = tt
take_chars-NameChars (suc n) (String.◌∷◌ c s) (e, h) = (e, take_chars-NameChars n s h)

count-take_chars : (n : ℕ) (s : String) → String.count (take_chars n s) ≤ n
unfolding take_chars
count-take_chars zero s = omega arith
count-take_chars (suc n) String.[] = omega arith
count-take_chars (suc n) (String.◌∷◌ c s) = rw length-cons (omega (arith, count-take_chars n s))

count-drop_dashes : (s : String) → String.count (drop_dashes s) ≤ String.count s
unfolding drop_dashes
count-drop_dashes String.[] = omega arith
count-drop_dashes (String.◌∷◌ c s) = elim (Bool-cases (is_dash c)) [
  | inl e ↦ rw (drop_dashes, e, length-cons) (omega (arith, count-drop_dashes s))
  | inr e ↦ rw (drop_dashes, e) (omega arith)
]

count-drop_dashes_end : (s : String) → String.count (drop_dashes_end s) ≤ String.count s
unfolding drop_dashes_end
count-drop_dashes_end String.[] = omega arith
count-drop_dashes_end (String.◌∷◌ c s) = elim (Bool-cases (is_dash c && drop_dashes_end s == "")) [
  | inl e ↦ rw (drop_dashes_end, e) (omega arith)
  | inr e ↦
      rw (drop_dashes_end, e, length-cons, length-cons) (omega (arith, count-drop_dashes_end s))
]

abbrev pub ends_with_dash : String → Bool
ends_with_dash String.[] = false
ends_with_dash (String.◌∷◌ c String.[]) = is_dash c
ends_with_dash (String.◌∷◌ c (String.◌∷◌ d s)) = ends_with_dash (String.◌∷◌ d s)

starts-drop_dashes : (s : String) → starts_with_dash (drop_dashes s) ≡ false
unfolding drop_dashes
starts-drop_dashes String.[] = refl
starts-drop_dashes (String.◌∷◌ c s) = elim (Bool-cases (is_dash c)) [
  | inl e ↦ rw (drop_dashes, e) (starts-drop_dashes s)
  | inr e ↦ rw (drop_dashes, e) e
]

starts-drop_dashes_end :
    (s : String) → starts_with_dash s ≡ false → starts_with_dash (drop_dashes_end s) ≡ false
unfolding drop_dashes_end
starts-drop_dashes_end String.[] h = refl
starts-drop_dashes_end (String.◌∷◌ c s) h = rw (drop_dashes_end, h) h

ends-cons :
    (c : Char) (s : String)
    → (is_dash c && s == "") ≡ false
    → ends_with_dash s ≡ false
    → ends_with_dash (String.◌∷◌ c s) ≡ false
ends-cons c String.[] h e = ground (arith, eq_refl "")
ends-cons c (String.◌∷◌ d s) h e = e

ends-drop_dashes_end : (s : String) → ends_with_dash (drop_dashes_end s) ≡ false
unfolding drop_dashes_end
ends-drop_dashes_end String.[] = refl
ends-drop_dashes_end (String.◌∷◌ c s) = elim (Bool-cases (is_dash c && drop_dashes_end s == "")) [
  | inl e ↦ rw (drop_dashes_end, e) refl
  | inr e ↦ rw (drop_dashes_end, e) (ends-cons c (drop_dashes_end s) e (ends-drop_dashes_end s))
]

-- A name is not empty, has at most 32 characters, all of them lower-case letters, digits, `_` or `-`,
-- and has no `-` at its ends.
pub record IsName (s : String) : Type 0 where
  pub chars : NameChars s
  pub bounded : String.count s ≤ 32
  pub not_empty : s ≢ ""
  pub start : starts_with_dash s ≡ false
  pub end : ends_with_dash s ≡ false

trim_dashes-IsName :
    (s : String)
    → NameChars s
    → String.count s ≤ 32
    → (trim_dashes s == "") ≡ false
    → IsName (trim_dashes s)
trim_dashes-IsName s n c h = record {
  chars = drop_dashes_end-NameChars (drop_dashes s) (drop_dashes-NameChars s n);
  bounded = omega (arith, count-drop_dashes_end (drop_dashes s), count-drop_dashes s);
  not_empty = different (trim_dashes s) "" h;
  start = starts-drop_dashes_end (drop_dashes s) (starts-drop_dashes s);
  end = ends-drop_dashes_end (drop_dashes s);
}

default-IsName : IsName "default"
default-IsName = record {
  chars = (refl, (refl, (refl, (refl, (refl, (refl, (refl, tt)))))));
  bounded = omega arith;
  not_empty = different "default" "" refl;
  start = refl;
  end = refl;
}

-- Whatever the name of a directory and the conversion to lower case, the instance name made of it is
-- not empty, has at most 32 characters, all of them lower-case letters, digits, `_` or `-`, and has no
-- `-` at its ends.
pub sanitize-IsName :
    (to_lower_case : String → String) (name : String) → IsName (sanitize to_lower_case name)
unfolding sanitize
sanitize-IsName to_lower_case name =
    let t = trim_dashes (collapse (replace_chars (to_lower_case name))) in
    let cut = take_chars 32 t in
    let chars = take_chars-NameChars 32 t (
      drop_dashes_end-NameChars (drop_dashes (collapse (replace_chars (to_lower_case name)))) (
        drop_dashes-NameChars (collapse (replace_chars (to_lower_case name))) (
          collapse-NameChars (replace_chars (to_lower_case name))
            (replace_chars-NameChars (to_lower_case name))))) in
    elim (Bool-cases (trim_dashes cut == "")) [
      | inl e ↦ rw (sanitize, e) default-IsName
      | inr e ↦ rw (sanitize, e) (trim_dashes-IsName cut chars (count-take_chars 32 t) e)
    ]
