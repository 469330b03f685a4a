-- ===== src/Address/Laws.antt =====
-- Printing and parsing addresses, and which addresses a message reaches.
use Prim.Native.Char.{code}
use Prim.Native.String
use text.Mathlib.TextEquality.{codes_equal}
use text.Mathlib.TextLemmas.{nil-append, cons-append}
use inter_claude_connector.Base.{
  String, ◌≡◌, refl, ap, ◌≢◌, ◌↔◌, ◌⊎◌, inl, inr, true, none, some, arith, eq_iff, eq_refl, nat_eq,
  Bool-cases, Option-cases,
}
use inter_claude_connector.Address.{split_slash, parse_address, build_address, address_matches}

abbrev pub NoSlash : String → Type 0
NoSlash String.[] = Unit
NoSlash (String.◌∷◌ c s) = (code c ≢ b'/') × NoSlash s

split_slash-join :
    (h i : String) → NoSlash h → split_slash (String.◌++◌ h (String.◌++◌ "/" i)) ≡ some (h, i)
unfolding split_slash
split_slash-join String.[] i n = rw (nil-append, cons-append, nil-append)
split_slash-join (String.◌∷◌ c h) i (n, ns) =
    rw cons-append (ground (arith, split_slash-join h i ns))

split_slash-slash_free : (h : String) → NoSlash h → split_slash h ≡ none
unfolding split_slash
split_slash-slash_free String.[] n = refl
split_slash-slash_free (String.◌∷◌ c h) (n, ns) = ground (arith, split_slash-slash_free h ns)

-- What a slash-free host and a name that is not empty are joined to is not empty.
join_ne_nil : (h i : String) → h ≢ "" → String.◌++◌ h (String.◌++◌ "/" i) ≢ ""
join_ne_nil String.[] i n = absurd (n refl)
join_ne_nil (String.◌∷◌ c h) i n = rw cons-append (cc)

-- Parsing a built address gives back the host and the instance, for a host that is not empty and
-- has no slash and an instance that is not empty.
pub parse_address-build_address :
    (host name : String)
    → host ≢ ""
    → NoSlash host
    → name ≢ ""
    → parse_address (build_address host (some name))
      ≡ record { host = some host; instance_name = some name }
unfolding parse_address build_address
parse_address-build_address host name hn ns nn = ground (
  arith,
  eq_iff host "",
  eq_iff name "",
  eq_iff (String.◌++◌ host (String.◌++◌ "/" name)) "",
  join_ne_nil host name hn,
  split_slash-join host name ns,
)

pub parse_address_bare :
    (host : String)
    → host ≢ ""
    → NoSlash host
    → parse_address host ≡ record { host = some host; instance_name = none }
unfolding parse_address
parse_address_bare host hn ns = ground (arith, eq_iff host "", split_slash-slash_free host ns)

split_slash_back :
    (a h i : String) → split_slash a ≡ some (h, i) → a ≡ String.◌++◌ h (String.◌++◌ "/" i)
unfolding split_slash
split_slash_back String.[] h i e = cc
split_slash_back (String.◌∷◌ c a) h i e = elim (Bool-cases (nat_eq (code c) b'/')) [
  | inl slash ↦ at_slash slash (ground arith) (ground arith)
  | inr other ↦ elim (Option-cases (split_slash a)) [
    | inl missing ↦ absurd (ground arith)
    | inr ((k, j), found) ↦ past k j (split_slash_back a k j found) (ground arith) (ground arith)
  ]
]
  where
    at_slash :
        nat_eq (code c) b'/' ≡ true
        → h ≡ ""
        → i ≡ a
        → String.◌∷◌ c a ≡ String.◌++◌ h (String.◌++◌ "/" i)
    at_slash slash p q =
        rw (p, q, nil-append, cons-append, nil-append)
          (ap (λ x. String.◌∷◌ x a) (codes_equal c "/" (ground arith)))

    past :
        (k j : String)
        → a ≡ String.◌++◌ k (String.◌++◌ "/" j)
        → h ≡ String.◌∷◌ c k
        → i ≡ j
        → String.◌∷◌ c a ≡ String.◌++◌ h (String.◌++◌ "/" i)
    past k j found p q = rw (p, q, cons-append) (ap (String.◌∷◌ c) found)

-- An address that parses to a host and an instance is what building from the two gives, so no
-- two addresses of that kind are read alike.
pub build_address-parse_address :
    (address host name : String)
    → host ≢ ""
    → parse_address address ≡ record { host = some host; instance_name = some name }
    → build_address host (some name) ≡ address
unfolding parse_address build_address
build_address-parse_address address host name hn e = elim (Option-cases (split_slash address)) [
  | inl missing ↦ absurd (ground (arith, eq_iff address ""))
  | inr ((h, i), found) ↦ ground (
    arith,
    split_slash_back address h i found,
    eq_iff address "",
    eq_iff host "",
    eq_iff name "",
    eq_iff i "",
  )
]

-- Between instance addresses a message reaches a reader exactly when its host is the reader's or
-- the server's own and the instances are the same.
pub address_matches-build_address :
    (h i h' i' server : String)
    → (h ≢ "") × NoSlash h × (i ≢ "")
    → (h' ≢ "") × NoSlash h' × (i' ≢ "")
    → (address_matches (build_address h (some i)) (build_address h' (some i')) server ≡ true)
      ↔ (((h ≡ h') ⊎ (h ≡ server)) × (i ≡ i'))
unfolding address_matches
address_matches-build_address h i h' i' server (a, b, c) (a', b', c') = ground (
  arith,
  parse_address-build_address h i a b c,
  parse_address-build_address h' i' a' b' c',
  eq_iff h h',
  eq_iff h server,
  eq_iff i i',
  eq_iff i "",
  eq_iff i' "",
)

-- A message to a bare host reaches every instance of that host.
pub address_matches_broadcast :
    (h i server : String)
    → (h ≢ "") × NoSlash h × (i ≢ "")
    → address_matches h (build_address h (some i)) server ≡ true
unfolding address_matches
address_matches_broadcast h i server (a, b, c) =
    ground (
      arith,
      parse_address-build_address h i a b c,
      parse_address_bare h a b,
      eq_refl h,
      eq_iff i "",
    )
