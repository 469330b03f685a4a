-- ===== src/Json/Paths.antt =====
-- Reading and writing along paths, and what `deepMerge` leaves under a key.
use inter_claude_connector.Base.{
  ℕ, String, ◌≡◌, refl, sym, ap, ◌∙◌, ◌≢◌, ◌⊎◌, inl, inr, Option, none, some, List, [], ◌∷◌, arith,
  ◌==◌, eq_iff, eq_refl, if◌then◌else◌, Bool-cases,
}
use inter_claude_connector.Json.{
  Json, null, bool, num, str, arr, obj, Fields, end, field, get_field, set_field, NodupKeys,
  merge_into, merge_value, deep_merge, get_subtree, below, set_subtree,
}

get_field-set_field :
    (k j : String) (v : Json) (fs : Fields)
    → get_field j (set_field k v fs) ≡ (if k == j then some v else get_field j fs)
unfolding get_field set_field
get_field-set_field k j v end = refl
get_field-set_field k j v (field i w fs) =
    ground (arith, get_field-set_field k j v fs, eq_iff i k, eq_iff i j, eq_iff k j)

-- No array stands where the path goes on.
abbrev pub IsOpen : (k : String) (path : List String) → Fields → Type 0
IsOpen k [] fs = Unit
IsOpen k (j ∷ path) fs =
    (inner : Fields) × (below (get_field k fs) ≡ some inner) × IsOpen j path inner

-- The two paths part at a key that both have, so neither leads through what the other leads to.
abbrev pub Diverges : (path other : List String) → Type 0
Diverges [] other = ⊥
Diverges (k ∷ path) [] = ⊥
Diverges (k ∷ path) (j ∷ other) = (k ≢ j) ⊎ ((k ≡ j) × Diverges path other)

get_subtree-none : (path : List String) → get_subtree path none ≡ none
unfolding get_subtree
get_subtree-none [] = refl
get_subtree-none (k ∷ path) = refl

-- Behind a key, the object in which `set_subtree` goes on is read as what is there.
get_subtree-below :
    (v : Option Json) (inner : Fields) (i : String) (path : List String)
    → below v ≡ some inner
    → get_subtree (i ∷ path) (some (obj inner)) ≡ get_subtree (i ∷ path) v
unfolding get_subtree below get_field
get_subtree-below none inner i path e =
    let empty : inner ≡ end = ground arith in rw empty (get_subtree-none path)
get_subtree-below (some null) inner i path e =
    let empty : inner ≡ end = ground arith in rw empty (get_subtree-none path)
get_subtree-below (some (bool b)) inner i path e =
    let empty : inner ≡ end = ground arith in rw empty (get_subtree-none path)
get_subtree-below (some (num n)) inner i path e =
    let empty : inner ≡ end = ground arith in rw empty (get_subtree-none path)
get_subtree-below (some (str s)) inner i path e =
    let empty : inner ≡ end = ground arith in rw empty (get_subtree-none path)
get_subtree-below (some (arr vs)) inner i path e = absurd (ground arith)
get_subtree-below (some (obj fs)) inner i path e =
    let same : inner ≡ fs = ground arith in rw same refl

read_other :
    (k j : String) (v : Json) (fs : Fields) (path : List String)
    → k ≢ j
    → get_subtree (j ∷ path) (some (obj (set_field k v fs)))
      ≡ get_subtree (j ∷ path) (some (obj fs))
unfolding get_subtree
read_other k j v fs path n =
    ap (λ x. get_subtree path x) (get_field-set_field k j v fs ∙ ground (arith, eq_iff k j))

set_subtree-deep :
    (k j : String) (path : List String) (v : Json) (fs inner : Fields)
    → below (get_field k fs) ≡ some inner
    → set_subtree k (j ∷ path) v fs ≡ set_field k (obj (set_subtree j path v inner)) fs
unfolding set_subtree
set_subtree-deep k j path v fs inner there = ground (arith, there)

set_subtree-flat : (k : String) (v : Json) (fs : Fields) → set_subtree k [] v fs ≡ set_field k v fs
unfolding set_subtree
set_subtree-flat k v fs = refl

get_subtree-other :
    (k : String) (path : List String) (v : Json) (fs : Fields) (other : List String)
    → IsOpen k path fs
    → Diverges (k ∷ path) other
    → get_subtree other (some (obj (set_subtree k path v fs))) ≡ get_subtree other (some (obj fs))
unfolding get_subtree
get_subtree-other k path v fs [] h d = absurd d
get_subtree-other k [] v fs (i ∷ other) h (inl n) =
    rw (set_subtree-flat k v fs) (read_other k i v fs other n)
get_subtree-other k [] v fs (i ∷ other) h (inr (e, d)) = absurd d
get_subtree-other k (j ∷ path) v fs (i ∷ other) (inner, there, h) (inl n) =
    rw (set_subtree-deep k j path v fs inner there)
      (read_other k i (obj (set_subtree j path v inner)) fs other n)
get_subtree-other k (j ∷ path) v fs (i ∷ []) (inner, there, h) (inr (e, d)) = absurd d
get_subtree-other k (j ∷ path) v fs (i ∷ l ∷ other) (inner, there, h) (inr (e, d)) =
    let written = obj (set_subtree j path v inner) in
    let found : get_field k (set_field k written fs) ≡ some written =
      get_field-set_field k k written fs ∙ ground (arith, eq_refl k) in
    rw (set_subtree-deep k j path v fs inner there, sym e)
      (ap (λ x. get_subtree (l ∷ other) x) found
        ∙ get_subtree-other j path v inner (l ∷ other) h d
        ∙ get_subtree-below (get_field k fs) inner l other there)

get_subtree-written :
    (k : String) (path : List String) (v : Json) (fs : Fields)
    → IsOpen k path fs
    → get_subtree (k ∷ path) (some (obj (set_subtree k path v fs))) ≡ some v
unfolding get_subtree
get_subtree-written k [] v fs h =
    rw (set_subtree-flat k v fs) (ground (arith, get_field-set_field k k v fs, eq_refl k))
get_subtree-written k (j ∷ path) v fs (inner, there, h) =
    let written = obj (set_subtree j path v inner) in
    let found : get_field k (set_field k written fs) ≡ some written =
      get_field-set_field k k written fs ∙ ground (arith, eq_refl k) in
    rw (set_subtree-deep k j path v fs inner there)
      (ap (λ x. get_subtree (j ∷ path) x) found ∙ get_subtree-written j path v inner h)

-- What is written along a path is read along it, if no array stands on the way, and along every path
-- that parts from it, at any depth, the value that was there before is read.
pub get_subtree-set_subtree :
    (k : String) (path : List String) (v : Json) (fs : Fields)
    → IsOpen k path fs
    → (get_subtree (k ∷ path) (some (obj (set_subtree k path v fs))) ≡ some v)
      × ((other : List String)
          → Diverges (k ∷ path) other
          → get_subtree other (some (obj (set_subtree k path v fs)))
            ≡ get_subtree other (some (obj fs)))
get_subtree-set_subtree k path v fs h =
    (get_subtree-written k path v fs h, λ other d. get_subtree-other k path v fs other h d)

module _ (decimal : ℕ → String) where
  merge_into_lem :
      (target result source : Fields) (k : String)
      → NodupKeys source
      → get_field k (merge_into decimal target result source) ≡ elim (get_field k source) [
        | none ↦ get_field k result
        | some v ↦ some (merge_value decimal (get_field k target) v)
      ]
  unfolding merge_into get_field
  merge_into_lem target result end k u = refl
  merge_into_lem target result (field j v rest) k (new, u) =
      merge_into_lem target (set_field j (merge_value decimal (get_field j target) v) result) rest k
        u
      ∙ elim (Bool-cases (j == k)) [
        | inl same ↦
            let e : j ≡ k = (eq_iff j k).0 same in
            let missing : get_field k rest ≡ none = ap (λ i. get_field i rest) (sym e) ∙ new in
            ground (
              arith,
              same,
              missing,
              ap (λ i. get_field i target) e,
              get_field-set_field j k (merge_value decimal (get_field j target) v) result,
            )
        | inr other ↦ ground (
          arith,
          other,
          eq_iff j k,
          get_field-set_field j k (merge_value decimal (get_field j target) v) result,
        )
      ]

  -- Under a key that the source lacks the merged object has the target's value; under one that
  -- it has, the source's value, merged into the target's where both are objects.
  pub deep_merge_lem :
      (target source : Fields) (k : String)
      → NodupKeys source
      → get_field k (deep_merge decimal target source) ≡ elim (get_field k source) [
        | none ↦ get_field k target
        | some v ↦ some (merge_value decimal (get_field k target) v)
      ]
  unfolding deep_merge
  deep_merge_lem target source k u = merge_into_lem target target source k u
