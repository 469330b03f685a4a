-- ===== src/Json.antt =====
-- JSON values, with the functions of the repository on them: `deepMerge` of src/config.ts, `getSubtree`
-- of src/manifest.ts, `setSubtree` of bin/icc.ts and `canonicalJson` of src/setup-config.ts. An object
-- is its fields in the order of insertion.
pub mod Paths
pub mod Canonical
mod Tests
use Prim.Native.String
use inter_claude_connector.Base.{
  ℕ, suc, String, ◌≡◌, Bool, Option, none, some, List, [], ◌∷◌, ◌==◌, if◌then◌else◌,
}

mutual
  -- A number is its text.
  pub data Json : Type 0 where
    null : Json
    bool : Bool → Json
    num : String → Json
    str : String → Json
    arr : Items → Json
    obj : Fields → Json

  pub data Items : Type 0 where
    nil : Items
    cons : Json → Items → Items

  pub data Fields : Type 0 where
    end : Fields
    field : String → Json → Fields → Fields

unfoldable pub get_field : String → Fields → Option Json
get_field k end = none
get_field k (field j v fs) = if j == k then some v else get_field k fs

unfoldable pub set_field : String → Json → Fields → Fields
set_field k v end = field k v end
set_field k v (field j w fs) =
    let rest = set_field k v fs in if j == k then field j v fs else field j w rest

-- No key occurs twice.
abbrev pub NodupKeys : Fields → Type 0
NodupKeys end = Unit
NodupKeys (field k v fs) = (◌≡◌ {A = Option Json} (get_field k fs) none) × NodupKeys fs

-- `{ ...array }` of JavaScript: the items under their indices, from `n` on.
unfoldable pub indexed : (decimal : ℕ → String) (n : ℕ) → Items → Fields
indexed decimal n nil = end
indexed decimal n (cons v vs) = field (decimal n) v (indexed decimal (suc n) vs)

module _ (decimal : ℕ → String) where
  -- What `deepMerge` can merge into: the values of type "object" other than null.
  unfoldable pub fields_of : Json → Option Fields
  unfolding indexed
  fields_of (obj fs) = some fs
  fields_of (arr vs) = some (indexed decimal 0 vs)
  fields_of v = none

  unfoldable mutual
    -- The loop of `deepMerge` over the keys of the source; `target` stays, `result` is built.
    pub merge_into : (target result source : Fields) → Fields
    merge_into target result end = result
    merge_into target result (field k v rest) =
        merge_into target (set_field k (merge_value (get_field k target) v) result) rest

    -- What a key gets that has the value `v` in the source.
    pub merge_value : (old : Option Json) (v : Json) → Json
    merge_value none v = v
    merge_value (some old) (obj fs) = elim (fields_of old) [
      | none ↦ obj fs
      | some target ↦ obj (merge_into target target fs)
    ]
    merge_value (some old) v = v

  unfoldable pub deep_merge : (target source : Fields) → Fields
  unfolding merge_into
  deep_merge target source = merge_into target target source

-- `getSubtree` for `dottedPath.split('.')`; none is undefined. Of an array the callers name no property.
unfoldable pub get_subtree : (path : List String) → Option Json → Option Json
get_subtree [] v = v
get_subtree (k ∷ path) (some (obj fs)) = get_subtree path (get_field k fs)
get_subtree (k ∷ path) v = none

-- Where `setSubtree` goes on: in the object that is there or in a new one. A property that is set
-- on an array is not part of its JSON.
unfoldable pub below : Option Json → Option Fields
below (some (arr vs)) = none
below (some (obj fs)) = some fs
below v = some end

-- `setSubtree` for the keys `k ∷ path`.
unfoldable pub set_subtree : (k : String) (path : List String) (v : Json) → Fields → Fields
set_subtree k [] v fs = set_field k v fs
set_subtree k (j ∷ path) v fs = elim (below (get_field k fs)) [
  | none ↦ fs
  | some inner ↦ set_field k (obj (set_subtree j path v inner)) fs
]
