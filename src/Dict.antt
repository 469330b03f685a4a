-- ===== src/Dict.antt =====
-- JavaScript's `Map` and plain objects with string keys: entries in the order of insertion, where
-- `set` on a key that is present keeps its place.
pub mod Laws
use inter_claude_connector.Base.{
  String, ◌≡◌, Bool, Option, none, some, List, [], ◌∷◌, map, ◌==◌, if◌then◌else◌, is_some,
}

abbrev pub Dict {ℓ} : Type ℓ → Type ℓ
Dict V = List (String × V)

module _ {ℓ} {V : Type ℓ} where
  unfoldable pub get : String → Dict V → Option V
  get k [] = none
  get k ((j, v) ∷ m) = if j == k then some v else get k m

  unfoldable pub set : String → V → Dict V → Dict V
  set k v [] = (k, v) ∷ []
  set k v ((j, w) ∷ m) = let rest = set k v m in if j == k then (j, v) ∷ m else (j, w) ∷ rest

  unfoldable pub delete : String → Dict V → Dict V
  delete k [] = []
  delete k ((j, v) ∷ m) = let rest = delete k m in if j == k then rest else (j, v) ∷ rest

  abbrev pub has : String → Dict V → Bool
  has k m = is_some (get k m)

  -- The first entry, in order, whose value passes the test.
  unfoldable pub find : (V → Bool) → Dict V → Option (String × V)
  find p [] = none
  find p ((k, v) ∷ m) = let rest = find p m in if p v then some (k, v) else rest

  -- Drops the entries whose value passes the test.
  unfoldable pub delete_where : (V → Bool) → Dict V → Dict V
  delete_where p [] = []
  delete_where p ((k, v) ∷ m) = let rest = delete_where p m in if p v then rest else (k, v) ∷ rest

abbrev pub keys {ℓ} : {V : Type ℓ} → Dict V → List String
keys m = map (λ e. e.0) m

-- No key occurs twice.
abbrev pub Distinct {ℓ} : {V : Type ℓ} → Dict V → Type ℓ
Distinct [] = Unit
Distinct {V} ((k, v) ∷ m) = (◌≡◌ {A = Option V} (get k m) none) × Distinct m
