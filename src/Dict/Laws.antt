-- ===== src/Dict/Laws.antt =====
-- What reading gives after each write.
use inter_claude_connector.Base.{
  String, ◌≡◌, refl, ◌≢◌, inl, inr, Bool, true, false, none, some, [], ◌∷◌, arith, ◌==◌, eq_iff,
  if◌then◌else◌, Bool-cases,
}
use inter_claude_connector.Dict.{Dict, get, set, delete, find, delete_where, Distinct}

module _ {ℓ} {V : Type ℓ} where
  pub get-set :
      (k j : String) (v : V) (m : Dict V) → get j (set k v m) ≡ (if k == j then some v else get j m)
  unfolding get set
  get-set k j v [] = refl
  get-set k j v ((i, w) ∷ m) = ground (arith, eq_iff k j, eq_iff i k, eq_iff i j, get-set k j v m)

  pub get-delete :
      (k j : String) (m : Dict V) → get j (delete k m) ≡ (if k == j then none else get j m)
  unfolding get delete
  get-delete k j [] = ground arith
  get-delete k j ((i, w) ∷ m) = ground (arith, eq_iff k j, eq_iff i k, eq_iff i j, get-delete k j m)

  pub get-find :
      (p : V → Bool) (m : Dict V) (k : String) (v : V)
      → Distinct m
      → find p m ≡ some (k, v)
      → (get k m ≡ some v) × (p v ≡ true)
  unfolding get find
  get-find p [] k v d e = cc
  get-find p ((i, w) ∷ m) k v (new, d) e = ground (arith, eq_iff i k, get-find p m k v d)

  pub get_of_delete_where :
      (p : V → Bool) (m : Dict V) (k : String) (v : V)
      → Distinct m
      → get k (delete_where p m) ≡ some v
      → (get k m ≡ some v) × (p v ≡ false)
  unfolding get delete_where
  get_of_delete_where p [] k v d e = cc
  get_of_delete_where p ((i, w) ∷ m) k v (new, d) e =
      ground (arith, eq_iff i k, get_of_delete_where p m k v d)

  get-set-none :
      (k j : String) (v : V) (m : Dict V) → k ≢ j → get j m ≡ none → get j (set k v m) ≡ none
  get-set-none k j v m h e = ground (arith, get-set k j v m, eq_iff k j)

  pub set-Distinct : (k : String) (v : V) (m : Dict V) → Distinct m → Distinct (set k v m)
  unfolding get set
  set-Distinct k v [] d = (refl, tt)
  set-Distinct k v ((i, w) ∷ m) (new, d) = elim (Bool-cases (i == k)) [
    | inl same ↦ rw same (new, d)
    | inr other ↦
        rw other (get-set-none k i v m (λ e. ground (arith, eq_iff i k)) new, set-Distinct k v m d)
  ]

  pub delete-Distinct : (k : String) (m : Dict V) → Distinct m → Distinct (delete k m)
  unfolding get delete
  delete-Distinct k [] d = tt
  delete-Distinct k ((i, w) ∷ m) (new, d) = elim (Bool-cases (i == k)) [
    | inl same ↦ rw same (delete-Distinct k m d)
    | inr other ↦ rw other (ground (arith, get-delete k i m), delete-Distinct k m d)
  ]

pub ruleset dict_laws = (get-set, get-delete)

-- What is left passes no test, and nothing new is there.
module _ {ℓ} {V : Type ℓ} (p : V → Bool) where
  pub get-delete_where :
      (m : Dict V) (k : String) (v : V) → get k (delete_where p m) ≡ some v → p v ≡ false
  unfolding get delete_where
  get-delete_where [] k v e = cc
  get-delete_where ((j, w) ∷ m) k v e = ground (arith, get-delete_where m k v)

  pub delete_where-missing :
      (m : Dict V) (k : String) → get k m ≡ none → get k (delete_where p m) ≡ none
  unfolding get delete_where
  delete_where-missing [] k e = refl
  delete_where-missing ((j, w) ∷ m) k e = ground (arith, delete_where-missing m k)

  -- The entry of a key stays where its value does not pass the test.
  pub delete_where-kept :
      (m : Dict V) (k : String) (v : V)
      → get k m ≡ some v
      → p v ≡ false
      → get k (delete_where p m) ≡ some v
  unfolding get delete_where
  delete_where-kept [] k v e h = cc
  delete_where-kept ((j, w) ∷ m) k v e h = ground (arith, eq_iff j k, delete_where-kept m k v)
