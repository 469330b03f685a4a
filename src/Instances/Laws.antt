-- ===== src/Instances/Laws.antt =====
-- The names of src/instances.ts: a directory keeps its name, and no other directory loses its own.
use Prim.Native.String
use text.Mathlib.TextLemmas.{cons-append, length-nil, length-cons}
use inter_claude_connector.Base.{
  ℕ, zero, suc, String, ◌≡◌, refl, ap, inl, inr, true, false, none, some, [], ◌∷◌, arith, ◌==◌,
  eq_iff, eq_refl, Bool-cases, Option-cases,
}
use inter_claude_connector.Dict.{Dict, get, set, find, Distinct}
use inter_claude_connector.Instances.{is_taken, free_name, resolve}
use inter_claude_connector.Dict.Laws.{get-set, get-find}
use inter_claude_connector.Inbox.Signals.{take_chars}

find-set :
    (dir name : String) (index : Dict String)
    → find (λ path. path == dir) index ≡ none
    → is_taken index dir name ≡ false
    → find (λ path. path == dir) (set name dir index) ≡ some (name, dir)
unfolding find set get
find-set dir name [] h free = ground (arith, eq_refl dir)
find-set dir name ((k, path) ∷ index) h free =
    ground (arith, find-set dir name index, eq_iff k name, eq_refl dir)

module _ (decimal : ℕ → String) (candidate dir : String) (index : Dict String) where
  free_name-free :
      (fuel : ℕ) (name : String) (suffix : ℕ) (result : String)
      → free_name decimal fuel candidate dir index name suffix ≡ some result
      → is_taken index dir result ≡ false
  unfolding free_name
  free_name-free zero name suffix result h = cc
  free_name-free (suc fuel) name suffix result h = elim (Bool-cases (is_taken index dir name)) [
    | inl taken ↦
        free_name-free fuel
          (take_chars 32 (String.◌++◌ candidate (String.◌++◌ "-" (decimal suffix)))) (suc suffix)
          result (ground arith)
    | inr free ↦ ground arith
  ]

  -- The name of a directory is its own afterwards, the names of the others stay theirs, and asking
  -- again, with any candidate, gives the same name and changes nothing.
  pub resolve-resolve :
      (fuel : ℕ) (name : String) (index' : Dict String)
      → Distinct index
      → resolve decimal fuel candidate dir index ≡ some (name, index')
      → (get name index' ≡ some dir)
        × ((other : String) (path : String)
            → get other index ≡ some path
            → get other index' ≡ some path)
        × ((fuel' : ℕ) (candidate' : String)
            → resolve decimal fuel' candidate' dir index' ≡ some (name, index'))
  unfolding resolve
  resolve-resolve fuel name index' d h = elim (Option-cases (find (λ path. path == dir) index)) [
    | inr ((k, path), found) ↦
        let (there, same) = get-find (λ p. p == dir) index k path d found in
        (
          ground (arith, found, there, eq_iff path dir),
          λ other p g. ground (arith, found, g),
          λ fuel' candidate'. ground (arith, found),
        )
    | inl new ↦ elim (Option-cases (free_name decimal fuel candidate dir index candidate 2)) [
      | inl stuck ↦ absurd (ground arith)
      | inr (k, chosen) ↦
          let free = free_name-free fuel candidate 2 k chosen in
          (
            ground (arith, new, chosen, get-set k k dir index, eq_refl k),
            λ other p g. ground (
              arith,
              new,
              chosen,
              g,
              free,
              get-set k other dir index,
              eq_iff k other,
              eq_iff p dir,
            ),
            λ fuel' candidate'. ground (arith, new, chosen, find-set dir k index new free),
          )
    ]
  ]

take_chars-append : (n : ℕ) (s t : String) → String.count s ≡ n → take_chars n (String.◌++◌ s t) ≡ s
unfolding take_chars
take_chars-append zero String.[] t h = refl
take_chars-append zero (String.◌∷◌ c s) t h = absurd (omega (arith, length-cons c s))
take_chars-append (suc n) String.[] t h = absurd (omega (arith, length-nil))
take_chars-append (suc n) (String.◌∷◌ c s) t h =
    rw cons-append (ap (String.◌∷◌ c) (take_chars-append n s t (omega (arith, length-cons c s))))

-- A name of 32 characters is not made longer by a suffix: if another directory has it, the loop
-- never ends.
pub free_name-stuck :
    (decimal : ℕ → String) (fuel : ℕ) (candidate dir : String) (index : Dict String) (suffix : ℕ)
    → String.count candidate ≡ 32
    → is_taken index dir candidate ≡ true
    → free_name decimal fuel candidate dir index candidate suffix ≡ none
unfolding free_name
free_name-stuck decimal zero candidate dir index suffix h taken = refl
free_name-stuck decimal (suc fuel) candidate dir index suffix h taken =
    rw (take_chars-append 32 candidate (String.◌++◌ "-" (decimal suffix)) h, free_name)
      (ground (arith, taken, free_name-stuck decimal fuel candidate dir index (suc suffix) h taken))
