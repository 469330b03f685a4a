-- ===== src/Instances.antt =====
-- src/instances.ts: the index of instance names. `candidate` is what `sanitize` makes of the last part
-- of the directory, and `decimal` prints a number.
pub mod Laws
pub mod Sanitize
pub mod Names
mod Tests
use Prim.Native.String
use inter_claude_connector.Base.{
  ℕ, zero, suc, String, Bool, false, not, Option, none, some, ◌==◌, if◌then◌else◌,
}
use inter_claude_connector.Dict.{Dict, get, set, find}
use inter_claude_connector.Inbox.Signals.{take_chars}

-- `name in index && index[name] !== dir`, for a name that is no property of every JavaScript object, such
-- as `constructor`: those are always taken.
abbrev pub is_taken : (index : Dict String) (dir name : String) → Bool
is_taken index dir name = elim (get name index) [ none ↦ false | some path ↦ not (path == dir) ]

module _ (decimal : ℕ → String) where
  -- The `while` loop of `resolve`, on fuel; none is a loop that has not ended.
  unfoldable pub free_name :
      (fuel : ℕ) (candidate dir : String) (index : Dict String) (name : String) (suffix : ℕ)
      → Option String
  unfolding take_chars
  free_name zero candidate dir index name suffix = none
  free_name (suc fuel) candidate dir index name suffix =
      let next = take_chars 32 (String.◌++◌ candidate (String.◌++◌ "-" (decimal suffix))) in
      let rest = free_name fuel candidate dir index next (suc suffix) in
      if is_taken index dir name then rest else some name

  unfoldable pub resolve :
      (fuel : ℕ) (candidate dir : String) (index : Dict String) → Option (String × Dict String)
  resolve fuel candidate dir index = elim (find (λ path. path == dir) index) [
    | some (name, _) ↦ some (name, index)
    | none ↦ elim (free_name fuel candidate dir index candidate 2) [
      | none ↦ none
      | some name ↦ some (name, set name dir index)
    ]
  ]
