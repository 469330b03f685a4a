-- ===== src/Exec.antt =====
-- src/util/exec.ts: which files may be read and which commands may be run. `resolve` of node:path,
-- behind `expandHome`, is a parameter, and so is what the file system and the processes answer.
pub mod Laws
pub mod Endpoints
mod Tests
use Prim.Native.Char.{code}
use Prim.Native.String
use inter_claude_connector.Base.{
  ℕ, min, String, Bool, true, false, not, ◌&&◌, ◌||◌, Option, none, some, List, [], ◌∷◌, ◌==◌,
  nat_eq, if◌then◌else◌, truthy, any, includes,
}
use inter_claude_connector.Dict.{Dict, get}

-- `config.security`
pub record Security : Type 0 where
  pub readfile_enabled : Bool
  pub exec_enabled : Bool
  pub allowed_paths : List String
  pub allowed_commands : List String
  pub allowed_subcommands : Dict (List String)
  pub max_exec_timeout : ℕ

-- `s.startsWith(prefix)`
unfoldable pub starts_with : (prefix s : String) → Bool
starts_with String.[] s = true
starts_with (String.◌∷◌ c p) String.[] = false
starts_with (String.◌∷◌ c p) (String.◌∷◌ d s) = nat_eq (code c) (code d) && starts_with p s

abbrev pub has_slash : String → Bool
has_slash String.[] = false
has_slash (String.◌∷◌ c s) = nat_eq (code c) b'/' || has_slash s

-- `s.split('/').pop()`: what is behind the last slash.
unfoldable pub base_name : String → String
base_name String.[] = String.[]
base_name (String.◌∷◌ c s) =
    let rest = base_name s in
    let whole = String.◌∷◌ c s in
    if has_slash s then rest else if nat_eq (code c) b'/' then s else whole

unfoldable pub is_command_allowed : String → List String → Bool
unfolding base_name
is_command_allowed command allowed = includes allowed (base_name command)

-- `GIT_FLAGS_WITH_VALUE`
abbrev pub git_flags_with_value : List String
git_flags_with_value =
    "-C" ∷ "-c" ∷ "--git-dir" ∷ "--work-tree" ∷ "--namespace" ∷ "--super-prefix" ∷ "--config-env"
    ∷ []

-- The loop of `isSubcommandAllowed`; `skip` says that the next argument is a flag's value.
unfoldable pub find_subcommand : (skip : Bool) (args : List String) → Option String
find_subcommand skip [] = none
find_subcommand skip (arg ∷ args) =
    let behind = find_subcommand false args in
    let behind_value = find_subcommand true args in
    if skip
    then behind
    else if not (starts_with "-" arg)
    then some arg
    else if includes git_flags_with_value arg
    then behind_value
    else behind

unfoldable pub is_subcommand_allowed : String → List String → Dict (List String) → Bool
unfolding base_name
is_subcommand_allowed command args restrictions = elim (get (base_name command) restrictions) [
  | none ↦ true
  | some restricted ↦ elim (find_subcommand false args) [
    | none ↦ true
    | some sub ↦ includes restricted sub
  ]
]

pub data Denial : Type 0 where
  disabled path_not_allowed command_not_allowed subcommand_not_allowed : Denial

-- What `execFile` is called with.
pub record ExecCall : Type 0 where
  pub command : String
  pub args : List String
  pub timeout : ℕ
  pub cwd : Option String

pub data Outcome {ℓ} (A : Type ℓ) : Type ℓ where
  denied : Denial → Outcome A
  allowed : A → Outcome A

module _ (resolve : String → String) where
  unfoldable pub is_path_allowed : String → List String → Bool
  is_path_allowed file allowed_paths =
      let resolved = resolve file in
      any
        (λ prefix.
          (resolved == resolve prefix) || starts_with (String.◌++◌ (resolve prefix) "/") resolved)
        allowed_paths

  -- `safeReadFile` up to the reading of the file, whose path is the result.
  unfoldable pub safe_read_file : Security → String → Outcome String
  safe_read_file security file =
      if not security.readfile_enabled
      then denied disabled
      else if not (is_path_allowed file security.allowed_paths)
      then denied path_not_allowed
      else allowed (resolve file)

-- `options.timeout || maxExecTimeout`
abbrev pub wanted_timeout : Option ℕ → ℕ → ℕ
wanted_timeout none limit = limit
wanted_timeout (some t) limit = if nat_eq t 0 then limit else t

-- `safeExec` up to the call of `execFile`.
unfoldable pub safe_exec :
    Security
    → (command : String) (args : List String) (timeout : Option ℕ) (cwd : Option String)
    → Outcome ExecCall
safe_exec security command args timeout cwd =
    if not security.exec_enabled
    then denied disabled
    else if not (is_command_allowed command security.allowed_commands)
    then denied command_not_allowed
    else if not (is_subcommand_allowed command args security.allowed_subcommands)
    then denied subcommand_not_allowed
    else allowed (record {
      command = command;
      args = args;
      timeout = min (wanted_timeout timeout security.max_exec_timeout) security.max_exec_timeout;
      cwd = truthy cwd;
    })
