-- ===== src/Exec/Laws.antt =====
-- What src/util/exec.ts lets through.
use Prim.Native.Char.{code}
use Prim.Native.String
use text.Mathlib.TextEquality.{codes_equal}
use text.Mathlib.TextLemmas.{nil-append, cons-append}
use inter_claude_connector.Base.{
  ℕ, ◌≤◌, String, ◌≡◌, refl, sym, ap, ◌∙◌, ◌≢◌, ◌⊎◌, inl, inr, true, false, ◌||◌, Option, some,
  List, [], ◌∷◌, arith, ◌==◌, eq_iff, eq_refl, nat_eq, Bool-cases, truthy, any, includes,
}
use inter_claude_connector.Dict.{get}
use inter_claude_connector.Exec.{
  Security, starts_with, has_slash, base_name, is_command_allowed, git_flags_with_value,
  find_subcommand, is_subcommand_allowed, ExecCall, allowed, is_path_allowed, safe_read_file,
  safe_exec,
}

-- `s` is `prefix` and something behind it.
starts_with-append :
    (prefix s : String)
    → starts_with prefix s ≡ true
    → (rest : String) × (s ≡ String.◌++◌ prefix rest)
unfolding starts_with
starts_with-append String.[] s h = (s, sym (nil-append s))
starts_with-append (String.◌∷◌ c p) String.[] h = cc
starts_with-append (String.◌∷◌ c p) (String.◌∷◌ d s) h =
    let (rest, e) = starts_with-append p s (ground arith) in
    let same : c ≡ d = codes_equal c d (ground arith) in
    (rest, rw (cons-append, same) (ap (String.◌∷◌ d) e))

has_slash-join :
    (directory name : String) → has_slash (String.◌++◌ directory (String.◌++◌ "/" name)) ≡ true
has_slash-join String.[] name = rw (nil-append, cons-append) refl
has_slash-join (String.◌∷◌ c d) name = rw cons-append (ground (arith, has_slash-join d name))

-- The last part of a path whose last part has no slash.
pub base_name-join :
    (directory name : String)
    → has_slash name ≡ false
    → base_name (String.◌++◌ directory (String.◌++◌ "/" name)) ≡ name
unfolding base_name
base_name-join String.[] name h = rw (nil-append, cons-append, nil-append) (ground (arith, h))
base_name-join (String.◌∷◌ c d) name h =
    rw cons-append (ground (arith, has_slash-join d name, base_name-join d name h))

-- The path is an allowed one or below it.
abbrev pub IsBelow : (resolve : String → String) (path prefix : String) → Type 0
IsBelow resolve path prefix =
    (path ≡ resolve prefix)
    ⊎ ((rest : String) × (path ≡ String.◌++◌ (String.◌++◌ (resolve prefix) "/") rest))

find_prefix :
    (resolve : String → String) (path : String) (prefixes : List String)
    → any
        (λ prefix. (path == resolve prefix) || starts_with (String.◌++◌ (resolve prefix) "/") path)
        prefixes
      ≡ true
    → (prefix : String) × (includes prefixes prefix ≡ true) × IsBelow resolve path prefix
find_prefix resolve path [] h = cc
find_prefix resolve path (p ∷ ps) h = elim (Bool-cases (path == resolve p)) [
  | inl same ↦ (p, ground (arith, eq_refl p), inl ((eq_iff path (resolve p)).0 same))
  | inr other ↦ elim (Bool-cases (starts_with (String.◌++◌ (resolve p) "/") path)) [
    | inl below ↦ (p, ground (arith, eq_refl p), inr (starts_with-append _ path below))
    | inr apart ↦
        let (prefix, there, is_below) = find_prefix resolve path ps (ground arith) in
        (prefix, ground (arith, there), is_below)
  ]
]

-- A file that may be read is, once resolved, one of the allowed paths or below one of them.
pub safe_read_file-allowed :
    (resolve : String → String) (security : Security) (file path : String)
    → safe_read_file resolve security file ≡ allowed path
    → (security.readfile_enabled ≡ true)
      × (path ≡ resolve file)
      × ((prefix : String) × (includes security.allowed_paths prefix ≡ true)
          × IsBelow resolve path prefix)
unfolding safe_read_file is_path_allowed
safe_read_file-allowed resolve security file path h = (
  ground arith,
  ground arith,
  let e : path ≡ resolve file = ground arith in
      rw e (find_prefix resolve (resolve file) security.allowed_paths (ground arith)),
)

-- The name is what is behind the last slash of the command, or all of it where it has none.
abbrev pub IsNamed : (name command : String) → Type 0
IsNamed name command =
    (has_slash name ≡ false)
    × ((command ≡ name)
        ⊎ ((directory : String) × (command ≡ String.◌++◌ directory (String.◌++◌ "/" name))))

base_name-IsNamed : (command : String) → IsNamed (base_name command) command
unfolding base_name
base_name-IsNamed String.[] = (refl, inl refl)
base_name-IsNamed (String.◌∷◌ c s) = elim (Bool-cases (has_slash s)) [
  | inl deeper ↦
      let (plain, whole) = base_name-IsNamed s in
      let e : base_name (String.◌∷◌ c s) ≡ base_name s = ground (arith, deeper) in
      rw e (
        plain,
        elim whole [
          | inl same ↦ absurd (ground (arith, deeper, plain, ap has_slash same))
          | inr (directory, there) ↦
              inr (String.◌∷◌ c directory, ap (String.◌∷◌ c) there ∙ sym (cons-append c _ _))
        ],
      )
  | inr plain ↦ elim (Bool-cases (nat_eq (code c) b'/')) [
    | inl slash ↦
        let e : base_name (String.◌∷◌ c s) ≡ s = ground (arith, plain, slash) in
        let same : c ≡ "/" = codes_equal c "/" (ground (arith, slash)) in
        rw e (plain, inr ("", rw (nil-append, cons-append, nil-append, same) refl))
    | inr other ↦
        let e : base_name (String.◌∷◌ c s) ≡ String.◌∷◌ c s = ground (arith, plain, other) in
        rw e (ground (arith, plain, other), inl refl)
  ]
]

-- `sub` is the first argument that is neither a flag nor the value of a flag that takes one.
pub data IsSubcommand : (args : List String) (sub : String) → Type 0 where
  here :
      (sub : String) (rest : List String)
      → starts_with "-" sub ≡ false
      → IsSubcommand (sub ∷ rest) sub
  flag :
      {sub : String} {args : List String} (f : String)
      → starts_with "-" f ≡ true
      → includes git_flags_with_value f ≡ false
      → IsSubcommand args sub
      → IsSubcommand (f ∷ args) sub
  flag_with_value :
      {sub : String} {args : List String} (f v : String)
      → starts_with "-" f ≡ true
      → includes git_flags_with_value f ≡ true
      → IsSubcommand args sub
      → IsSubcommand (f ∷ v ∷ args) sub

find_subcommand-IsSubcommand :
    {args : List String} {sub : String}
    → IsSubcommand args sub
    → find_subcommand false args ≡ some sub
unfolding find_subcommand
find_subcommand-IsSubcommand (here sub rest plain) = ground (arith, plain)
find_subcommand-IsSubcommand (flag f dash alone h) =
    rw (dash, alone) (find_subcommand-IsSubcommand h)
find_subcommand-IsSubcommand (flag_with_value f v dash valued h) =
    rw (dash, valued) (find_subcommand-IsSubcommand h)

-- What is run, with running enabled, is the command given with the arguments given in the directory
-- given; the last part of the command is allowed, and so is the subcommand among the arguments
-- where the command has restrictions. The time is bounded by the configured one, and by the one given
-- where that is not 0.
pub safe_exec-allowed :
    (security : Security) (command : String) (args : List String) (timeout : Option ℕ)
    (cwd : Option String) {call : ExecCall}
    → safe_exec security command args timeout cwd ≡ allowed call
    → (security.exec_enabled ≡ true)
      × (call.command ≡ command)
      × (call.args ≡ args)
      × (call.cwd ≡ truthy cwd)
      × ((name : String) × IsNamed name call.command
          × (includes security.allowed_commands name ≡ true)
          × ((restricted : List String) (sub : String)
              → get name security.allowed_subcommands ≡ some restricted
              → IsSubcommand call.args sub
              → includes restricted sub ≡ true))
      × (call.timeout ≤ security.max_exec_timeout)
      × ((t : ℕ) → timeout ≡ some t → t ≢ 0 → call.timeout ≤ t)
unfolding safe_exec is_command_allowed is_subcommand_allowed
safe_exec-allowed security command args timeout cwd {call} h =
    let runs : call.command ≡ command = ground arith in
    let given : call.args ≡ args = ground arith in
    (
      ground arith,
      runs,
      given,
      ground arith,
      (
        base_name command,
        rw runs (base_name-IsNamed command),
        ground arith,
        λ restricted sub g f.
            let found : find_subcommand false args ≡ some sub =
              ap (λ x. find_subcommand false x) (sym given) ∙ find_subcommand-IsSubcommand f in
            ground arith,
      ),
      ground arith,
      λ t e n. ground arith,
    )
