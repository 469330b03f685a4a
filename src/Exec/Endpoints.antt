-- ===== src/Exec/Endpoints.antt =====
-- POST /api/readfile and POST /api/exec of src/server.ts with the errors of src/util/exec.ts: which
-- status an error is answered with, by its text. Reading a file and running a command are given by the
-- caller, as the text of the error or what they answer.
use Prim.Native.String
use inter_claude_connector.Base.{
  ℕ, String, ◌≡◌, refl, ap, ◌∙◌, ◌≢◌, ◌⊎◌, inl, inr, ◌||◌, Option, List, [], ◌∷◌, arith,
  if◌then◌else◌, or_else,
}
use inter_claude_connector.Dict.{get}
use inter_claude_connector.Strings.{append-chain}
use inter_claude_connector.Server.Routes.{strip_prefix, contains}
use inter_claude_connector.Exec.{
  Security, starts_with, base_name, Denial, disabled, path_not_allowed, command_not_allowed,
  subcommand_not_allowed, ExecCall, denied, allowed, safe_read_file, safe_exec,
}

-- `xs.join(', ')`
unfoldable pub join_comma : List String → String
join_comma [] = ""
join_comma (x ∷ []) = x
join_comma (x ∷ y ∷ ys) = String.◌++◌ x (String.◌++◌ ", " (join_comma (y ∷ ys)))

unfoldable pub read_error : Security → (file : String) → Denial → String
read_error security file disabled =
    "File reading is disabled. Set security.readfileEnabled=true in ~/.icc/config.json"
read_error security file _ =
    String.◌++◌ "Path not in allowed list: "
      (String.◌++◌ file (String.◌++◌ ". Allowed: " (join_comma security.allowed_paths)))

-- `${args.find(a => !a.startsWith('-'))}`
unfoldable pub first_plain : List String → String
first_plain [] = "undefined"
first_plain (arg ∷ args) = let rest = first_plain args in if starts_with "-" arg then rest else arg

unfoldable pub exec_error : Security → (command : String) (args : List String) → Denial → String
unfolding base_name first_plain
exec_error security command args disabled =
    "Command execution is disabled. Set security.execEnabled=true in ~/.icc/config.json"
exec_error security command args command_not_allowed =
    String.◌++◌ "Command not in allowed list: "
      (String.◌++◌ command (String.◌++◌ ". Allowed: " (join_comma security.allowed_commands)))
exec_error security command args _ =
    let base = base_name command in
    String.◌++◌ "Subcommand not allowed: " (
      String.◌++◌ base (
        String.◌++◌ " " (
          String.◌++◌ (first_plain args) (
            String.◌++◌ ". Allowed: "
              (join_comma (or_else (get base security.allowed_subcommands) []))))))

unfoldable pub error_status : (text : String) → ℕ
error_status text = if contains "disabled" text || contains "not in allowed" text then 403 else 500

pub data Answer {ℓ} (A : Type ℓ) : Type ℓ where
  answered : A → Answer A
  failed : (status : ℕ) → Answer A

-- A body that is no JSON gives the text of the error, one that the schema refuses gives `invalid`.
pub data Parsed {ℓ} (A : Type ℓ) : Type ℓ where
  no_json : (error : String) → Parsed A
  invalid : Parsed A
  parsed : A → Parsed A

abbrev pub finish {ℓ} : {A : Type ℓ} → String ⊎ A → Answer A
finish (inl error) = failed (error_status error)
finish (inr result) = answered result

unfoldable pub post_readfile {ℓ} :
    {A : Type ℓ} (resolve : String → String) (read : String → String ⊎ A)
    → Security
    → Parsed String
    → Answer A
unfolding error_status safe_read_file read_error
post_readfile resolve read security (no_json error) = failed (error_status error)
post_readfile resolve read security invalid = failed 400
post_readfile resolve read security (parsed file) = elim (safe_read_file resolve security file) [
  | denied why ↦ failed (error_status (read_error security file why))
  | allowed path ↦ finish (read path)
]

pub record ExecBody : Type 0 where
  pub command : String
  pub args : List String
  pub timeout : Option ℕ
  pub cwd : Option String

unfoldable pub post_exec {ℓ} :
    {A : Type ℓ} (run : ExecCall → String ⊎ A) → Security → Parsed ExecBody → Answer A
unfolding error_status safe_exec exec_error
post_exec run security (no_json error) = failed (error_status error)
post_exec run security invalid = failed 400
post_exec run security (parsed b) = elim (safe_exec security b.command b.args b.timeout b.cwd) [
  | denied why ↦ failed (error_status (exec_error security b.command b.args why))
  | allowed call ↦ finish (run call)
]

read_error-status :
    (security : Security) (file : String) (why : Denial)
    → error_status (read_error security file why) ≡ 403
unfolding error_status read_error contains strip_prefix
read_error-status security file disabled = refl
read_error-status security file path_not_allowed =
    rw (append-chain "Path not in allowed list: ") (ground arith)
read_error-status security file command_not_allowed =
    rw (append-chain "Path not in allowed list: ") (ground arith)
read_error-status security file subcommand_not_allowed =
    rw (append-chain "Path not in allowed list: ") (ground arith)

-- A file that may not be read is answered with the status 403, whatever its name and the allowed
-- paths are.
pub post_readfile-denied :
    {A : Type 0} (resolve : String → String) (read : String → String ⊎ A) (security : Security)
    (file : String) (why : Denial)
    → safe_read_file resolve security file ≡ denied why
    → post_readfile resolve read security (parsed file) ≡ failed 403
unfolding post_readfile
post_readfile-denied resolve read security file why h =
    rw (post_readfile, h) (ap (λ x. failed x) (read_error-status security file why))

exec_error-status :
    (security : Security) (command : String) (args : List String) (why : Denial)
    → why ≢ subcommand_not_allowed
    → why ≢ path_not_allowed
    → error_status (exec_error security command args why) ≡ 403
unfolding error_status exec_error contains strip_prefix
exec_error-status security command args disabled n m = refl
exec_error-status security command args path_not_allowed n m = absurd (m refl)
exec_error-status security command args command_not_allowed n m =
    rw (append-chain "Command not in allowed list: ") (ground arith)
exec_error-status security command args subcommand_not_allowed n m = absurd (n refl)

-- `safe_exec` never speaks of paths.
safe_exec-denied :
    (security : Security) (command : String) (args : List String) (timeout : Option ℕ)
    (cwd : Option String)
    → safe_exec security command args timeout cwd ≢ denied path_not_allowed
unfolding safe_exec
safe_exec-denied security command args timeout cwd h = ground arith

-- A command that may not be run is answered with the status 403, unless it is its subcommand that is
-- not allowed.
pub post_exec-denied :
    {A : Type 0} (run : ExecCall → String ⊎ A) (security : Security) (b : ExecBody) (why : Denial)
    → safe_exec security b.command b.args b.timeout b.cwd ≡ denied why
    → why ≢ subcommand_not_allowed
    → post_exec run security (parsed b) ≡ failed 403
unfolding post_exec
post_exec-denied run security b why h n =
    let no_path : why ≢ path_not_allowed =
      λ e. safe_exec-denied security b.command b.args b.timeout b.cwd (h ∙ ap (λ x. denied x) e) in
    rw (post_exec, h)
      (ap (λ x. failed x) (exec_error-status security b.command b.args why n no_path))
