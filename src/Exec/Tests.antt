-- ===== src/Exec/Tests.antt =====
-- The laws of src/util/exec.ts at a small configuration, and runs of its functions.
use inter_claude_connector.Exec.Endpoints.{
  join_comma, first_plain, exec_error, error_status, failed, parsed, post_readfile, post_exec,
  post_readfile-denied,
}
use inter_claude_connector.Exec.{
  Security, starts_with, base_name, is_command_allowed, find_subcommand, is_subcommand_allowed,
  path_not_allowed, ExecCall, denied, allowed, is_path_allowed, safe_read_file, safe_exec,
}
use inter_claude_connector.Server.Routes.{strip_prefix, contains}
use inter_claude_connector.Base.{
  ℕ, ◌≤◌, String, ◌≡◌, refl, ◌≢◌, inr, true, false, none, some, List, [], ◌∷◌, includes,
}
use inter_claude_connector.Dict.{get}
use inter_claude_connector.Exec.Laws.{
  base_name-join, IsBelow, safe_read_file-allowed, IsNamed, IsSubcommand, here, flag_with_value,
  safe_exec-allowed,
}

abbrev sample : Security
sample = record {
  readfile_enabled = true;
  exec_enabled = true;
  allowed_paths = "/data" ∷ [];
  allowed_commands = "git" ∷ [];
  allowed_subcommands = ("git", "status" ∷ []) ∷ [];
  max_exec_timeout = 30;
}

subcommands :
    (find_subcommand false ("-C" ∷ "/data" ∷ "status" ∷ []) ≡ some "status")
    × (find_subcommand false ("--version" ∷ []) ≡ none)
unfolding find_subcommand starts_with
subcommands = (refl, refl)

base_name-join_example : base_name "/usr/bin/git" ≡ "git"
base_name-join_example = base_name-join "/usr/bin" "git" refl

reads : safe_read_file (λ s. s) sample "/data/a" ≡ allowed "/data/a"
unfolding safe_read_file is_path_allowed starts_with
reads = refl

safe_read_file-allowed_example :
    (true ≡ true)
    × (◌≡◌ {A = String} "/data/a" "/data/a")
    × ((prefix : String) × (includes ("/data" ∷ []) prefix ≡ true)
        × IsBelow (λ s. s) "/data/a" prefix)
safe_read_file-allowed_example = safe_read_file-allowed (λ s. s) sample "/data/a" "/data/a" reads

abbrev sample_call : ExecCall
sample_call = record {
  command = "/usr/bin/git";
  args = "-C" ∷ "/data" ∷ "status" ∷ [];
  timeout = 30;
  cwd = none;
}

runs :
    safe_exec sample "/usr/bin/git" ("-C" ∷ "/data" ∷ "status" ∷ []) (some 60) none
    ≡ allowed sample_call
unfolding safe_exec is_command_allowed is_subcommand_allowed base_name find_subcommand starts_with
    get
runs = refl

safe_exec-allowed_example :
    (true ≡ true)
    × (sample_call.command ≡ "/usr/bin/git")
    × (sample_call.args ≡ "-C" ∷ "/data" ∷ "status" ∷ [])
    × (sample_call.cwd ≡ none)
    × ((name : String) × IsNamed name "/usr/bin/git"
        × (includes ("git" ∷ []) name ≡ true)
        × ((restricted : List String) (sub : String)
            → get name sample.allowed_subcommands ≡ some restricted
            → IsSubcommand sample_call.args sub
            → includes restricted sub ≡ true))
    × (30 ≤ 30)
    × ((t : ℕ) → some 60 ≡ some t → t ≢ 0 → 30 ≤ t)
safe_exec-allowed_example =
    safe_exec-allowed sample "/usr/bin/git" ("-C" ∷ "/data" ∷ "status" ∷ []) (some 60) none runs

status-IsSubcommand : IsSubcommand sample_call.args "status"
unfolding starts_with
status-IsSubcommand = flag_with_value "-C" "/data" refl refl (here "status" [] refl)

hidden : safe_read_file (λ s. s) sample "/etc" ≡ denied path_not_allowed
unfolding safe_read_file is_path_allowed starts_with
hidden = refl

post_readfile-denied_example :
    post_readfile {A = String} (λ s. s) (λ path. inr path) sample (parsed "/etc") ≡ failed 403
post_readfile-denied_example =
    post_readfile-denied (λ s. s) (λ path. inr path) sample "/etc" path_not_allowed hidden

-- A subcommand that is not allowed is answered as an error of the server.
push_status :
    post_exec {A = String}
      (λ call. inr call.command)
      sample
      (parsed (record { command = "git"; args = "push" ∷ []; timeout = none; cwd = none }))
    ≡ failed 500
unfolding post_exec safe_exec exec_error first_plain error_status contains strip_prefix join_comma
    base_name is_command_allowed is_subcommand_allowed find_subcommand starts_with get
push_status = refl
