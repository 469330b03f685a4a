-- ===== src/Registry/Legacy.antt =====
-- The registrations by process number of src/registry.ts, and the listing of both kinds.
use inter_claude_connector.Base.{
  ℕ, String, Bool, true, false, not, ◌&&◌, ◌||◌, Option, none, some, List, [], ◌∷◌, ◌++◌, map, ◌==◌,
  nat_eq, if◌then◌else◌, or_else,
}
use inter_claude_connector.Dict.{Dict, get, set, delete, has, delete_where}
use inter_claude_connector.Registry.{
  RegistrationState, unregistered, SessionRegistration, RegistryEntry, Registry,
}

-- What the operating system says of processes: `process.kill(pid, 0)` finds the process or is
-- refused with EPERM, the trimmed text of /proc/<pid>/comm, and that of /proc/<pid>/cmdline with
-- the answer to `includes('icc-mcp')`; none where the read throws.
pub record Processes : Type 0 where
  pub is_alive : ℕ → Bool
  pub comm : ℕ → Option String
  pub cmdline_has_icc_mcp : ℕ → Option Bool

unfoldable pub is_claude_code_process : Processes → ℕ → Bool
is_claude_code_process os pid = if not (os.is_alive pid) then false else elim (os.comm pid) [
  | none ↦ true
  | some name ↦
      if name == "claude"
      then true
      else if name == "node"
      then or_else (os.cmdline_has_icc_mcp pid) true
      else false
]

-- `register`; none is the error for a missing field.
unfoldable pub register :
    (now : ℕ) (name : String) (pid : ℕ) (address : String)
    → Registry
    → Option (RegistryEntry × Registry)
register now name pid address s =
    if name == "" || nat_eq pid 0 || address == "" then none else elim (get name s.instances) [
      | some existing ↦
          let entry = record existing { pid = pid; address = address; last_seen = now } in
          some (entry, record s { instances = set name entry s.instances })
      | none ↦
          let entry : RegistryEntry = record {
            address = address;
            instance_name = name;
            pid = pid;
            registered_at = now;
            last_seen = now;
          } in
          some (entry, record s { instances = set name entry s.instances })
    ]

unfoldable pub prune : Processes → Registry → Registry
prune os s = record s {
  instances = delete_where (λ entry. not (os.is_alive entry.pid)) s.instances;
}

abbrev is_listed : RegistrationState → Bool
is_listed unregistered = false
is_listed _ = true

-- The entries that `list` pushes for sessions that the other map does not have.
unfoldable pub session_entries :
    Dict RegistryEntry → (ℕ → SessionRegistration) → Dict ℕ → List RegistryEntry
session_entries instances heap [] = []
session_entries instances heap ((name, ref) ∷ rest) =
    let later = session_entries instances heap rest in
    let reg = heap ref in
    if is_listed reg.state && not (has name instances)
    then record {
      address = "";
      instance_name = name;
      pid = reg.pid;
      registered_at = reg.last_seen;
      last_seen = reg.last_seen;
    }
      ∷ later
    else later

unfoldable pub list : Processes → Registry → List RegistryEntry × Registry
unfolding prune session_entries
list os s =
    let s' = prune os s in
    (map (λ e. e.1) s'.instances ++ session_entries s'.instances s'.heap s'.sessions, s')

-- `deregister`; `pid` is none where the caller gives none.
unfoldable pub deregister : Processes → String → Option ℕ → Registry → Bool × Registry
unfolding is_claude_code_process
deregister os name pid s = elim (get name s.instances) [
  | none ↦ (false, s)
  | some entry ↦
      let removed : Bool × Registry = (true, record s { instances = delete name s.instances }) in
      elim pid [
        | some p ↦ if not (nat_eq entry.pid p) then (false, s) else removed
        | none ↦ if is_claude_code_process os entry.pid then (false, s) else removed
      ]
]
