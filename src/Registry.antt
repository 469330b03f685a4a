-- ===== src/Registry.antt =====
-- src/registry.ts: the instance registry of one host. This module has its state; the children
-- have the operations. A registration object is shared by the map `sessions` and by the closures
-- of its timers, so it lives on a heap, and `sessions` holds its reference. What the operating
-- system says of processes is an argument of the operations that ask.
pub mod Legacy
pub mod Sessions
pub mod Invariant
pub mod Idle
pub mod Clear
pub mod Operations
pub mod Events
pub mod Lifetime
mod Tests
use inter_claude_connector.Base.{ℕ, String, Bool, false, Option, none, [], nat_eq, if◌then◌else◌}
use inter_claude_connector.Dict.{Dict}

pub data RegistrationState : Type 0 where
  active grace purgatory unregistered : RegistrationState

-- `SessionRegistration`. `lastSeen` is the clock's value in milliseconds; a timer is its number.
pub record SessionRegistration : Type 0 where
  pub session_token : String
  pub pid : ℕ
  pub state : RegistrationState
  pub last_seen : ℕ
  pub snoozed : Bool
  pub grace_timer : Option ℕ
  pub purgatory_timer : Option ℕ

-- `RegistryEntry` of src/types.ts.
pub record RegistryEntry : Type 0 where
  pub address : String
  pub instance_name : String
  pub pid : ℕ
  pub registered_at : ℕ
  pub last_seen : ℕ

-- The two callbacks that the module hands to `setTimeout`.
pub data Callback : Type 0 where
  grace_over purgatory_over : Callback

-- A pending timer: its callback, the `name` and `reg` that the callback has captured, and when it
-- is due.
pub record Timer : Type 0 where
  pub callback : Callback
  pub name : String
  pub reg : ℕ
  pub due : ℕ

-- The module's two maps, the heap of registration objects and the pending timers of the event
-- loop. `next` is a number that no object and no timer has yet.
pub record Registry : Type 0 where
  pub sessions : Dict ℕ
  pub instances : Dict RegistryEntry
  pub heap : ℕ → SessionRegistration
  pub timers : ℕ → Option Timer
  pub next : ℕ

-- What stands on the heap where nothing was allocated.
abbrev pub blank : SessionRegistration
blank = record {
  session_token = "";
  pid = 0;
  state = unregistered;
  last_seen = 0;
  snoozed = false;
  grace_timer = none;
  purgatory_timer = none;
}

abbrev pub empty : Registry
empty = record { sessions = []; instances = []; heap = λ _. blank; timers = λ _. none; next = 0 }

-- A function changed at one number.
abbrev pub update {ℓ} : {A : Type ℓ} → (ℕ → A) → ℕ → A → ℕ → A
update f i a j = if nat_eq i j then a else f j

-- A write to some fields of the object at `ref`.
abbrev pub modify {ℓ} : {A : Type ℓ} → (ℕ → A) → ℕ → (A → A) → ℕ → A
modify heap ref f j = let old = heap j in if nat_eq ref j then f old else old

abbrev pub grace_timeout_ms : ℕ
grace_timeout_ms = 30_000

abbrev pub purgatory_timeout_ms : ℕ
purgatory_timeout_ms = 600_000
