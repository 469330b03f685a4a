-- ===== src/Samples.antt =====
-- Small data that the tests of several modules share.
use inter_claude_connector.Base.{String, true, false, Option, none, some, [], or_else}
use inter_claude_connector.Registry.{empty}
use inter_claude_connector.Server.{Config, Server, mcp_handled, Surroundings}

abbrev pub new_config : (identity : String) (ca : Option String) → Config
new_config identity ca = record {
  identity = identity;
  local_token = none;
  peer_tokens = [];
  ca = ca;
  remotes = [];
}

abbrev pub venus : Server
venus = record {
  config = new_config "venus" (some "earth");
  inbox = record {
    db = some [];
    signals = record { broadcast = none; instances = [] };
    archive = [];
    subscribers = [];
    has_notifier = false;
    has_receipt_sender = false;
    notified = [];
    delivered = [];
    receipts = [];
  };
  registry = empty;
  setup_token = none;
  watchers = [];
  waits = λ _. none;
  sent = [];
  mcp_enabled = true;
  mcp_sessions = [];
  tls_dir = [];
}

abbrev pub venus_env : Surroundings
venus_env = record {
  now = 1;
  message_id = "i";
  fresh_token = "u";
  response = 7;
  processes = record { is_alive = λ _. true; comm = λ _. none; cmdline_has_icc_mcp = λ _. none };
  reload = λ o. or_else o (new_config "venus" none);
  parse_int = λ _. 0;
  new_mcp_session = some "n";
  mcp_transport = λ _ _. mcp_handled;
  challenge_written = none;
  host = record { can_write = λ _. true; throws = λ _. false; to_iso = λ _. "2" };
}
