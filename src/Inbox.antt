-- ===== src/Inbox.antt =====
-- src/inbox.ts: the inbox of one host. This module has its state; the children have the signal
-- files and the operations. What goes out of the module is kept in the state in the order of the
-- calls: the notifications, the messages handed to subscribers, the receipts handed to the receipt
-- sender and the lines appended to the archive.
pub mod Signals
pub mod Operations
pub mod Groups
pub mod Refresh
pub mod Reading
pub mod Purging
pub mod Lifecycle
pub mod Invariant
pub mod Events
mod Tests
use inter_claude_connector.Base.{ℕ, String, Bool, Option, List}
use inter_claude_connector.Dict.{Dict}
use inter_claude_connector.Messages.{InboxMessageStatus, InboxMessage}

-- The parts of what `writeSignalContent` writes to a file.
pub record SignalContent : Type 0 where
  pub unread : ℕ
  pub senders : List String
  pub latest : String
  pub preview : String
  pub status : Option InboxMessageStatus

-- The signal files of the inbox directory: `unread`, and `unread.<instance>` by instance name.
pub record SignalFiles : Type 0 where
  pub broadcast : Option SignalContent
  pub instances : Dict SignalContent

-- What the module asks of its surroundings: whether a signal file can be written (none is
-- `unread`), which subscribers' callbacks throw, and the text of a clock value.
pub record Host : Type 0 where
  pub can_write : Option String → Bool
  pub throws : ℕ → Bool
  pub to_iso : ℕ → String

-- `db` is none while the database is closed. Subscribers are numbered callbacks.
pub record Inbox : Type 0 where
  pub db : Option (List InboxMessage)
  pub signals : SignalFiles
  pub archive : List InboxMessage
  pub subscribers : List ℕ
  pub has_notifier : Bool
  pub has_receipt_sender : Bool
  pub notified : List InboxMessage
  pub delivered : List (ℕ × InboxMessage)
  pub receipts : List (InboxMessage × String)
