-- ===== src/Messages.antt =====
-- The inbox messages of src/types.ts, and `isReceipt` of src/inbox.ts.
use inter_claude_connector.Base.{String, Bool, false, Option, none, some, List, is_text}

pub data InboxMessageStatus : Type 0 where
  waiting_for_reply fyi_only action_needed resolved : InboxMessageStatus

pub record MessageMeta : Type 0 where
  pub type : Option String
  pub original_id : Option String
  pub read_at : Option String
  pub recipients : List String

pub record InboxMessage : Type 0 where
  pub id : String
  pub from : String
  pub to : String
  pub timestamp : String
  pub body : String
  pub reply_to : Option String
  pub thread_id : Option String
  pub status : Option InboxMessageStatus
  pub meta : Option MessageMeta
  pub read : Bool

-- `m._meta?.type === 'read-receipt'`
abbrev pub has_receipt_type : Option MessageMeta → Bool
has_receipt_type none = false
has_receipt_type (some meta) = is_text meta.type "read-receipt"

unfoldable pub is_receipt : InboxMessage → Bool
is_receipt m = has_receipt_type m.meta
