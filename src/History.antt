-- ===== src/History.antt =====
-- pkg/history/types.go: the messages of a conversation.
use gopheragent.Base.{ℕ, Bool, false, List, [], Option, none, Text, codes, same}

pub record MediaPart : Type 0 where
  pub part_type : Text
  pub text : Text
  pub mime : Text
  pub url : Text
  pub bytes : Text

pub record ToolCall : Type 0 where
  pub id : Text
  pub name : Text
  pub arguments : Text

-- The payload of a compaction record.
pub record Compaction : Type 0 where
  pub summarized : ℕ

pub record Message : Type 0 where
  pub role : Text
  pub content : Text
  pub parts : List MediaPart
  pub tool_call_id : Text
  pub tool_calls : List ToolCall
  pub is_error : Bool
  pub is_inline_result : Bool
  pub correlation_id : Text
  pub cache_hint : Bool
  pub compaction : Option Compaction

abbrev pub role_system : Text
role_system = codes "system"

abbrev pub role_user : Text
role_user = codes "user"

abbrev pub role_assistant : Text
role_assistant = codes "assistant"

abbrev pub role_tool : Text
role_tool = codes "tool"

-- A message literal that names its role and content only.
abbrev pub plain_message : Text → Text → Message
plain_message role content = record {
  role = role;
  content = content;
  parts = [];
  tool_call_id = [];
  tool_calls = [];
  is_error = false;
  is_inline_result = false;
  correlation_id = [];
  cache_hint = false;
  compaction = none;
}

abbrev pub has_role : Text → Message → Bool
has_role r m = same m.role r
