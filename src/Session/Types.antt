-- ===== src/Session/Types.antt =====
-- The records of src/assistant_runtime/app/assistant/_serialization.py, _session_store.py and models.py
-- that the session store keeps. `J` is the type of the JSON values that the store passes on unread;
-- times are numbers.
use assistant_runtime.Prelude.{ℕ, String, Option, List, Dict}

pub data Role : Type 0 where
  user assistant host : Role

pub data MessageType : Type 0 where
  standard steering : MessageType

pub data SteeringStatus : Type 0 where
  pending delivered promoted : SteeringStatus

-- One host tool's entry in a tool group; one without `output` waits for its result.
pub record ToolEntry (J : Type 0) : Type 0 where
  pub id : String
  pub name : String
  pub args : J
  pub output : Option J
  pub outcome : Option String
  pub status : Option String

-- An element of a tool group's list; `junk` is one that is no dict.
pub data ToolItem (J : Type 0) : Type 0 where
  entry : ToolEntry J → ToolItem J
  junk : J → ToolItem J

-- A segment by its kind; `other` is one that is no dict or has another kind.
pub data Segment (J : Type 0) : Type 0 where
  content : (kind : String) → (text : String) → Segment J
  tool_group : List (ToolItem J) → Segment J
  other : J → Segment J

pub record Message (J : Type 0) : Type 0 where
  pub id : String
  pub session_id : String
  pub parent_id : Option String
  pub role : Role
  pub message_type : MessageType
  pub content : String
  pub segments : Option (List (Segment J))
  pub usage : Option J
  pub prompt : Option J
  pub model_messages : Option (List J)
  pub created_at : ℕ
  pub updated_at : ℕ

pub record Steering (J : Type 0) : Type 0 where
  pub id : String
  pub session_id : String
  pub content : String
  pub profile : Option String
  pub status : SteeringStatus
  pub attachments : Option (List J)
  pub created_at : ℕ
  pub delivered_at : Option ℕ

-- What the store reads of an `AssistantRequest`; `attachments` are its reference attachments, dumped.
pub record Request (J : Type 0) : Type 0 where
  pub id : String
  pub session_id : String
  pub profile : Option String
  pub subject : Option String
  pub parent_id : Option String
  pub message_type : MessageType
  pub content : String
  pub attachments : List J

-- A session's context dict. An absent key reads as its `None` or empty value.
pub record Context (J : Type 0) : Type 0 where
  pub turn_number : ℕ
  pub working_memory : Option J
  pub title : Option String
  pub owner_id : Option String
  pub profile : Option String
  pub subject : Option String
  pub telegram_chat_id : Option String
  pub telegram_bound_at : Option ℕ
  pub last_host_context : Option J
  pub last_request_config : Option J
  pub pending_tool_call_id : Option String
  pub pending_tool_name : Option String
  pub pending_assistant_message_id : Option String
  pub pending_tool_batch : List String
  pub pending_output_mode : Option String
  pub current_assistant_message_id : Option String
  pub pending_steering_ids : List String
  pub steering_index : Dict String (Steering J)
  pub steering_order : List String
  pub message_count : ℕ
  pub message_index : Dict String (Message J)
  pub children_by_parent : Dict (Option String) (List String)
  pub cached_path : List (Message J)
  pub active_leaf_id : Option String
  pub used_at : Option ℕ
  pub prompt_snapshots : Dict String String

-- The stored host action that a session waits on.
pub record PendingAction : Type 0 where
  pub tool_call_id : Option String
  pub tool_name : Option String
  pub assistant_message_id : Option String
  pub batch : List String
  pub output_mode : Option String

pub record LoadedSession (J : Type 0) : Type 0 where
  pub turn_number : ℕ
  pub working_memory : Option J
  pub title : Option String
  pub owner_id : Option String
  pub telegram_chat_id : Option String
  pub telegram_bound_at : Option ℕ
  pub messages : List (Message J)
  pub steering : List (Steering J)
  pub pending_action : Option PendingAction
  pub profile : Option String
  pub subject : Option String
