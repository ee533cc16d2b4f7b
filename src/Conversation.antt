-- ===== src/Conversation.antt =====
-- src/domain/conversation.rs: messages and sessions. `created_at` and `updated_at` are left out:
-- nothing that is modelled reads them. `session_id` stands for the random identifier of a session.
use bonsai_agent.Prelude.{
  ℕ, String, Bool, true, false, Option, none, some, List, [], ◌∷◌, ◌++◌, if◌then◌else◌,
}

pub data Role : Type 0 where
  system user assistant tool : Role

pub data Attachment : Type 0 where
  image : List ℕ → Attachment

pub record Message : Type 0 where
  pub role : Role
  pub content : String
  pub attachments : List Attachment
  pub tool_call_id : Option String

-- `Message::system`, `user`, `assistant` and `tool`.
abbrev pub system_message : String → Message
system_message content = record {
  role = Role.system;
  content = content;
  attachments = [];
  tool_call_id = none;
}

abbrev pub user_message : String → Message
user_message content = record {
  role = Role.user;
  content = content;
  attachments = [];
  tool_call_id = none;
}

abbrev pub assistant_message : String → Message
assistant_message content = record {
  role = Role.assistant;
  content = content;
  attachments = [];
  tool_call_id = none;
}

abbrev pub tool_message : String → String → Message
tool_message content id = record {
  role = Role.tool;
  content = content;
  attachments = [];
  tool_call_id = some id;
}

abbrev pub is_system : Role → Bool
is_system Role.system = true
is_system _ = false

abbrev pub is_user : Role → Bool
is_user Role.user = true
is_user _ = false

abbrev pub is_assistant : Role → Bool
is_assistant Role.assistant = true
is_assistant _ = false

abbrev pub is_tool : Role → Bool
is_tool Role.tool = true
is_tool _ = false

pub record Session : Type 0 where
  pub id : String
  pub messages : List Message
  pub summary : Option String

abbrev pub new_session : String → Session
new_session session_id = record { id = session_id; messages = []; summary = none }

abbrev pub add_message : Session → Message → Session
add_message s message = record s { messages = s.messages ++ message ∷ [] }

-- `messages.iter().filter(|m| matches!(m.role, Role::System))`.
abbrev pub systems : List Message → List Message
systems [] = []
systems (m ∷ ms) = let rest = systems ms in if is_system m.role then m ∷ rest else rest
