-- ===== src/Entities.antt =====
-- The rows that the modelled services store: apps/api/src/entities. A column that no modelled
-- operation reads or writes is left out. Dates are milliseconds since the epoch.
use contractor_reviewer.Common.{ℕ, String, Bool, true, false, List, Option, none, some}

-- packages/shared/src/enums/workspace.enum.ts
pub data Role : Type 0 where
  owner admin member viewer : Role

pub record Workspace : Type 0 where
  pub id : String
  pub name : String
  pub created_at : ℕ
  pub updated_at : ℕ

pub record WorkspaceMember : Type 0 where
  pub id : String
  pub workspace_id : String
  pub user_id : String
  pub role : Role
  pub joined_at : ℕ

pub record User : Type 0 where
  pub id : String
  pub email : String
  pub name : Option String
  pub password_hash : String
  pub is_active : Bool

pub record NoLogsConfig : Type 0 where
  pub skip_chat_messages : Bool
  pub accelerated_purge_days : Option ℕ

pub record WorkspaceSettings : Type 0 where
  pub id : String
  pub workspace_id : String
  pub default_file_retention_days : ℕ
  pub default_text_embeddings_retention_days : ℕ
  pub no_logs_enabled : Bool
  pub no_logs_config : Option NoLogsConfig
  pub retention_overrides : Option (List (String × ℕ))
  pub fuzzy_match_threshold : ℕ
  pub chunking_strategy : String
  pub default_document_parser : String
  pub default_llm_provider : Option String
  pub parser_api_keys : Option (List (String × String))
  pub transcription_provider_api_keys : Option (List (String × String))
  pub preferred_transcription_provider : Option String
  pub tts_provider_api_keys : Option (List (String × String))
  pub preferred_tts_provider : Option String
  pub tts_provider_config : Option (List (String × List (String × Option String)))
  pub chat_response_mode : Option String
  pub voice_auto_send : Bool
  pub prompt_scope_include_global : Bool
  pub prompt_scope_include_workspace : Bool

-- A row with the column defaults.
abbrev pub default_row : (id ws : String) → WorkspaceSettings
default_row id ws = record {
  id = id;
  workspace_id = ws;
  default_file_retention_days = 30;
  default_text_embeddings_retention_days = 90;
  no_logs_enabled = false;
  no_logs_config = none;
  retention_overrides = none;
  fuzzy_match_threshold = 70;
  chunking_strategy = "paragraph";
  default_document_parser = "docling";
  default_llm_provider = none;
  parser_api_keys = none;
  transcription_provider_api_keys = none;
  preferred_transcription_provider = none;
  tts_provider_api_keys = none;
  preferred_tts_provider = none;
  tts_provider_config = none;
  chat_response_mode = some "text_only";
  voice_auto_send = false;
  prompt_scope_include_global = true;
  prompt_scope_include_workspace = true;
}

pub record ChatThread : Type 0 where
  pub id : String
  pub document_id : String
  pub workspace_id : String
  pub user_id : String
  pub title : Option (List ℕ)
  pub updated_at : ℕ

-- The primary columns.
abbrev pub workspace_key : Workspace → String
workspace_key w = w.id

abbrev pub member_key : WorkspaceMember → String
member_key m = m.id

abbrev pub user_key : User → String
user_key u = u.id

abbrev pub settings_key : WorkspaceSettings → String
settings_key s = s.id

abbrev pub thread_key : ChatThread → String
thread_key t = t.id

-- A file with the workspace of the document that it is loaded with.
pub record DocumentFile : Type 0 where
  pub id : String
  pub document_id : String
  pub document_workspace_id : String
  pub storage_key : String
  pub created_at : ℕ

pub record Document : Type 0 where
  pub id : String
  pub workspace_id : String
  pub created_at : ℕ

pub record Chunk : Type 0 where
  pub id : String
  pub document_id : String

pub record ChatMessage : Type 0 where
  pub id : String
  pub thread_id : String
  pub workspace_id : String
  pub created_at : ℕ

pub data MemoryScopeType : Type 0 where
  thread document workspace : MemoryScopeType

pub record Memory : Type 0 where
  pub id : String
  pub scope_type : MemoryScopeType
  pub scope_id : String
  pub workspace_id : String
  pub updated_at : ℕ

abbrev pub file_key : DocumentFile → String
file_key f = f.id

abbrev pub document_key : Document → String
document_key d = d.id

abbrev pub chunk_key : Chunk → String
chunk_key c = c.id

abbrev pub message_key : ChatMessage → String
message_key m = m.id

abbrev pub memory_key : Memory → String
memory_key m = m.id

pub record PromptMetadata : Type 0 where
  pub description : Option String
  pub required_variables : Option (List String)

-- A prompt's content is the list of its code units.
pub record Prompt : Type 0 where
  pub id : String
  pub key : String
  pub variant : String
  pub workspace_id : Option String
  pub document_id : Option String
  pub content : List ℕ
  pub metadata : Option PromptMetadata

abbrev pub prompt_key : Prompt → String
prompt_key p = p.id
