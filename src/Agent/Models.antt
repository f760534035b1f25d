-- ===== src/Agent/Models.antt =====
-- agent/models.py: tool calls and chat messages. A content that the program makes by `json.dumps`
-- is kept as the value that it dumps.
use blender_ai_sidebar.Prelude.{
  Bool, true, false, ◌&&◌, ◌||◌, not, String, List, [], ◌∷◌, Option, none, some, if◌then◌else◌,
}
use blender_ai_sidebar.Core.Text.{is_blank}
use blender_ai_sidebar.Core.Json.{Value, Fields}

pub record ToolCall : Type 0 where
  pub call_id : String
  pub tool_name : String
  pub arguments : Fields

pub data Role : Type 0 where
  system user assistant tool : Role

pub data Content : Type 0 where
  plain : String → Content
  dumped : Value → Content

pub record ChatMessage : Type 0 where
  pub role : Role
  pub content : Option Content
  pub tool_calls : List ToolCall
  pub tool_call_id : Option String
  pub name : Option String
  pub image_id : Option String

abbrev pub has_value {ℓ} : {A : Type ℓ} → Option A → Bool
has_value none = false
has_value (some a) = true

abbrev pub has_items {ℓ} : {A : Type ℓ} → List A → Bool
has_items [] = false
has_items (x ∷ xs) = true

abbrev pub solid_id : Option String → Bool
solid_id none = false
solid_id (some s) = not (is_blank s)

-- The role-specific constraints of ChatMessage.__init__: whether it raises no ValueError.
unfoldable pub accepts : ChatMessage → Bool
accepts m = elim m.role [
  | Role.system ↦
      not (has_items m.tool_calls) && not (has_value m.tool_call_id) && not (has_value m.image_id)
  | Role.user ↦ not (has_items m.tool_calls) && not (has_value m.tool_call_id)
  | Role.assistant ↦
      not (has_value m.tool_call_id) && (has_value m.content || has_items m.tool_calls)
  | Role.tool ↦ has_value m.content && solid_id m.tool_call_id && not (has_items m.tool_calls)
]

unfoldable pub make_message : ChatMessage → Option ChatMessage
unfolding accepts
make_message m = if accepts m then some m else none
