-- ===== src/Tests/Messages.antt =====
-- The theorems on conversations at concrete inputs.
use blender_ai_sidebar.Prelude.{◌≡◌, refl, ◌↔◌, List, [], ◌∷◌, none, some, contains, remove, String}
use blender_ai_sidebar.Core.Json.{Fields}
use blender_ai_sidebar.Agent.Models.{ToolCall, Role, plain, ChatMessage}
use blender_ai_sidebar.Agent.Conversation.{validate_sequence, not_pending}
use blender_ai_sidebar.Agent.Conversation.Grammar.{WellFormed, validate_sequence_iff}

abbrev user_says : String → ChatMessage
user_says text = record {
  role = Role.user;
  content = some (plain text);
  tool_calls = [];
  tool_call_id = none;
  name = none;
  image_id = none;
}

abbrev call : String → ToolCall
call call_id = record { call_id = call_id; tool_name = "create_object"; arguments = Fields.end }

abbrev assistant_calls : List ToolCall → ChatMessage
assistant_calls calls = record {
  role = Role.assistant;
  content = none;
  tool_calls = calls;
  tool_call_id = none;
  name = none;
  image_id = none;
}

abbrev tool_answers : String → ChatMessage
tool_answers call_id = record {
  role = Role.tool;
  content = some (plain "{}");
  tool_calls = [];
  tool_call_id = some call_id;
  name = some "create_object";
  image_id = none;
}

abbrev messages : List ChatMessage
messages =
    user_says "two cubes"
    ∷ assistant_calls (call "c1" ∷ call "c2" ∷ [])
    ∷ tool_answers "c2"
    ∷ tool_answers "c1"
    ∷ user_says "thanks"
    ∷ []

test_accepted : validate_sequence messages ≡ none
unfolding validate_sequence contains remove
test_accepted = refl

test_twice :
    validate_sequence
      (assistant_calls (call "c1" ∷ call "c2" ∷ []) ∷ tool_answers "c1" ∷ tool_answers "c1" ∷ [])
    ≡ some (not_pending 2 (some "c1"))
unfolding validate_sequence contains remove
test_twice = refl

validate_sequence_iff_example : (validate_sequence messages ≡ none) ↔ WellFormed messages
validate_sequence_iff_example = validate_sequence_iff messages
