-- ===== src/Tests/Memories.antt =====
-- A conversation of three turns, of which the first has an image and a tool result.
use blender_ai_sidebar.Prelude.{
  ◌≡◌, refl, Bool, true, false, String, List, [], ◌∷◌, ◌++◌, Option, none, some, contains, remove,
  All,
}
use blender_ai_sidebar.Core.Text.{strip}
use blender_ai_sidebar.Core.Json.{Fields}
use blender_ai_sidebar.Agent.Models.{ToolCall, Role, Content, plain, ChatMessage, accepts}
use blender_ai_sidebar.Agent.Conversation.{validate_sequence}
use blender_ai_sidebar.Agent.Memory.{partition, concat, prune_conversation}
use blender_ai_sidebar.Agent.Memory.Turns.{partition-lossless}
use blender_ai_sidebar.Agent.Memory.Total.{IsAccepted, IsPrunable, prune_conversation-total}
use blender_ai_sidebar.Agent.Memory.Pruned.{prune_conversation-validate}

abbrev mentions : String → Option Content → Bool
mentions text content = false

abbrev prune_content : Option String → Option Content → Option (Content × Bool)
prune_content name content = some (plain "pruned", true)

abbrev message : Role → String → List ToolCall → Option String → Option String → ChatMessage
message role text calls call_id image_id = record {
  role = role;
  content = some (plain text);
  tool_calls = calls;
  tool_call_id = call_id;
  name = none;
  image_id = image_id;
}

abbrev inspect : ToolCall
inspect = record { call_id = "1"; tool_name = "inspect_scene"; arguments = Fields.end }

abbrev conversation : List ChatMessage
conversation =
    message Role.user "What is here?" [] none (some "shot")
    ∷ message Role.assistant "Let me look." (inspect ∷ []) none none
    ∷ message Role.tool "Cube, Light" [] (some "1") none
    ∷ message Role.assistant "A cube." [] none none
    ∷ message Role.user "Thanks." [] none none
    ∷ message Role.user "Bye." [] none none
    ∷ []

abbrev shortened : List ChatMessage
shortened =
    message Role.user "What is here?" [] none none
    ∷ message Role.assistant "Let me look." (inspect ∷ []) none none
    ∷ message Role.tool "pruned" [] (some "1") none
    ∷ message Role.assistant "A cube." [] none none
    ∷ message Role.user "Thanks." [] none none
    ∷ message Role.user "Bye." [] none none
    ∷ []

first_turn : prune_conversation mentions prune_content 2 conversation ≡ some (shortened, true)
unfolding prune_conversation strip contains
first_turn = refl

partition-lossless_example :
    (partition mentions conversation).system
      ++ ((partition mentions conversation).summary
          ++ concat (partition mentions conversation).turns)
    ≡ conversation
partition-lossless_example = partition-lossless mentions conversation

prune_conversation-validate_example : validate_sequence shortened ≡ validate_sequence conversation
prune_conversation-validate_example =
    prune_conversation-validate mentions prune_content 2 conversation shortened true first_turn

All-IsAccepted : All IsAccepted conversation
unfolding accepts strip
All-IsAccepted = (refl, (refl, (refl, (refl, (refl, (refl, tt))))))

abbrev pruned : Content × Bool
pruned = (plain "pruned", true)

All-IsPrunable : All (IsPrunable mentions prune_content) conversation
All-IsPrunable = (
  λ _. (pruned, refl),
  (
    λ _. (pruned, refl),
    (λ _. (pruned, refl), (λ _. (pruned, refl), (λ _. (pruned, refl), (λ _. (pruned, refl), tt)))),
  ),
)

is_valid : validate_sequence conversation ≡ none
unfolding validate_sequence contains remove
is_valid = refl

prune_conversation-total_example :
    (new : List ChatMessage) × ((b : Bool) × ((prune_conversation mentions prune_content 2
            conversation
          ≡ some (new, b))
        × (validate_sequence new ≡ none)))
prune_conversation-total_example =
    prune_conversation-total mentions prune_content 2 conversation All-IsAccepted All-IsPrunable
      is_valid
