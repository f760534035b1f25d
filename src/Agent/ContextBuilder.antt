-- ===== src/Agent/ContextBuilder.antt =====
-- agent/context_builder.py: the context of a provider's request and its size guard.
pub mod Clusters
pub mod Guarded
pub mod Bounded
use blender_ai_sidebar.Prelude.{
  ℕ, Bool, true, false, not, ◌&&◌, String, List, [], ◌∷◌, ◌++◌, Option, none, some, if◌then◌else◌,
  leb, ltb,
}
use Prim.Native.Nat.{◌/◌}
use blender_ai_sidebar.Core.Text.{joined}
use blender_ai_sidebar.Core.Json.{pos, Value}
use blender_ai_sidebar.Core.TextParts.{length_of}
use blender_ai_sidebar.Agent.Models.{Role, Content, plain, ChatMessage, has_items, make_message}
use blender_ai_sidebar.Agent.Memory.{is_user, is_assistant, concat}
use blender_ai_sidebar.Agent.Memory.Builtins.{Builtins, text_of}
use blender_ai_sidebar.Agent.Memory.Compaction.{calculate_messages_chars}

abbrev pub max_context_chars : ℕ
max_context_chars = 15000

abbrev pub is_tool : Role → Bool
is_tool Role.tool = true
is_tool _ = false

-- The messages before the latest one of the user, and the rest.
unfoldable pub last_user : List ChatMessage → Option (List ChatMessage × List ChatMessage)
last_user [] = none
last_user (m ∷ ms) = elim (last_user ms) [
  | some (older, latest) ↦ some (m ∷ older, latest)
  | none ↦ if is_user m.role then some ([], m ∷ ms) else none
]

unfoldable pub split_latest : List ChatMessage → List ChatMessage × List ChatMessage
unfolding last_user
split_latest ms = elim (last_user ms) [ none ↦ ([], ms) | some p ↦ p ]

-- An assistant's message with tool calls, whose results belong to its cluster.
abbrev pub opens : ChatMessage → Bool
opens m = is_assistant m.role && has_items m.tool_calls

-- The loops over the older messages, with the cluster that is open, if one is.
unfoldable pub group : List ChatMessage → List ChatMessage → List (List ChatMessage)
group [] [] = []
group (c ∷ cs) [] = (c ∷ cs) ∷ []
group [] (m ∷ ms) = elim (opens m) [ true ↦ group (m ∷ []) ms | false ↦ (m ∷ []) ∷ group [] ms ]
group (c ∷ cs) (m ∷ ms) = elim (is_tool m.role) [
  | true ↦ group ((c ∷ cs) ++ m ∷ []) ms
  | false ↦ elim (opens m) [
    | true ↦ (c ∷ cs) ∷ group (m ∷ []) ms
    | false ↦ (c ∷ cs) ∷ (m ∷ []) ∷ group [] ms
  ]
]

module _ (py : Builtins) (limit : ℕ) where
  abbrev pub fits : List ChatMessage → Bool
  fits messages = leb (calculate_messages_chars py messages) limit

  -- The oldest cluster goes until the rest fits.
  unfoldable pub evict :
      ChatMessage → List ChatMessage → List (List ChatMessage) → Option (List ChatMessage)
  unfolding calculate_messages_chars
  evict sys latest [] = none
  evict sys latest (cl ∷ cls) = elim (fits (sys ∷ concat (cl ∷ cls) ++ latest)) [
    | true ↦ some (sys ∷ concat (cl ∷ cls) ++ latest)
    | false ↦ evict sys latest cls
  ]

  abbrev show_number : ℕ → String
  show_number n = py.show (Value.integer (pos n))

  abbrev pub truncation : ℕ → Content
  truncation size = plain (
      joined (
        "[TRUNCATED: Tool result exceeded "
        ∷ show_number limit
        ∷ " characters safety cap. Original size: "
        ∷ show_number size
        ∷ " chars. Full result omitted to prevent context overflow.]"
        ∷ []))

  abbrev pub with_content : Content → ChatMessage → ChatMessage
  with_content content m = record {
    role = Role.tool;
    content = some content;
    tool_calls = [];
    tool_call_id = m.tool_call_id;
    name = m.name;
    image_id = m.image_id;
  }

  abbrev pub shortened : ChatMessage → Content → Option ChatMessage
  shortened m c =
      if ltb (limit / 2) (length_of (text_of py c))
      then make_message (with_content (truncation (length_of (text_of py c))) m)
      else some m

  -- A tool result that is too long is replaced; `none` where the constructor raises.
  unfoldable pub shorten : ChatMessage → Option ChatMessage
  unfolding make_message length_of
  shorten m = elim (is_tool m.role) [
    | false ↦ some m
    | true ↦ elim m.content [ none ↦ some m | some c ↦ shortened m c ]
  ]

  unfoldable pub shorten_all : List ChatMessage → Option (List ChatMessage)
  unfolding shorten
  shorten_all [] = some []
  shorten_all (m ∷ ms) = elim (shorten m) [
    | none ↦ none
    | some m' ↦ elim (shorten_all ms) [ none ↦ none | some ms' ↦ some (m' ∷ ms') ]
  ]

  -- Without the older messages, and then with short results.
  unfoldable pub keep_latest : ChatMessage → List ChatMessage → Option (List ChatMessage)
  unfolding shorten_all calculate_messages_chars
  keep_latest sys latest =
      if fits (sys ∷ latest)
      then some (sys ∷ latest)
      else elim (shorten_all latest) [ none ↦ none | some ms ↦ some (sys ∷ ms) ]

  abbrev pub evicted :
      ChatMessage → List ChatMessage → List (List ChatMessage) → Option (List ChatMessage)
  evicted sys latest clusters = elim (evict sys latest clusters) [
    | some messages ↦ some messages
    | none ↦ keep_latest sys latest
  ]

  -- _apply_context_size_guard; `none` stands for an exception.
  unfoldable pub apply_context_size_guard : List ChatMessage → Option (List ChatMessage)
  unfolding split_latest group evict keep_latest calculate_messages_chars
  apply_context_size_guard [] = some []
  apply_context_size_guard (sys ∷ remaining) =
      if fits (sys ∷ remaining)
      then some (sys ∷ remaining)
      else evicted sys (split_latest remaining).1 (group [] (split_latest remaining).0)
