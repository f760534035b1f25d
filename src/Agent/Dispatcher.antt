-- ===== src/Agent/Dispatcher.antt =====
-- agent/dispatcher.py: one tool call, resolved, checked and executed. `execute` stands for the
-- `execute` methods of the tools on the adapter, whose state is in the world.
use blender_ai_sidebar.Prelude.{
  ◌≡◌, refl, String, List, [], ◌∷◌, Option, none, some, string_comparable, if◌then◌else◌, contains,
  Bool-cases, inl, inr, append-eq_nil,
}
use blender_ai_sidebar.Core.Text.{joined}
use blender_ai_sidebar.Core.Json.{Fields, has_key, keys}
use blender_ai_sidebar.Core.Types.{Outcome, returned, raised, ToolResult, fail}
use blender_ai_sidebar.Tools.Registry.{Tool, Registry, get_tool}
use blender_ai_sidebar.Agent.Models.{ToolCall}
use blender_ai_sidebar.Plan.Arguments.{
  missing_errors, unexpected_errors, property_names, validate_tool_arguments,
}

unfoldable pub first_missing : List String → Fields → Option String
first_missing [] arguments = none
first_missing (f ∷ required) arguments =
    if has_key f arguments then first_missing required arguments else some f

unfoldable pub unexpected_arguments : List String → List String → List String
unexpected_arguments allowed [] = []
unexpected_arguments allowed (a ∷ arguments) =
    if contains a allowed
    then unexpected_arguments allowed arguments
    else a ∷ unexpected_arguments allowed arguments

-- An exception of the tool becomes a failed result.
unfoldable pub settle : String → Outcome → ToolResult
settle tool_name (returned res) = res
settle tool_name (raised message) =
    fail tool_name "DISPATCHER_ERROR"
      (joined ("Unhandled exception executing tool '" ∷ tool_name ∷ "': " ∷ message ∷ []))

module _ {W : Type 0} (execute : Tool → Fields → W → Outcome × W)
    (show : List String → String) where
  unfoldable pub run_tool : Tool → ToolCall → W → ToolResult × W
  unfolding settle
  run_tool tool call w =
      let (outcome, w') = execute tool call.arguments w in (settle call.tool_name outcome, w')

  check_unexpected : Tool → ToolCall → List String → W → ToolResult × W
  unfolding run_tool
  check_unexpected tool call [] w = run_tool tool call w
  check_unexpected tool call (a ∷ unexpected) w = (
    fail call.tool_name "INVALID_ARGUMENT" (
        joined (
          "Unexpected argument(s) "
          ∷ show (a ∷ unexpected)
          ∷ " for tool '"
          ∷ call.tool_name
          ∷ "'."
          ∷ [])),
    w,
  )

  check_arguments : Tool → ToolCall → Option String → W → ToolResult × W
  unfolding check_unexpected unexpected_arguments
  check_arguments tool call (some f) w = (
    fail call.tool_name "INVALID_ARGUMENT"
        (joined ("Missing required argument '" ∷ f ∷ "' for tool '" ∷ call.tool_name ∷ "'." ∷ [])),
    w,
  )
  check_arguments tool call none w =
      if tool.input_schema.additional_properties
      then run_tool tool call w
      else check_unexpected tool call
          (unexpected_arguments (property_names tool.input_schema.properties) (keys call.arguments))
          w

  -- ToolDispatcher.dispatch; `show` is the text of a list.
  unfoldable pub dispatch : Registry → ToolCall → W → ToolResult × W
  unfolding check_arguments first_missing
  dispatch registry call w = elim (get_tool call.tool_name registry) [
    | none ↦ (
      fail call.tool_name "TOOL_NOT_FOUND"
          (joined ("Tool '" ∷ call.tool_name ∷ "' is not registered in ToolRegistry." ∷ [])),
      w,
    )
    | some tool ↦
        check_arguments tool call (first_missing tool.input_schema.required call.arguments) w
  ]

first_missing-none :
    (required : List String) (arguments : Fields)
    → missing_errors required arguments ≡ []
    → first_missing required arguments ≡ none
unfolding missing_errors first_missing
first_missing-none [] arguments h = refl
first_missing-none (f ∷ required) arguments h = elim (Bool-cases (has_key f arguments)) [
  | inl there ↦
      rw (there, first_missing)
        (first_missing-none required arguments (rw (there, missing_errors) at h))
  | inr absent ↦ absurd (cc (rw (absent, missing_errors) at h))
]

unexpected-nil :
    (allowed arguments : List String)
    → unexpected_errors allowed arguments ≡ []
    → unexpected_arguments allowed arguments ≡ []
unfolding unexpected_errors unexpected_arguments
unexpected-nil allowed [] h = refl
unexpected-nil allowed (a ∷ arguments) h = elim (Bool-cases (contains a allowed)) [
  | inl there ↦
      rw (there, unexpected_arguments)
        (unexpected-nil allowed arguments (rw (there, unexpected_errors) at h))
  | inr absent ↦ absurd (cc (rw (absent, unexpected_errors) at h))
]

module _ {W : Type 0} (execute : Tool → Fields → W → Outcome × W)
    (show : List String → String) where
  -- A call of a registered tool whose arguments the plan validator admits is not refused by the
  -- dispatcher: the tool is executed on the arguments, and the result is what it returns, or
  -- DISPATCHER_ERROR where it raises.
  pub dispatch-validated :
      (registry : Registry) (call : ToolCall) (tool : Tool) (w : W)
      → get_tool call.tool_name registry ≡ some tool
      → validate_tool_arguments tool.input_schema call.arguments ≡ []
      → dispatch execute show registry call w ≡ run_tool execute show tool call w
  unfolding dispatch check_arguments validate_tool_arguments
  dispatch-validated registry call tool w found valid =
      let schema = tool.input_schema in
      let (required, rest) =
        append-eq_nil (missing_errors schema.required call.arguments) _ valid in
      let (expected, typed) =
        append-eq_nil
          (if schema.additional_properties
            then []
            else unexpected_errors (property_names schema.properties) (keys call.arguments))
          _ rest in
      rw (found, dispatch)
        (rw (first_missing-none schema.required call.arguments required)
          (elim (Bool-cases schema.additional_properties) [
            | inl free ↦ rw (free, check_arguments) refl
            | inr closed ↦
                rw (closed, check_arguments)
                  (rw
                    (unexpected-nil (property_names schema.properties) (keys call.arguments)
                      (rw closed at expected))
                    refl)
          ]))
