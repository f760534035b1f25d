-- ===== src/Agent/Runtime/Execute.antt =====
-- _execute_and_verify: a tool call on the main thread, and the verification of what it did.
use blender_ai_sidebar.Prelude.{
  false, not, ◌&&◌, String, List, [], ◌∷◌, Option, none, some, ◌==◌, string_comparable,
  if◌then◌else◌,
}
use blender_ai_sidebar.Core.Json.{Value, Fields, get}
use blender_ai_sidebar.Core.Types.{Outcome, returned, raised, ToolResult, ok}
use blender_ai_sidebar.Agent.Models.{ToolCall}
use blender_ai_sidebar.Agent.Dispatcher.{dispatch}
use blender_ai_sidebar.Plan.Executor.{Verification, with_field, fields_or_empty}
use blender_ai_sidebar.Agent.Runtime.{Services, done, unresolved}

-- `a or b or ...` on optional texts.
unfoldable pub first_solid : List (Option String) → Option String
first_solid [] = none
first_solid (none ∷ os) = first_solid os
first_solid (some t ∷ os) = if t == "" then first_solid os else some t

abbrev pub text_or_empty : Option Value → Value
text_or_empty none = Value.text ""
text_or_empty (some v) = v

module _ {W C : Type 0} (sv : Services W C) where
  unfoldable pub verify_image_result : ToolResult → W → Outcome × W
  unfolding with_field
  verify_image_result res w =
      let d = fields_or_empty res.result_data in
      let (seen, w') =
        sv.verify_image (text_or_empty (get "expected_description" d)) (get "image_id" d) w in
      elim seen [
        | done v ↦ (returned (ok res.tool (with_field "visual_verification" v d)), w')
        | unresolved text ↦ (raised text, w')
      ]

  -- The visual verification after a mutation that passed the semantic one.
  unfoldable pub look_after : Option String → Verification → String → Fields → W → Outcome × W
  unfolding with_field
  look_after none v tool d w = (returned (ok tool d), w)
  look_after (some desc) v tool d w =
      let (seen, w') = sv.verify_after_mutation v desc w in
      elim seen [
        | done view ↦ (returned (ok tool (with_field "visual_verification" view d)), w')
        | unresolved text ↦ (
          returned (ok tool (with_field "visual_verification" (sv.unresolved_image text desc) d)),
          w',
        )
      ]

  unfoldable pub verified_call :
      List (Option String) → ToolResult → Option Verification → W → Outcome × W
  unfolding look_after with_field first_solid
  verified_call wishes res none w = (returned res, w)
  verified_call wishes res (some v) w =
      if v.passed
      then look_after (first_solid wishes) v res.tool
          (with_field "verification" v.as_dict (fields_or_empty res.result_data)) w
      else (
        returned (record {
          success = false;
          tool = res.tool;
          result_data = some (Fields.field "verification" v.as_dict Fields.end);
          error = some (record { type = "VERIFICATION_FAILED"; message = v.summary });
        }),
        w,
      )

  -- The descriptions that may be looked for: of the call, of the prompt, and the prompt itself.
  abbrev pub wishes_of : Option String → Option String → String → List (Option String)
  wishes_of desc expected prompt =
      desc ∷ expected ∷ (if sv.should_verify_visually prompt then some prompt else none) ∷ []

  unfoldable pub after_dispatch :
      Option String → Option String → String → ToolCall → ToolResult → W → Outcome × W
  unfolding verify_image_result verified_call
  after_dispatch desc expected prompt call res w =
      if call.tool_name == "visual_verify" && res.success
      then verify_image_result res w
      else if not res.success
      then (returned res, w)
      else elim sv.verify [
        | none ↦ (returned res, w)
        | some check ↦
            let (v, w') = check call (fields_or_empty res.result_data) w in
            verified_call (wishes_of desc expected prompt) res v w'
      ]

  -- `expected` and `prompt` are _expected_visual_description and _current_prompt.
  unfoldable pub execute_and_verify :
      Option String → String → ToolCall → Option String → W → Outcome × W
  unfolding after_dispatch dispatch
  execute_and_verify expected prompt call desc w =
      let (res, w') = dispatch sv.execute sv.show_list sv.registry call w in
      after_dispatch desc expected prompt call res w'
