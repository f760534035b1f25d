-- ===== src/Agent/ToolCallAccumulator.antt =====
-- agent/tool_call_accumulator.py: tool calls put together from the fragments of a stream. The dict
-- of the calls is a list by ascending index, since only `finalize` looks at its order, and sorts.
pub mod Fragments
use Prim.Native.String.{◌++◌ as append}
use blender_ai_sidebar.Prelude.{
  ℕ, ◌≡◌, ◌<◌, refl, sym, ap, ◌∙◌, arith, Bool, true, false, String, List, [], ◌∷◌, ◌++◌, Option,
  none, some, ◌==◌, nat_comparable, string_comparable, if◌then◌else◌, ltb, Bool-cases, Option-cases,
  inl, inr, All, not,
}
use blender_ai_sidebar.Core.Text.{strip, is_blank}
use blender_ai_sidebar.Core.Json.{Value, Fields}
use blender_ai_sidebar.Agent.Models.{ToolCall}

pub record ToolCallDelta : Type 0 where
  pub index : ℕ
  pub call_id : Option String
  pub tool_name_delta : Option String
  pub arguments_delta : Option String

pub record AccumulatedCall : Type 0 where
  pub index : ℕ
  pub call_id : String
  pub tool_name : String
  pub arguments_buffer : String

-- ToolCallAccumulatorError, by its code, with the index of the call.
pub data AccumulatorError : Type 0 where
  missing_call_id missing_tool_name malformed_json non_object_arguments : ℕ → AccumulatorError

pub data Finalized : Type 0 where
  calls : List ToolCall → Finalized
  failed : AccumulatorError → Finalized

abbrev pub new_call : ℕ → AccumulatedCall
new_call index = record { index = index; call_id = ""; tool_name = ""; arguments_buffer = "" }

abbrev pub fragment : Option String → String
fragment none = ""
fragment (some t) = t

-- A fragment of the id is appended unless it is the id so far.
abbrev join_id : String → String → String
join_id old new =
    if new == "" then old else if old == "" then new else if old == new then old else append old new

unfoldable pub extend : ToolCallDelta → AccumulatedCall → AccumulatedCall
extend d c = record c {
  call_id = join_id c.call_id (fragment d.call_id);
  tool_name = append c.tool_name (fragment d.tool_name_delta);
  arguments_buffer = append c.arguments_buffer (fragment d.arguments_delta);
}

unfoldable pub feed_delta : ToolCallDelta → List AccumulatedCall → List AccumulatedCall
unfolding extend
feed_delta d [] = extend d (new_call d.index) ∷ []
feed_delta d (c ∷ cs) =
    if c.index == d.index
    then extend d c ∷ cs
    else if ltb d.index c.index
    then extend d (new_call d.index) ∷ c ∷ cs
    else c ∷ feed_delta d cs

unfoldable pub feed_deltas : List ToolCallDelta → List AccumulatedCall → List AccumulatedCall
unfolding feed_delta
feed_deltas [] cs = cs
feed_deltas (d ∷ ds) cs = feed_deltas ds (feed_delta d cs)

pub data ParsedArguments : Type 0 where
  parsed : Fields → ParsedArguments
  refused : AccumulatorError → ParsedArguments

unfoldable pub read_object : ℕ → Option Value → ParsedArguments
read_object index none = refused (malformed_json index)
read_object index (some (Value.object d)) = parsed d
read_object index (some v) = refused (non_object_arguments index)

module _ (loads : String → Option Value) where
  -- The arguments of a call; `loads` is json.loads, with `none` for a JSONDecodeError.
  unfoldable pub parse_arguments : AccumulatedCall → ParsedArguments
  unfolding read_object
  parse_arguments c =
      let raw = strip c.arguments_buffer in
      if raw == "" then parsed Fields.end else read_object c.index (loads raw)

  unfoldable pub finalize : List AccumulatedCall → Finalized
  unfolding parse_arguments
  finalize [] = calls []
  finalize (c ∷ cs) =
      if is_blank c.call_id
      then failed (missing_call_id c.index)
      else if is_blank c.tool_name
      then failed (missing_tool_name c.index)
      else elim (parse_arguments c) [
        | refused e ↦ failed e
        | parsed d ↦ elim (finalize cs) [
          | failed e ↦ failed e
          | calls rest ↦
              calls (record { call_id = c.call_id; tool_name = c.tool_name; arguments = d } ∷ rest)
        ]
      ]
