-- ===== src/Tests/Fragments.antt =====
-- The accumulator at two calls whose fragments interleave.
use blender_ai_sidebar.Prelude.{ℕ, ◌≡◌, refl, String, List, [], ◌∷◌, Option, none, some}
use blender_ai_sidebar.Core.Text.{strip}
use blender_ai_sidebar.Core.Json.{Value, Fields}
use blender_ai_sidebar.Agent.ToolCallAccumulator.{ToolCallDelta, feed_deltas, calls, finalize}
use blender_ai_sidebar.Agent.ToolCallAccumulator.Fragments.{
  texts_at, fragments_at, IsAscending, feed_deltas-fragments,
}

abbrev delta : ℕ → Option String → Option String → Option String → ToolCallDelta
delta index call_id name arguments = record {
  index = index;
  call_id = call_id;
  tool_name_delta = name;
  arguments_delta = arguments;
}

abbrev stream : List ToolCallDelta
stream =
    delta 1 (some "c2") (some "get_") none
    ∷ delta 0 (some "c1") (some "undo") (some "{")
    ∷ delta 1 none (some "scene") none
    ∷ delta 0 none none (some "}")
    ∷ []

abbrev loads : String → Option Value
loads text = some (Value.object Fields.end)

test_calls :
    finalize loads (feed_deltas stream [])
    ≡ calls (
        record { call_id = "c1"; tool_name = "undo"; arguments = Fields.end }
        ∷ record { call_id = "c2"; tool_name = "get_scene"; arguments = Fields.end }
        ∷ [])
unfolding finalize feed_deltas strip
test_calls = refl

feed_deltas-fragments_example :
    IsAscending (feed_deltas stream [])
    × (texts_at 1 (feed_deltas stream []) ≡ fragments_at 1 stream)
feed_deltas-fragments_example = feed_deltas-fragments 1 stream
