-- ===== src/Tests/Recent.antt =====
-- The bounded history at concrete calls.
use blender_ai_sidebar.Prelude.{◌≡◌, refl, List, [], ◌∷◌, none, some}
use blender_ai_sidebar.Agent.History.{HistoryKind, Changes, new_history}
use blender_ai_sidebar.Agent.History.Recent.{
  Operation, do_add, do_update, operations, item_ids, IsRecent, operations-IsRecent,
}

abbrev is_done : Changes
is_done = record {
  turn_id = none;
  kind = none;
  title = none;
  status = some "DONE";
  summary = none;
  detail = none;
}

abbrev calls : List Operation
calls =
    do_add "turn_1_user" "turn_1" HistoryKind.user "User: a cube" "SENT" "" ""
    ∷ do_add "turn_1_tool_1" "turn_1" HistoryKind.tool "Tool: create_object" "OK" "" ""
    ∷ do_update "turn_1_tool_1" is_done
    ∷ do_add "turn_1_assistant" "turn_1" HistoryKind.assistant "Assistant: done" "DONE" "" ""
    ∷ []

test_last_two :
    item_ids (operations calls (record { added = []; history = new_history 2 })).history.items
    ≡ "turn_1_tool_1" ∷ "turn_1_assistant" ∷ []
unfolding operations new_history
test_last_two = refl

operations-IsRecent_example :
    IsRecent (operations calls (record { added = []; history = new_history 2 }))
operations-IsRecent_example = operations-IsRecent 2 calls
