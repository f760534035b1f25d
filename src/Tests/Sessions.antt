-- ===== src/Tests/Sessions.antt =====
-- The theorems on the runtime at a session in which the user is asked about a deletion.
use blender_ai_sidebar.Prelude.{
  suc, ◌≡◌, refl, arith, false, String, List, [], ◌∷◌, ◌++◌, none, some, ◌⊎◌, nat_comparable,
  string_comparable, contains,
}
use blender_ai_sidebar.Core.Text.{strip}
use blender_ai_sidebar.Core.Json.{Value, Items, Fields, items, keys, entries, get}
use blender_ai_sidebar.Core.Types.{Outcome, returned, ok}
use blender_ai_sidebar.Tools.Registry.{Tool, get_tool}
use blender_ai_sidebar.Agent.Models.{ToolCall, make_message}
use blender_ai_sidebar.Agent.Policy.{evaluate, PendingApproval}
use blender_ai_sidebar.Agent.Runtime.{
  Runtime, Services, Event, TurnId, Attempt, Exception, new_runtime,
}
use blender_ai_sidebar.Agent.Runtime.Action.{Result, raised, ◌>>=◌}
use blender_ai_sidebar.Agent.Runtime.Approvals.{approve, reject}
use blender_ai_sidebar.Agent.Runtime.Plans.{approve_plan, reject_plan}
use blender_ai_sidebar.Agent.Runtime.Turns.{submit_prompt, cancel_current_turn}
use blender_ai_sidebar.Agent.Runtime.Events.{process_event, turn_of, is_shutdown}
use blender_ai_sidebar.Agent.Runtime.Calls.{world_after}
use blender_ai_sidebar.Agent.Runtime.Answers.{Answers, Spent, approve-world, answer_once}
use blender_ai_sidebar.Agent.Runtime.Executed.{PlanRan}
use blender_ai_sidebar.Agent.Runtime.Verdicts.{Decides, NoReview, approve_plan-world, verdict_once}
use blender_ai_sidebar.Agent.Runtime.Gate.{Auto, process_event-Auto}
use blender_ai_sidebar.Agent.Runtime.Rounds.{process_event-stops}
use blender_ai_sidebar.Agent.Runtime.Untouched.{Untouched, operations-Untouched}
use blender_ai_sidebar.Agent.Runtime.Cancelled.{cancel_current_turn-stale}
use blender_ai_sidebar.Plan.Review.{PlanReview}
use blender_ai_sidebar.Tests.Plans.{tools, step, plan_of}

abbrev pub run_tool : Tool → Fields → List String → Outcome × List String
run_tool tool arguments log = (returned (ok tool.name Fields.end), log ++ tool.name ∷ [])

abbrev pub services : Services (List String) (Unit {0})
services = record {
  registry = tools;
  execute = run_tool;
  show_list = λ xs. "list";
  show_nat = λ n. "number";
  show_value = λ v. "value";
  verify = none;
  verify_image = λ d v log. (Attempt.done Value.null, log);
  verify_after_mutation = λ v d log. (Attempt.done Value.null, log);
  unresolved_image = λ a b. Value.null;
  should_verify_visually = λ s. false;
  streams = false;
  build_context = λ messages log. Attempt.done tt;
  last_tool_calls = λ log. [];
  compact = λ messages. messages;
  describe = λ name arguments. name;
  new_plan_id = λ n. "plan";
  show_errors = λ errors. "errors";
  show_exception = λ e. "exception";
  show_reason = λ reason. "reason";
  summary_dict = λ summary. Fields.end;
  max_tool_rounds = 5;
  max_plan_repairs = 2;
  auto_approve_low_risk_plans = false;
}

abbrev Session : Type 0
Session = Runtime (List String) (Unit {0})

abbrev call_on : String → ToolCall
call_on tool_name = record {
  call_id = tool_name;
  tool_name = tool_name;
  arguments = Fields.field "name" (Value.text "Cube") Fields.end;
}

-- The provider wants to create an object and to delete it.
abbrev answer : Event
answer = Event.provider_response_ready 1 (
    some (record {
      assistant_text = none;
      tool_calls = call_on "create_object" ∷ call_on "delete_object" ∷ [];
    }))

unfoldable started : Session
unfolding submit_prompt new_runtime
started = (submit_prompt services "Replace the cube" none none (new_runtime [])).1

unfoldable asked : Session
unfolding started process_event
asked = (process_event services answer started).1

-- The creation runs at once, and the deletion waits for the user.
asked_log : asked.world ≡ "create_object" ∷ []
unfolding asked started process_event submit_prompt ◌>>=◌ evaluate get_tool strip items keys entries
    contains get make_message
asked_log = refl

process_event-Auto_example : Auto services started.world asked.world
unfolding asked
process_event-Auto_example = process_event-Auto services answer started

approved_log : (approve services 0 asked).1.world ≡ "create_object" ∷ "delete_object" ∷ []
unfolding asked started process_event submit_prompt approve ◌>>=◌ evaluate get_tool strip items keys
    entries contains get make_message
approved_log = refl

approve-world_example :
    ((approve services 0 asked).1.world ≡ asked.world)
    ⊎ ((p : PendingApproval) × (Answers 0 asked p
          × ((approve services 0 asked).1.world
              ≡ world_after services asked.expected_visual asked.prompt p.tool_call asked.world)))
approve-world_example = approve-world services 0 asked

answer_once_example :
    (((e : Exception) × (approve services 0 asked ≡ (raised e, asked)))
      ⊎ Spent services 0 (approve services 0 asked).1)
    × (((e : Exception) × (reject services 0 asked ≡ (raised e, asked)))
        ⊎ Spent services 0 (reject services 0 asked).1)
answer_once_example = answer_once services 0 0 asked

-- A plan that creates an object and deletes it.
abbrev proposal : Event
proposal = Event.provider_response_ready 1 (
    some (record {
      assistant_text = none;
      tool_calls =
          record {
            call_id = "p";
            tool_name = "propose_plan";
            arguments = plan_of (
                Items.cons (step "a" "create_object" Items.nil)
                  (Items.cons (step "b" "delete_object" Items.nil) Items.nil));
          }
          ∷ [];
    }))

unfoldable proposed : Session
unfolding started process_event
proposed = (process_event services proposal started).1

proposed_log : proposed.world ≡ []
unfolding proposed started process_event submit_prompt ◌>>=◌ evaluate get_tool strip items keys
    entries contains get make_message
proposed_log = refl

planned_log : (approve_plan services 0 proposed).1.world ≡ "create_object" ∷ "delete_object" ∷ []
unfolding proposed started process_event submit_prompt approve_plan ◌>>=◌ evaluate get_tool strip
    items keys entries contains get make_message
planned_log = refl

approve_plan-world_example :
    ((approve_plan services 0 proposed).1.world ≡ proposed.world)
    ⊎ ((p : PlanReview) × (Decides 0 proposed p
          × PlanRan services proposed.expected_visual proposed.prompt p proposed.world
              (approve_plan services 0 proposed).1.world))
approve_plan-world_example = approve_plan-world services 0 proposed

verdict_once_example :
    (((e : Exception) × (approve_plan services 0 proposed ≡ (raised e, proposed)))
      ⊎ NoReview services 0 (approve_plan services 0 proposed).1)
    × (((e : Exception) × (reject_plan services 0 proposed ≡ (raised e, proposed)))
        ⊎ NoReview services 0 (reject_plan services 0 proposed).1)
verdict_once_example = verdict_once services 0 0 proposed

-- The turn has had its rounds.
abbrev exhausted : Session
exhausted = record started { tool_round = 5 }

process_event-stops_example : (process_event services answer exhausted).1.world ≡ exhausted.world
process_event-stops_example = process_event-stops services answer exhausted (omega arith)

operations-Untouched_example : Untouched services "Go on" none none 0 asked
operations-Untouched_example = operations-Untouched services "Go on" none none 0 asked

names_turn : turn_of answer ≡ some (TurnId.turn 1)
unfolding turn_of
names_turn = refl

no_shutdown : is_shutdown answer ≡ false
unfolding is_shutdown
no_shutdown = refl

cancel_current_turn-stale_example : process_event services answer (cancel_current_turn asked) ≡ (
  Result.ok none,
  record (cancel_current_turn asked) {
    stale_events = suc (cancel_current_turn asked).stale_events;
  },
)
cancel_current_turn-stale_example =
    cancel_current_turn-stale services asked answer (TurnId.turn 1) names_turn no_shutdown
