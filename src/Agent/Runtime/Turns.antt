-- ===== src/Agent/Runtime/Turns.antt =====
-- The turns of AgentRuntime: prompts that start or wait, the discarding of a turn, cancellation and
-- the resets.
use blender_ai_sidebar.Prelude.{
  ℕ, suc, Bool, true, false, ◌||◌, String, [], ◌∷◌, ◌++◌, Option, none, some, string_comparable,
  if◌then◌else◌, length, leb, take,
}
use blender_ai_sidebar.Agent.Models.{Role, plain, ChatMessage}
use blender_ai_sidebar.Agent.Conversation.{validate_sequence}
use blender_ai_sidebar.Agent.StateMachine.{AgentState, reset}
use blender_ai_sidebar.Agent.PromptQueue.{QueuedPrompt, PromptQueue, enqueue, pop}
use blender_ai_sidebar.Agent.PromptQueue
use blender_ai_sidebar.Agent.History.{HistoryKind}
use blender_ai_sidebar.Agent.Runtime.{
  Runtime, Services, done, unresolved, prompt_submitted, submitted, noted, history_cleared,
  error_event, cancel_requested, shutdown_requested, active_turn, queue_full, invalid_sequence,
}
use blender_ai_sidebar.Agent.Runtime.Action.{
  Result, ok, raised, M, pure, raise, ◌>>=◌, ◌>>◌, gets, modify, attempt, go_to, emit, add_message,
}

abbrev pub is_busy : AgentState → Bool
is_busy AgentState.processing = true
is_busy AgentState.executing_tool = true
is_busy AgentState.pending_approval = true
is_busy _ = false

abbrev pub is_running : AgentState → Bool
is_running AgentState.processing = true
is_running AgentState.executing_tool = true
is_running _ = false

abbrev pub has {ℓ} : {A : Type ℓ} → Option A → Bool
has none = false
has (some a) = true

abbrev pub user_message : String → Option String → ChatMessage
user_message prompt image_id = record {
  role = Role.user;
  content = some (plain prompt);
  tool_calls = [];
  tool_call_id = none;
  name = none;
  image_id = image_id;
}

-- What submit_prompt returns: the id of a queued prompt or of a turn.
pub data Ticket : Type 0 where
  queued_as : ℕ → Ticket
  started_as : ℕ → Ticket

module _ {W C : Type 0} where
  -- _discard_active_turn_context
  unfoldable pub discard : Runtime W C → Runtime W C
  discard r = elim r.active_start [
    | none ↦ r
    | some start ↦ record r {
      conversation =
          if leb start (length r.conversation) then take start r.conversation else r.conversation;
      active_start = none;
    }
  ]

  -- cancel_current_turn
  unfoldable pub clear_pending : Runtime W C → Runtime W C
  clear_pending r = record r { pending_approval = none; pending_review = none; plan_repairs = 0 }

  unfoldable pub end_cancelled : ℕ → Runtime W C → Runtime W C
  unfolding reset
  end_cancelled t r = record r {
    cancelled = r.has_cancel_event;
    turn_id = none;
    effects = r.effects ++ noted t HistoryKind.system "CANCEL" ∷ cancel_requested t ∷ [];
    state = reset r.state;
  }

  unfoldable pub cancel_current_turn : Runtime W C → Runtime W C
  unfolding discard clear_pending end_cancelled
  cancel_current_turn r =
      let r' = discard (clear_pending r) in
      elim r'.turn_id [ none ↦ r' | some t ↦ end_cancelled t r' ]

  unfoldable pub clear_history : Runtime W C → Runtime W C
  clear_history r = record r {
    effects = r.effects ++ history_cleared ∷ [];
    conversation = [];
    prompt = "";
    expected_visual = none;
    plan_repairs = 0;
    prompt_queue = (PromptQueue.clear r.prompt_queue).1;
  }

  set_visual_verification_expectation : Option String → Runtime W C → Runtime W C
  set_visual_verification_expectation description r = record r { expected_visual = description }

  unfoldable pub reset_session : Runtime W C → Runtime W C
  reset_session r = record r {
    conversation = [];
    turn_counter = 0;
    turn_id = none;
    tool_round = 0;
    plan_repairs = 0;
    streaming_text = "";
    tool_results = [];
    pending_approval = none;
    pending_review = none;
    active_start = none;
    last_result = none;
    prompt_queue = (PromptQueue.clear r.prompt_queue).1;
  }

  -- AgentRuntime.reset
  unfoldable pub reset_runtime : Runtime W C → Runtime W C
  unfolding cancel_current_turn reset
  reset_runtime r =
      let r' = cancel_current_turn r in
      record r' { conversation = []; prompt = ""; expected_visual = none; state = reset r'.state }

  -- shutdown, less the stop of the worker's thread
  unfoldable pub shutdown : Runtime W C → Runtime W C
  unfolding cancel_current_turn
  shutdown r =
      let r' = cancel_current_turn r in
      record r' { effects = r'.effects ++ shutdown_requested ∷ [] }

  -- An image of the prompt that is not found ends in ERROR, with the turn still open.
  unfoldable pub miss_first_image : ℕ → String → M W C (Unit {0})
  unfolding go_to emit
  miss_first_image t text = do
    go_to AgentState.error
    emit (noted t HistoryKind.error "ERROR")
    emit (error_event t "IMAGE_NOT_FOUND" text)

module _ {W C : Type 0} (sv : Services W C) where
  unfoldable pub compacted : Runtime W C → Runtime W C
  compacted r = if has r.pending_approval then r else elim r.state [
    | AgentState.pending_approval ↦ r
    | AgentState.executing_tool ↦ r
    | _ ↦ record r { conversation = sv.compact r.conversation }
  ]

  -- _maybe_compact_context
  unfoldable pub maybe_compact : M W C (Unit {0})
  unfolding compacted
  maybe_compact = modify compacted

  -- The defensive recovery before a new prompt.
  unfoldable pub recover : M W C (Unit {0})
  unfolding validate_sequence discard
  recover r = elim (validate_sequence r.conversation) [
    | none ↦ (ok tt, r)
    | some e ↦ elim r.active_start [
      | none ↦ (raised (invalid_sequence e), r)
      | some start ↦ (ok tt, discard r)
    ]
  ]

  unfoldable pub leave_error : Runtime W C → Runtime W C
  unfolding reset
  leave_error r = elim r.state [ AgentState.error ↦ record r { state = reset r.state } | _ ↦ r ]

  unfoldable pub open_turn : String → Option String → Runtime W C → Runtime W C
  open_turn prompt expected r = record r {
    turn_counter = suc r.turn_counter;
    turn_id = some (suc r.turn_counter);
    prompt = prompt;
    expected_visual = expected;
    tool_results = [];
    tool_round = 0;
    plan_repairs = 0;
    streaming_text = "";
    has_cancel_event = true;
    cancelled = false;
    active_start = some (length r.conversation);
  }

  unfoldable pub submit_task : ℕ → Option C → M W C (Unit {0})
  submit_task t context r = (
    ok tt,
    record r {
      effects =
          r.effects
          ++ submitted (record {
            turn_id = t;
            prompt = r.prompt;
            tool_results = r.tool_results;
            context = context;
          })
            ∷ [];
    },
  )

  -- The first task of a turn.
  unfoldable pub dispatch_prompt : ℕ → M W C (Unit {0})
  unfolding submit_task miss_first_image
  dispatch_prompt t r =
      if sv.streams
      then elim (sv.build_context r.conversation r.world) [
        | done c ↦ submit_task t (some c) r
        | unresolved text ↦ miss_first_image t text r
      ]
      else submit_task t none r

  -- _start_prompt; `queued` says that the history has an item of the prompt already.
  unfoldable pub start_prompt : String → Option String → Option String → Bool → M W C ℕ
  unfolding recover leave_error open_turn maybe_compact dispatch_prompt go_to emit add_message
  start_prompt prompt image_id expected queued = do
    running ← gets (λ r. is_running r.state)
    if running then raise active_turn else modify leave_error
    recover
    modify (open_turn prompt expected)
    t ← gets (λ r. r.turn_counter)
    add_message (user_message prompt image_id)
    maybe_compact
    go_to AgentState.processing
    emit (prompt_submitted t prompt)
    emit (noted t HistoryKind.user (if queued then "RUNNING" else "SENT"))
    dispatch_prompt t
    pure t

  unfoldable pub is_waiting : Runtime W C → Bool
  is_waiting r = has r.turn_id || is_busy r.state

  unfoldable pub enqueue_prompt : String → Option String → Option String → M W C Ticket
  unfolding enqueue
  enqueue_prompt prompt image_id expected r =
      elim (enqueue prompt image_id expected r.prompt_queue) [
        | none ↦ (raised queue_full, r)
        | some (item, q) ↦ (
          ok (queued_as item.queue_id),
          record r {
            prompt_queue = q;
            effects = r.effects ++ noted item.queue_id HistoryKind.user "QUEUED" ∷ [];
          },
        )
      ]

  unfoldable pub submit_prompt : String → Option String → Option String → M W C Ticket
  unfolding is_waiting enqueue_prompt start_prompt
  submit_prompt prompt image_id expected = do
    waiting ← gets is_waiting
    if waiting
        then enqueue_prompt prompt image_id expected
        else (do t ← start_prompt prompt image_id expected false; pure (started_as t))

  unfoldable pub after_start : QueuedPrompt → Result ℕ → M W C (Option ℕ)
  unfolding emit
  after_start q (ok t) = pure (some t)
  after_start q (raised e) = do emit (noted q.queue_id HistoryKind.user "ERROR"); pure none

  -- A queued prompt that does not start is noted, and the exception goes no further.
  unfoldable pub start_queued : QueuedPrompt → M W C (Option ℕ)
  unfolding start_prompt after_start
  start_queued q = do
    t ← attempt (start_prompt q.prompt q.image_id q.expected_visual_description true)
    after_start q t

  unfoldable pub pump_prompt_queue : M W C (Option ℕ)
  unfolding is_waiting start_queued pop
  pump_prompt_queue r =
      if is_waiting r
      then (ok none, r)
      else let (item, q) = pop r.prompt_queue in
        elim item [
          | none ↦ (ok none, record r { prompt_queue = q })
          | some p ↦ start_queued p (record r { prompt_queue = q })
        ]
