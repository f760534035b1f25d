-- ===== src/Agent/Runtime/Untouched.antt =====
-- The operations that leave the world alone, and the end of a turn by its cancellation.
use blender_ai_sidebar.Prelude.{
  ℕ, ◌≡◌, refl, sym, subst, Bool, true, false, String, Option, none, some, Bool-cases, Option-cases,
  inl, inr,
}
use blender_ai_sidebar.Agent.Conversation.{validate_sequence}
use blender_ai_sidebar.Agent.PromptQueue.{QueuedPrompt, enqueue, pop}
use blender_ai_sidebar.Agent.StateMachine.{AgentState}
use blender_ai_sidebar.Agent.Runtime.{Runtime, Services}
use blender_ai_sidebar.Agent.Runtime.Action.{Result, ok, raised, modify}
use blender_ai_sidebar.Agent.Runtime.Turns.{
  user_message, discard, clear_pending, end_cancelled, cancel_current_turn, clear_history,
  reset_session, reset_runtime, shutdown, has, compacted, maybe_compact, recover, leave_error,
  open_turn, miss_first_image, dispatch_prompt, start_prompt, is_waiting, enqueue_prompt,
  submit_prompt, after_start, start_queued, pump_prompt_queue,
}
use blender_ai_sidebar.Agent.Runtime.Approvals.{reject}
use blender_ai_sidebar.Agent.Runtime.Plans.{reject_plan}
use blender_ai_sidebar.Agent.Runtime.Quiet.{
  On, Keeps, Attempt-cases, bind-Keeps, if-Keeps, pure-Keeps, gets-Keeps, attempt-Keeps,
  go_to-Keeps, emit-Keeps, add_message-Keeps, submit_task-Keeps,
}
use blender_ai_sidebar.Agent.Runtime.Answers.{reject-world}
use blender_ai_sidebar.Agent.Runtime.Verdicts.{reject_plan-world}

module _ {W C : Type 0} where
  discard-world : (r : Runtime W C) → (discard r).world ≡ r.world
  unfolding discard
  discard-world r = elim (Option-cases r.active_start) [
    | inl missing ↦ rw (missing, discard) refl
    | inr (start, there) ↦ rw (there, discard) refl
  ]

  pub cancel_current_turn-world : (r : Runtime W C) → (cancel_current_turn r).world ≡ r.world
  unfolding cancel_current_turn clear_pending end_cancelled
  cancel_current_turn-world r = elim (Option-cases (discard (clear_pending r)).turn_id) [
    | inl missing ↦ rw (cancel_current_turn, missing) (discard-world (clear_pending r))
    | inr (t, there) ↦ rw (cancel_current_turn, there) (discard-world (clear_pending r))
  ]

  pub cancel_current_turn-turn : (r : Runtime W C) → (cancel_current_turn r).turn_id ≡ none
  unfolding cancel_current_turn end_cancelled
  cancel_current_turn-turn r = elim (Option-cases (discard (clear_pending r)).turn_id) [
    | inl missing ↦ rw (cancel_current_turn, missing) missing
    | inr (t, there) ↦ rw (cancel_current_turn, there) refl
  ]

module _ {W C : Type 0} (sv : Services W C) (Q : W → Type 0) where
  leave_error-world : (r : Runtime W C) → (leave_error sv r).world ≡ r.world
  unfolding leave_error
  leave_error-world r = at r.state refl
    where
      at : (s : AgentState) → r.state ≡ s → (leave_error sv r).world ≡ r.world
      at AgentState.error h = rw (h, leave_error) refl
      at AgentState.idle h = rw (h, leave_error) refl
      at AgentState.processing h = rw (h, leave_error) refl
      at AgentState.executing_tool h = rw (h, leave_error) refl
      at AgentState.pending_approval h = rw (h, leave_error) refl

  compacted-world : (r : Runtime W C) → (compacted sv r).world ≡ r.world
  unfolding compacted
  compacted-world r = elim (Bool-cases (has r.pending_approval)) [
    | inl waits ↦ rw (compacted, waits) refl
    | inr free ↦ at r.state refl free
  ]
    where
      at :
          (s : AgentState)
          → r.state ≡ s
          → has r.pending_approval ≡ false
          → (compacted sv r).world ≡ r.world
      at AgentState.error h free = rw (free, h, compacted) refl
      at AgentState.idle h free = rw (free, h, compacted) refl
      at AgentState.processing h free = rw (free, h, compacted) refl
      at AgentState.executing_tool h free = rw (free, h, compacted) refl
      at AgentState.pending_approval h free = rw (free, h, compacted) refl

  -- A change that leaves the world keeps what is said of it.
  modify-On :
      (f : Runtime W C → Runtime W C)
      → ((r : Runtime W C) → (f r).world ≡ r.world)
      → Keeps (On Q) (modify f)
  modify-On f same = record { keep = λ r q. subst Q (sym (same r)) q }

  recover-Keeps : Keeps (On Q) (recover sv)
  unfolding recover
  recover-Keeps = record {
    keep = λ r q. elim (Option-cases (validate_sequence r.conversation)) [
      | inl fine ↦ rw (fine, recover) q
      | inr (e, bad) ↦ elim (Option-cases r.active_start) [
        | inl missing ↦ rw (bad, missing, recover) q
        | inr (start, there) ↦ rw (bad, there, recover) (subst Q (sym (discard-world r)) q)
      ]
    ];
  }

  maybe_compact-Keeps : Keeps (On Q) (maybe_compact sv)
  unfolding maybe_compact
  maybe_compact-Keeps = modify-On _ compacted-world

  miss_first_image-Keeps :
      (t : ℕ) (text : String) → Keeps (On Q) (miss_first_image {W = W} {C = C} t text)
  unfolding miss_first_image
  miss_first_image-Keeps t text =
      bind-Keeps (go_to-Keeps _) λ _. bind-Keeps (emit-Keeps _) λ _. emit-Keeps _

  dispatch_prompt-Keeps : (t : ℕ) → Keeps (On Q) (dispatch_prompt sv t)
  unfolding dispatch_prompt
  dispatch_prompt-Keeps t = record {
    keep = λ r q. elim (Bool-cases sv.streams) [
      | inr plain ↦ rw (plain, dispatch_prompt) ((submit_task-Keeps sv {P = On Q} t none).keep r q)
      | inl streaming ↦ elim (Attempt-cases (sv.build_context r.conversation r.world)) [
        | inl (c, built) ↦
            rw (streaming, dispatch_prompt)
              (rw built ((submit_task-Keeps sv {P = On Q} t (some c)).keep r q))
        | inr (text, missing) ↦
            rw (streaming, dispatch_prompt) (rw missing ((miss_first_image-Keeps t text).keep r q))
      ]
    ];
  }

  start_prompt-Keeps :
      (prompt : String) (image_id expected : Option String) (queued : Bool)
      → Keeps (On Q) (start_prompt sv prompt image_id expected queued)
  unfolding start_prompt open_turn
  start_prompt-Keeps prompt image_id expected queued = bind-Keeps (gets-Keeps _) λ running.
      bind-Keeps (if-Keeps running (record { keep = λ r q. q }) (modify-On _ leave_error-world))
        λ _. bind-Keeps recover-Keeps λ _. bind-Keeps (modify-On _ λ r. refl) λ _.
          bind-Keeps (gets-Keeps _) λ t.
            bind-Keeps (add_message-Keeps (user_message prompt image_id)) λ _.
              bind-Keeps maybe_compact-Keeps λ _. bind-Keeps (go_to-Keeps _) λ _.
                bind-Keeps (emit-Keeps _) λ _.
                  bind-Keeps (emit-Keeps _)
                    λ _. bind-Keeps (dispatch_prompt-Keeps t) λ _. pure-Keeps _

  enqueue_prompt-Keeps :
      (prompt : String) (image_id expected : Option String)
      → Keeps (On Q) (enqueue_prompt sv prompt image_id expected)
  unfolding enqueue_prompt
  enqueue_prompt-Keeps prompt image_id expected = record {
    keep = λ r q. elim (Option-cases (enqueue prompt image_id expected r.prompt_queue)) [
      | inl full ↦ rw (full, enqueue_prompt) q
      | inr ((item, queue), room) ↦ rw (room, enqueue_prompt) q
    ];
  }

  submit_prompt-Keeps :
      (prompt : String) (image_id expected : Option String)
      → Keeps (On Q) (submit_prompt sv prompt image_id expected)
  unfolding submit_prompt
  submit_prompt-Keeps prompt image_id expected = bind-Keeps (gets-Keeps _) λ waiting.
      if-Keeps waiting (enqueue_prompt-Keeps prompt image_id expected)
        (bind-Keeps (start_prompt-Keeps prompt image_id expected false) λ t. pure-Keeps _)

  after_start-Keeps : (q : QueuedPrompt) (t : Result ℕ) → Keeps (On Q) (after_start sv q t)
  unfolding after_start
  after_start-Keeps q (ok t) = pure-Keeps _
  after_start-Keeps q (raised e) = bind-Keeps (emit-Keeps _) λ _. pure-Keeps _

  start_queued-Keeps : (q : QueuedPrompt) → Keeps (On Q) (start_queued sv q)
  unfolding start_queued
  start_queued-Keeps q =
      bind-Keeps
        (attempt-Keeps (start_prompt-Keeps q.prompt q.image_id q.expected_visual_description true))
        λ t. after_start-Keeps q t

  pump_prompt_queue-Keeps : Keeps (On Q) (pump_prompt_queue sv)
  unfolding pump_prompt_queue
  pump_prompt_queue-Keeps = record {
    keep = λ r q. elim (Bool-cases (is_waiting sv r)) [
      | inl busy ↦ rw (busy, pump_prompt_queue) q
      | inr free ↦ elim (Option-cases (pop r.prompt_queue).0) [
        | inl empty ↦ rw (free, pump_prompt_queue) (rw empty q)
        | inr (p, next) ↦
            rw (free, pump_prompt_queue)
              (rw next (
                (start_queued-Keeps p).keep (record r { prompt_queue = (pop r.prompt_queue).1 }) q))
      ]
    ];
  }

-- No operation but an event and an approval changes the world of `r`.
abbrev pub Untouched :
    {W C : Type 0}
    → Services W C
    → String
    → Option String
    → Option String
    → ℕ
    → Runtime W C
    → Type 0
Untouched sv prompt image_id expected id r =
    ((submit_prompt sv prompt image_id expected r).1.world ≡ r.world)
    × (((pump_prompt_queue sv r).1.world ≡ r.world)
        × (((reject sv id r).1.world ≡ r.world)
            × (((reject_plan sv id r).1.world ≡ r.world)
                × (((cancel_current_turn r).world ≡ r.world)
                    × (((clear_history r).world ≡ r.world)
                        × (((reset_session r).world ≡ r.world)
                            × (((reset_runtime r).world ≡ r.world)
                                × ((shutdown r).world ≡ r.world))))))))

-- A prompt, the start of a queued one, the refusal of a call or of a plan, a cancellation, and
-- what clears or ends the session never change the world, also where they raise.
pub operations-Untouched :
    {W C : Type 0} (sv : Services W C) (prompt : String) (image_id expected : Option String)
    (id : ℕ) (r : Runtime W C)
    → Untouched sv prompt image_id expected id r
unfolding clear_history reset_session reset_runtime shutdown
operations-Untouched sv prompt image_id expected id r =
    let cancelled = cancel_current_turn-world r in
    (
      (submit_prompt-Keeps sv (λ w. w ≡ r.world) prompt image_id expected).keep r refl,
      (
        (pump_prompt_queue-Keeps sv (λ w. w ≡ r.world)).keep r refl,
        (
          reject-world sv id r,
          (reject_plan-world sv id r, (cancelled, (refl, (refl, (cancelled, cancelled))))),
        ),
      ),
    )
