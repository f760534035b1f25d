-- ===== src/Tests/Turns.antt =====
-- The theorems on the state machine and the queues at concrete inputs.
use blender_ai_sidebar.Prelude.{ℕ, ◌*◌, ◌≡◌, refl, List, [], ◌∷◌, none, some, map}
use blender_ai_sidebar.Core.EventQueue.{IsDrained, drain_batch, drain_batch-IsDrained}
use blender_ai_sidebar.Agent.PromptQueue.{
  QueuedPrompt, Operation, put, take_one, take_all, IsFifo, operations, start, operations-IsFifo,
  new_queue,
}

abbrev calls : List Operation
calls =
    put "add a cube" none none
    ∷ put "add a light" (some "img_1") none
    ∷ put "one too many" none none
    ∷ take_one
    ∷ put "render" none none
    ∷ take_all
    ∷ []

-- The third prompt does not fit.
test_removed :
    map (λ (p : QueuedPrompt). p.prompt) (operations calls (start 2)).removed
    ≡ "add a cube" ∷ "add a light" ∷ "render" ∷ []
unfolding operations new_queue
test_removed = refl

operations-IsFifo_example : IsFifo (operations calls (start 2))
operations-IsFifo_example = operations-IsFifo 2 calls

abbrev events : List ℕ
events = 1 ∷ 2 ∷ 3 ∷ 4 ∷ []

-- A clock that takes two units for each event.
abbrev ticks : ℕ → ℕ
ticks n = 2 * n

test_drain : drain_batch 10 5 ticks events ≡ (1 ∷ 2 ∷ 3 ∷ [], 4 ∷ [])
unfolding drain_batch
test_drain = refl

drain_batch-IsDrained_example : IsDrained 10 5 ticks events (drain_batch 10 5 ticks events)
drain_batch-IsDrained_example = drain_batch-IsDrained 10 5 ticks events
