-- ===== src/Core/EventQueue.antt =====
-- core/event_queue.py: the queue between the worker and the main thread, as the list of its events.
-- The readings of the clock are a function of their number; the budget of time is in its unit.
use blender_ai_sidebar.Prelude.{
  ℕ, zero, suc, ◌≤◌, ◌<◌, ◌≡◌, refl, ap, arith, List, [], ◌∷◌, ◌++◌, Option, none, some,
  if◌then◌else◌, length, leb, Bool-cases, inl, inr, ◌⊎◌,
}

later :
    (max_time : ℕ) (reading : ℕ → ℕ)
    → reading 0 < max_time
    → (taken : ℕ) → ((n : ℕ) → n < taken → reading (suc n) < max_time)
    → (n : ℕ) → n < suc taken
    → reading n < max_time
later max_time reading early taken h zero less = early
later max_time reading early taken h (suc n) less = h n (omega (arith, less))

module _ {E : Type 0} where
  unfoldable pub put : E → List E → List E
  put event queue = queue ++ event ∷ []

  unfoldable pub get_nowait : List E → Option E × List E
  get_nowait [] = (none, [])
  get_nowait (event ∷ queue) = (some event, queue)

  -- The loop of drain_batch with `max_items` items to go; `reading` is the time that has passed at
  -- each of the tests that are left.
  unfoldable pub drain_batch : ℕ → ℕ → (ℕ → ℕ) → List E → List E × List E
  drain_batch zero max_time reading queue = ([], queue)
  drain_batch (suc max_items) max_time reading queue =
      if leb max_time (reading 0) then ([], queue) else elim queue [
        | [] ↦ ([], [])
        | event ∷ rest ↦
            let (batch, left) = drain_batch max_items max_time (λ n. reading (suc n)) rest in
            (event ∷ batch, left)
      ]

  -- The number of events that were discarded, and the queue.
  unfoldable pub clear : List E → ℕ × List E
  clear [] = (0, [])
  clear (event ∷ queue) = let (discarded, left) = clear queue in (suc discarded, left)

  -- Why a drain stops: the batch is full, the queue is empty, or the time is over at the test that
  -- follows the batch.
  abbrev pub Stopped : ℕ → ℕ → (ℕ → ℕ) → List E × List E → Type 0
  Stopped max_items max_time reading (batch, left) =
      (length batch ≡ max_items) ⊎ (left ≡ []) ⊎ (max_time ≤ reading (length batch))

  pub record IsDrained (max_items max_time : ℕ) (reading : ℕ → ℕ) (queue : List E)
      (r : List E × List E) : Type 0 where
    pub in_order : queue ≡ r.0 ++ r.1
    pub bounded : length r.0 ≤ max_items
    pub in_time : (n : ℕ) → n < length r.0 → reading n < max_time
    pub stopped : Stopped max_items max_time reading r

  drain_some :
      (max_items max_time : ℕ) (reading : ℕ → ℕ) (event : E) (queue : List E) (r : List E × List E)
      → reading 0 < max_time
      → IsDrained max_items max_time (λ n. reading (suc n)) queue r
      → IsDrained (suc max_items) max_time reading (event ∷ queue) (event ∷ r.0, r.1)
  drain_some max_items max_time reading event queue r early d = record {
    in_order = ap (λ l. event ∷ l) d.in_order;
    bounded = omega (arith, d.bounded);
    in_time = later max_time reading early (length r.0) d.in_time;
    stopped = elim d.stopped [
      | inl full ↦ inl (omega arith)
      | inr (inl empty) ↦ inr (inl empty)
      | inr (inr late) ↦ inr (inr late)
    ];
  }

  -- A drain splits the queue into a batch and the events that stay, in order; the batch has at most
  -- `max_items` events, the time was not over before any of them was taken, and the drain stops
  -- only when the batch is full, no event is left or the time is over.
  pub drain_batch-IsDrained :
      (max_items max_time : ℕ) (reading : ℕ → ℕ) (queue : List E)
      → IsDrained max_items max_time reading queue (drain_batch max_items max_time reading queue)
  unfolding drain_batch
  drain_batch-IsDrained zero max_time reading queue = record {
    in_order = refl;
    bounded = omega arith;
    in_time = λ n h. absurd (omega (arith, h));
    stopped = inl refl;
  }
  drain_batch-IsDrained (suc max_items) max_time reading [] =
      elim (Bool-cases (leb max_time (reading 0))) [
        | inl late ↦
            rw (late, drain_batch)
              (record {
                in_order = refl;
                bounded = omega arith;
                in_time = λ n h. absurd (omega (arith, h));
                stopped = inr (inl refl);
              })
        | inr early ↦
            rw (early, drain_batch)
              (record {
                in_order = refl;
                bounded = omega arith;
                in_time = λ n h. absurd (omega (arith, h));
                stopped = inr (inl refl);
              })
      ]
  drain_batch-IsDrained (suc max_items) max_time reading (event ∷ queue) =
      elim (Bool-cases (leb max_time (reading 0))) [
        | inl late ↦
            rw (late, drain_batch)
              (record {
                in_order = refl;
                bounded = omega arith;
                in_time = λ n h. absurd (omega (arith, h));
                stopped = inr (inr (ground (arith, late)));
              })
        | inr early ↦
            rw (early, drain_batch)
              (drain_some max_items max_time reading event queue
                (drain_batch max_items max_time (λ n. reading (suc n)) queue)
                (ground (arith, early))
                (drain_batch-IsDrained max_items max_time (λ n. reading (suc n)) queue))
      ]
