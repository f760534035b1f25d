-- ===== src/Agent/PromptQueue.antt =====
-- agent/prompt_queue.py: the bounded queue of the prompts that wait behind an active turn. The
-- numbers of the ids stand for the ids, and the times are left out.
use blender_ai_sidebar.Prelude.{
  ℕ, zero, suc, ◌≤◌, ◌≡◌, refl, sym, ap, ◌∙◌, arith, String, List, [], ◌∷◌, ◌++◌, map, append_assoc,
  append-nil, Option, none, some, if◌then◌else◌, length, length-append, ltb, leb, Bool-cases, inl,
  inr,
}

pub record QueuedPrompt : Type 0 where
  pub queue_id : ℕ
  pub prompt : String
  pub image_id : Option String
  pub expected_visual_description : Option String
  pub history_item_id : ℕ

pub record PromptQueue : Type 0 where
  pub maxsize : ℕ
  pub items : List QueuedPrompt
  pub counter : ℕ

-- The constructor; a size below 1 counts as 1.
unfoldable pub new_queue : ℕ → PromptQueue
new_queue maxsize = record {
  maxsize = if ltb maxsize 1 then 1 else maxsize;
  items = [];
  counter = 0;
}

-- The item that a counter gives.
abbrev queued : String → Option String → Option String → ℕ → QueuedPrompt
queued prompt image_id expected counter = record {
  queue_id = counter;
  prompt = prompt;
  image_id = image_id;
  expected_visual_description = expected;
  history_item_id = counter;
}

-- `none` stands for an OverflowError, which leaves the queue as it is.
unfoldable pub enqueue :
    String → Option String → Option String → PromptQueue → Option (QueuedPrompt × PromptQueue)
enqueue prompt image_id expected q =
    if leb q.maxsize (length q.items)
    then none
    else let item = queued prompt image_id expected (suc q.counter) in
      some (item, record q { items = q.items ++ item ∷ []; counter = suc q.counter })

popped : List QueuedPrompt → PromptQueue → Option QueuedPrompt × PromptQueue
popped [] q = (none, q)
popped (item ∷ items) q = (some item, record q { items = items })

unfoldable pub pop : PromptQueue → Option QueuedPrompt × PromptQueue
unfolding popped
pop q = popped q.items q

-- The removed prompts, and the empty queue.
unfoldable pub clear : PromptQueue → List QueuedPrompt × PromptQueue
clear q = (q.items, record q { items = [] })

pub data Operation : Type 0 where
  put : String → Option String → Option String → Operation
  take_one : Operation
  take_all : Operation

-- A queue with the prompts that it accepted and gave back so far, in the order of the calls.
pub record Trace : Type 0 where
  pub accepted : List QueuedPrompt
  pub removed : List QueuedPrompt
  pub queue : PromptQueue

abbrev pub start : ℕ → Trace
start maxsize = record { accepted = []; removed = []; queue = new_queue maxsize }

unfoldable pub operate : Operation → Trace → Trace
unfolding enqueue pop clear
operate (put prompt image_id expected) t = elim (enqueue prompt image_id expected t.queue) [
  | none ↦ t
  | some (item, q) ↦ record t { accepted = t.accepted ++ item ∷ []; queue = q }
]
operate take_one t =
    let (item, q) = pop t.queue in
    record t { removed = elim item [ none ↦ t.removed | some p ↦ t.removed ++ p ∷ [] ]; queue = q }
operate take_all t =
    let (items, q) = clear t.queue in record t { removed = t.removed ++ items; queue = q }

unfoldable pub operations : List Operation → Trace → Trace
unfolding operate
operations [] t = t
operations (op ∷ ops) t = operations ops (operate op t)

-- 1, 2, .., n
unfoldable pub numbers : ℕ → List ℕ
numbers zero = []
numbers (suc n) = numbers n ++ suc n ∷ []

pub record IsFifo (t : Trace) : Type 0 where
  pub in_order : t.accepted ≡ t.removed ++ t.queue.items
  pub numbered : map (λ (p : QueuedPrompt). p.queue_id) t.accepted ≡ numbers t.queue.counter
  pub bounded : length t.queue.items ≤ t.queue.maxsize
  pub has_room : 1 ≤ t.queue.maxsize

map-snoc :
    (ps : List QueuedPrompt) (p : QueuedPrompt)
    → map (λ (x : QueuedPrompt). x.queue_id) (ps ++ p ∷ [])
      ≡ map (λ (x : QueuedPrompt). x.queue_id) ps ++ p.queue_id ∷ []
map-snoc [] p = refl
map-snoc (x ∷ ps) p = ap (λ l. x.queue_id ∷ l) (map-snoc ps p)

put-IsFifo :
    (prompt : String) (image_id expected : Option String) (t : Trace)
    → IsFifo t
    → IsFifo (operate (put prompt image_id expected) t)
unfolding operate enqueue numbers
put-IsFifo prompt image_id expected t f =
    elim (Bool-cases (leb t.queue.maxsize (length t.queue.items))) [
      | inl full ↦ rw (full, operate, enqueue) f
      | inr fits ↦
          let item = queued prompt image_id expected (suc t.queue.counter) in
          rw (fits, operate, enqueue)
            (record {
              in_order =
                  ap (λ l. l ++ item ∷ []) f.in_order
                  ∙ append_assoc t.removed t.queue.items (item ∷ []);
              numbered =
                  map-snoc t.accepted item ∙ ap (λ l. l ++ suc t.queue.counter ∷ []) f.numbered;
              bounded = ground (arith, length-append t.queue.items (item ∷ []));
              has_room = f.has_room;
            })
    ]

take-IsFifo :
    (items accepted removed : List QueuedPrompt) (maxsize counter : ℕ)
    → IsFifo (record {
      accepted = accepted;
      removed = removed;
      queue = record { maxsize = maxsize; items = items; counter = counter };
    })
    → IsFifo (
        operate take_one (record {
          accepted = accepted;
          removed = removed;
          queue = record { maxsize = maxsize; items = items; counter = counter };
        }))
unfolding operate pop
take-IsFifo [] accepted removed maxsize counter f = f
take-IsFifo (p ∷ items) accepted removed maxsize counter f = record {
  in_order = f.in_order ∙ sym (append_assoc removed (p ∷ []) items);
  numbered = f.numbered;
  bounded = ground (arith, f.bounded);
  has_room = f.has_room;
}

operate-IsFifo : (op : Operation) (t : Trace) → IsFifo t → IsFifo (operate op t)
unfolding operate clear
operate-IsFifo (put prompt image_id expected) t f = put-IsFifo prompt image_id expected t f
operate-IsFifo take_one t f =
    take-IsFifo t.queue.items t.accepted t.removed t.queue.maxsize t.queue.counter f
operate-IsFifo take_all t f = record {
  in_order = f.in_order ∙ sym (append-nil (t.removed ++ t.queue.items));
  numbered = f.numbered;
  bounded = omega arith;
  has_room = f.has_room;
}

operations-keeps : (ops : List Operation) (t : Trace) → IsFifo t → IsFifo (operations ops t)
unfolding operations
operations-keeps [] t f = f
operations-keeps (op ∷ ops) t f = operations-keeps ops (operate op t) (operate-IsFifo op t f)

-- After any calls of enqueue, pop and clear on a new queue of any size, the prompts that the queue
-- accepted are those that it gave back, followed by those that wait, in the order of the calls; their
-- ids are 1, 2, .. without a gap or a repetition; and at most `maxsize` prompts wait, which is not 0.
pub operations-IsFifo :
    (maxsize : ℕ) (ops : List Operation) → IsFifo (operations ops (start maxsize))
unfolding numbers new_queue
operations-IsFifo maxsize ops =
    operations-keeps ops (start maxsize)
      (record { in_order = refl; numbered = refl; bounded = omega arith; has_room = ground arith })
