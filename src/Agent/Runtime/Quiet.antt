-- ===== src/Agent/Runtime/Quiet.antt =====
-- What the methods keep: a predicate on the view of a runtime, the part that only a few of them
-- change, is kept by all the others.
use blender_ai_sidebar.Prelude.{
  ℕ, ◌≡◌, refl, sym, subst, Bool, true, false, String, List, Option, none, some, if◌then◌else◌,
  Bool-cases, Option-cases, inl, inr, ◌⊎◌,
}
use blender_ai_sidebar.Core.Types.{ToolResult}
use blender_ai_sidebar.Agent.Models.{ToolCall, ChatMessage, make_message}
use blender_ai_sidebar.Agent.Policy.{PendingApproval}
use blender_ai_sidebar.Agent.StateMachine.{AgentState, transition_to}
use blender_ai_sidebar.Plan.Review.{PlanReview}
use blender_ai_sidebar.Agent.Runtime.{Runtime, Services, Effect, Attempt, done, unresolved}
use blender_ai_sidebar.Agent.Runtime.Action.{
  Result, ok, raised, M, pure, next, ◌>>=◌, gets, modify, attempt, go_to, emit, add_message,
  add_result,
}
use blender_ai_sidebar.Agent.Runtime.Turns.{submit_task}
use blender_ai_sidebar.Agent.Runtime.Replies.{
  tool_message, error_of, content_of, image_value, image_text, image_of, record_tool, close_turn,
  miss_image, report_error, fail_turn, fail_tool, send,
}

pub record View (W : Type 0) : Type 0 where
  pub world : W
  pub prompt : String
  pub expected_visual : Option String
  pub pending_approval : Option PendingApproval
  pub pending_review : Option PlanReview
  pub consumed : List ℕ
  pub cancelled : Bool
  pub tool_round : ℕ
  pub turn_counter : ℕ

module _ {W C : Type 0} where
  abbrev pub view : Runtime W C → View W
  view r = record {
    world = r.world;
    prompt = r.prompt;
    expected_visual = r.expected_visual;
    pending_approval = r.pending_approval;
    pending_review = r.pending_review;
    consumed = r.consumed;
    cancelled = r.cancelled;
    tool_round = r.tool_round;
    turn_counter = r.turn_counter;
  }

  view-go_to :
      (o : Option AgentState) (e : Result (Unit {0})) (r : Runtime W C)
      → view
          (elim o as (λ x. Result (Unit {0}) × Runtime W C) [
            | none ↦ (e, r)
            | some state ↦ (ok tt, record r { state = state })
          ]).1
        ≡ view r
  view-go_to none e r = refl
  view-go_to (some state) e r = refl

pub Attempt-cases :
    {A : Type 0} (a : Attempt A)
    → ((x : A) × (a ≡ done x)) ⊎ ((text : String) × (a ≡ unresolved text))
Attempt-cases (done x) = inl (x, refl)
Attempt-cases (unresolved text) = inr (text, refl)

-- The method keeps `P`, also where it raises.
pub record Keeps {W C A : Type 0} (P : View W → Type 0) (m : M W C A) : Type 0 where
  pub keep : (r : Runtime W C) → P (view r) → P (view (m r).1)

abbrev pub On : {W : Type 0} → (W → Type 0) → View W → Type 0
On Q v = Q v.world

-- The method leads from `P` to `Q`, also where it raises.
pub record Leads {W C A : Type 0} (P : View W → Type 0) (m : M W C A) (Q : View W → Type 0)
    : Type 0 where
  pub lead : (r : Runtime W C) → P (view r) → Q (view (m r).1)

module _ {W C : Type 0} {Q R : View W → Type 0} {A B : Type 0} where
  next-Leads :
      (f : A → M W C B)
      → ((a : A) → Leads Q (f a) R)
      → ((v : View W) → Q v → R v)
      → (x : Result A) (r : Runtime W C) → Q (view r)
      → R (view (next f x r).1)
  next-Leads f hf hr (ok a) r q = (hf a).lead r q
  next-Leads f hf hr (raised e) r q = hr _ q

  pub bind-Leads :
      {P : View W → Type 0} {m : M W C A} {f : A → M W C B}
      → Leads P m Q
      → ((a : A) → Leads Q (f a) R)
      → ((v : View W) → Q v → R v)
      → Leads P (m >>= f) R
  unfolding ◌>>=◌
  bind-Leads {m = m} {f = f} hm hf hr = record {
    lead = λ r p. next-Leads f hf hr (m r).0 (m r).1 (hm.lead r p);
  }

module _ {W C : Type 0} {P : View W → Type 0} where
  pub kept-Leads : {A : Type 0} {m : M W C A} → Keeps P m → Leads P m P
  kept-Leads h = record { lead = h.keep }

  module _ {A B : Type 0} where
    next-Keeps :
        (f : A → M W C B)
        → ((a : A) → Keeps P (f a))
        → (x : Result A) (r : Runtime W C) → P (view r)
        → P (view (next f x r).1)
    next-Keeps f hf (ok a) r p = (hf a).keep r p
    next-Keeps f hf (raised e) r p = p

    pub bind-Keeps :
        {m : M W C A} {f : A → M W C B} → Keeps P m → ((a : A) → Keeps P (f a)) → Keeps P (m >>= f)
    unfolding ◌>>=◌
    bind-Keeps {m = m} {f = f} hm hf = record {
      keep = λ r p. next-Keeps f hf (m r).0 (m r).1 (hm.keep r p);
    }

  pub if-Keeps :
      {A : Type 0} {m k : M W C A}
      → (b : Bool) → Keeps P m
      → Keeps P k
      → Keeps P (if b then m else k)
  if-Keeps true hm hk = hm
  if-Keeps false hm hk = hk

  pub option-Keeps :
      {A B : Type 0} {m : M W C B} {k : A → M W C B} (o : Option A)
      → Keeps P m
      → ((a : A) → Keeps P (k a))
      → Keeps P (elim o as (λ x. M W C B) [ none ↦ m | some a ↦ k a ])
  option-Keeps none hm hk = hm
  option-Keeps (some a) hm hk = hk a

  pub pure-Keeps : {A : Type 0} (a : A) → Keeps P (pure {W = W} {C = C} a)
  pure-Keeps a = record { keep = λ r p. p }

  pub gets-Keeps : {A : Type 0} (f : Runtime W C → A) → Keeps P (gets f)
  gets-Keeps f = record { keep = λ r p. p }

  pub modify-Keeps :
      (f : Runtime W C → Runtime W C)
      → ((r : Runtime W C) → view (f r) ≡ view r)
      → Keeps P (modify f)
  modify-Keeps f same = record { keep = λ r p. subst P (sym (same r)) p }

  pub attempt-Keeps : {A : Type 0} {m : M W C A} → Keeps P m → Keeps P (attempt m)
  attempt-Keeps h = record { keep = λ r p. h.keep r p }

  pub go_to-Keeps : (target : AgentState) → Keeps P (go_to {W = W} {C = C} target)
  unfolding go_to
  go_to-Keeps target = record {
    keep = λ r p. subst P (sym (view-go_to (transition_to target r.state) _ r)) p;
  }

  pub emit-Keeps : (e : Effect C) → Keeps P (emit e)
  unfolding emit
  emit-Keeps e = record { keep = λ r p. p }

  pub add_result-Keeps : (res : ToolResult) → Keeps P (add_result {W = W} {C = C} res)
  unfolding add_result
  add_result-Keeps res = record { keep = λ r p. p }

  pub add_message-Keeps : (m : ChatMessage) → Keeps P (add_message {W = W} {C = C} m)
  unfolding add_message
  add_message-Keeps m = record {
    keep = λ r p. elim (Option-cases (make_message m)) [
      | inl bad ↦ rw (bad, add_message) p
      | inr (made, good) ↦ rw (good, add_message) p
    ];
  }

  pub error_of-Keeps : (res : ToolResult) → Keeps P (error_of {W = W} {C = C} res)
  unfolding error_of
  error_of-Keeps res = record {
    keep = λ r p. elim (Option-cases res.error) [
      | inl missing ↦ rw (missing, error_of) p
      | inr (e, there) ↦ rw (there, error_of) p
    ];
  }

  pub content_of-Keeps : (res : ToolResult) → Keeps P (content_of {W = W} {C = C} res)
  unfolding content_of
  content_of-Keeps res =
      if-Keeps res.success (pure-Keeps _) (bind-Keeps (error_of-Keeps res) (λ e. pure-Keeps _))

  pub image_of-Keeps : (res : ToolResult) → Keeps P (image_of {W = W} {C = C} res)
  unfolding image_of
  image_of-Keeps res = record {
    keep = λ r p. elim (Bool-cases res.success) [
      | inr failed ↦ rw (failed, image_of) p
      | inl fine ↦ elim (Option-cases (image_text (image_value res.result_data))) [
        | inl bad ↦ rw (fine, image_of) (rw bad p)
        | inr (image, good) ↦ rw (fine, image_of) (rw good p)
      ]
    ];
  }

  pub record_tool-Keeps :
      (t : ℕ) (call : ToolCall) (name : String) (res : ToolResult)
      → Keeps P (record_tool {W = W} {C = C} t call name res)
  unfolding record_tool
  record_tool-Keeps t call name res = bind-Keeps (add_result-Keeps res) λ _.
      bind-Keeps (content_of-Keeps res) λ content. bind-Keeps (image_of-Keeps res) λ image.
        bind-Keeps (add_message-Keeps (tool_message content call.call_id name image))
          λ _. bind-Keeps (emit-Keeps _) λ _. emit-Keeps _

  pub report_error-Keeps :
      (t : ℕ) (type message : String) → Keeps P (report_error {W = W} {C = C} t type message)
  unfolding report_error
  report_error-Keeps t type message = bind-Keeps (emit-Keeps _) λ _. emit-Keeps _

  pub close_turn-Keeps :
      (text : String) (report : M W C (Unit {0}))
      → Keeps P report
      → Keeps P (close_turn text report)
  unfolding close_turn
  close_turn-Keeps text report h = bind-Keeps (gets-Keeps _) λ results.
      bind-Keeps (modify-Keeps _ λ r. refl)
        λ _. bind-Keeps h λ _. bind-Keeps (modify-Keeps _ λ r. refl) λ _. pure-Keeps _

  pub fail_turn-Keeps :
      (t : ℕ) (type message : String) → Keeps P (fail_turn {W = W} {C = C} t type message)
  unfolding fail_turn
  fail_turn-Keeps t type message =
      bind-Keeps (go_to-Keeps _) λ _. close_turn-Keeps _ _ (report_error-Keeps t type message)

  pub fail_tool-Keeps : (t : ℕ) (res : ToolResult) → Keeps P (fail_tool {W = W} {C = C} t res)
  unfolding fail_tool
  fail_tool-Keeps t res =
      bind-Keeps (go_to-Keeps _)
        λ _. bind-Keeps (error_of-Keeps res) λ e. close_turn-Keeps _ _ (emit-Keeps _)

  pub miss_image-Keeps : (t : ℕ) (text : String) → Keeps P (miss_image {W = W} {C = C} t text)
  unfolding miss_image
  miss_image-Keeps t text =
      bind-Keeps (go_to-Keeps _)
        λ _. close_turn-Keeps _ _ (report_error-Keeps t "IMAGE_NOT_FOUND" text)

module _ {W C : Type 0} (sv : Services W C) {P : View W → Type 0} where
  pub submit_task-Keeps : (t : ℕ) (context : Option C) → Keeps P (submit_task sv t context)
  unfolding submit_task
  submit_task-Keeps t context = record { keep = λ r p. p }

  -- Asking the provider to go on, or ending the turn where an image is missing.
  pub send-Keeps : (t : ℕ) → Keeps P (send sv t)
  unfolding send
  send-Keeps t = record {
    keep = λ r p. elim (Bool-cases sv.streams) [
      | inr plain ↦
          rw (plain, send) ((bind-Keeps (submit_task-Keeps t none) (λ _. pure-Keeps _)).keep r p)
      | inl streaming ↦ elim (Attempt-cases (sv.build_context r.conversation r.world)) [
        | inl (c, built) ↦
            rw (streaming, send)
              (rw built ((bind-Keeps (submit_task-Keeps t (some c)) (λ _. pure-Keeps _)).keep r p))
        | inr (text, missing) ↦
            rw (streaming, send) (rw missing ((miss_image-Keeps {P = P} t text).keep r p))
      ]
    ];
  }
