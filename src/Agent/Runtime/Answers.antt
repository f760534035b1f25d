-- ===== src/Agent/Runtime/Answers.antt =====
-- approve and reject: an answer is taken once, and only the approved call can change the world.
use blender_ai_sidebar.Prelude.{
  ℕ, ◌≡◌, refl, ap, ◌∙◌, true, false, none, some, ◌==◌, nat_comparable, Bool-cases, Option-cases,
  inl, inr, ◌⊎◌,
}
use blender_ai_sidebar.Agent.Policy.{PendingApproval}
use blender_ai_sidebar.Agent.Runtime.{
  Runtime, Services, Exception, no_pending_approval, invalid_approval,
}
use blender_ai_sidebar.Agent.Runtime.Action.{ok, raised, ◌>>=◌}
use blender_ai_sidebar.Agent.Runtime.Approvals.{
  is_pending, is_turn, check_approval, take_approval, approve_call, approve, reject_call, reject,
}
use blender_ai_sidebar.Agent.Runtime.Quiet.{View, view}
use blender_ai_sidebar.Agent.Runtime.Calls.{
  world_after, approve_call-Keeps, approve_call-RanOnce, reject_call-Keeps,
}

-- The answer `id` is for the approval `p` that the runtime waits for.
pub record Answers {W C : Type 0} (id : ℕ) (r : Runtime W C) (p : PendingApproval) : Type 0 where
  pub pending : r.pending_approval ≡ some p
  pub waiting : is_pending r.state ≡ true
  pub id_matches : (p.approval_id == id) ≡ true
  pub turn_matches : is_turn p.turn_id r.turn_id ≡ true
  pub runs : r.cancelled ≡ false

module _ {W C : Type 0} where
  abbrev answered : Runtime W C → Runtime W C
  answered r = record r { pending_approval = none }

  -- How an answer is taken: it is refused, it finds the turn cancelled, or it is consumed.
  pub data Taken (id : ℕ) (r : Runtime W C) : Type 0 where
    refused : (e : Exception) → take_approval id r ≡ (raised e, r) → Taken id r
    ended : take_approval id r ≡ (ok none, answered r) → Taken id r
    consumed :
        (p : PendingApproval)
        → Answers id r p
        → take_approval id r ≡ (ok (some p), answered r)
        → Taken id r

  checked :
      (id : ℕ) (r : Runtime W C) (p : PendingApproval)
      → r.pending_approval ≡ some p
      → is_pending r.state ≡ true
      → take_approval id r ≡ check_approval id p r
      → Taken id r
  unfolding check_approval
  checked id r p there waiting same = elim (Bool-cases (p.approval_id == id)) [
    | inr other ↦ refused invalid_approval (rw (same, other) refl)
    | inl mine ↦ elim (Bool-cases (is_turn p.turn_id r.turn_id)) [
      | inr stale ↦ refused invalid_approval (rw (same, mine, stale) refl)
      | inl now ↦ elim (Bool-cases r.cancelled) [
        | inl gone ↦ ended (rw (same, mine, now, gone) refl)
        | inr runs ↦
            consumed p
              (record {
                pending = there;
                waiting = waiting;
                id_matches = mine;
                turn_matches = now;
                runs = runs;
              })
              (rw (same, mine, now, runs) refl)
      ]
    ]
  ]

  pub take_approval-Taken : (id : ℕ) (r : Runtime W C) → Taken id r
  unfolding take_approval
  take_approval-Taken id r = elim (Option-cases r.pending_approval) [
    | inl missing ↦ refused no_pending_approval (simp (take_approval, missing))
    | inr (p, there) ↦ elim (Bool-cases (is_pending r.state)) [
      | inr idle ↦ refused no_pending_approval (simp (take_approval, there, idle))
      | inl waiting ↦ checked id r p there waiting (simp (take_approval, there, waiting))
    ]
  ]

  -- Without a pending approval there is nothing to take.
  pub take_approval-none :
      (id : ℕ) (r : Runtime W C)
      → r.pending_approval ≡ none
      → take_approval id r ≡ (raised no_pending_approval, r)
  unfolding take_approval
  take_approval-none id r missing = simp (take_approval, missing)

module _ {W C : Type 0} (sv : Services W C) where
  module _ (id : ℕ) (r : Runtime W C) where
    pub approve-raised :
        (e : Exception) → take_approval id r ≡ (raised e, r) → approve sv id r ≡ (raised e, r)
    unfolding approve ◌>>=◌
    approve-raised e same = simp (approve, ◌>>=◌, same)

    pub reject-raised :
        (e : Exception) → take_approval id r ≡ (raised e, r) → reject sv id r ≡ (raised e, r)
    unfolding reject ◌>>=◌
    reject-raised e same = simp (reject, ◌>>=◌, same)

    approve-ended :
        take_approval id r ≡ (ok none, answered r) → approve sv id r ≡ (ok none, answered r)
    unfolding approve ◌>>=◌
    approve-ended same = simp (approve, ◌>>=◌, same)

    reject-ended :
        take_approval id r ≡ (ok none, answered r) → reject sv id r ≡ (ok none, answered r)
    unfolding reject ◌>>=◌
    reject-ended same = simp (reject, ◌>>=◌, same)

    module _ (p : PendingApproval) where
      approve-consumed :
          take_approval id r ≡ (ok (some p), answered r)
          → approve sv id r ≡ approve_call sv p (answered r)
      unfolding approve ◌>>=◌
      approve-consumed same = simp (approve, ◌>>=◌, same)

      reject-consumed :
          take_approval id r ≡ (ok (some p), answered r)
          → reject sv id r ≡ reject_call sv p (answered r)
      unfolding reject ◌>>=◌
      reject-consumed same = simp (reject, ◌>>=◌, same)

  abbrev NoneWaits : View W → Type 0
  NoneWaits v = v.pending_approval ≡ none

  -- Without a pending approval both answers are refused, and nothing changes.
  abbrev pub Spent : ℕ → Runtime W C → Type 0
  Spent id r =
      (approve sv id r ≡ (raised no_pending_approval, r))
      × (reject sv id r ≡ (raised no_pending_approval, r))

  spent : (id : ℕ) (r : Runtime W C) → r.pending_approval ≡ none → Spent id r
  spent id r h =
      let none_left = take_approval-none id r h in
      (
        approve-raised id r no_pending_approval none_left,
        reject-raised id r no_pending_approval none_left,
      )

  module _ (id : ℕ) (r : Runtime W C) where
    approve-pending :
        ((e : Exception) × (approve sv id r ≡ (raised e, r)))
        ⊎ ((approve sv id r).1.pending_approval ≡ none)
    approve-pending = elim (take_approval-Taken id r) [
      | Taken.refused e same ↦ inl (e, approve-raised id r e same)
      | Taken.ended same ↦ inr (ap (λ x. x.1.pending_approval) (approve-ended id r same))
      | Taken.consumed p h same ↦ inr (
          ap (λ x. x.1.pending_approval) (approve-consumed id r p same)
          ∙ (approve_call-Keeps sv {P = NoneWaits} p λ v n. n).keep (answered r) refl)
    ]

    reject-pending :
        ((e : Exception) × (reject sv id r ≡ (raised e, r)))
        ⊎ ((reject sv id r).1.pending_approval ≡ none)
    reject-pending = elim (take_approval-Taken id r) [
      | Taken.refused e same ↦ inl (e, reject-raised id r e same)
      | Taken.ended same ↦ inr (ap (λ x. x.1.pending_approval) (reject-ended id r same))
      | Taken.consumed p h same ↦ inr (
          ap (λ x. x.1.pending_approval) (reject-consumed id r p same)
          ∙ (reject_call-Keeps sv {P = NoneWaits} p).keep (answered r) refl)
    ]

    -- `approve` changes the world only by one run of the call of the pending approval, and only if
    -- that approval has the id of the answer and belongs to the current turn, which is not
    -- cancelled; otherwise it leaves the world as it is.
    pub approve-world :
        ((approve sv id r).1.world ≡ r.world)
        ⊎ ((p : PendingApproval) × (Answers id r p
              × ((approve sv id r).1.world
                  ≡ world_after sv r.expected_visual r.prompt p.tool_call r.world)))
    approve-world = elim (take_approval-Taken id r) [
      | Taken.refused e same ↦ inl (ap (λ x. x.1.world) (approve-raised id r e same))
      | Taken.ended same ↦ inl (ap (λ x. x.1.world) (approve-ended id r same))
      | Taken.consumed p h same ↦
          let moved = ap (λ x. x.1.world) (approve-consumed id r p same) in
          elim ((approve_call-RanOnce sv (view (answered r)) p).lead (answered r) refl) [
            | inl still ↦ inl (moved ∙ ap (λ v. v.world) still)
            | inr ran ↦ inr (p, (h, moved ∙ ap (λ v. v.world) ran))
          ]
    ]

    -- `reject` never changes the world.
    pub reject-world : (reject sv id r).1.world ≡ r.world
    reject-world = elim (take_approval-Taken id r) [
      | Taken.refused e same ↦ ap (λ x. x.1.world) (reject-raised id r e same)
      | Taken.ended same ↦ ap (λ x. x.1.world) (reject-ended id r same)
      | Taken.consumed p h same ↦
          ap (λ x. x.1.world) (reject-consumed id r p same)
          ∙ (reject_call-Keeps sv {P = λ v. v.world ≡ r.world} p).keep (answered r) refl
    ]

  -- An answer that is not refused uses the approval up, also where the execution raises: both
  -- answers are refused after it, whatever their id, and change nothing. An answer that is refused
  -- changes nothing itself.
  pub answer_once :
      (id later : ℕ) (r : Runtime W C)
      → (((e : Exception) × (approve sv id r ≡ (raised e, r))) ⊎ Spent later (approve sv id r).1)
        × (((e : Exception) × (reject sv id r ≡ (raised e, r))) ⊎ Spent later (reject sv id r).1)
  answer_once id later r = (
    elim (approve-pending id r) [ inl refusal ↦ inl refusal | inr used ↦ inr (spent later _ used) ],
    elim (reject-pending id r) [ inl refusal ↦ inl refusal | inr used ↦ inr (spent later _ used) ],
  )
