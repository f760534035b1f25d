-- ===== src/Agent/ContextBuilder/Bounded.antt =====
-- How large the context of agent/context_builder.py is after the size guard.
use blender_ai_sidebar.Prelude.{ℕ, ◌≤◌, ◌≡◌, false, List, ◌∷◌, some, ◌⊎◌}
use blender_ai_sidebar.Agent.Models.{ChatMessage}
use blender_ai_sidebar.Agent.Memory.Builtins.{Builtins}
use blender_ai_sidebar.Agent.Memory.Compaction.{calculate_messages_chars}
use blender_ai_sidebar.Agent.ContextBuilder.{fits, shorten_all}

module _ (py : Builtins) (limit : ℕ) (sys : ChatMessage) where
  -- Within the limit, or the shortened latest messages alone, which did not fit in full.
  abbrev Bounded : List ChatMessage → List ChatMessage → Type 0
  Bounded latest new =
      (calculate_messages_chars py new ≤ limit)
      ⊎ ((ms : List ChatMessage) × ((shorten_all py limit latest ≡ some ms)
            × ((new ≡ sys ∷ ms) × (fits py limit (sys ∷ latest) ≡ false))))
