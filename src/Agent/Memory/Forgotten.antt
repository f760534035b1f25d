-- ===== src/Agent/Memory/Forgotten.antt =====
-- What _merge_previous_summary of agent/memory.py leaves out.
use blender_ai_sidebar.Prelude.{
  ◌≡◌, refl, ◌∙◌, false, String, List, [], ◌∷◌, ◌==◌, string_comparable, Bool-cases, Option-cases,
  inl, inr, arith,
}
use blender_ai_sidebar.Core.Text.{strip}
use blender_ai_sidebar.Core.TextParts.{split_lines}
use blender_ai_sidebar.Agent.Memory.Rolling.{
  RollingMemory, Section, heading, merge_item, merge_lines, merge_summary,
}

merge_item-verified_mutations :
    (section : Section) (line : String) (memory : RollingMemory)
    → (merge_item section line memory).verified_mutations ≡ memory.verified_mutations
unfolding merge_item
merge_item-verified_mutations Section.outside line memory = refl
merge_item-verified_mutations Section.verified line memory = refl
merge_item-verified_mutations Section.tasks line memory = ground arith
merge_item-verified_mutations Section.deleted line memory = ground arith
merge_item-verified_mutations Section.inspections line memory = ground arith
merge_item-verified_mutations Section.visual line memory = ground arith

merge_lines-verified_mutations :
    (section : Section) (lines : List String) (memory : RollingMemory)
    → (merge_lines section lines memory).verified_mutations ≡ memory.verified_mutations
unfolding merge_lines
merge_lines-verified_mutations section [] memory = refl
merge_lines-verified_mutations section (line ∷ lines) memory =
    elim (Bool-cases (strip line == "")) [
      | inl empty ↦ rw (merge_lines, empty) (merge_lines-verified_mutations section lines memory)
      | inr full ↦ elim (Option-cases (heading (strip line))) [
        | inl item ↦
            rw (merge_lines, full, item)
              (merge_lines-verified_mutations section lines (merge_item section (strip line) memory)
                ∙ merge_item-verified_mutations section (strip line) memory)
        | inr (next, head) ↦
            rw (merge_lines, full, head) (merge_lines-verified_mutations next lines memory)
      ]
    ]

-- The merge of an earlier summary adds no verified mutation, whatever the summary says of the
-- scene: the living targets that it lists are not taken over.
pub merge_summary-verified_mutations :
    (content : String) (memory : RollingMemory)
    → (merge_summary content memory).verified_mutations ≡ memory.verified_mutations
unfolding merge_summary
merge_summary-verified_mutations content memory =
    merge_lines-verified_mutations Section.outside (split_lines false content) memory
