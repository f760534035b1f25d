-- ===== src/Tests/Contexts.antt =====
-- A conversation that is cut to its system message and its last message.
use blender_ai_sidebar.Prelude.{◌≡◌, refl, List, [], ◌∷◌, none, some, contains, remove}
use blender_ai_sidebar.Agent.Models.{Role, ChatMessage}
use blender_ai_sidebar.Agent.Conversation.{validate_sequence}
use blender_ai_sidebar.Agent.ContextBuilder.{apply_context_size_guard}
use blender_ai_sidebar.Agent.ContextBuilder.Guarded.{guard-validate}
use blender_ai_sidebar.Tests.Compactions.{python, message, conversation}

abbrev system_message : ChatMessage
system_message = message Role.system "You edit scenes." [] none none

abbrev behind_it : List ChatMessage → List ChatMessage
behind_it [] = []
behind_it (m ∷ ms) = ms

abbrev cut : List ChatMessage
cut = system_message ∷ message Role.user "Thanks." [] none none ∷ []

cuts : apply_context_size_guard python 30 (system_message ∷ behind_it conversation) ≡ some cut
unfolding apply_context_size_guard
cuts = refl

is_valid : validate_sequence (system_message ∷ behind_it conversation) ≡ none
unfolding validate_sequence contains remove
is_valid = refl

guard-validate_example : validate_sequence cut ≡ none
guard-validate_example =
    guard-validate python 30 system_message (behind_it conversation) cut refl is_valid cuts
