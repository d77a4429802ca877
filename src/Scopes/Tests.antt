-- ===== src/Scopes/Tests.antt =====
-- The scopes of an assistant.
use sentinel_ai_v3_0_the_fin.Prelude.{String, ◌≡◌, refl, false, List, [], ◌∷◌}
use sentinel_ai_v3_0_the_fin.Scopes.{parse_role, collect, resolve_agent_scopes}

abbrev assistant : List String
assistant = "role:unknown" ∷ "role:basic_assistant" ∷ []

assistant_cannot_transfer : resolve_agent_scopes assistant "payment:transfer_funds" ≡ false
unfolding resolve_agent_scopes collect parse_role
assistant_cannot_transfer = refl
