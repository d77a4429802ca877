-- ===== src/Agent/Privacy.antt =====
-- main.py with security/pii_scrub.py: what an answer of the agent endpoint discloses of the prompt.
use sentinel_ai_v3_0_the_fin.Prelude.{String, ◌≡◌, sym, subst, ◌∙◌, some, List}
use sentinel_ai_v3_0_the_fin.Agent.{
  Func, Cache, Imports, ToolCall, AgentRequest, AgentIdentity, AuthStatus, success,
  handle_agent_request,
}
use sentinel_ai_v3_0_the_fin.Agent.Cache.{KeysAgree, IsCoherent, run_task_async-IsCoherent, direct}
use sentinel_ai_v3_0_the_fin.Agent.Endpoint.{Means, handle_agent_request-Means}
use sentinel_ai_v3_0_the_fin.Scrub.{Unicode, codes, scrub_pii}
use sentinel_ai_v3_0_the_fin.Scrub.Masking.{IsMasked, scrub_pii-IsMasked}

module _ (u : Unicode) (imports : Imports) (firewall : AgentIdentity → ToolCall → AuthStatus) where
  -- The function that is imported masks as `scrub_pii` does, where it does not raise.
  abbrev pub IsScrubber : Func → Type 0
  IsScrubber func =
      (text result : String) → func text ≡ some result → codes result ≡ scrub_pii u (codes text)

  prompt-IsMasked :
      (func : Func) (text prompt : String)
      → IsScrubber func
      → func text ≡ some prompt
      → IsMasked u (codes prompt)
  prompt-IsMasked func text prompt f e =
      subst (IsMasked u) (sym (f text prompt e)) (scrub_pii-IsMasked u (codes text))

  -- A prompt that the endpoint discloses is masked: if the endpoint answers with a success, then the
  -- prompt in its answer holds no IBAN and no e-mail address, as the patterns describe them, whatever
  -- prompt and tool calls were posted and whatever the firewall says. The cache is assumed to be
  -- coherent, names with one key to be imported alike, and the import of `scrub_pii` to give the
  -- function of security/pii_scrub.py, which may raise.
  pub disclosed_prompt-IsMasked :
      (func : Func) (token : String) (payload : AgentRequest) (cache : Cache) (prompt : String)
      (names : List String)
      → imports "security.pii_scrub" "scrub_pii" ≡ some func
      → IsScrubber func
      → KeysAgree imports
      → IsCoherent imports cache
      → (handle_agent_request imports firewall token payload cache).1 ≡ success prompt names
      → IsMasked u (codes prompt)
  disclosed_prompt-IsMasked func token payload cache prompt names imported f k h e =
      let (known, masked, allowed, listed) =
        subst (Means imports firewall token payload cache) e
          (handle_agent_request-Means imports firewall token payload cache) in
      let (same, later) =
        run_task_async-IsCoherent imports "security.pii_scrub" "scrub_pii" payload.prompt cache k
          h in
      prompt-IsMasked func payload.prompt prompt f (
        subst (λ found. direct imports payload.prompt found ≡ some prompt) imported
          (sym same ∙ masked))
