-- ===== src/Agent/Endpoint.antt =====
-- What the agent endpoint authorizes.
use sentinel_ai_v3_0_the_fin.Prelude.{
  String, ◌≡◌, inl, inr, refl, sym, ap, true, false, Option, none, some, List, [], ◌∷◌, map, All,
  ◌++◌, Bool-cases, ◌==◌, eq_iff, arith, ◌↔◌, subst,
}
use sentinel_ai_v3_0_the_fin.Agent.{
  Cache, Imports, ToolCall, AgentRequest, AgentIdentity, AuthStatus, AgentResponse, invalid_token,
  shield_failure, forbidden, success, get_current_agent, is_denied, first_denied, answer,
  after_scrub, with_agent, run_task_async, handle_agent_request,
}

-- The only agent that there is, and its token.
abbrev pub bot : AgentIdentity
bot = record { id = "bot_01"; permissions = "read_balance" ∷ "transfer_funds" ∷ [] }

abbrev pub IsBotToken : String → Type 0
IsBotToken token = token ≡ "valid_secret_token"

abbrev pub Identified : String → Option AgentIdentity → Type 0
Identified token none = IsBotToken token → ⊥
Identified token (some agent) = IsBotToken token × (agent ≡ bot)

get_current_agent-Identified : (token : String) → Identified token (get_current_agent token)
unfolding get_current_agent
get_current_agent-Identified token = elim (Bool-cases (token == "valid_secret_token")) [
  | inl e ↦ rw e ((eq_iff token "valid_secret_token").0 e, refl)
  | inr n ↦ rw n (λ q. cc ((eq_iff token "valid_secret_token").1 q, n))
]

-- The firewall denies a tool call.
abbrev pub IsDenied : AuthStatus → Type 0
IsDenied s = s.decision ≡ some "DENIED"

denied_iff : (s : AuthStatus) → (is_denied s ≡ true) ↔ IsDenied s
denied_iff s = go s.decision
  where
    go :
        (d : Option String)
        → (elim d [ none ↦ false | some x ↦ x == "DENIED" ] ≡ true) ↔ (d ≡ some "DENIED")
    go none = ((λ e. cc e), (λ e. cc e))
    go (some x) = ground (arith, eq_iff x "DENIED")

denied : (s : AuthStatus) → is_denied s ≡ true → IsDenied s
denied s d = (denied_iff s).0 d

spared : (s : AuthStatus) → is_denied s ≡ false → IsDenied s → ⊥
spared s n d = cc (n, (denied_iff s).1 d)

-- The first tool call that is denied, after calls that are not.
pub record IsFirstDenied (validate : ToolCall → AuthStatus) (tools : List ToolCall)
    (tool : ToolCall) : Type 0 where
  pub before : List ToolCall
  pub after : List ToolCall
  pub position : tools ≡ before ++ tool ∷ after
  pub passed : All (λ t. IsDenied (validate t) → ⊥) before
  pub stopped : IsDenied (validate tool)

-- What the loop finds.
abbrev pub Scanned :
    (ToolCall → AuthStatus) → List ToolCall → Option (ToolCall × AuthStatus) → Type 0
Scanned validate tools none = All (λ t. IsDenied (validate t) → ⊥) tools
Scanned validate tools (some (tool, status)) =
    (status ≡ validate tool) × IsFirstDenied validate tools tool

scan_later :
    (validate : ToolCall → AuthStatus) (t : ToolCall) (tools : List ToolCall)
    (found : Option (ToolCall × AuthStatus))
    → (IsDenied (validate t) → ⊥)
    → Scanned validate tools found
    → Scanned validate (t ∷ tools) found
scan_later validate t tools none ok h = (ok, h)
scan_later validate t tools (some (tool, status)) ok (e, h) = (
  e,
  record {
    before = t ∷ h.before;
    after = h.after;
    position = ap (λ ts. t ∷ ts) h.position;
    passed = (ok, h.passed);
    stopped = h.stopped;
  },
)

first_denied-Scanned :
    (validate : ToolCall → AuthStatus) (tools : List ToolCall)
    → Scanned validate tools (first_denied validate tools)
unfolding first_denied
first_denied-Scanned validate [] = tt
first_denied-Scanned validate (t ∷ tools) = elim (Bool-cases (is_denied (validate t))) [
  | inl d ↦ rw d (
    refl,
    record {
      before = [];
      after = tools;
      position = refl;
      passed = tt;
      stopped = denied (validate t) d;
    },
  )
  | inr ok ↦ rw ok (
      scan_later validate t tools (first_denied validate tools) (spared (validate t) ok)
        (first_denied-Scanned validate tools))
]

module _ (imports : Imports) (firewall : AgentIdentity → ToolCall → AuthStatus) where
  -- The masked prompt, or `none` if the masking raises.
  abbrev pub masked : AgentRequest → Cache → Option String
  masked payload cache =
      (run_task_async imports "security.pii_scrub" "scrub_pii" payload.prompt cache).1

  -- What an answer of the endpoint says.
  abbrev pub Means : String → AgentRequest → Cache → AgentResponse → Type 0
  Means token payload cache invalid_token = IsBotToken token → ⊥
  Means token payload cache shield_failure = IsBotToken token × (masked payload cache ≡ none)
  Means token payload cache (forbidden reason name) =
      IsBotToken token
      × ((tool : ToolCall) × (tool.name ≡ name)
          × ((firewall bot tool).reason ≡ reason)
          × IsFirstDenied (firewall bot) payload.tool_calls tool)
  Means token payload cache (success prompt names) =
      IsBotToken token
      × (masked payload cache ≡ some prompt)
      × All (λ t. IsDenied (firewall bot t) → ⊥) payload.tool_calls
      × (names ≡ map (λ t. t.name) payload.tool_calls)

  answer-Means :
      (token : String) (payload : AgentRequest) (cache : Cache) (prompt : String)
      (found : Option (ToolCall × AuthStatus))
      → IsBotToken token
      → masked payload cache ≡ some prompt
      → Scanned (firewall bot) payload.tool_calls found
      → Means token payload cache (answer payload prompt found)
  answer-Means token payload cache prompt none a m h = (a, m, h, refl)
  answer-Means token payload cache prompt (some (tool, status)) a m h =
      (a, (tool, refl, ap (λ (s : AuthStatus). s.reason) (sym h.0), h.1))

  scrubbed-Means :
      (token : String) (payload : AgentRequest) (cache : Cache) (r : Cache × Option String)
      → IsBotToken token
      → masked payload cache ≡ r.1
      → Means token payload cache (after_scrub firewall payload bot r).1
  scrubbed-Means token payload cache (c, none) a m = (a, m)
  scrubbed-Means token payload cache (c, some prompt) a m =
      answer-Means token payload cache prompt (first_denied (firewall bot) payload.tool_calls) a m
        (first_denied-Scanned (firewall bot) payload.tool_calls)

  agent-Means :
      (token : String) (payload : AgentRequest) (cache : Cache) (agent : Option AgentIdentity)
      → Identified token agent
      → Means token payload cache (with_agent imports firewall payload agent cache).1
  agent-Means token payload cache none a = a
  agent-Means token payload cache (some agent) (a, e) =
      subst (λ x. Means token payload cache (with_agent imports firewall payload (some x) cache).1)
        (sym e)
        (scrubbed-Means token payload cache
          (run_task_async imports "security.pii_scrub" "scrub_pii" payload.prompt cache) a refl)

  -- Every answer of the agent endpoint means what it says: 401 that the token is not the known one,
  -- 500 that it is and the masking raised, 403 the name and the reason of the first tool call that
  -- the firewall denies to the one known agent, after calls that it does not, and success the masked
  -- prompt and the names of all tool calls in their order, none of which is denied. Both ask for the
  -- known token.
  pub handle_agent_request-Means :
      (token : String) (payload : AgentRequest) (cache : Cache)
      → Means token payload cache (handle_agent_request imports firewall token payload cache).1
  unfolding handle_agent_request
  handle_agent_request-Means token payload cache =
      agent-Means token payload cache (get_current_agent token) (get_current_agent-Identified token)
