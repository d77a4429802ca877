-- ===== src/Agent.antt =====
-- main.py: `POST /v1/agent/execute`; core/sub_manager.py: the cache of imported functions.
-- `ActionFirewall`, which main.py imports and the repository does not define, is a parameter.
pub mod Cache
pub mod Endpoint
pub mod Privacy
mod Tests
use Prim.Native.String.{◌++◌ as ◌<>◌}
use sentinel_ai_v3_0_the_fin.Prelude.{
  ℕ, String, Bool, true, false, not, Option, none, some, List, [], ◌∷◌, map, ◌==◌, if◌then◌else◌,
}

-- A function that may raise.
abbrev pub Func : Type 0
Func = String → Option String

-- `cls._cache`
abbrev pub Cache : Type 0
Cache = List (String × Func)

abbrev pub cache_key : String → String → String
cache_key module_path function_name = module_path <> ("." <> function_name)

unfoldable pub find_cached : String → Cache → Option Func
find_cached key [] = none
find_cached key ((k, f) ∷ cache) = if k == key then some f else find_cached key cache

-- `importlib.import_module` and `getattr`: `none` is their exception.
abbrev pub Imports : Type 0
Imports = String → String → Option Func

abbrev pub import_and_run : String → String → Option Func → Cache → Cache × Option String
import_and_run key text none cache = (cache, none)
import_and_run key text (some func) cache = ((key, func) ∷ cache, func text)

abbrev pub run_cached :
    Imports → String → String → String → Option Func → Cache → Cache × Option String
run_cached imports module_path function_name text none cache =
    import_and_run (cache_key module_path function_name) text (imports module_path function_name)
      cache
run_cached imports module_path function_name text (some func) cache = (cache, func text)

unfoldable pub run_task_async : Imports → String → String → String → Cache → Cache × Option String
unfolding find_cached
run_task_async imports module_path function_name text cache =
    run_cached imports module_path function_name text
      (find_cached (cache_key module_path function_name) cache) cache

pub record ToolCall : Type 0 where
  pub name : String
  pub arguments : String

pub record AgentRequest : Type 0 where
  pub prompt : String
  pub tool_calls : List ToolCall

pub record AgentIdentity : Type 0 where
  pub id : String
  pub permissions : List String

-- The entries "decision" and "reason" of what the firewall answers.
pub record AuthStatus : Type 0 where
  pub decision : Option String
  pub reason : Option String

-- The endpoint's answers: 401, 500, 403 with the reason and the tool's name, and success with the
-- masked prompt and the names of the tool calls.
pub data AgentResponse : Type 0 where
  invalid_token shield_failure : AgentResponse
  forbidden : Option String → String → AgentResponse
  success : String → List String → AgentResponse

-- `get_current_agent`: `none` is the HTTPException 401.
unfoldable pub get_current_agent : String → Option AgentIdentity
get_current_agent x_agent_token =
    if not (x_agent_token == "valid_secret_token")
    then none
    else some (record { id = "bot_01"; permissions = "read_balance" ∷ "transfer_funds" ∷ [] })

abbrev pub is_denied : AuthStatus → Bool
is_denied s = elim s.decision [ none ↦ false | some d ↦ d == "DENIED" ]

-- The loop over the tool calls: the first that is denied ends it.
unfoldable pub first_denied :
    (ToolCall → AuthStatus) → List ToolCall → Option (ToolCall × AuthStatus)
first_denied validate_action [] = none
first_denied validate_action (tool ∷ tools) =
    let rest = first_denied validate_action tools in
    if is_denied (validate_action tool) then some (tool, validate_action tool) else rest

abbrev pub tool_name : ToolCall → String
tool_name t = t.name

abbrev pub answer : AgentRequest → String → Option (ToolCall × AuthStatus) → AgentResponse
answer payload clean_prompt none = success clean_prompt (map tool_name payload.tool_calls)
answer payload clean_prompt (some (tool, auth_status)) = forbidden auth_status.reason tool.name

-- From the result of the masking on.
abbrev pub after_scrub :
    (AgentIdentity → ToolCall → AuthStatus)
    → AgentRequest
    → AgentIdentity
    → Cache × Option String
    → Cache × AgentResponse
after_scrub firewall payload agent (cache, none) = (cache, shield_failure)
after_scrub firewall payload agent (cache, some clean_prompt) =
    (cache, answer payload clean_prompt (first_denied (firewall agent) payload.tool_calls))

abbrev pub with_agent :
    Imports
    → (AgentIdentity → ToolCall → AuthStatus)
    → AgentRequest
    → Option AgentIdentity
    → Cache
    → Cache × AgentResponse
with_agent imports firewall payload none cache = (cache, invalid_token)
with_agent imports firewall payload (some agent) cache =
    after_scrub firewall payload agent
      (run_task_async imports "security.pii_scrub" "scrub_pii" payload.prompt cache)

unfoldable pub handle_agent_request :
    Imports
    → (AgentIdentity → ToolCall → AuthStatus)
    → String
    → AgentRequest
    → Cache
    → Cache × AgentResponse
unfolding get_current_agent run_task_async first_denied
handle_agent_request imports firewall x_agent_token payload cache =
    with_agent imports firewall payload (get_current_agent x_agent_token) cache
