-- ===== src/Agent/Tests.antt =====
-- A request of an agent with two tool calls.
use sentinel_ai_v3_0_the_fin.Prelude.{
  Bool-cases, inl, inr, arith, eq_iff, sym, ◌∙◌, ◌||◌, nat_eq, String, ◌≡◌, ap, refl, none, some,
  [], ◌∷◌, ◌==◌, if◌then◌else◌,
}
use sentinel_ai_v3_0_the_fin.Agent.{
  Func, cache_key, Imports, ToolCall, AgentRequest, AgentIdentity, AuthStatus, forbidden, success,
  get_current_agent, find_cached, first_denied, run_task_async, handle_agent_request,
}
use sentinel_ai_v3_0_the_fin.Agent.Endpoint.{Means, handle_agent_request-Means}
use sentinel_ai_v3_0_the_fin.Agent.Privacy.{IsScrubber, disclosed_prompt-IsMasked}
use sentinel_ai_v3_0_the_fin.Scrub.{
  Unicode, in_range, is_upper, is_lower, codes, times, up_to, match_regex, sub_from, sub, scrub_pii,
}
use sentinel_ai_v3_0_the_fin.Scrub.Masking.{IsMasked}

abbrev mask : Func
mask text = some "my card is [CARD_REDACTED]"

-- Whether an import succeeds depends on the joined name only.
abbrev imports : Imports
imports m n = if cache_key m n == "security.pii_scrub.scrub_pii" then some mask else none

abbrev firewall : AgentIdentity → ToolCall → AuthStatus
firewall agent tool =
    if tool.name == "drop_tables"
    then record { decision = some "DENIED"; reason = some "not permitted" }
    else record { decision = some "ALLOWED"; reason = none }

abbrev call : String → ToolCall
call name = record { name = name; arguments = "{}" }

abbrev request : AgentRequest
request = record {
  prompt = "my card is 1234-5678-9012-3456";
  tool_calls = call "read_balance" ∷ call "drop_tables" ∷ [];
}

second_call_denied :
    (handle_agent_request imports firewall "valid_secret_token" request []).1
    ≡ forbidden (some "not permitted") "drop_tables"
unfolding handle_agent_request get_current_agent run_task_async find_cached first_denied
second_call_denied = refl

handle_agent_request-Means_example :
    Means imports firewall "valid_secret_token" request []
      (handle_agent_request imports firewall "valid_secret_token" request []).1
handle_agent_request-Means_example =
    handle_agent_request-Means imports firewall "valid_secret_token" request []

-- A masking that raises on every other prompt.
abbrev shield : Func
shield text = if text == "mail me" then some "mail me" else none

abbrev shielded : Imports
shielded m n = if cache_key m n == "security.pii_scrub.scrub_pii" then some shield else none

abbrev question : AgentRequest
question = record { prompt = "mail me"; tool_calls = call "read_balance" ∷ [] }

abbrev ascii : Unicode
ascii = record {
  is_digit = λ c. in_range b'0' b'9' c;
  is_word = λ c. is_upper c || is_lower c || in_range b'0' b'9' c || nat_eq c b'_';
  digit_ascii = λ c h. refl;
  word_ascii = λ c h. refl;
}

kept_as_it_is : scrub_pii ascii (codes "mail me") ≡ codes "mail me"
unfolding scrub_pii sub sub_from match_regex times up_to
kept_as_it_is = refl

shield-IsScrubber : IsScrubber ascii shielded firewall shield
shield-IsScrubber text result e = elim (Bool-cases (text == "mail me")) [
  | inr n ↦ absurd (ground (arith, n, e))
  | inl y ↦
      let same = (eq_iff text "mail me").0 y in
      let given : result ≡ "mail me" = ground (arith, y, e) in
      ap codes given ∙ sym kept_as_it_is ∙ ap (λ t. scrub_pii ascii (codes t)) (sym same)
]

answered_with_success :
    (handle_agent_request shielded firewall "valid_secret_token" question []).1
    ≡ success "mail me" ("read_balance" ∷ [])
unfolding handle_agent_request get_current_agent run_task_async find_cached first_denied
answered_with_success = refl

disclosed_prompt-IsMasked_example : IsMasked ascii (codes "mail me")
disclosed_prompt-IsMasked_example =
    disclosed_prompt-IsMasked ascii shielded firewall shield "valid_secret_token" question []
      "mail me" ("read_balance" ∷ []) refl shield-IsScrubber
      (λ m n m' n' e.
        ap (λ (key : String). if key == "security.pii_scrub.scrub_pii" then some shield else none)
          e)
      tt answered_with_success
