-- ===== src/Tests/Calls.antt =====
-- A call of the language model within its budgets.
use contextrail.Prelude.{◌≤◌, min, none, some, [], ◌∷◌, ◌≡◌, refl, true, arith}
use contextrail.Models.Value.{nil}
use contextrail.Llm.Pricing.{haiku_price}
use contextrail.Llm.Tiers.{
  t1, t2, t3, off, Settings, RouterConfig, haiku_direct_id, haiku_bedrock_id, from_settings,
  tiers_of,
}
use contextrail.Llm.Failures.{Texts}
use contextrail.Llm.Ledger.{run_spend, tier_spend}
use contextrail.Llm.Router.{
  Message, Reply, message, Sdk, Router, new, World, Arguments, base_request, call,
}
use contextrail.Llm.Budget.{BillsWithin}
use contextrail.Llm.Within.{call-IsWithin}
use contextrail.Tests.Samples.{sample_encoder}

abbrev short_answer : Message
short_answer = record {
  content = nil;
  stop_reason = some "end_turn";
  input_tokens = 10;
  output_tokens = 5;
  cache_creation_input_tokens = none;
  cache_read_input_tokens = none;
}

abbrev answering : Sdk
answering = record {
  create = λ n t request. message short_answer;
  clock = λ n. n;
  size_of = λ request. 200;
  writable = true;
}

abbrev plain_texts : Texts
plain_texts = record { str_of = λ v. ""; float_of = λ s. none }

abbrev settings : Settings
settings = record {
  haiku_model = haiku_direct_id;
  bedrock_haiku_id = haiku_bedrock_id;
  key_a = "a";
  key_b = "";
  bedrock_enabled = true;
  llm_replay_mode = off;
  run_budget_usd = 50000;
  bedrock_budget_usd = 30000000;
}

abbrev config : RouterConfig
config = record {
  tiers = tiers_of settings;
  model = haiku_direct_id;
  run_budget_usd = 50000;
  bedrock_budget_usd = 20000000;
  replay_mode = off;
  breaker_cooldown_s = 180;
  max_retry_after_s = 10000000;
  max_tokens_cap = 800;
}

abbrev sample_router : Router
sample_router = record { config = config; price = haiku_price; clients = t1 ∷ t3 ∷ [] }

abbrev question : Arguments
question = record {
  system = "You extract names.";
  messages = nil;
  max_tokens = 300;
  model = none;
  policy_text = none;
  tools = none;
  tool_choice = none;
  thinking = none;
  temperature = none;
  run_id = some "r1";
  stage = some "discover";
}

abbrev idle : World
idle = record { rows = []; opened = λ t. none; store = []; calls = 0; waits = [] }

configured : from_settings settings ≡ some config
unfolding from_settings
configured = refl

built : new config (t1 ∷ t3 ∷ []) ≡ some sample_router
unfolding new contextrail.Llm.Pricing.price_for
built = refl

answer_of : (m m' : Message) → message m ≡ message m' → m ≡ m'
answer_of m m' e = cc

bills : BillsWithin answering question
bills n t model m e = rw⁻¹ (answer_of short_answer m e) (omega arith, omega arith)

call-IsWithin_example :
    (run_spend "r1" (call sample_encoder plain_texts answering sample_router question idle).1.rows
      ≤ 50000)
    × (tier_spend t3 (call sample_encoder plain_texts answering sample_router question idle).1.rows
        ≤ min 30000000 20000000)
unfolding contextrail.Llm.Ledger.spend
call-IsWithin_example =
    call-IsWithin sample_encoder plain_texts answering settings config (t1 ∷ t3 ∷ []) sample_router
      question "r1" idle configured built bills refl nothing_spent nothing_billed
  where
    nothing_spent : run_spend "r1" [] ≤ 50000
    nothing_spent = unfold run_spend in omega arith

    nothing_billed : tier_spend t3 [] ≤ min 30000000 20000000
    nothing_billed = unfold tier_spend in omega arith

spent :
    run_spend "r1" (call sample_encoder plain_texts answering sample_router question idle).1.rows
    ≡ 35
unfolding run_spend call contextrail.Llm.Ledger.spend contextrail.Llm.Router.walk
    contextrail.Llm.Tiers.chain contextrail.Llm.Breaker.is_open
    contextrail.Llm.Router.budget_refusal contextrail.Llm.Router.attempt
spent = refl
