-- ===== src/Llm/Router.antt =====
-- `Router` of engine/contextrail/llm/router.py: one call down the chain of the tiers.
use contextrail.Prelude.{
  ℕ, ◌+◌, ltb, Bool, true, false, not, ◌&&◌, ◌||◌, String, Option, none, some, get_or, ◌>>=◌, List,
  [], ◌∷◌, filter, any, str_eq, if◌then◌else◌, min,
}
use contextrail.Prelude.Int.{pos}
use contextrail.Models.Value.{Value, int, str, list, dict, Items, nil, cons, Fields, end, field}
use contextrail.Canonical.{Encoder, sha256_hex}
use contextrail.Llm.Pricing.{Price, Usage, cost, price_for}
use contextrail.Llm.Tiers.{
  Tier, t4, same_tier, Provider, bedrock, replay, ReplayMode, recording, TierConfig, RouterConfig,
  chain, check_model,
}
use contextrail.Llm.Failures.{
  Texts, Exception, status, Failure, rate_limited, failover, fatal, classify, retry_after_s,
}
use contextrail.Llm.Breaker.{Opened, is_open, trip, reset}
use contextrail.Llm.Ledger as Ledger
use contextrail.Llm.Ledger.{Call, CallOutcome, run_spend, tier_spend}
use contextrail.Llm.Replay.{Store, Recording, request_for, save, load}

-- What a client answers.
pub record Message : Type 0 where
  pub content : Items
  pub stop_reason : Option String
  pub input_tokens : ℕ
  pub output_tokens : ℕ
  pub cache_creation_input_tokens : Option ℕ
  pub cache_read_input_tokens : Option ℕ

pub data Reply : Type 0 where
  message : Message → Reply
  raised : Exception → Reply

-- `create` is what the n-th call of a client gives, `clock` the monotonic clock when n calls were
-- made, `size_of` the bytes of the printed request, `writable` whether recordings can be written.
pub record Sdk : Type 0 where
  pub create : ℕ → Tier → Fields → Reply
  pub clock : ℕ → ℕ
  pub size_of : Fields → ℕ
  pub writable : Bool

pub record Router : Type 0 where
  pub config : RouterConfig
  pub price : Price
  pub clients : List Tier

-- `Router.__init__`; `none` is UnknownPrice.
unfoldable pub new : RouterConfig → List Tier → Option Router
new config clients = do
  price ← price_for config.model
  some (record { config = config; price = price; clients = clients })

pub record World : Type 0 where
  pub rows : List Call
  pub opened : Opened
  pub store : Store
  pub calls : ℕ
  pub waits : List ℕ

pub record Arguments : Type 0 where
  pub system : String
  pub messages : Items
  pub max_tokens : ℕ
  pub model : Option String
  pub policy_text : Option String
  pub tools : Option Items
  pub tool_choice : Option Value
  pub thinking : Option Value
  pub temperature : Option Value
  pub run_id : Option String
  pub stage : Option String

pub record Response : Type 0 where
  pub tier : Tier
  pub model : String
  pub replay : Bool
  pub content : Items
  pub stop_reason : Option String
  pub usage : Usage
  pub cost_usd : ℕ

pub data CallError : Type 0 where
  model_not_allowed too_many_tokens not_canonical no_tier_available budget_exceeded replay_miss
        call_error :
      CallError

pub data Result : Type 0 where
  gave : Response → Result
  failed : CallError → Result

abbrev text_block : String → Fields → Value
text_block text rest = dict (field "type" (str "text") (field "text" (str text) rest))

abbrev cached : Fields
cached = field "cache_control" (dict (field "type" (str "ephemeral") end)) end

abbrev is_given : Option String → Bool
is_given none = false
is_given (some s) = not (str_eq s "")

-- The cache breakpoint stands on the last block.
unfoldable pub system_blocks : String → Option String → Items
system_blocks system policy_text =
    if is_given policy_text
    then cons (text_block system end) (cons (text_block (get_or policy_text "") cached) nil)
    else cons (text_block system cached) nil

abbrev optional_field : String → Option Value → Fields → Fields
optional_field key none rest = rest
optional_field key (some v) rest = field key v rest

abbrev items_value : Option Items → Option Value
items_value none = none
items_value (some xs) = some (list xs)

abbrev extra_body : Option Value → Fields
extra_body none = end
extra_body (some t) = field "extra_body" (dict (field "temperature" t end)) end

abbrev pub base_request : Arguments → Fields
base_request a = field "system" (list (system_blocks a.system a.policy_text)) (
    field "messages" (list a.messages) (
      field "max_tokens" (int (pos a.max_tokens)) (
        optional_field "tools" (items_value a.tools) (
          optional_field "tool_choice" a.tool_choice
            (optional_field "thinking" a.thinking (extra_body a.temperature))))))

abbrev pub is_replay : Provider → Bool
is_replay replay = true
is_replay _ = false

abbrev pub is_bedrock : Provider → Bool
is_bedrock bedrock = true
is_bedrock _ = false

abbrev is_recording : ReplayMode → Bool
is_recording recording = true
is_recording _ = false

-- How one tier ends: with an answer, failed so that the next one is tried, or failed for good.
pub data Tried : Type 0 where
  answered : Response → World → Tried
  tier_failed : World → Tried
  call_failed : World → Tried

pub data Refusal : Type 0 where
  over_run over_bedrock : Refusal

module _ (enc : Encoder) (py : Texts) (sdk : Sdk) (router : Router) (a : Arguments) where
  abbrev pub reserve : ℕ
  reserve = cost router.price (record {
    input_tokens = 0;
    output_tokens = a.max_tokens;
    cache_write_tokens = sdk.size_of (base_request a) + 1024;
    cache_read_tokens = 0;
  })

  abbrev pub log : Tier → String → CallOutcome → World → World
  log tier model outcome w = record w {
    rows =
        (record {
          run_id = a.run_id;
          stage = a.stage;
          model = model;
          tier = tier;
          replay = false;
          input_tokens = none;
          output_tokens = none;
          cost_usd = 0;
          outcome = outcome;
        })
        ∷ w.rows;
  }

  abbrev pub ok_row : Response → Call
  ok_row r = record {
    run_id = a.run_id;
    stage = a.stage;
    model = r.model;
    tier = r.tier;
    replay = r.replay;
    input_tokens =
        some (r.usage.input_tokens + r.usage.cache_write_tokens + r.usage.cache_read_tokens);
    output_tokens = some r.usage.output_tokens;
    cost_usd = r.cost_usd;
    outcome = Ledger.ok;
  }

  abbrev log_ok : Response → World → World
  log_ok r w = record w { rows = ok_row r ∷ w.rows }

  abbrev pub usage_of : Message → Usage
  usage_of m = record {
    input_tokens = m.input_tokens;
    output_tokens = m.output_tokens;
    cache_write_tokens = get_or m.cache_creation_input_tokens 0;
    cache_read_tokens = get_or m.cache_read_input_tokens 0;
  }

  abbrev pub response_of : TierConfig → Message → Response
  response_of t m = record {
    tier = t.tier;
    model = t.model;
    replay = false;
    content = m.content;
    stop_reason = m.stop_reason;
    usage = usage_of m;
    cost_usd = cost router.price (usage_of m);
  }

  abbrev wait_of : Exception → ℕ
  wait_of (status e) = retry_after_s py e router.config.max_retry_after_s
  wait_of _ = min 1000000 router.config.max_retry_after_s

  abbrev pub after_failure : TierConfig → Failure → Bool → ℕ → World → (World → Tried) → Tried
  after_failure t rate_limited false wait w again =
      again (record (log t.tier t.model Ledger.error w) { waits = wait ∷ w.waits })
  after_failure t rate_limited true wait w again =
      tier_failed (log t.tier t.model Ledger.failover w)
  after_failure t failover retried wait w again = tier_failed (log t.tier t.model Ledger.failover w)
  after_failure t fatal retried wait w again = call_failed (log t.tier t.model Ledger.error w)

  abbrev pub on_reply : TierConfig → Bool → Reply → World → (World → Tried) → Tried
  on_reply t retried (message m) w again = answered (response_of t m) (log_ok (response_of t m) w)
  on_reply t retried (raised e) w again =
      after_failure t (classify py e) retried (wait_of e) w again

  -- One call of the client; `again` is the retry, which only the first call may ask for.
  abbrev pub live : TierConfig → Bool → (World → Tried) → World → Tried
  live t retried again w =
      on_reply t retried (sdk.create w.calls t.tier (field "model" (str t.model) (base_request a)))
        (record w { calls = w.calls + 1 }) again

  unfoldable pub attempt : TierConfig → World → Tried
  attempt t w = live t false (live t true tier_failed) w

  abbrev pub over_run_budget : World → Option String → Bool
  over_run_budget w none = false
  over_run_budget w (some id) = ltb router.config.run_budget_usd (run_spend id w.rows + reserve)

  abbrev pub over_bedrock_budget : TierConfig → World → Bool
  over_bedrock_budget t w =
      is_bedrock t.provider
      && ltb router.config.bedrock_budget_usd (tier_spend t.tier w.rows + reserve)

  unfoldable pub budget_refusal : TierConfig → World → Option Refusal
  budget_refusal t w =
      if over_run_budget w a.run_id
      then some over_run
      else if over_bedrock_budget t w
      then some over_bedrock
      else none

  abbrev pub recorded : Response → World → Option World
  recorded r w =
      if is_recording router.config.replay_mode
      then (save enc sdk.writable
            (request_for router.config.model a.system a.policy_text a.messages (get_or a.tools nil))
            (record {
              content = r.content;
              stop_reason = r.stop_reason;
              input_tokens = r.usage.input_tokens;
              output_tokens = r.usage.output_tokens;
            })
            w.store
          >>= λ store. some (record w { store = store }))
      else some w

  abbrev pub finish : Response → World → Option World → Result × World
  finish r w none = (failed not_canonical, w)
  finish r w (some w') = (gave r, w')

  -- What follows in the loop: `next` is the rest of the chain, told whether the run was refused.
  abbrev pub after_attempt :
      TierConfig → Bool → Tried → (Bool → World → Result × World) → Result × World
  after_attempt t refused (answered r w) next =
      let w' : World = record w { opened = reset t.tier w.opened } in finish r w' (recorded r w')
  after_attempt t refused (tier_failed w) next =
      next refused (record w { opened = trip (sdk.clock w.calls) t.tier w.opened })
  after_attempt t refused (call_failed w) next = (failed call_error, w)

  abbrev pub after_budget :
      TierConfig → Bool → Option Refusal → World → (Bool → World → Result × World) → Result × World
  after_budget t refused (some over_run) w next =
      next true (log t.tier t.model Ledger.budget_refused w)
  after_budget t refused (some over_bedrock) w next =
      next refused (log t.tier t.model Ledger.budget_refused w)
  after_budget t refused none w next = after_attempt t refused (attempt t w) next

  abbrev pub replayed : Option Recording → World → Result × World
  replayed none w = (
    failed replay_miss,
    record w {
      rows =
          (record {
            run_id = a.run_id;
            stage = a.stage;
            model = router.config.model;
            tier = t4;
            replay = true;
            input_tokens = none;
            output_tokens = none;
            cost_usd = 0;
            outcome = Ledger.error;
          })
          ∷ w.rows;
    },
  )
  replayed (some rec) w =
      let r : Response = record {
        tier = t4;
        model = router.config.model;
        replay = true;
        content = rec.content;
        stop_reason = rec.stop_reason;
        usage = record {
          input_tokens = rec.input_tokens;
          output_tokens = rec.output_tokens;
          cache_write_tokens = 0;
          cache_read_tokens = 0;
        };
        cost_usd = 0;
      } in
      (gave r, log_ok r w)

  abbrev pub keyed : Option String → World → Result × World
  keyed none w = (failed not_canonical, w)
  keyed (some key) w = replayed (load enc key w.store) w

  unfoldable pub replay_call : World → Result × World
  replay_call w =
      keyed
        (sha256_hex enc
          (request_for router.config.model a.system a.policy_text a.messages (get_or a.tools nil)))
        w

  abbrev pub on_tier : TierConfig → Bool → World → (Bool → World → Result × World) → Result × World
  on_tier t refused w next =
      if is_replay t.provider
      then replay_call w
      else if is_open router.config.breaker_cooldown_s (sdk.clock w.calls) t.tier w.opened
      then next refused w
      else after_budget t refused (budget_refusal t w) w next

  -- The loop over the chain.
  unfoldable pub walk : List TierConfig → Bool → World → Result × World
  walk [] refused w = (failed (if refused then budget_exceeded else no_tier_available), w)
  walk (t ∷ ts) refused w = on_tier t refused w (λ r w'. walk ts r w')

  abbrev pub servable : List TierConfig
  servable =
      filter (λ (t : TierConfig). is_replay t.provider || any (same_tier t.tier) router.clients)
        (chain router.config)

  abbrev pub names_other_model : Option String → Bool
  names_other_model none = false
  names_other_model (some m) = not (check_model router.config m)

  unfoldable pub call : World → Result × World
  call w =
      if names_other_model a.model
      then (failed model_not_allowed, w)
      else if ltb router.config.max_tokens_cap a.max_tokens
      then (failed too_many_tokens, w)
      else walk servable false w
