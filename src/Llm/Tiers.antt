-- ===== src/Llm/Tiers.antt =====
-- The tiers of engine/contextrail/llm/router.py and how the settings enable them.
use contextrail.Prelude.{
  ℕ, Bool, true, false, not, ◌&&◌, String, Option, none, some, List, [], ◌∷◌, map, filter, contains,
  min, ◌==◌, str_eq, if◌then◌else◌,
}

pub data Tier : Type 0 where
  t1 t2 t3 t4 : Tier

abbrev pub tier_name : Tier → String
tier_name t1 = "T1"
tier_name t2 = "T2"
tier_name t3 = "T3"
tier_name t4 = "T4"

abbrev tier_number : Tier → ℕ
tier_number t1 = 1
tier_number t2 = 2
tier_number t3 = 3
tier_number t4 = 4

abbrev pub same_tier : Tier → Tier → Bool
same_tier a b = tier_number a == tier_number b

pub data Provider : Type 0 where
  anthropic bedrock replay : Provider

pub data ReplayMode : Type 0 where
  off recording replaying : ReplayMode

abbrev pub haiku_direct_id : String
haiku_direct_id = "claude-haiku-4-5-20251001"

abbrev pub haiku_bedrock_id : String
haiku_bedrock_id = "global.anthropic.claude-haiku-4-5-20251001-v1:0"

pub record TierConfig : Type 0 where
  pub tier : Tier
  pub provider : Provider
  pub enabled : Bool
  pub model : String

-- The settings that the router reads.
pub record Settings : Type 0 where
  pub haiku_model : String
  pub bedrock_haiku_id : String
  pub key_a : String
  pub key_b : String
  pub bedrock_enabled : Bool
  pub llm_replay_mode : ReplayMode
  pub run_budget_usd : ℕ
  pub bedrock_budget_usd : ℕ

-- Budgets are in microdollars and waits in microseconds.
pub record RouterConfig : Type 0 where
  pub tiers : List TierConfig
  pub model : String
  pub run_budget_usd : ℕ
  pub bedrock_budget_usd : ℕ
  pub replay_mode : ReplayMode
  pub breaker_cooldown_s : ℕ
  pub max_retry_after_s : ℕ
  pub max_tokens_cap : ℕ

abbrev is_replaying : ReplayMode → Bool
is_replaying replaying = true
is_replaying _ = false

abbrev pub tiers_of : Settings → List TierConfig
tiers_of s =
    (record {
      tier = t1;
      provider = anthropic;
      enabled = not (str_eq s.key_a "");
      model = haiku_direct_id;
    })
    ∷ (record {
      tier = t2;
      provider = anthropic;
      enabled = not (str_eq s.key_b "");
      model = haiku_direct_id;
    })
    ∷ (record {
      tier = t3;
      provider = bedrock;
      enabled = s.bedrock_enabled;
      model = haiku_bedrock_id;
    })
    ∷ (record {
      tier = t4;
      provider = replay;
      enabled = is_replaying s.llm_replay_mode;
      model = haiku_direct_id;
    })
    ∷ []

-- `none` is ModelNotAllowed.
unfoldable pub from_settings : Settings → Option RouterConfig
from_settings s =
    if str_eq s.haiku_model haiku_direct_id && str_eq s.bedrock_haiku_id haiku_bedrock_id
    then some (record {
      tiers = tiers_of s;
      model = haiku_direct_id;
      run_budget_usd = s.run_budget_usd;
      bedrock_budget_usd = min s.bedrock_budget_usd 20000000;
      replay_mode = s.llm_replay_mode;
      breaker_cooldown_s = 180;
      max_retry_after_s = 10000000;
      max_tokens_cap = 800;
    })
    else none

-- The enabled tiers, in their order.
unfoldable pub chain : RouterConfig → List TierConfig
chain c = filter (λ (t : TierConfig). t.enabled) c.tiers

unfoldable pub check_model : RouterConfig → String → Bool
check_model c model = contains model (map (λ (t : TierConfig). t.model) c.tiers)
