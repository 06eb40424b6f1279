-- ===== src/Llm/Ledger.antt =====
-- engine/contextrail/llm/ledger.py: one row of llm_calls for each attempt, the last one first. The
-- latency and the text of an error are left out.
use contextrail.Prelude.{
  ℕ, ◌+◌, Bool, false, String, Option, none, some, List, [], ◌∷◌, str_eq, if◌then◌else◌,
}
use contextrail.Llm.Tiers.{Tier, same_tier}

pub data CallOutcome : Type 0 where
  ok failover error budget_refused : CallOutcome

pub record Call : Type 0 where
  pub run_id : Option String
  pub stage : Option String
  pub model : String
  pub tier : Tier
  pub replay : Bool
  pub input_tokens : Option ℕ
  pub output_tokens : Option ℕ
  pub cost_usd : ℕ
  pub outcome : CallOutcome

-- `coalesce(sum(cost_usd), 0)` of the rows that a test selects
unfoldable pub spend : (Call → Bool) → List Call → ℕ
spend p [] = 0
spend p (c ∷ cs) = let rest = spend p cs in if p c then c.cost_usd + rest else rest

abbrev is_run : String → Option String → Bool
is_run id none = false
is_run id (some r) = str_eq r id

abbrev pub of_run : String → Call → Bool
of_run id c = is_run id c.run_id

abbrev pub of_tier : Tier → Call → Bool
of_tier t c = same_tier c.tier t

unfoldable pub run_spend : String → List Call → ℕ
run_spend id rows = spend (of_run id) rows

unfoldable pub tier_spend : Tier → List Call → ℕ
tier_spend t rows = spend (of_tier t) rows
