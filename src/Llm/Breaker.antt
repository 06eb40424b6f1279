-- ===== src/Llm/Breaker.antt =====
-- `CircuitBreaker` of engine/contextrail/llm/router.py: when each tier was opened, if it is.
use contextrail.Prelude.{ℕ, ◌-◌, Bool, false, Option, none, some, ltb, if◌then◌else◌}
use contextrail.Llm.Tiers.{Tier, same_tier}

abbrev pub Opened : Type 0
Opened = Tier → Option ℕ

abbrev opened_recently : ℕ → ℕ → Option ℕ → Bool
opened_recently cooldown now none = false
opened_recently cooldown now (some at_time) = ltb (now - at_time) cooldown

-- The clock is monotonic, so `now` is not before the time of opening.
unfoldable pub is_open : ℕ → ℕ → Tier → Opened → Bool
is_open cooldown now tier opened = opened_recently cooldown now (opened tier)

unfoldable pub trip : ℕ → Tier → Opened → Opened
trip now tier opened = λ t. if same_tier t tier then some now else opened t

unfoldable pub reset : Tier → Opened → Opened
reset tier opened = λ t. if same_tier t tier then none else opened t
