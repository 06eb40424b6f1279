-- ===== src/Llm/Pricing.antt =====
-- engine/contextrail/llm/pricing.py. Money is in microdollars, prices in hundredths of a microdollar
-- for a token, which is dollars for a million tokens times 100.
use contextrail.Prelude.{ℕ, ◌+◌, ◌*◌, ◌/◌, String, Option, none, some, ◌>>=◌, str_eq, if◌then◌else◌}

pub record Price : Type 0 where
  pub input : ℕ
  pub output : ℕ
  pub cache_write : ℕ
  pub cache_read : ℕ

pub record Usage : Type 0 where
  pub input_tokens : ℕ
  pub output_tokens : ℕ
  pub cache_write_tokens : ℕ
  pub cache_read_tokens : ℕ

abbrev pub haiku_price : Price
haiku_price = record { input = 100; output = 500; cache_write = 125; cache_read = 10 }

-- `none` is UnknownPrice.
unfoldable pub price_for : String → Option Price
price_for model = if str_eq model "claude-haiku-4-5-20251001" then some haiku_price else none

-- The four parts, rounded up to the microdollar.
abbrev pub cost : Price → Usage → ℕ
cost p u =
    (u.input_tokens * p.input
      + u.output_tokens * p.output
      + u.cache_write_tokens * p.cache_write
      + u.cache_read_tokens * p.cache_read
      + 99)
    / 100

unfoldable pub cost_usd : String → Usage → Option ℕ
cost_usd model u = do p ← price_for model; some (cost p u)
