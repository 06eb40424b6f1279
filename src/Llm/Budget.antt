-- ===== src/Llm/Budget.antt =====
-- That the calls of the router keep within the budgets (engine/contextrail/llm/router.py).
use contextrail.Prelude.{
  ℕ, ◌+◌, ◌≤◌, Bool, true, false, String, Option, none, some, get_or, List, [], ◌∷◌, ◌≡◌, refl, sym,
  ◌⊎◌, inl, inr, Bool-cases, arith, All,
}
use mathlib.Core.Path.{subst}
use contextrail.Models.Value.{str, field}
use contextrail.Canonical.{Encoder, sha256_hex}
use contextrail.Llm.Pricing.{haiku_price, cost}
use contextrail.Llm.Tiers.{Tier, TierConfig}
use contextrail.Llm.Failures.{Texts, Failure, rate_limited, failover, fatal, classify}
use contextrail.Llm.Breaker.{is_open}
use contextrail.Llm.Ledger.{Call, spend}
use contextrail.Llm.Replay.{Recording, load}
use contextrail.Llm.Router.{
  Message, Reply, message, raised, Sdk, Router, World, Arguments, Response, Result, base_request,
  is_replay, Tried, answered, tier_failed, call_failed, Refusal, over_run, over_bedrock, reserve,
  response_of, ok_row, after_failure, on_reply, live, attempt, budget_refusal, recorded, finish,
  after_attempt, after_budget, replayed, keyed, replay_call, walk,
}

-- What a row adds to the spending that a test selects.
spend-zero :
    (p : Call → Bool) (c : Call) (rows : List Call)
    → c.cost_usd ≡ 0
    → spend p (c ∷ rows) ≡ spend p rows
unfolding spend
spend-zero p c rows z = elim (Bool-cases (p c)) [ inl e ↦ rw e (omega arith) | inr e ↦ rw e refl ]

spend-miss :
    (p : Call → Bool) (c : Call) (rows : List Call)
    → p c ≡ false
    → spend p (c ∷ rows) ≡ spend p rows
unfolding spend
spend-miss p c rows e = rw e refl

spend-cons :
    (p : Call → Bool) (c : Call) (rows : List Call) → spend p (c ∷ rows) ≤ spend p rows + c.cost_usd
unfolding spend
spend-cons p c rows = elim (Bool-cases (p c)) [
  | inl e ↦ rw e (omega arith)
  | inr e ↦ rw e (omega arith)
]

-- What the tests of a budget say of a message: it has no more tokens than the printed request has
-- bytes, with 1024 more for the framing, and no more output than was asked for.
abbrev pub BillsWithin : Sdk → Arguments → Type 0
BillsWithin sdk a =
    (n : ℕ) (t : Tier) (model : String) (m : Message)
    → sdk.create n t (field "model" (str model) (base_request a)) ≡ message m
    → (m.input_tokens + get_or m.cache_creation_input_tokens 0 + get_or m.cache_read_input_tokens 0
        ≤ sdk.size_of (base_request a) + 1024)
      × (m.output_tokens ≤ a.max_tokens)

cost_mono :
    (i o w r b n : ℕ)
    → i + w + r ≤ b
    → o ≤ n
    → cost haiku_price (record {
      input_tokens = i;
      output_tokens = o;
      cache_write_tokens = w;
      cache_read_tokens = r;
    })
      ≤ cost haiku_price (record {
        input_tokens = 0;
        output_tokens = n;
        cache_write_tokens = b;
        cache_read_tokens = 0;
      })
cost_mono i o w r b n h k = omega arith

module _ (enc : Encoder) (py : Texts) (sdk : Sdk) (router : Router) (a : Arguments)
    (priced : router.price ≡ haiku_price) (bills : BillsWithin sdk a) (p : Call → Bool)
    (cap : ℕ) where
  cost-reserve :
      (n : ℕ) (t : TierConfig) (m : Message)
      → sdk.create n t.tier (field "model" (str t.model) (base_request a)) ≡ message m
      → (response_of enc py sdk router a t m).cost_usd ≤ reserve enc py sdk router a
  cost-reserve n t m e =
      let (h, k) = bills n t.tier t.model m e in
      rw priced (
        cost_mono m.input_tokens m.output_tokens (get_or m.cache_creation_input_tokens 0)
          (get_or m.cache_read_input_tokens 0) (sdk.size_of (base_request a) + 1024) a.max_tokens h
          k)

  -- Either there is room for the reserve, or the calls of the tier do not count.
  abbrev pub HasRoom : TierConfig → World → Type 0
  HasRoom t w =
      (spend p w.rows + reserve enc py sdk router a ≤ cap)
      ⊎ ((m : Message)
          → p (ok_row enc py sdk router a (response_of enc py sdk router a t m)) ≡ false)

  abbrev KeepsCap : Tried → Type 0
  KeepsCap (answered r w) = spend p w.rows ≤ cap
  KeepsCap (tier_failed w) = spend p w.rows ≤ cap
  KeepsCap (call_failed w) = spend p w.rows ≤ cap

  zero-kept :
      (c : Call) (rows : List Call) → c.cost_usd ≡ 0 → spend p rows ≤ cap → spend p (c ∷ rows) ≤ cap
  zero-kept c rows z h = rw (spend-zero p c rows z) h

  after_failure-KeepsCap :
      (t : TierConfig) (f : Failure) (retried : Bool) (wait : ℕ) (w : World) (again : World → Tried)
      → spend p w.rows ≤ cap
      → ((w' : World) → spend p w'.rows ≡ spend p w.rows → KeepsCap (again w'))
      → KeepsCap (after_failure enc py sdk router a t f retried wait w again)
  after_failure-KeepsCap t rate_limited false wait w again h k = k _ (spend-zero p _ w.rows refl)
  after_failure-KeepsCap t rate_limited true wait w again h k = zero-kept _ w.rows refl h
  after_failure-KeepsCap t failover retried wait w again h k = zero-kept _ w.rows refl h
  after_failure-KeepsCap t fatal retried wait w again h k = zero-kept _ w.rows refl h

  on_reply-KeepsCap :
      (t : TierConfig) (retried : Bool) (n : ℕ) (reply : Reply) (w : World) (again : World → Tried)
      → sdk.create n t.tier (field "model" (str t.model) (base_request a)) ≡ reply
      → HasRoom t w
      → spend p w.rows ≤ cap
      → ((w' : World) → spend p w'.rows ≡ spend p w.rows → KeepsCap (again w'))
      → KeepsCap (on_reply enc py sdk router a t retried reply w again)
  on_reply-KeepsCap t retried n (message m) w again e (inl room) h k =
      let s =
        spend-cons p (ok_row enc py sdk router a (response_of enc py sdk router a t m)) w.rows in
      let c = cost-reserve n t m e in omega (arith, s, c, room)
  on_reply-KeepsCap t retried n (message m) w again e (inr miss) h k =
      rw (spend-miss p _ w.rows (miss m)) h
  on_reply-KeepsCap t retried n (raised x) w again e room h k =
      after_failure-KeepsCap t (classify py x) retried _ w again h k

  live-KeepsCap :
      (t : TierConfig) (retried : Bool) (w : World) (again : World → Tried)
      → HasRoom t w
      → spend p w.rows ≤ cap
      → ((w' : World) → spend p w'.rows ≡ spend p w.rows → KeepsCap (again w'))
      → KeepsCap (live enc py sdk router a t retried again w)
  live-KeepsCap t retried w again room h k =
      on_reply-KeepsCap t retried w.calls
        (sdk.create w.calls t.tier (field "model" (str t.model) (base_request a))) _ again refl room
        h k

  attempt-KeepsCap :
      (t : TierConfig) (w : World)
      → HasRoom t w
      → spend p w.rows ≤ cap
      → KeepsCap (attempt enc py sdk router a t w)
  unfolding attempt
  attempt-KeepsCap t w room h =
      live-KeepsCap t false w (live enc py sdk router a t true tier_failed) room h (λ w' e.
        live-KeepsCap t true w' tier_failed (same_room room w' e) (rw e h) (λ w'' e'. rw (e', e) h))
    where
      same_room : HasRoom t w → (w' : World) → spend p w'.rows ≡ spend p w.rows → HasRoom t w'
      same_room (inl r) w' e = inl (rw e r)
      same_room (inr m) w' e = inr m

  recorded-rows :
      (r : Response) (w w' : World) → recorded enc py sdk router a r w ≡ some w' → w'.rows ≡ w.rows
  recorded-rows r w w' e = ground arith

  finish-kept :
      (r : Response) (w : World) (o : Option World)
      → ((w' : World) → o ≡ some w' → w'.rows ≡ w.rows)
      → spend p w.rows ≤ cap
      → spend p (finish enc py sdk router a r w o).1.rows ≤ cap
  finish-kept r w none e h = h
  finish-kept r w (some w') e h = subst (λ l. spend p l ≤ cap) (sym (e w' refl)) h

  -- What is required of the rest of the chain.
  abbrev pub Continues : (Bool → World → Result × World) → Type 0
  Continues next = (b : Bool) (w : World) → spend p w.rows ≤ cap → spend p (next b w).1.rows ≤ cap

  after_attempt-KeepsCap :
      (t : TierConfig) (refused : Bool) (m : Tried) (next : Bool → World → Result × World)
      → KeepsCap m
      → Continues next
      → spend p (after_attempt enc py sdk router a t refused m next).1.rows ≤ cap
  after_attempt-KeepsCap t refused (answered r w) next h k =
      finish-kept r _ (recorded enc py sdk router a r _) (recorded-rows r _) h
  after_attempt-KeepsCap t refused (tier_failed w) next h k = k refused _ h
  after_attempt-KeepsCap t refused (call_failed w) next h k = h

  replayed-KeepsCap :
      (o : Option Recording) (w : World)
      → spend p w.rows ≤ cap
      → spend p (replayed enc py sdk router a o w).1.rows ≤ cap
  replayed-KeepsCap none w h = zero-kept _ w.rows refl h
  replayed-KeepsCap (some rec) w h = zero-kept _ w.rows refl h

  keyed-KeepsCap :
      (o : Option String) (w : World)
      → spend p w.rows ≤ cap
      → spend p (keyed enc py sdk router a o w).1.rows ≤ cap
  keyed-KeepsCap none w h = h
  keyed-KeepsCap (some key) w h = replayed-KeepsCap (load enc key w.store) w h

  after_budget-KeepsCap :
      (t : TierConfig) (refused : Bool) (o : Option Refusal) (w : World)
      (next : Bool → World → Result × World)
      → (o ≡ none → HasRoom t w)
      → spend p w.rows ≤ cap
      → Continues next
      → spend p (after_budget enc py sdk router a t refused o w next).1.rows ≤ cap
  after_budget-KeepsCap t refused (some over_run) w next room h k =
      k true _ (zero-kept _ w.rows refl h)
  after_budget-KeepsCap t refused (some over_bedrock) w next room h k =
      k refused _ (zero-kept _ w.rows refl h)
  after_budget-KeepsCap t refused none w next room h k =
      after_attempt-KeepsCap t refused (attempt enc py sdk router a t w) next
        (attempt-KeepsCap t w (room refl) h) k

  -- The tiers of a chain that the budget check leaves room for.
  abbrev pub Guards : TierConfig → Type 0
  Guards t = (w : World) → budget_refusal enc py sdk router a t w ≡ none → HasRoom t w

  pub walk-KeepsCap :
      (ts : List TierConfig) → All Guards ts → Continues (walk enc py sdk router a ts)
  unfolding walk replay_call
  walk-KeepsCap [] g b w h = h
  walk-KeepsCap (t ∷ ts) g b w h = elim (Bool-cases (is_replay t.provider)) [
    | inl e ↦ rw e (keyed-KeepsCap (sha256_hex enc _) w h)
    | inr e ↦
        elim (Bool-cases
          (is_open router.config.breaker_cooldown_s (sdk.clock w.calls) t.tier w.opened)) [
            | inl o ↦ rw (e, o) (walk-KeepsCap ts g.1 b w h)
            | inr o ↦
                rw (e, o)
                  (after_budget-KeepsCap t b (budget_refusal enc py sdk router a t w) w
                    (λ r w'. walk enc py sdk router a ts r w') (g.0 w) h (walk-KeepsCap ts g.1))
          ]
  ]
