-- ===== src/Llm/Within.antt =====
-- The budgets of a run and of Bedrock bound the spending (engine/contextrail/llm/router.py).
use contextrail.Prelude.{
  ℕ, ◌≤◌, ltb, min, Bool, false, String, none, some, List, [], ◌∷◌, ◌≡◌, refl, sym, inl, inr,
  Bool-cases, arith, if◌then◌else◌, filter, All,
}
use mathlib.Core.Path.{subst}
use contextrail.Canonical.{Encoder}
use contextrail.Llm.Pricing.{haiku_price, price_for}
use contextrail.Llm.Tiers.{
  Tier, t3, TierConfig, Settings, RouterConfig, tiers_of, from_settings, chain,
}
use contextrail.Llm.Failures.{Texts}
use contextrail.Llm.Ledger.{Call, spend, of_run, of_tier, run_spend, tier_spend}
use contextrail.Llm.Router.{
  Sdk, Router, new, World, Arguments, Refusal, budget_refusal, over_run_budget, over_bedrock_budget,
  servable, walk, call, names_other_model,
}
use contextrail.Llm.Budget.{BillsWithin, Guards, Continues, walk-KeepsCap}

All-filter :
    {A : Type 0} (P : A → Type 0) (f : A → Bool) (xs : List A) → All P xs → All P (filter f xs)
All-filter P f [] h = h
All-filter P f (x ∷ xs) (hx, h) = elim (Bool-cases (f x)) [
  | inl e ↦ rw e (hx, All-filter P f xs h)
  | inr e ↦ rw e (All-filter P f xs h)
]

All-all : {A : Type 0} (P : A → Type 0) (xs : List A) → ((x : A) → P x) → All P xs
All-all P [] h = record {}
All-all P (x ∷ xs) h = (h x, All-all P xs h)

room : (limit n : ℕ) → ltb limit n ≡ false → n ≤ limit
room limit n e = ground arith

not_refused :
    (a b : Bool) (r s : Refusal)
    → (if a then some r else if b then some s else none) ≡ none
    → (a ≡ false) × (b ≡ false)
not_refused a b r s e = ground arith

module _ (enc : Encoder) (py : Texts) (sdk : Sdk) (router : Router) (a : Arguments)
    (priced : router.price ≡ haiku_price) (bills : BillsWithin sdk a) where
  run-Guards :
      (id : String) (t : TierConfig)
      → a.run_id ≡ some id
      → Guards enc py sdk router a priced bills (of_run id) router.config.run_budget_usd t
  unfolding budget_refusal run_spend
  run-Guards id t i w e =
      let (o, _) =
        not_refused (over_run_budget enc py sdk router a w a.run_id)
          (over_bedrock_budget enc py sdk router a t w) _ _ e in
      let o' : over_run_budget enc py sdk router a w (some id) ≡ false =
        subst (λ x. over_run_budget enc py sdk router a w x ≡ false) i o in
      inl (room router.config.run_budget_usd _ o')

  call-KeepsCap :
      (p : Call → Bool) (limit : ℕ) (w : World)
      → Continues enc py sdk router a priced bills p limit
          (walk enc py sdk router a (servable enc py sdk router a))
      → spend p w.rows ≤ limit
      → spend p (call enc py sdk router a w).1.rows ≤ limit
  unfolding call
  call-KeepsCap p limit w k h = elim (Bool-cases (names_other_model enc py sdk router a a.model)) [
    | inl e ↦ rw e h
    | inr e ↦ elim (Bool-cases (ltb router.config.max_tokens_cap a.max_tokens)) [
      | inl o ↦ rw (e, o) h
      | inr o ↦ rw (e, o) (k false w h)
    ]
  ]

  bedrock-Guards :
      (s : Settings)
      → All
          (Guards enc py sdk router a priced bills (of_tier t3) router.config.bedrock_budget_usd)
          (tiers_of s)
  unfolding budget_refusal tier_spend
  bedrock-Guards s = (
    λ w e. inr (λ m. refl),
    (
      λ w e. inr (λ m. refl),
      (
        λ w e. inl (room router.config.bedrock_budget_usd _ (not_refused _ _ _ _ e).1),
        (λ w e. inr (λ m. refl), record {}),
      ),
    ),
  )

settings_lem :
    (s : Settings) (cfg : RouterConfig)
    → from_settings s ≡ some cfg
    → (cfg.tiers ≡ tiers_of s)
      × (cfg.run_budget_usd ≡ s.run_budget_usd)
      × (cfg.bedrock_budget_usd ≡ min s.bedrock_budget_usd 20000000)
unfolding from_settings
settings_lem s cfg e = ground arith

new_lem :
    (cfg : RouterConfig) (clients : List Tier) (router : Router)
    → new cfg clients ≡ some router
    → (router.config ≡ cfg) × (router.price ≡ haiku_price)
unfolding new price_for
new_lem cfg clients router e = ground arith

-- The budgets hold: a call of a router made from the settings keeps what its run has spent within the
-- budget of a run, and what was spent on Bedrock within the configured cap and within 20 dollars,
-- however the tiers answer, fail and are retried, if they were kept before and no answer has more
-- tokens than the printed request has bytes (and 1024 more) or more output than was asked for.
pub call-IsWithin :
    (enc : Encoder) (py : Texts) (sdk : Sdk) (s : Settings) (cfg : RouterConfig)
    (clients : List Tier) (router : Router) (a : Arguments) (id : String) (w : World)
    → from_settings s ≡ some cfg
    → new cfg clients ≡ some router
    → BillsWithin sdk a
    → a.run_id ≡ some id
    → run_spend id w.rows ≤ s.run_budget_usd
    → tier_spend t3 w.rows ≤ min s.bedrock_budget_usd 20000000
    → (run_spend id (call enc py sdk router a w).1.rows ≤ s.run_budget_usd)
      × (tier_spend t3 (call enc py sdk router a w).1.rows ≤ min s.bedrock_budget_usd 20000000)
unfolding run_spend tier_spend chain
call-IsWithin enc py sdk s cfg clients router a id w configured made bills i hr hb =
    let (same, priced) = new_lem cfg clients router made in
    let (ts, rb, bb) = settings_lem s cfg configured in
    let rb' : router.config.run_budget_usd ≡ s.run_budget_usd = rw same rb in
    let bb' : router.config.bedrock_budget_usd ≡ min s.bedrock_budget_usd 20000000 = rw same bb in
    let ts' : router.config.tiers ≡ tiers_of s = rw same ts in
    let kept_run =
      call-KeepsCap enc py sdk router a priced bills (of_run id) router.config.run_budget_usd w
        (walk-KeepsCap enc py sdk router a priced bills (of_run id) router.config.run_budget_usd
          (servable enc py sdk router a)
          (All-all _ _ (λ t. run-Guards enc py sdk router a priced bills id t i)))
        (rw rb' hr) in
    let all_guarded =
      subst
        (λ l.
          All
            (Guards enc py sdk router a priced bills (of_tier t3) router.config.bedrock_budget_usd)
            l)
        (sym ts') (bedrock-Guards enc py sdk router a priced bills s) in
    let kept_bedrock =
      call-KeepsCap enc py sdk router a priced bills (of_tier t3) router.config.bedrock_budget_usd w
        (walk-KeepsCap enc py sdk router a priced bills (of_tier t3)
          router.config.bedrock_budget_usd (servable enc py sdk router a)
          (All-filter _ _ (chain router.config) (All-filter _ _ router.config.tiers all_guarded)))
        (rw bb' hb) in
    (rw⁻¹ rb' kept_run, rw⁻¹ bb' kept_bedrock)
