-- ===== src/Policy/Decisions.antt =====
-- `decide`: what fires, and the verdict that follows from it.
use contextrail.Prelude.{
  Bool, true, false, String, Option, none, some, List, [], ◌∷◌, ◌≡◌, sym, ◌∙◌, ◌⊎◌, inl, inr, At,
  here, there, At-cons, contains, >>=-eq-some, some-eq-some, not-At-nil, arith, if◌then◌else◌,
}
use mathlib.Core.Path.{subst}
use contextrail.Models.Value.{Fields, lookup}
use contextrail.Models.Subject.{Subject}
use contextrail.Models.Action.{Action}
use contextrail.Policy.Python.{Python}
use contextrail.Policy.Schema.{Rule}
use contextrail.Policy.Matchers.{applies_to, matches}
use contextrail.Policy.Outcomes.{RuleOutcome, resolve_fired, time_box}
use contextrail.Policy.Engine.{
  Engine, Decision, Request, build_context, rule_outcome, concerns, fires, keep, fire, text_of,
  alternative, decide,
}
use contextrail.Policy.Precedence.{Ruling, resolve_fired-Ruling}

module _ (py : Python) (disabled : List String) (a : Action) (s : Subject) (ctx : Fields) where
  -- Why an outcome is in the list: its rule is enabled, concerns the subject and the action, and gives it.
  pub record Fired (o : RuleOutcome) : Type 0 where
    pub enabled : contains o.rule.id disabled ≡ false
    pub applies : applies_to o.rule s ≡ some true
    pub fits : matches py o.rule a ≡ some true
    pub gives : rule_outcome py o.rule ctx ≡ some (some o)

  rule_of_outcome :
      (r : Rule) (o : RuleOutcome) → rule_outcome py r ctx ≡ some (some o) → o.rule ≡ r
  unfolding rule_outcome
  rule_of_outcome r o h = ground arith

  -- the tests of the generator, one by one
  concerns_inv :
      (r : Rule)
      → concerns py disabled a s r ≡ some true
      → (contains r.id disabled ≡ false)
        × (applies_to r s ≡ some true)
        × (matches py r a ≡ some true)
  concerns_inv r h = ground arith

  fires-Fired :
      (r : Rule) (o : RuleOutcome)
      → fires py disabled a s ctx r ≡ some (some o)
      → (o.rule ≡ r) × Fired o
  fires-Fired r o h =
      let (c, e, g) = >>=-eq-some (concerns py disabled a s r) _ h in
      let d : c ≡ true = concerned c g in
      let g' : rule_outcome py r ctx ≡ some (some o) = rw d at g in
      let same : o.rule ≡ r = rule_of_outcome r o g' in
      let (on, applies, fits) = concerns_inv r (rw d at e) in
      (
        same,
        record {
          enabled = rw same on;
          applies = rw same applies;
          fits = rw same fits;
          gives = subst (λ x. rule_outcome py x ctx ≡ some (some o)) (sym same) g';
        },
      )
    where
      concerned :
          (c : Bool) → (if c then rule_outcome py r ctx else some none) ≡ some (some o) → c ≡ true
      concerned c g = ground arith

  Fired-fires : (o : RuleOutcome) → Fired o → fires py disabled a s ctx o.rule ≡ some (some o)
  Fired-fires o f = rw (f.enabled, f.applies, f.fits) f.gives

  -- A list of outcomes that `fire` returned, one rule at a time.
  fire-cons :
      (r : Rule) (rs : List Rule) (os : List RuleOutcome)
      → fire py disabled a s ctx (r ∷ rs) ≡ some os
      → (o : Option RuleOutcome) × (rest : List RuleOutcome) × (fires py disabled a s ctx r
          ≡ some o)
        × (fire py disabled a s ctx rs ≡ some rest)
        × (keep py o rest ≡ os)
  unfolding fire
  fire-cons r rs os h =
      let (o, e, g) = >>=-eq-some (fires py disabled a s ctx r) _ h in
      let (rest, e', g') = >>=-eq-some (fire py disabled a s ctx rs) _ g in
      (o, rest, e, e', some-eq-some g')

  At-keep :
      (x : Option RuleOutcome) {o : RuleOutcome} {os : List RuleOutcome}
      → At o (keep py x os)
      → (x ≡ some o) ⊎ At o os
  At-keep none m = inr m
  At-keep (some y) m = elim (At-cons m) [ inl q ↦ inl (rw q) | inr n ↦ inr n ]

  keep-At :
      (x : Option RuleOutcome) {o : RuleOutcome} {os : List RuleOutcome}
      → At o os
      → At o (keep py x os)
  keep-At none m = m
  keep-At (some y) m = there m

  pub fire-Fired :
      (rs : List Rule) (os : List RuleOutcome) (o : RuleOutcome)
      → fire py disabled a s ctx rs ≡ some os
      → At o os
      → At o.rule rs × Fired o
  unfolding fire
  fire-Fired [] os o h m = absurd (not-At-nil m (sym (some-eq-some h)))
  fire-Fired (r ∷ rs) os o h m =
      let (x, rest, e, e', k) = fire-cons r rs os h in
      elim (At-keep x (subst (λ l. At o l) (sym k) m)) [
        | inl q ↦ (let (same, f) = fires-Fired r o (rw q at e) in (rw same here, f))
        | inr n ↦ (let (j, f) = fire-Fired rs rest o e' n in (there j, f))
      ]

  pub Fired-fire :
      (rs : List Rule) (os : List RuleOutcome) (o : RuleOutcome)
      → fire py disabled a s ctx rs ≡ some os
      → At o.rule rs
      → Fired o
      → At o os
  Fired-fire [] os o h m f = elim m [ ]
  Fired-fire (r ∷ rs) os o h m f =
      let (x, rest, e, e', k) = fire-cons r rs os h in
      subst (λ l. At o l) k
        (elim (At-cons m) [
          | inl q ↦
              (let g : fires py disabled a s ctx r ≡ some (some o) =
                  subst (λ y. fires py disabled a s ctx y ≡ some (some o)) q (Fired-fires o f) in
                let y : x ≡ some o = some-eq-some (sym e ∙ g) in rw y here)
          | inr n ↦ keep-At x (Fired-fire rs rest o e' n f)
        ])

-- The context, the requester and the fired outcomes of a decision that was reached.
pub decide_inv :
    (py : Python) (engine : Engine) (a : Action) (s : Subject) (q : Request) (d : Decision)
    → decide py engine a s q ≡ some d
    → (fire py q.disabled a s (build_context a s q) engine.rules ≡ some d.fired)
      × (d.verdict
          ≡ resolve_fired engine.directory d.fired s (text_of (lookup "requested_by" q.run)))
      × (time_box d.verdict d.fired ≡ some d.expires_after)
      × (d.alternative ≡ alternative py d.verdict d.fired (build_context a s q))
unfolding decide
decide_inv py engine a s q d h = ground arith

module _ (py : Python) (engine : Engine) (a : Action) (s : Subject) (q : Request) where
  -- Why a decision is what it is: exactly the enabled rules that concern the case have fired, and
  -- the verdict is the ruling on them.
  pub record IsJustified (d : Decision) : Type 0 where
    pub sound :
        (o : RuleOutcome)
        → At o d.fired
        → At o.rule engine.rules × Fired py q.disabled a s (build_context a s q) o
    pub complete :
        (o : RuleOutcome)
        → At o.rule engine.rules
        → Fired py q.disabled a s (build_context a s q) o
        → At o d.fired
    pub ruling : Ruling engine.directory s (text_of (lookup "requested_by" q.run)) d.fired d.verdict

  -- Every decision that the engine reaches, whatever the rules, is justified: an outcome has fired
  -- exactly if its rule is in the engine, is enabled, applies to the subject, matches the action and
  -- gives that outcome, and the verdict is the ruling on the outcomes that fired.
  pub decide-IsJustified : (d : Decision) → decide py engine a s q ≡ some d → IsJustified d
  decide-IsJustified d h =
      let (f, v, _, _) = decide_inv py engine a s q d h in
      record {
        sound =
            λ o m. fire-Fired py q.disabled a s (build_context a s q) engine.rules d.fired o f m;
        complete = λ o m g.
            Fired-fire py q.disabled a s (build_context a s q) engine.rules d.fired o f m g;
        ruling = rw v (
            resolve_fired-Ruling engine.directory s (text_of (lookup "requested_by" q.run))
              d.fired);
      }
