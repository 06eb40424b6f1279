-- ===== src/Policy/TimeBox.antt =====
-- The time box of a grant (`_time_box` of engine/contextrail/policy/engine.py).
use contextrail.Prelude.{
  ℕ, ◌≤◌, false, String, Option, none, some, List, [], ◌∷◌, ◌≡◌, ◌≢◌, refl, sym, ◌∙◌, ◌⊎◌,
  Bool-cases, Option-cases, inl, inr, At, here, there, At-cons, str_eq, eq_iff, >>=-eq-some,
  some-eq-some, arith,
}
use mathlib.Core.Path.{subst}
use native.Mathlib.Nat.{le_trans}
use contextrail.Models.Subject.{Subject}
use contextrail.Models.Action.{Action}
use contextrail.Models.Verdict.{VerdictKind, refuse}
use contextrail.Policy.Python.{Python}
use contextrail.Policy.Schema.{duration}
use contextrail.Policy.Outcomes.{RuleOutcome, shortest, box_of, box, boxes, time_box}
use contextrail.Policy.Engine.{Engine, Decision, Request, decide}
use contextrail.Policy.Decisions.{decide_inv}

-- An outcome that limits a grant to `n` minutes.
pub record Limits (o : RuleOutcome) (n : ℕ) : Type 0 where
  pub granted : o.verdict ≢ refuse
  pub text : String
  pub says : o.rule.expires_after ≡ some text
  pub lasts : duration text ≡ some n

not_empty : (text : String) (n : ℕ) → duration text ≡ some n → str_eq text "" ≡ false
unfolding duration
not_empty text n h = elim (Bool-cases (str_eq text "")) [
  | inl e ↦ (let g : duration "" ≡ some n = rw ((eq_iff text "").0 e) at h in cc)
  | inr f ↦ f
]

box_of_Limits : (o : RuleOutcome) (n : ℕ) → Limits o n → box o ≡ some (some n)
box_of_Limits o n l = ground (arith, not_empty l.text n l.lasts)

unlimited : (v : VerdictKind) → box_of v none ≡ some none
unlimited v = ground arith

Limits-of_box : (o : RuleOutcome) (n : ℕ) → box o ≡ some (some n) → Limits o n
Limits-of_box o n h = elim (Option-cases o.rule.expires_after) [
  | inl e ↦ absurd (no_limit e)
  | inr (text, e) ↦ record {
    granted = λ r. ground arith;
    text = text;
    says = e;
    lasts = ground arith;
  }
]
  where
    no_limit : o.rule.expires_after ≡ none → ⊥
    no_limit e =
        let g : box_of o.verdict none ≡ some (some n) = rw e at h in cc (unlimited o.verdict)

boxes-cons :
    (o : RuleOutcome) (os : List RuleOutcome) (e : Option ℕ)
    → boxes (o ∷ os) ≡ some e
    → (first : Option ℕ) × (rest : Option ℕ) × (box o ≡ some first)
      × (boxes os ≡ some rest)
      × (shortest first rest ≡ e)
boxes-cons o os e h =
    let (first, p, g) = >>=-eq-some (box o) _ h in
    let (rest, q, g') = >>=-eq-some (boxes os) _ g in (first, rest, p, q, some-eq-some g')

shortest-le_left : (n : ℕ) (r : Option ℕ) → (m : ℕ) × (shortest (some n) r ≡ some m) × (m ≤ n)
shortest-le_left n none = (n, refl, omega arith)
shortest-le_left n (some k) = (_, refl, ground arith)

shortest-le_right : (f : Option ℕ) (n : ℕ) → (m : ℕ) × (shortest f (some n) ≡ some m) × (m ≤ n)
shortest-le_right none n = (n, refl, omega arith)
shortest-le_right (some k) n = (_, refl, ground arith)

boxes_le :
    (os : List RuleOutcome) (e : Option ℕ) (o : RuleOutcome) (n : ℕ)
    → boxes os ≡ some e
    → At o os
    → box o ≡ some (some n)
    → (m : ℕ) × (e ≡ some m) × (m ≤ n)
boxes_le [] e o n h m b = elim m [ ]
boxes_le (x ∷ os) e o n h m b =
    let (first, rest, p, q, k) = boxes-cons x os e h in
    elim (At-cons m) [
      | inl same ↦
          (let p' : first ≡ some n =
              some-eq-some (sym (subst (λ y. box y ≡ some first) (sym same) p) ∙ b) in
            let (j, g, le) = shortest-le_left n rest in (j, rw (← k, p') g, le))
      | inr later ↦
          (let (i, g, le) = boxes_le os rest o n q later b in
            let (j, g', le') = shortest-le_right first i in (j, rw (← k, g) g', le_trans le' le))
    ]

boxes_attained :
    (os : List RuleOutcome) (e : Option ℕ) (n : ℕ)
    → boxes os ≡ some e
    → e ≡ some n
    → (o : RuleOutcome) × At o os × (box o ≡ some (some n))
boxes_attained [] e n h k = cc
boxes_attained (x ∷ os) e n h k =
    let (first, rest, p, q, g) = boxes-cons x os e h in
    elim (from_either first rest n (g ∙ k)) [
      | inl a ↦ (x, here, rw (p, a))
      | inr b ↦ (let (o, m, c) = boxes_attained os rest n q b in (o, there m, c))
    ]
  where
    from_either : (f r : Option ℕ) (n : ℕ) → shortest f r ≡ some n → (f ≡ some n) ⊎ (r ≡ some n)
    from_either f r n h = ground arith

module _ (py : Python) (engine : Engine) (a : Action) (s : Subject) (q : Request) (d : Decision)
    (decided : decide py engine a s q ≡ some d) (granted : d.verdict.verdict ≢ refuse) where
  boxed : boxes d.fired ≡ some d.expires_after
  unfolding time_box
  boxed = let (_, _, t, _) = decide_inv py engine a s q d decided in ground (arith, t)

  -- A decision that is no refusal expires with the shortest time box of the rules that allowed or
  -- held the action: none of them sets a shorter one, and the limit is that of one of them.
  pub expires_shortest :
      ((o : RuleOutcome) (n : ℕ)
        → At o d.fired
        → Limits o n
        → (m : ℕ) × (d.expires_after ≡ some m) × (m ≤ n))
      × ((m : ℕ) → d.expires_after ≡ some m → (o : RuleOutcome) × At o d.fired × Limits o m)
  expires_shortest = (
    λ o n at l. boxes_le d.fired d.expires_after o n boxed at (box_of_Limits o n l),
    λ m e.
        (let (o, at, b) = boxes_attained d.fired d.expires_after m boxed e in
          (o, at, Limits-of_box o m b)),
  )
