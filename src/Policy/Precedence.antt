-- ===== src/Policy/Precedence.antt =====
-- `_resolve`: a refusal wins, then the most senior hold, then an allowance, and nothing is a refusal.
use contextrail.Prelude.{
  ℕ, ◌≤◌, Bool, true, false, String, Option, List, [], ◌∷◌, ◌≡◌, ◌≢◌, refl, All-At, At, here, there,
  At-filter, filter-At, All, arith, if◌then◌else◌,
}
use mathlib.Core.Path.{subst, sym}
use native.Mathlib.Nat.{le_trans}
use contextrail.Models.Subject.{Subject}
use contextrail.Models.Verdict.{
  VerdictKind, allow, hold, refuse, is_allow, is_hold, is_refuse, Verdict,
}
use contextrail.Policy.Approvers.{Directory}
use contextrail.Policy.Outcomes.{
  RuleOutcome, pick, least, greatest, refusal_lt, allow_lt, rank, hold_lt, of_kind, default_deny,
  refused_by, held_by, allowed_by, resolve_fired, among_refusals, among_holds, among_allows,
}

At-choice {ℓ} :
    {A : Type ℓ} (b : Bool) {a x y : A} {xs : List A}
    → At y ((if b then x else a) ∷ xs)
    → At y (a ∷ x ∷ xs)
At-choice true here = there here
At-choice true (there m) = there (there m)
At-choice false here = here
At-choice false (there m) = there (there m)

module _ {A : Type 0} (better : A → A → Bool) where
  At-pick : (a : A) (xs : List A) → At (pick better a xs) (a ∷ xs)
  At-pick a [] = here
  At-pick a (x ∷ xs) = At-choice (better x a) (At-pick (if better x a then x else a) xs)

  -- What is picked has the greatest value of a measure that `better` respects.
  pick_maximal :
      (f : A → ℕ)
      → ((x a : A) → f a ≤ f (if better x a then x else a))
      → ((x a : A) → f x ≤ f (if better x a then x else a))
      → (a : A) (xs : List A)
      → (f a ≤ f (pick better a xs)) × All (λ x. f x ≤ f (pick better a xs)) xs
  pick_maximal f old new a [] = (omega arith, tt)
  pick_maximal f old new a (x ∷ xs) =
      let best = if better x a then x else a in
      let (first, rest) = pick_maximal f old new best xs in
      (le_trans (old x a) first, (le_trans (new x a) first, rest))

abbrev terminal_rank : RuleOutcome → ℕ
terminal_rank o = if o.rule.terminal then 1 else 0

refusal_keeps_old :
    (x a : RuleOutcome) → terminal_rank a ≤ terminal_rank (if refusal_lt x a then x else a)
refusal_keeps_old x a = ground arith

refusal_keeps_new :
    (x a : RuleOutcome) → terminal_rank x ≤ terminal_rank (if refusal_lt x a then x else a)
refusal_keeps_new x a = ground arith

hold_keeps_old :
    (x a : RuleOutcome) → rank a.approver_role ≤ rank (if hold_lt a x then x else a).approver_role
unfolding hold_lt
hold_keeps_old x a = ground arith

hold_keeps_new :
    (x a : RuleOutcome) → rank x.approver_role ≤ rank (if hold_lt a x then x else a).approver_role
unfolding hold_lt
hold_keeps_new x a = ground arith

-- A terminal refusal among the refusals makes the deciding one terminal.
pub terminal_first :
    (a : RuleOutcome) (xs : List RuleOutcome) (o : RuleOutcome)
    → At o (a ∷ xs)
    → o.rule.terminal ≡ true
    → (least refusal_lt a xs).rule.terminal ≡ true
terminal_first a xs o m t =
    let (first, rest) =
      pick_maximal refusal_lt terminal_rank refusal_keeps_old refusal_keeps_new a xs in
    let bound : terminal_rank o ≤ terminal_rank (least refusal_lt a xs) =
      All-At (λ x. terminal_rank x ≤ terminal_rank (least refusal_lt a xs)) (a ∷ xs) (first, rest)
        m in
    ground arith

pub senior_first :
    (a : RuleOutcome) (xs : List RuleOutcome) (o : RuleOutcome)
    → At o (a ∷ xs)
    → rank o.approver_role ≤ rank (greatest hold_lt a xs).approver_role
senior_first a xs o m =
    let best = greatest hold_lt a xs in
    let (first, rest) =
      pick_maximal (λ x a. hold_lt a x) (λ o. rank o.approver_role) hold_keeps_old hold_keeps_new a
        xs in
    All-At (λ x. rank x.approver_role ≤ rank best.approver_role) (a ∷ xs) (first, rest) m

-- What a verdict must be, given the outcomes: the specification of `_resolve`.
pub data Ruling (directory : Option Directory) (s : Subject) (requested_by : Option String)
    (fired : List RuleOutcome) : Verdict → Type 0 where
  refused :
      (top : RuleOutcome)
      → At top fired
      → top.verdict ≡ refuse
      → ((o : RuleOutcome)
          → At o fired
          → o.verdict ≡ refuse
          → o.rule.terminal ≡ true
          → top.rule.terminal ≡ true)
      → Ruling directory s requested_by fired (refused_by top)
  held :
      (top : RuleOutcome)
      → At top fired
      → top.verdict ≡ hold
      → ((o : RuleOutcome) → At o fired → o.verdict ≢ refuse)
      → ((o : RuleOutcome)
          → At o fired
          → o.verdict ≡ hold
          → rank o.approver_role ≤ rank top.approver_role)
      → Ruling directory s requested_by fired (held_by directory s requested_by top)
  allowed :
      (top : RuleOutcome)
      → At top fired
      → top.verdict ≡ allow
      → ((o : RuleOutcome) → At o fired → o.verdict ≡ allow)
      → Ruling directory s requested_by fired (allowed_by top)
  denied : fired ≡ [] → Ruling directory s requested_by fired default_deny

is_refuse_inv : (v : VerdictKind) → is_refuse v ≡ true → v ≡ refuse
is_refuse_inv v h = ground arith

is_hold_inv : (v : VerdictKind) → is_hold v ≡ true → v ≡ hold
is_hold_inv v h = ground arith

is_allow_inv : (v : VerdictKind) → is_allow v ≡ true → v ≡ allow
is_allow_inv v h = ground arith

-- An element that passes stands in the filtered list, so an empty one excludes it.
none_pass :
    (p : VerdictKind → Bool) (fired : List RuleOutcome)
    → of_kind p fired ≡ []
    → (o : RuleOutcome) → At o fired
    → p o.verdict ≡ true
    → ⊥
none_pass p fired e o m t = go (of_kind p fired) e (filter-At _ fired m t)
  where
    go : (l : List RuleOutcome) → l ≡ [] → At o l → ⊥
    go [] q n = elim n [ ]
    go (x ∷ xs) q n = cc

only_allows : (v : VerdictKind) → ¬ (is_refuse v ≡ true) → ¬ (is_hold v ≡ true) → v ≡ allow
only_allows allow r h = refl
only_allows hold r h = absurd (h refl)
only_allows refuse r h = absurd (r refl)

-- Every outcome is of one of the three kinds.
nothing_fired :
    (fired : List RuleOutcome)
    → of_kind is_refuse fired ≡ []
    → of_kind is_hold fired ≡ []
    → of_kind is_allow fired ≡ []
    → fired ≡ []
nothing_fired [] r h a = refl
nothing_fired (o ∷ os) r h a =
    let ok : o.verdict ≡ allow =
      only_allows o.verdict (none_pass is_refuse (o ∷ os) r o here)
        (none_pass is_hold (o ∷ os) h o here) in
    absurd (none_pass is_allow (o ∷ os) a o here (rw ok))

kept-At :
    (p : VerdictKind → Bool) (fired l : List RuleOutcome) {o : RuleOutcome}
    → of_kind p fired ≡ l
    → At o l
    → At o fired × (p o.verdict ≡ true)
kept-At p fired l {o} e m =
    At-filter (λ (x : RuleOutcome). p x.verdict) fired (subst (λ k. At o k) (sym e) m)

At-kept :
    (p : VerdictKind → Bool) (fired l : List RuleOutcome) {o : RuleOutcome}
    → of_kind p fired ≡ l
    → At o fired
    → p o.verdict ≡ true
    → At o l
At-kept p fired l {o} e m t =
    subst (λ k. At o k) e (filter-At (λ (x : RuleOutcome). p x.verdict) fired m t)

module _ (directory : Option Directory) (s : Subject) (requested_by : Option String)
    (fired : List RuleOutcome) where
  abbrev Rules : Verdict → Type 0
  Rules = Ruling directory s requested_by fired

  rule_allows :
      (l : List RuleOutcome)
      → of_kind is_allow fired ≡ l
      → of_kind is_refuse fired ≡ []
      → of_kind is_hold fired ≡ []
      → Rules (among_allows l)
  rule_allows [] e r h = denied (nothing_fired fired r h e)
  rule_allows (a ∷ xs) e r h =
      let top = least allow_lt a xs in
      let (m, k) = kept-At is_allow fired (a ∷ xs) e (At-pick allow_lt a xs) in
      allowed top m (is_allow_inv _ k) (λ o n.
        only_allows o.verdict (none_pass is_refuse fired r o n) (none_pass is_hold fired h o n))

  rule_holds :
      (l : List RuleOutcome)
      → of_kind is_hold fired ≡ l
      → of_kind is_refuse fired ≡ []
      → Rules (among_holds directory s requested_by l (among_allows (of_kind is_allow fired)))
  rule_holds [] e r = rule_allows _ refl r e
  rule_holds (a ∷ xs) e r =
      let top = greatest hold_lt a xs in
      let (m, k) = kept-At is_hold fired (a ∷ xs) e (At-pick (λ x y. hold_lt y x) a xs) in
      held top m (is_hold_inv _ k) (λ o n q. none_pass is_refuse fired r o n (rw q))
        (λ o n q. senior_first a xs o (At-kept is_hold fired (a ∷ xs) e n (rw q)))

  rule_refusals :
      (l : List RuleOutcome)
      → of_kind is_refuse fired ≡ l
      → Rules (
          among_refusals l (
            among_holds directory s requested_by
              (of_kind is_hold fired)
              (among_allows (of_kind is_allow fired))))
  rule_refusals [] e = rule_holds _ refl e
  rule_refusals (a ∷ xs) e =
      let top = least refusal_lt a xs in
      let (m, k) = kept-At is_refuse fired (a ∷ xs) e (At-pick refusal_lt a xs) in
      refused top m (is_refuse_inv _ k)
        (λ o n q t. terminal_first a xs o (At-kept is_refuse fired (a ∷ xs) e n (rw q)) t)

  pub resolve_fired-Ruling : Rules (resolve_fired directory fired s requested_by)
  unfolding resolve_fired
  resolve_fired-Ruling = rule_refusals _ refl
