-- ===== src/Rail/ReadBack.antt =====
-- What the read-back of engine/contextrail/rail/verify.py shows.
use contextrail.Prelude.{
  ℕ, Bool, true, false, String, Option, none, some, ◌≡◌, refl, ◌≢◌, ◌⊎◌, inl, inr, Option-cases,
  Bool-cases, not, some-eq-some, if◌then◌else◌, sym, ap, ◌∙◌, arith, contains,
}
use contextrail.Models.Value.{Fields}
use contextrail.Models.Verdict.{refuse}
use contextrail.Models.Action.{ActionState, executed, unknown, verified, failed, Action, transition}
use contextrail.Connectors.Base.{Answer, ok, raised, Connector}
use contextrail.Connectors.Fixture.{Doc}
use contextrail.Connectors.Entitlements.{Holdings, held_by, verify, entitlements}
use contextrail.Rail.Execute.{connector_name}
use contextrail.Rail.Attempts.{reports}
use contextrail.Rail.Once.{Targets, grants, verify-same}
use contextrail.Rail.Verify.{VerifyOutcome, outcome_of, is_verifiable, verify_action}

read :
    {S : Type 0} (registry : String → Option (Connector S)) (now : ℕ) (a : Action) (s : S)
    (connector : Connector S)
    → registry (connector_name a) ≡ some connector
    → is_verifiable a.state ≡ true
    → verify_action registry now a s
      ≡ some (outcome_of a now (connector.verify a s).0, (connector.verify a s).1)
unfolding verify_action
read registry now a s connector r h = rw (h, r) refl

unread :
    {S : Type 0} (registry : String → Option (Connector S)) (now : ℕ) (a : Action) (s : S)
    → is_verifiable a.state ≡ false
    → verify_action registry now a s ≡ none
unfolding verify_action
unread registry now a s h = rw h refl

may_settle :
    (a : Action) (to : ActionState)
    → is_verifiable a.state ≡ true
    → a.verdict ≢ some refuse
    → (to ≡ verified) ⊎ (to ≡ failed)
    → (b : Action) × (transition a to ≡ some b)
unfolding is_verifiable transition
may_settle a to h g e = elim (Option-cases (transition a to)) [
  | inl q ↦ absurd (ground arith)
  | inr (b, q) ↦ (b, q)
]

abbrev IsReadBack : Action → ℕ → Answer (Bool × Fields) → VerifyOutcome → Type 0
IsReadBack a now r v =
    (v.action_id ≡ a.id)
    × (reports r ≡ true → (v.state ≡ verified) × (v.at ≡ some now))
    × (reports r ≡ false → (v.state ≡ failed) × (v.at ≡ none))
    × ((v.state ≡ verified) ⊎ (v.state ≡ failed))

outcome_of-IsReadBack :
    (a : Action) (now : ℕ) (r : Answer (Bool × Fields)) → IsReadBack a now r (outcome_of a now r)
outcome_of-IsReadBack a now (raised e) = (refl, λ h. cc, λ h. (refl, refl), inr refl)
outcome_of-IsReadBack a now (ok (true, seen)) = (refl, λ h. (refl, refl), λ h. cc, inl refl)
outcome_of-IsReadBack a now (ok (false, seen)) = (refl, λ h. cc, λ h. (refl, refl), inr refl)

verifiable : (s : ActionState) → ((s ≡ executed) ⊎ (s ≡ unknown)) → is_verifiable s ≡ true
unfolding is_verifiable
verifiable s h = ground arith

not_verifiable : (s : ActionState) → s ≢ executed → s ≢ unknown → is_verifiable s ≡ false
unfolding is_verifiable
not_verifiable s e u = elim (Bool-cases (is_verifiable s)) [
  | inl t ↦ absurd (ground arith)
  | inr f ↦ f
]

-- Reading back an action whose connector is registered raises unless the action is executed or
-- unknown, and gives an outcome if it is: `verified`, with the time of the read, if the connector
-- reported the intended state, and `failed`, without a time, otherwise. Unless the verdict of the action
-- is a refusal, the transition table lets it take that state.
pub verify_action_lem :
    {S : Type 0} (registry : String → Option (Connector S)) (now : ℕ) (a : Action) (s : S)
    (connector : Connector S)
    → registry (connector_name a) ≡ some connector
    → (a.state ≢ executed → a.state ≢ unknown → verify_action registry now a s ≡ none)
      × (((a.state ≡ executed) ⊎ (a.state ≡ unknown))
          → (v : VerifyOutcome) × (verify_action registry now a s
              ≡ some (v, (connector.verify a s).1))
            × (v.action_id ≡ a.id)
            × (reports (connector.verify a s).0 ≡ true → (v.state ≡ verified) × (v.at ≡ some now))
            × (reports (connector.verify a s).0 ≡ false → (v.state ≡ failed) × (v.at ≡ none))
            × (a.verdict ≢ some refuse → (b : Action) × (transition a v.state ≡ some b)))
verify_action_lem registry now a s connector r = (
  λ e u. unread registry now a s (not_verifiable a.state e u),
  λ h.
      let (same, found, lost, either) = outcome_of-IsReadBack a now (connector.verify a s).0 in
      let k = verifiable a.state h in
      (
        outcome_of a now (connector.verify a s).0,
        read registry now a s connector r k,
        same,
        found,
        lost,
        λ g. may_settle a (outcome_of a now (connector.verify a s).0).state k g either,
      ),
)

agree : (g there : Bool) → (if g then there else not there) ≡ true → there ≡ g
agree true there h = h
agree false true h = cc
agree false false h = refl

reported :
    (a : Action) (subject ent : String) (doc : Doc Holdings)
    → Targets a subject ent
    → reports (verify a doc).0 ≡ (
        if grants a
        then contains ent (held_by doc.content subject)
        else not (contains ent (held_by doc.content subject)))
unfolding verify
reported a subject ent doc t =
    rw (t.subject_given, t.ent_given, t.subject_filled, t.ent_filled) refl

-- An entitlement action that is read back as verified is in force in the state it was read from: the
-- subject holds the entitlement after a grant, and does not hold it after a revocation.
pub verified_in_force :
    (registry : String → Option (Connector (Doc Holdings))) (now : ℕ) (a : Action)
    (subject ent : String) (doc after : Doc Holdings) (v : VerifyOutcome)
    → registry (connector_name a) ≡ some entitlements
    → Targets a subject ent
    → verify_action registry now a doc ≡ some (v, after)
    → v.state ≡ verified
    → (after ≡ doc) × (contains ent (held_by doc.content subject) ≡ grants a)
verified_in_force registry now a subject ent doc after v r t h e =
    elim (Bool-cases (is_verifiable a.state)) [
      | inl k ↦
          let same = some-eq-some (sym (read registry now a doc entitlements r k) ∙ h) in
          let found = reports_verified a now (verify a doc).0 (ap (λ p. p.0.state) same ∙ e) in
          (
            sym (ap (λ p. p.1) same) ∙ verify-same a doc,
            agree (grants a) (contains ent (held_by doc.content subject))
                (sym (reported a subject ent doc t) ∙ found),
          )
      | inr k ↦ absurd (none-some (sym (unread registry now a doc k) ∙ h))
    ]
  where
    none-some : ◌≡◌ {A = Option (VerifyOutcome × Doc Holdings)} none (some (v, after)) → ⊥
    none-some q = cc

    reports_verified :
        (a : Action) (now : ℕ) (r : Answer (Bool × Fields))
        → (outcome_of a now r).state ≡ verified
        → reports r ≡ true
    reports_verified a now (raised e) q = absurd (ground arith)
    reports_verified a now (ok (true, seen)) q = refl
    reports_verified a now (ok (false, seen)) q = absurd (ground arith)
