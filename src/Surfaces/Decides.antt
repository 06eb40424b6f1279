-- ===== src/Surfaces/Decides.antt =====
-- What a decision through a door rests on (engine/contextrail/surfaces/door.py).
use mathlib.Core.Path.{subst}
use contextrail.Prelude.{
  ℕ, Bool, true, false, String, Option, none, some, List, ◌∷◌, ◌≡◌, ◌≢◌, refl, ◌⊎◌, inl, inr,
  >>=-eq-some, some-eq-some, arith, sym, ap, ◌∙◌,
}
use contextrail.Audit.Chain.{Row, append_audit}
use contextrail.Rail.Approve.{Approval, get_approval, record_approval}
use contextrail.Rail.Decided.{won, record_approval_first}
use contextrail.Surfaces.Cards.{Store, recorded, DecisionResult, Setting, Card, Checked, pass, stop}
use contextrail.Surfaces.Door.{
  check, approval_of, decided_payload, decided, stored, record_decision, resumed, continued, decide,
}
use contextrail.Surfaces.Checks.{Authorised, check-Authorised}
use contextrail.Surfaces.Endings.{IsUnrecorded-outcome, late-IsUnrecorded, IsUnrecorded, check-Ends}

module _ (d : Setting) (card : Card) (now : ℕ) where
  -- the transaction of a decision that won, and what follows it
  pub record Landed (resume : String → Store → Option Store) (person : String) (s : Store)
      (r : DecisionResult) (t : Store) : Type 0 where
    pub after : Store
    pub row : Row
    pub first : get_approval card.run_id card.action_id s.approvals ≡ none
    pub approvals : after.approvals ≡ approval_of d card now person ∷ s.approvals
    pub audited :
        append_audit d.enc true now
          (some card.run_id)
          "approval.decided"
          (decided_payload d card now person)
          s.audit
        ≡ some (row, after.audit)
    pub answer : r ≡ decided d card now person
    pub resumes : resume card.run_id after ≡ some t

  stored-recorded :
      (person : String) (p : Bool × List Approval) (s after : Store) (r : DecisionResult)
      → stored d card now person p s ≡ some (r, after)
      → r.outcome ≡ recorded
      → (p.0 ≡ true)
        × (after.approvals ≡ p.1)
        × (r ≡ decided d card now person)
        × ((row : Row) × (append_audit d.enc true now
                (some card.run_id)
                "approval.decided"
                (decided_payload d card now person)
                s.audit
              ≡ some (row, after.audit)))
  stored-recorded person (true, rows) s after r h e =
      let ((row, table), q, g) =
        >>=-eq-some
          (append_audit d.enc true now (some card.run_id) "approval.decided"
            (decided_payload d card now person) s.audit)
          _ h in
      (refl, ground arith, ground arith, (row, ground arith))
  stored-recorded person (false, rows) s after r h e =
      let (first, q, g) = >>=-eq-some (get_approval card.run_id card.action_id s.approvals) _ h in
      absurd (ground arith)

  resumed-recorded :
      (resume : String → Store → Option Store) (q : DecisionResult × Store) (r : DecisionResult)
      (t : Store)
      → resumed d card now resume q ≡ some (r, t)
      → r.outcome ≡ recorded
      → (q.0 ≡ r) × (resume card.run_id q.1 ≡ some t)
  resumed-recorded resume (q, after) r t h e = ground arith

  -- A decision is reported as recorded only if, when it was checked, the actor was known at that door,
  -- the action stood awaiting without a decision, the card was for exactly its parameters, the actor was its named
  -- approver and the separation of duties allowed it; and if, when it was stored, there was still no
  -- decision. It is then stored with the actor, the parameters and the audit row, and the run resumes.
  pub decide-recorded :
      (between : Store → Store) (resume : String → Store → Option Store) (s t : Store)
      (r : DecisionResult)
      → decide d card now between resume s ≡ some (r, t)
      → r.outcome ≡ recorded
      → (person : String) × Authorised d card now person s × Landed resume person (between s) r t
  unfolding decide
  decide-recorded between resume s t r h e =
      let (c, q, g) = >>=-eq-some (check d card now s) (continued d card now between resume s) h in
      goes_on c q g
    where
      goes_on :
          (c : Checked)
          → check d card now s ≡ some c
          → continued d card now between resume s c ≡ some (r, t)
          → (person : String) × Authorised d card now person s
            × Landed resume person (between s) r t
      goes_on (stop x u) q g = absurd (
          IsUnrecorded-outcome d card now s x u (check-Ends d card now s x u q)
            (ap (λ (y : DecisionResult × Store). y.0.outcome) (some-eq-some g) ∙ e))
      goes_on (pass person) q g =
          let ((x, after), k, m) =
            >>=-eq-some (record_decision d card now person (between s)) (resumed d card now resume)
              g in
          let (same, goes) = resumed-recorded resume (x, after) r t m e in
          let (wins, rows, answer, (row, audited)) =
            stored-recorded person
              (record_approval (approval_of d card now person) (between s).approvals) (between s)
              after x (unfold record_decision in k)
              (ap (λ (y : DecisionResult). y.outcome) same ∙ e) in
          let none_before =
            (record_approval_first (approval_of d card now person) (between s).approvals "" "").0.0
              wins in
          (
            person,
            check-Authorised d card now person s q,
            record {
              after = after;
              row = row;
              first = none_before;
              approvals =
                  rows
                  ∙ ap (λ (y : Bool × List Approval). y.1)
                      (won (approval_of d card now person) (between s).approvals none_before);
              audited = audited;
              answer = sym same ∙ answer;
              resumes = goes;
            },
          )

  stored_either :
      (person : String) (p : Bool × List Approval) (s after : Store) (r : DecisionResult)
      → stored d card now person p s ≡ some (r, after)
      → (r.outcome ≡ recorded) ⊎ IsUnrecorded d card now s r after
  stored_either person (true, rows) s after r h =
      let (x, q, g) =
        >>=-eq-some
          (append_audit d.enc true now (some card.run_id) "approval.decided"
            (decided_payload d card now person) s.audit)
          _ h in
      inl (ground arith)
  stored_either person (false, rows) s after r h =
      let (first, q, g) = >>=-eq-some (get_approval card.run_id card.action_id s.approvals) _ h in
      inr (
        subst (λ (x : DecisionResult × Store). IsUnrecorded d card now s x.0 x.1) (some-eq-some g)
          (late-IsUnrecorded d card now first s))

  resumed_same :
      (resume : String → Store → Option Store) (x : DecisionResult) (after : Store)
      (r : DecisionResult) (t : Store)
      → resumed d card now resume (x, after) ≡ some (r, t)
      → (x ≡ r) × (x.outcome ≢ recorded → after ≡ t)
  resumed_same resume x after r t h = (ground arith, λ n. ground arith)

  -- A decision that ends without being recorded was late or rejected. A late one changes nothing; a
  -- rejected one appends one row to the audit, if there is such a run, and changes no other table. What it
  -- leaves unchanged are the tables as they were when it was checked, or after what the other doors did
  -- meanwhile.
  pub decide-IsUnrecorded :
      (between : Store → Store) (resume : String → Store → Option Store) (s t : Store)
      (r : DecisionResult)
      → decide d card now between resume s ≡ some (r, t)
      → r.outcome ≢ recorded
      → IsUnrecorded d card now s r t ⊎ IsUnrecorded d card now (between s) r t
  unfolding decide
  decide-IsUnrecorded between resume s t r h e =
      let (c, q, g) = >>=-eq-some (check d card now s) (continued d card now between resume s) h in
      goes_on c q g
    where
      goes_on :
          (c : Checked)
          → check d card now s ≡ some c
          → continued d card now between resume s c ≡ some (r, t)
          → IsUnrecorded d card now s r t ⊎ IsUnrecorded d card now (between s) r t
      goes_on (stop x u) q g = inl (
          check-Ends d card now s r t
            (q ∙ ap (λ (y : DecisionResult × Store). some (stop y.0 y.1)) (some-eq-some g)))
      goes_on (pass person) q g =
          let ((x, after), k, m) =
            >>=-eq-some (record_decision d card now person (between s)) (resumed d card now resume)
              g in
          let (same, stays) = resumed_same resume x after r t m in
          elim (stored_either person
            (record_approval (approval_of d card now person) (between s).approvals) (between s)
            after x (unfold record_decision in k)) [
              | inl w ↦ absurd (e (ap (λ (y : DecisionResult). y.outcome) (sym same) ∙ w))
              | inr n ↦ inr (
                  subst (λ y. IsUnrecorded d card now (between s) y t) same
                    (subst (IsUnrecorded d card now (between s) x)
                      (stays (IsUnrecorded-outcome d card now (between s) x after n)) n))
            ]
