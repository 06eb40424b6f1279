-- ===== src/Surfaces/Endings.antt =====
-- What a decision through a door leaves when it is not recorded (engine/contextrail/surfaces/door.py).
use contextrail.Prelude.{
  ℕ, Bool, true, false, String, Option, none, some, ◌≡◌, ◌≢◌, ◌⊎◌, refl, some-eq-some, Option-cases,
  inl, inr, Bool-cases, >>=-eq-some, str_eq, arith, ap, ◌∙◌, if◌then◌else◌, not,
}
use mathlib.Core.Path.{subst}
use contextrail.Models.Value.{Fields}
use contextrail.Audit.Chain.{Row, append_audit}
use contextrail.Models.Verdict.{Verdict, is_allow}
use contextrail.Models.Action.{Action}
use contextrail.Rail.Approve.{Approval, get_approval}
use contextrail.Surfaces.Identity.{Identity, resolve_actor}
use contextrail.Surfaces.Cards.{
  RunRow, ActionRow, Store, recorded, already_decided, rejected, already, get_run, DecisionResult,
  Setting, Card, Checked, stop, is_awaiting, is_named,
}
use contextrail.Surfaces.Door.{
  rejection, stopped, reject, duties, check_duties, check_card, check_first, check_rows,
  check_actor, check,
}

module _ (d : Setting) (card : Card) (now : ℕ) where
  -- a rejection appended to the audit of the run
  abbrev pub IsNoted : Store → Store → Type 0
  IsNoted s t =
      (payload : Fields) × (row : Row) × (append_audit d.enc true now (some card.run_id)
          "approval.rejected" payload s.audit
        ≡ some (row, t.audit))

  -- A decision that ended without being recorded leaves every table but the audit as it is: a late one
  -- leaves that too, and a rejected one appends its row, if there is such a run.
  pub record IsUnrecorded (s : Store) (r : DecisionResult) (t : Store) : Type 0 where
    pub outcome : (r.outcome ≡ already_decided) ⊎ (r.outcome ≡ rejected)
    pub others : t ≡ record s { audit = t.audit }
    pub late : r.outcome ≡ already_decided → t.audit ≡ s.audit
    pub noted :
        r.outcome ≡ rejected → ((get_run card.run_id s ≡ none) × (t.audit ≡ s.audit)) ⊎ IsNoted s t

  pub IsUnrecorded-outcome :
      (s : Store) (r : DecisionResult) (t : Store) → IsUnrecorded s r t → r.outcome ≢ recorded
  IsUnrecorded-outcome s r t h e = elim h.outcome [
    | inl p ↦ absurd (ground arith)
    | inr p ↦ absurd (ground arith)
  ]

  -- a decision that comes after the first one
  pub late-IsUnrecorded : (first : Approval) (s : Store) → IsUnrecorded s (already first) s
  late-IsUnrecorded first s = record {
    outcome = inl refl;
    others = refl;
    late = λ e. refl;
    noted = λ e. cc;
  }

  abbrev pub Ends : Store → Option Checked → Type 0
  Ends s c = (r : DecisionResult) (t : Store) → c ≡ some (stop r t) → IsUnrecorded s r t

  reject-IsUnrecorded :
      (who : Option String) (reason : String) (rule_id : Option String) (s t : Store)
      (r : DecisionResult)
      → reject d card now who reason rule_id s ≡ some (r, t)
      → IsUnrecorded s r t
  unfolding reject
  reject-IsUnrecorded who reason rule_id s t r h = elim (Option-cases (get_run card.run_id s)) [
    | inl n ↦
        subst (λ (x : DecisionResult × Store). IsUnrecorded s x.0 x.1)
          (some-eq-some (rw (reject, n) at h))
          (record { outcome = inr refl; others = refl; late = λ e. cc; noted = λ e. inl (n, refl) })
    | inr (run, n) ↦
        let payload = rejection d card now who reason rule_id in
        let (x, q, g) =
          >>=-eq-some
            (append_audit d.enc true now (some card.run_id) "approval.rejected" payload s.audit) _
            (rw (reject, n) at h) in
        subst (λ (x : DecisionResult × Store). IsUnrecorded s x.0 x.1) (some-eq-some g)
          (record {
            outcome = inr refl;
            others = refl;
            late = λ e. cc;
            noted = λ e. inr (payload, x.0, q);
          })
  ]

  reject-Ends :
      (who : Option String) (reason : String) (rule_id : Option String) (s : Store)
      → Ends s (stopped d card now (reject d card now who reason rule_id s))
  reject-Ends who reason rule_id s r t h =
      let ((x, u), q, g) = >>=-eq-some (reject d card now who reason rule_id s) _ h in
      reject-IsUnrecorded who reason rule_id s t r (q ∙ ap some (ground arith))

  guarded-Ends :
      (s : Store) (g : Bool) (r k : Option Checked)
      → Ends s r
      → Ends s k
      → Ends s (if not g then r else k)
  guarded-Ends s true r k hr hk = hk
  guarded-Ends s false r k hr hk = hr

  duties-Ends :
      (person : String) (v : Option Verdict) (s : Store)
      → Ends s (check_duties d card now person v s)
  duties-Ends person none s r t h = cc
  duties-Ends person (some v) s r t h = elim (Bool-cases (is_allow v.verdict)) [
    | inl e ↦ absurd (ground arith)
    | inr e ↦ reject-Ends (some person) v.clause_text (some v.rule_id) s r t (ground arith)
  ]

  card-Ends :
      (person : String) (run : RunRow) (a : Action) (s : Store)
      → Ends s (check_card d card now person run a s)
  card-Ends person run a s =
      guarded-Ends s (is_awaiting a.state) _ _ (reject-Ends (some person) _ none s) (
        guarded-Ends s (str_eq a.params_hash card.params_hash) _ _
          (reject-Ends (some person) _ none s)
          (guarded-Ends s (is_named person a.approver) _ _ (reject-Ends (some person) _ none s)
            (duties-Ends person (duties d card now person run s) s)))

  first-Ends :
      (person : String) (run : RunRow) (a : Action) (first : Option Approval) (s : Store)
      → Ends s (check_first d card now person run a first s)
  first-Ends person run a none s r t h = card-Ends person run a s r t h
  first-Ends person run a (some first) s r t h =
      let both : (already first, s) ≡ (r, t) = cc in
      subst (λ (x : DecisionResult × Store). IsUnrecorded s x.0 x.1) both
        (late-IsUnrecorded first s)

  rows-Ends :
      (person : String) (run : Option RunRow) (row : Option ActionRow) (s : Store)
      → Ends s (check_rows d card now person run row s)
  rows-Ends person (some run) (some row) s =
      first-Ends person run row.action (get_approval card.run_id card.action_id s.approvals) s
  rows-Ends person (some run) none s = reject-Ends (some person) _ none s
  rows-Ends person none row s = reject-Ends (some person) _ none s

  actor-Ends : (actor : Option Identity) (s : Store) → Ends s (check_actor d card now actor s)
  actor-Ends none s = reject-Ends card.actor_external_id _ none s
  actor-Ends (some i) s = rows-Ends i.person_id _ _ s

  pub check-Ends : (s : Store) → Ends s (check d card now s)
  unfolding check
  check-Ends s =
      actor-Ends (resolve_actor d.lower s.identities card.channel true card.actor_external_id) s
