-- ===== src/Surfaces/Checks.antt =====
-- What the checks of a decision require (engine/contextrail/surfaces/door.py).
use mathlib.Core.Path.{subst}
use contextrail.Prelude.{
  ℕ, Bool, true, false, String, Option, none, some, ◌≡◌, ◌≢◌, refl, inl, inr, Bool-cases, str_eq,
  eq_iff, arith, ap, ◌∙◌, ◌>>=◌, if◌then◌else◌, not,
}
use contextrail.Models.Verdict.{Verdict, allow, is_allow}
use contextrail.Models.Action.{awaiting, Action}
use contextrail.Rail.Approve.{Approval, get_approval}
use contextrail.Surfaces.Identity.{Identity, resolve_actor}
use contextrail.Surfaces.Cards.{
  RunRow, ActionRow, Store, DecisionResult, Setting, Card, Checked, pass, stop, get_run, get_action,
  is_awaiting, is_named,
}
use contextrail.Surfaces.Door.{
  stopped, duties, check_duties, check_card, check_first, check_rows, check_actor, check,
}

module _ (d : Setting) (card : Card) (now : ℕ) where
  -- the run, the action, the actor's entry and the verdict that let `person` decide
  pub record Authorised (person : String) (s : Store) : Type 0 where
    pub actor : Identity
    pub run : RunRow
    pub row : ActionRow
    pub verdict : Verdict
    pub known :
        resolve_actor d.lower s.identities card.channel true card.actor_external_id ≡ some actor
    pub same_person : actor.person_id ≡ person
    pub run_found : get_run card.run_id s ≡ some run
    pub row_found : get_action card.run_id card.action_id s ≡ some row
    pub undecided : get_approval card.run_id card.action_id s.approvals ≡ none
    pub waits : row.action.state ≡ awaiting
    pub same_params : row.action.params_hash ≡ card.params_hash
    pub approver : row.action.approver ≡ some person
    pub separated : duties d card now person run s ≡ some verdict
    pub allowed : verdict.verdict ≡ allow

  not_stopped :
      (r : Option (DecisionResult × Store)) (person : String)
      → (r >>= λ p. some (stop p.0 p.1)) ≢ some (pass person)
  not_stopped none person h = cc
  not_stopped (some p) person h = absurd (ground arith)

  duties_pass :
      (person other : String) (v : Option Verdict) (s : Store)
      → check_duties d card now person v s ≡ some (pass other)
      → (w : Verdict) × (v ≡ some w) × (w.verdict ≡ allow) × (person ≡ other)
  duties_pass person other none s h = cc
  duties_pass person other (some v) s h = elim (Bool-cases (is_allow v.verdict)) [
    | inl e ↦ (v, refl, ground arith, ground arith)
    | inr e ↦ absurd (ground arith)
  ]

  guarded :
      {person : String} (g : Bool) (r : Option (DecisionResult × Store)) (k : Option Checked)
      → (if not g then stopped d card now r else k) ≡ some (pass person)
      → (g ≡ true) × (k ≡ some (pass person))
  guarded true r k h = (refl, h)
  guarded {person} false r k h = absurd (not_stopped r person h)

  named :
      (person : String) (approver : Option String)
      → is_named person approver ≡ true
      → approver ≡ some person
  named person none h = cc
  named person (some approver) h = ap some ((eq_iff approver person).0 h)

  card-pass :
      (person other : String) (run : RunRow) (a : Action) (s : Store)
      → check_card d card now person run a s ≡ some (pass other)
      → (a.state ≡ awaiting)
        × (a.params_hash ≡ card.params_hash)
        × (a.approver ≡ some person)
        × (check_duties d card now person (duties d card now person run s) s ≡ some (pass other))
  card-pass person other run a s h =
      let (w, h₁) = guarded (is_awaiting a.state) _ _ h in
      let (p, h₂) = guarded (str_eq a.params_hash card.params_hash) _ _ h₁ in
      let (n, h₃) = guarded (is_named person a.approver) _ _ h₂ in
      (ground arith, (eq_iff a.params_hash card.params_hash).0 p, named person a.approver n, h₃)

  first_pass :
      (person other : String) (run : RunRow) (a : Action) (first : Option Approval) (s : Store)
      → check_first d card now person run a first s ≡ some (pass other)
      → (first ≡ none) × (check_card d card now person run a s ≡ some (pass other))
  first_pass person other run a none s h = (refl, h)
  first_pass person other run a (some first) s h = absurd (ground arith)

  rows_pass :
      (person other : String) (run : Option RunRow) (row : Option ActionRow) (s : Store)
      → check_rows d card now person run row s ≡ some (pass other)
      → (u : RunRow) × (w : ActionRow) × (run ≡ some u)
        × (row ≡ some w)
        × (check_first d card now person u w.action
              (get_approval card.run_id card.action_id s.approvals)
              s
            ≡ some (pass other))
  rows_pass person other (some run) (some row) s h = (run, row, refl, refl, h)
  rows_pass person other (some run) none s h = absurd (not_stopped _ other h)
  rows_pass person other none row s h = absurd (not_stopped _ other h)

  actor_pass :
      (actor : Option Identity) (other : String) (s : Store)
      → check_actor d card now actor s ≡ some (pass other)
      → (i : Identity) × (actor ≡ some i)
        × (check_rows d card now i.person_id
              (get_run card.run_id s)
              (get_action card.run_id card.action_id s)
              s
            ≡ some (pass other))
  actor_pass none other s h = absurd (not_stopped _ other h)
  actor_pass (some i) other s h = (i, refl, h)

  pub check-Authorised :
      (person : String) (s : Store) → check d card now s ≡ some (pass person) → Authorised person s
  unfolding check
  check-Authorised person s h =
      let (i, known, h₁) =
        actor_pass (resolve_actor d.lower s.identities card.channel true card.actor_external_id)
          person s h in
      let (run, row, run_found, row_found, h₂) =
        rows_pass i.person_id person (get_run card.run_id s)
          (get_action card.run_id card.action_id s) s h₁ in
      let (undecided, h₃) =
        first_pass i.person_id person run row.action
          (get_approval card.run_id card.action_id s.approvals) s h₂ in
      let (waits, same_params, approver, h₄) = card-pass i.person_id person run row.action s h₃ in
      let (v, separated, allowed, same) =
        duties_pass i.person_id person (duties d card now i.person_id run s) s h₄ in
      record {
        actor = i;
        run = run;
        row = row;
        verdict = v;
        known = known;
        same_person = same;
        run_found = run_found;
        row_found = row_found;
        undecided = undecided;
        waits = waits;
        same_params = same_params;
        approver = approver ∙ ap some same;
        separated = subst (λ p. duties d card now p run s ≡ some v) same separated;
        allowed = allowed;
      }
