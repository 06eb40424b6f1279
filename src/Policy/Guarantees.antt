-- ===== src/Policy/Guarantees.antt =====
-- What every decision keeps: a case that no rule concerns is refused, no one approves their own
-- request, and the verdict is one that the model accepts.
use text.Mathlib.TextLemmas.{cons-append, cons-ne-nil}
use contextrail.Prelude.{
  codes, Bool, true, false, not, ◌&&◌, String, Option, none, some, List, [], ◌∷◌, ◌≡◌, ◌≢◌, refl,
  sym, ◌∙◌, ◌⊎◌, inl, inr, At, here, there, leb, length, str_eq, eq_iff, some-eq-some, Bool-cases,
  Option-cases, arith,
}
use contextrail.Models.Subject.{Subject}
use contextrail.Models.Verdict.{refuse, Verdict, is_shaped}
use contextrail.Models.Action.{Action}
use contextrail.Policy.Python.{Python}
use contextrail.Policy.Schema.{Rule, texts_pass, accepts, is_rule_id}
use contextrail.Policy.Approvers.{
  Directory, unresolved, is_requester, first_other, candidates_of, resolve_approver,
}
use contextrail.Policy.Outcomes.{RuleOutcome}
use contextrail.Policy.Engine.{Engine, Decision, Request, build_context, decide}
use contextrail.Policy.Precedence.{Ruling, refused, held, allowed, denied}
use contextrail.Policy.Decisions.{Fired, decide-IsJustified}

-- What a verdict that is no refusal rests on.
abbrev pub IsGranted : List RuleOutcome → Verdict → RuleOutcome → Type 0
IsGranted fired v o =
    At o fired
    × (o.verdict ≡ v.verdict)
    × (v.rule_id ≡ o.rule.id)
    × ((other : RuleOutcome) → At other fired → other.verdict ≢ refuse)

Ruling-IsGranted :
    (directory : Option Directory) (s : Subject) (requested_by : Option String)
    (fired : List RuleOutcome) (v : Verdict)
    → Ruling directory s requested_by fired v
    → v.verdict ≢ refuse
    → (o : RuleOutcome) × IsGranted fired v o
Ruling-IsGranted directory s requested_by fired _ (refused top m k t) n = absurd (n refl)
Ruling-IsGranted directory s requested_by fired _ (held top m k r t) n = (top, (m, k, refl, r))
Ruling-IsGranted directory s requested_by fired _ (allowed top m k r) n =
    (top, (m, k, refl, λ o h e. absurd (ground (arith, r o h))))
Ruling-IsGranted directory s requested_by fired _ (denied e) n = absurd (n refl)

module _ (py : Python) (engine : Engine) (a : Action) (s : Subject) (q : Request) where
  -- Nothing is permitted by default: a decision that is not a refusal rests on a rule of the engine that is
  -- enabled, applies to the subject, matches the action and gives that verdict, it names this rule,
  -- and no such rule of the engine gives a refusal.
  pub decide-permits :
      (d : Decision)
      → decide py engine a s q ≡ some d
      → d.verdict.verdict ≢ refuse
      → (o : RuleOutcome) × At o.rule engine.rules
        × Fired py q.disabled a s (build_context a s q) o
        × (o.verdict ≡ d.verdict.verdict)
        × (d.verdict.rule_id ≡ o.rule.id)
        × ((other : RuleOutcome)
            → At other.rule engine.rules
            → Fired py q.disabled a s (build_context a s q) other
            → other.verdict ≢ refuse)
  decide-permits d h n =
      let why = decide-IsJustified py engine a s q d h in
      let (o, (m, k, named, others)) =
        Ruling-IsGranted engine.directory s _ d.fired d.verdict why.ruling n in
      let (stands, f) = why.sound o m in
      (o, stands, f, k, named, λ x y g. others x (why.complete x y g))

not_requester :
    (requested_by : Option String) (p : String)
    → is_requester requested_by p ≡ false
    → requested_by ≢ some p
not_requester none p h e = cc
not_requester (some r) p h e = ground (arith, eq_iff r p)

-- Who `resolve_approver` may name: a candidate who is not the requester, or the role itself.
not_empty : (x : String) → str_eq x "" ≡ false → x ≢ ""
not_empty x h e = ground (arith, eq_iff x "")

first_other_lem :
    (requested_by : Option String) (people : List String) (x : String)
    → first_other requested_by people ≡ some x
    → At x people × (str_eq x "" ≡ false) × (requested_by ≢ some x)
unfolding first_other
first_other_lem requested_by [] x h = cc
first_other_lem requested_by (p ∷ ps) x h =
    elim (Bool-cases (not (str_eq p "") && not (is_requester requested_by p))) [
      | inl yes_p ↦
          (let same : p ≡ x = some-eq-some (ground arith) in
            let ok : (str_eq p "" ≡ false) × (is_requester requested_by p ≡ false) = ground arith in
            rw (← same) (here, ok.0, not_requester requested_by p ok.1))
      | inr later ↦
          (let (m, n, r) = first_other_lem requested_by ps x (rw later at h) in (there m, n, r))
    ]

-- No one is named to approve their own request: the approver is a candidate of the directory, with a
-- name, and not the requester, or the role is left unresolved.
pub resolve_approver_lem :
    (directory : Option Directory) (role : Option String) (s : Subject)
    (requested_by : Option String)
    → let x = resolve_approver directory role s requested_by in
      (At x (candidates_of directory role s) × (x ≢ "") × (requested_by ≢ some x))
      ⊎ (x ≡ unresolved role)
unfolding resolve_approver
resolve_approver_lem directory role s requested_by =
    elim (Option-cases (first_other requested_by (candidates_of directory role s))) [
      | inl e ↦ inr (rw e)
      | inr (x, e) ↦
          (let (m, n, r) = first_other_lem requested_by (candidates_of directory role s) x e in
            rw e (inl (m, not_empty x n, r)))
    ]

not-empty_unresolved : (role : Option String) → unresolved role ≢ ""
unfolding unresolved
not-empty_unresolved none e = ground (arith, eq_iff "role:None" "")
not-empty_unresolved (some role) e = cons-ne-nil _ _ (sym (cons-append _ _ role) ∙ e)

and_true : (a b : Bool) → (a && b) ≡ true → (a ≡ true) × (b ≡ true)
and_true a b h = ground arith

-- The identifier and the clause of an accepted rule are no empty texts.
accepted_texts :
    (py : Python) (r : Rule)
    → accepts py r ≡ true
    → (str_eq r.id "" ≡ false) × (str_eq r.clause_text "" ≡ false)
unfolding accepts
accepted_texts py r h =
    let texts : (is_rule_id r.id && leb 20 (length (codes r.clause_text))) ≡ true =
      (and_true (texts_pass r) _ h).0 in
    let (id_ok, clause_ok) =
      and_true (is_rule_id r.id) (leb 20 (length (codes r.clause_text))) texts in
    (
      elim (Bool-cases (str_eq r.id "")) [
        | inl e ↦ (let g : is_rule_id "" ≡ true = rw ((eq_iff r.id "").0 e) at id_ok in cc)
        | inr e ↦ e
      ],
      elim (Bool-cases (str_eq r.clause_text "")) [
        | inl e ↦
            (let g : leb 20 (length (codes "")) ≡ true =
                rw ((eq_iff r.clause_text "").0 e) at clause_ok in
              cc)
        | inr e ↦ e
      ],
    )

named :
    (directory : Option Directory) (role : Option String) (s : Subject)
    (requested_by : Option String)
    → str_eq (resolve_approver directory role s requested_by) "" ≡ false
named directory role s requested_by =
    elim (Bool-cases (str_eq (resolve_approver directory role s requested_by) "")) [
      | inl e ↦
          (let empty = (eq_iff (resolve_approver directory role s requested_by) "").0 e in
            elim (resolve_approver_lem directory role s requested_by) [
              | inl (m, n, r) ↦ absurd (n empty)
              | inr u ↦ absurd (not-empty_unresolved role (sym u ∙ empty))
            ])
      | inr e ↦ e
    ]

shaped_ruling :
    (directory : Option Directory) (s : Subject) (requested_by : Option String)
    (fired : List RuleOutcome) {v : Verdict}
    → ((o : RuleOutcome)
        → At o fired
        → (str_eq o.rule.id "" ≡ false) × (str_eq o.rule.clause_text "" ≡ false))
    → Ruling directory s requested_by fired v
    → is_shaped v ≡ true
unfolding is_shaped
shaped_ruling directory s requested_by fired texts (refused top m _ _) =
    let t = texts top m in ground arith
shaped_ruling directory s requested_by fired texts (held top m _ _ _) =
    let t = texts top m in ground (arith, named directory top.approver_role s requested_by)
shaped_ruling directory s requested_by fired texts (allowed top m _ _) =
    let t = texts top m in ground arith
shaped_ruling directory s requested_by fired texts (denied _) = refl

-- Every decision over rules that the schema accepts carries a verdict that the model accepts: texts
-- that are not empty, an approver exactly if it is a HOLD, and `terminal` only on a REFUSE.
pub decide-is_shaped :
    (py : Python) (engine : Engine) (a : Action) (s : Subject) (q : Request) (d : Decision)
    → ((r : Rule) → At r engine.rules → accepts py r ≡ true)
    → decide py engine a s q ≡ some d
    → is_shaped d.verdict ≡ true
decide-is_shaped py engine a s q d ok h =
    let j = decide-IsJustified py engine a s q d h in
    shaped_ruling engine.directory s _ d.fired
      (λ o m. accepted_texts py o.rule (ok o.rule (j.sound o m).0)) j.ruling
