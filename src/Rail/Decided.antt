-- ===== src/Rail/Decided.antt =====
-- What the recorded decisions do to the actions of a case (engine/contextrail/rail/approve.py).
use mathlib.Core.Path.{subst}
use contextrail.Prelude.{
  true, false, String, Option, none, some, List, [], ◌∷◌, ◌≡◌, ◌≢◌, refl, ◌⊎◌, ◌↔◌, inl, inr,
  Bool-cases, Option-cases, >>=-eq-some, some-eq-some, find?, str_eq, eq_iff, All, At, here, there,
  arith, sym, ap, ◌∙◌, if◌then◌else◌,
}
use contextrail.Models.Verdict.{refuse}
use contextrail.Models.Action.{ActionState, awaiting, Action, transition}
use contextrail.Models.Lifecycle.{transition_lem}
use contextrail.Rail.Approve.{
  Choice, approved, refused, Approval, is_for, get_approval, record_approval, Applied, is_awaiting,
  state_for, counted, apply_decisions,
}

-- What becomes of an action: a decision for exactly its parameters is counted, and else it is kept.
pub data Step (run_id : String) (rows : List Approval) : Action → Action → Type 0 where
  counts :
      {a b : Action} (d : Approval)
      → a.state ≡ awaiting
      → get_approval run_id a.id rows ≡ some d
      → d.params_hash ≡ a.params_hash
      → transition a (state_for d.decision) ≡ some b
      → Step run_id rows a b
  not_awaiting : {a : Action} → a.state ≢ awaiting → Step run_id rows a a
  undecided : {a : Action} → get_approval run_id a.id rows ≡ none → Step run_id rows a a
  is_void :
      {a : Action} (d : Approval)
      → get_approval run_id a.id rows ≡ some d
      → d.params_hash ≢ a.params_hash
      → Step run_id rows a a

pub data Steps (run_id : String) (rows : List Approval) : List Action → List Action → Type 0 where
  none_left : Steps run_id rows [] []
  next :
      {a b : Action} {xs ys : List Action}
      → Step run_id rows a b
      → Steps run_id rows xs ys
      → Steps run_id rows (a ∷ xs) (b ∷ ys)

counted-Step :
    (run_id : String) (rows : List Approval) (a : Action) (d : Option Approval) (r s : Applied)
    → a.state ≡ awaiting
    → get_approval run_id a.id rows ≡ d
    → counted a d r ≡ some s
    → (b : Action) × Step run_id rows a b × (s.actions ≡ b ∷ r.actions)
counted-Step run_id rows a none r s w g h = (a, undecided g, ground arith)
counted-Step run_id rows a (some d) r s w g h =
    elim (Bool-cases (str_eq d.params_hash a.params_hash)) [
      | inl e ↦ elim (Option-cases (transition a (state_for d.decision))) [
        | inl q ↦ absurd (ground arith)
        | inr (b, q) ↦ (b, counts d w g ((eq_iff d.params_hash a.params_hash).0 e) q, ground arith)
      ]
      | inr e ↦
          (a, is_void d g (λ p. cc ((eq_iff d.params_hash a.params_hash).1 p, e)), ground arith)
    ]

apply_decisions-Steps :
    (run_id : String) (rows : List Approval) (actions : List Action) (r : Applied)
    → apply_decisions run_id rows actions ≡ some r
    → Steps run_id rows actions r.actions
unfolding apply_decisions
apply_decisions-Steps run_id rows [] r h =
    subst (λ (x : Applied). Steps run_id rows [] x.actions) (some-eq-some h) none_left
apply_decisions-Steps run_id rows (a ∷ actions) r h =
    let (s, e, g) = >>=-eq-some (apply_decisions run_id rows actions) _ h in
    let rest = apply_decisions-Steps run_id rows actions s e in
    elim (Bool-cases (is_awaiting a.state)) [
      | inl w ↦
          let k : (if is_awaiting a.state
                then counted a (get_approval run_id a.id rows) s
                else some (record s { actions = a ∷ s.actions }))
              ≡ some r =
            g in
          let (b, step, same) =
            counted-Step run_id rows a (get_approval run_id a.id rows) s r (ground arith) refl
              (rw w at k) in
          rw same (next step rest)
      | inr w ↦
          let same : r.actions ≡ a ∷ s.actions = ground arith in
          rw same (next (not_awaiting (ground arith)) rest)
    ]

may_decide :
    (a : Action) (c : Choice)
    → a.state ≡ awaiting
    → a.verdict ≢ some refuse
    → (b : Action) × (transition a (state_for c) ≡ some b)
unfolding transition
may_decide a c w h = elim (Option-cases (transition a (state_for c))) [
  | inl q ↦ absurd (ground arith)
  | inr (b, q) ↦ (b, q)
]

step_total :
    (run_id : String) (rows : List Approval) (a : Action) (s : Applied)
    → (a.state ≡ awaiting → a.verdict ≢ some refuse)
    → a.state ≡ awaiting
    → (r : Applied) × (counted a (get_approval run_id a.id rows) s ≡ some r)
step_total run_id rows a s h w = go (get_approval run_id a.id rows)
  where
    go : (d : Option Approval) → (r : Applied) × (counted a d s ≡ some r)
    go none = (_, refl)
    go (some d) = elim (Bool-cases (str_eq d.params_hash a.params_hash)) [
      | inl e ↦ let (b, q) = may_decide a d.decision w (h w) in rw (e, q) (_, refl)
      | inr e ↦ rw e (_, refl)
    ]

returns :
    (run_id : String) (rows : List Approval) (actions : List Action)
    → All (λ (a : Action). a.state ≡ awaiting → a.verdict ≢ some refuse) actions
    → (r : Applied) × (apply_decisions run_id rows actions ≡ some r)
unfolding apply_decisions
returns run_id rows [] h = (_, refl)
returns run_id rows (a ∷ actions) h =
    let (s, e) = returns run_id rows actions h.1 in
    elim (Bool-cases (is_awaiting a.state)) [
      | inl w ↦ rw (e, w) (step_total run_id rows a s h.0 (ground arith))
      | inr w ↦ rw (e, w) (_, refl)
    ]

-- Unless an awaiting action was refused by policy, applying the recorded decisions does not raise,
-- and action by action: an awaiting one with a decision for exactly its parameters takes the state
-- that was decided; an action that is not awaiting, has no decision, or has one for other
-- parameters stays as it is.
pub apply_decisions_total :
    (run_id : String) (rows : List Approval) (actions : List Action)
    → All (λ (a : Action). a.state ≡ awaiting → a.verdict ≢ some refuse) actions
    → (r : Applied) × (apply_decisions run_id rows actions ≡ some r)
      × Steps run_id rows actions r.actions
apply_decisions_total run_id rows actions h =
    let (r, e) = returns run_id rows actions h in
    (r, e, apply_decisions-Steps run_id rows actions r e)

-- What stands behind an action that is approved afterwards: it was before, or a decision to approve it
-- is recorded for its run and id, given for exactly the parameters that it still has.
abbrev pub IsBacked : String → List Approval → List Action → Action → Type 0
IsBacked run_id rows actions b =
    At b actions
    ⊎ ((d : Approval) × (get_approval run_id b.id rows ≡ some d)
        × (d.decision ≡ approved)
        × (d.params_hash ≡ b.params_hash))

state_approved : (c : Choice) → state_for c ≡ ActionState.approved → c ≡ approved
state_approved approved h = refl
state_approved refused h = absurd (ground arith)

Step-IsBacked :
    {run_id : String} {rows : List Approval} {a b : Action} {xs : List Action}
    → Step run_id rows a b
    → b.state ≡ ActionState.approved
    → IsBacked run_id rows (a ∷ xs) b
Step-IsBacked {run_id} {rows} (counts {a = a} {b = b} d w g p t) e =
    let (s, same) = transition_lem a b (state_for d.decision) t in
    inr (
      d,
      ap (λ i. get_approval run_id i rows) same.id ∙ g,
      state_approved d.decision (sym s ∙ e),
      p ∙ sym same.params_hash,
    )
Step-IsBacked (not_awaiting n) e = inl here
Step-IsBacked (undecided g) e = inl here
Step-IsBacked (is_void d g n) e = inl here

Steps-IsBacked :
    {run_id : String} {rows : List Approval} {xs ys : List Action} {b : Action}
    → Steps run_id rows xs ys
    → At b ys
    → b.state ≡ ActionState.approved
    → IsBacked run_id rows xs b
Steps-IsBacked none_left m e = elim m [ ]
Steps-IsBacked (next s rest) here e = Step-IsBacked s e
Steps-IsBacked (next s rest) (there m) e = elim (Steps-IsBacked rest m e) [
  | inl n ↦ inl (there n)
  | inr p ↦ inr p
]

-- An action that is approved after the recorded decisions were applied was so before, or a decision to
-- approve it is recorded under its run and id, for the same parameters.
pub approved-IsBacked :
    (run_id : String) (rows : List Approval) (actions : List Action) (r : Applied) (b : Action)
    → apply_decisions run_id rows actions ≡ some r
    → At b r.actions
    → b.state ≡ ActionState.approved
    → IsBacked run_id rows actions b
approved-IsBacked run_id rows actions r b h m e =
    Steps-IsBacked (apply_decisions-Steps run_id rows actions r h) m e

pub won :
    (d : Approval) (rows : List Approval)
    → get_approval d.run_id d.action_id rows ≡ none
    → record_approval d rows ≡ (true, d ∷ rows)
unfolding record_approval
won d rows h = rw h refl

lost :
    (d : Approval) (rows : List Approval) (first : Approval)
    → get_approval d.run_id d.action_id rows ≡ some first
    → record_approval d rows ≡ (false, rows)
unfolding record_approval
lost d rows first h = rw h refl

get_new :
    (d : Approval) (rows : List Approval) → get_approval d.run_id d.action_id (d ∷ rows) ≡ some d
unfolding get_approval
get_new d rows =
    rw ((eq_iff d.run_id d.run_id).1 refl, (eq_iff d.action_id d.action_id).1 refl) refl

get_kept :
    (d : Approval) (rows : List Approval) (run_id action_id : String) (first : Approval)
    → get_approval d.run_id d.action_id rows ≡ none
    → get_approval run_id action_id rows ≡ some first
    → get_approval run_id action_id (d ∷ rows) ≡ some first
unfolding get_approval
get_kept d rows run_id action_id first n h = elim (Bool-cases (is_for run_id action_id d)) [
  | inl e ↦
      let r : d.run_id ≡ run_id = (eq_iff d.run_id run_id).0 (ground arith) in
      let a : d.action_id ≡ action_id = (eq_iff d.action_id action_id).0 (ground arith) in
      let m : find? (is_for run_id action_id) rows ≡ none =
        subst (λ p. find? (is_for p.0 p.1) rows ≡ none) (pair_path r a) n in
      absurd (ground arith)
  | inr e ↦ rw e h
]
  where
    pair_path : {x y z w : String} → x ≡ y → z ≡ w → ◌≡◌ {A = String × String} (x, z) (y, w)
    pair_path p q = rw (p, q) refl

-- A decision is stored exactly if none is there for its run and action, and afterwards the one found
-- for them is the first: the one that was there, or else this one. Those of other actions stay.
pub record_approval_first :
    (d : Approval) (rows : List Approval) (run_id action_id : String)
    → ((record_approval d rows).0 ≡ true ↔ get_approval d.run_id d.action_id rows ≡ none)
      × ((record_approval d rows).0 ≡ true
          → get_approval d.run_id d.action_id (record_approval d rows).1 ≡ some d)
      × ((first : Approval)
          → get_approval run_id action_id rows ≡ some first
          → get_approval run_id action_id (record_approval d rows).1 ≡ some first)
record_approval_first d rows run_id action_id =
    elim (Option-cases (get_approval d.run_id d.action_id rows)) [
      | inl e ↦
          rw (e, won d rows e)
            (
              (λ h. refl, λ h. refl),
              λ h. get_new d rows,
              λ first h. get_kept d rows run_id action_id first e h,
            )
      | inr (known, e) ↦ rw (e, lost d rows known e) ((λ h. cc, λ h. cc), λ h. cc, λ first h. h)
    ]
