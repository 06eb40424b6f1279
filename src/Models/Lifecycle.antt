-- ===== src/Models/Lifecycle.antt =====
-- What the two state machines of engine/contextrail/models.py rule out.
use contextrail.Prelude.{
  true, false, none, some, List, [], ◌∷◌, ◌≡◌, ◌≢◌, refl, ◌⊎◌, inl, inr, ◌∙◌, ◌↔◌, At, here, there,
  arith,
}
use mathlib.Core.Path.{subst}
use contextrail.Models.Verdict.{refuse, hold, Verdict}
use contextrail.Models.Action.{
  ActionState, planned, awaiting, approved, refused, executed, verified, failed, unknown, Action,
  transition, apply_verdict,
}

-- The transitions that an action has made, the last one first.
pub data Moves (a : Action) : List ActionState → Action → Type 0 where
  still : Moves a [] a
  moved :
      {l : List ActionState} {b c : Action} (to : ActionState)
      → Moves a l b
      → transition b to ≡ some c
      → Moves a (to ∷ l) c

-- What a transition may change is the state.
pub record SameIdentity (a b : Action) : Type 0 where
  pub id : b.id ≡ a.id
  pub kind : b.kind ≡ a.kind
  pub target : b.target ≡ a.target
  pub params_hash : b.params_hash ≡ a.params_hash
  pub verdict : b.verdict ≡ a.verdict
  pub approver : b.approver ≡ a.approver

pub transition_lem :
    (a b : Action) (to : ActionState) → transition a to ≡ some b → (b.state ≡ to) × SameIdentity a b
unfolding transition
transition_lem a b to h = ground arith

SameIdentity-trans : {a b c : Action} → SameIdentity a b → SameIdentity b c → SameIdentity a c
SameIdentity-trans p q = ground arith

pub Moves-SameIdentity : {a b : Action} {l : List ActionState} → Moves a l b → SameIdentity a b
Moves-SameIdentity still = ground arith
Moves-SameIdentity (moved {b = b} {c = c} to m e) =
    SameIdentity-trans (Moves-SameIdentity m) (transition_lem b c to e).1

-- the states that a write leaves behind
abbrev pub IsActed : ActionState → Type 0
IsActed s = (s ≡ executed) ⊎ (s ≡ verified) ⊎ (s ≡ failed) ⊎ (s ≡ unknown)

abbrev IsIdle : List ActionState → ActionState → Type 0
IsIdle l s = (s ≡ awaiting) ⊎ (s ≡ refused) ⊎ At approved l

from_awaiting :
    (b c : Action) (to : ActionState)
    → transition b to ≡ some c
    → b.state ≡ awaiting
    → (to ≡ approved) ⊎ (c.state ≡ refused)
unfolding transition
from_awaiting b c to e h = ground arith

from_refused : (b c : Action) (to : ActionState) → transition b to ≡ some c → b.state ≢ refused
unfolding transition
from_refused b c to e h = ground arith

IsIdle-step :
    (l : List ActionState) (b c : Action) (to : ActionState)
    → transition b to ≡ some c
    → IsIdle l b.state
    → IsIdle (to ∷ l) c.state
IsIdle-step l b c to e (inl h) = elim (from_awaiting b c to e h) [
  | inl p ↦ inr (inr (rw p here))
  | inr p ↦ inr (inl p)
]
IsIdle-step l b c to e (inr (inl h)) = absurd (from_refused b c to e h)
IsIdle-step l b c to e (inr (inr m)) = inr (inr (there m))

Moves-IsIdle :
    {a b : Action} {l : List ActionState} → a.state ≡ awaiting → Moves a l b → IsIdle l b.state
Moves-IsIdle h still = inl h
Moves-IsIdle h (moved {l = l} {b = b} {c = c} to m e) = IsIdle-step l b c to e (Moves-IsIdle h m)

awaits :
    (a b : Action) (v : Verdict)
    → v.verdict ≡ hold
    → apply_verdict a v ≡ (true, b)
    → (b.state ≡ awaiting) × (b.verdict ≡ some hold)
unfolding apply_verdict
awaits a b v h e = ground arith

-- After a HOLD verdict an action takes no state that a write leaves, and no state that may be written
-- under this verdict, unless it was approved.
pub held-IsIdle :
    (a b c : Action) (v : Verdict) (l : List ActionState)
    → v.verdict ≡ hold
    → apply_verdict a v ≡ (true, b)
    → Moves b l c
    → (IsActed c.state → At approved l)
      × (c.state ≡ approved → At approved l)
      × (c.state ≢ planned)
      × (c.verdict ≡ some hold)
held-IsIdle a b c v l h e m =
    let (waits, held) = awaits a b v h e in
    let idle = Moves-IsIdle waits m in
    (
      only_approved idle,
      now_approved idle,
      never_planned waits m,
      (Moves-SameIdentity m).verdict ∙ held,
    )
  where
    only_approved : IsIdle l c.state → IsActed c.state → At approved l
    only_approved (inl p) acted = absurd (ground arith)
    only_approved (inr (inl p)) acted = absurd (ground arith)
    only_approved (inr (inr n)) acted = n

    now_approved : IsIdle l c.state → c.state ≡ approved → At approved l
    now_approved (inl p) q = absurd (ground arith)
    now_approved (inr (inl p)) q = absurd (ground arith)
    now_approved (inr (inr n)) q = n

    not_to_planned :
        (x y : Action) (to : ActionState) → transition x to ≡ some y → y.state ≢ planned
    not_to_planned x y to q = unfold transition in ground arith

    never_planned :
        {b c : Action} {l : List ActionState} → b.state ≡ awaiting → Moves b l c → c.state ≢ planned
    never_planned w still = λ q. ground arith
    never_planned w (moved {b = x} {c = y} to n r) = not_to_planned x y to r

no_refused_move :
    (b c : Action) (to : ActionState)
    → b.verdict ≡ some refuse
    → (b.state ≢ planned) × (b.state ≢ awaiting)
    → transition b to ≡ some c
    → ⊥
unfolding transition
no_refused_move b c to v s e = ground arith

no-Moves :
    {a b : Action} {l : List ActionState}
    → a.verdict ≡ some refuse
    → (a.state ≢ planned) × (a.state ≢ awaiting)
    → Moves a l b
    → (l ≡ []) × (b ≡ a)
no-Moves v s still = (refl, refl)
no-Moves {a = a} v s (moved {l = l} {b = b} {c = c} to m e) =
    let (_, same) = no-Moves v s m in
    absurd (no_refused_move a c to v s (subst (λ x. transition x to ≡ some c) same e))

refuse_left :
    (a : Action) (v : Verdict)
    → v.verdict ≡ refuse
    → a.verdict ≡ none
    → ((apply_verdict a v).0 ≡ true ↔ ((a.state ≡ planned) ⊎ (a.state ≡ awaiting)))
      × ((apply_verdict a v).0 ≡ true → (apply_verdict a v).1.state ≡ refused)
      × ((apply_verdict a v).0 ≡ false → (apply_verdict a v).1.state ≡ a.state)
      × ((apply_verdict a v).1.verdict ≡ some refuse)
      × ((apply_verdict a v).1.state ≢ planned)
      × ((apply_verdict a v).1.state ≢ awaiting)
unfolding apply_verdict
refuse_left a v h n = (
  (λ e. ground arith, λ e. ground arith),
  λ e. ground arith,
  λ e. ground arith,
  ground arith,
  λ e. ground arith,
  λ e. ground arith,
)

-- A REFUSE verdict on an action that has no verdict yet stays on it and is final, whether the call
-- returns or raises: no transition of the action follows. It returns exactly where the action is planned
-- or awaiting, and the action is then refused; where it raises, the state is the one before.
pub refusal_is_final :
    (a c : Action) (v : Verdict) (l : List ActionState)
    → v.verdict ≡ refuse
    → a.verdict ≡ none
    → Moves (apply_verdict a v).1 l c
    → ((apply_verdict a v).0 ≡ true ↔ ((a.state ≡ planned) ⊎ (a.state ≡ awaiting)))
      × ((apply_verdict a v).0 ≡ true → (apply_verdict a v).1.state ≡ refused)
      × ((apply_verdict a v).0 ≡ false → (apply_verdict a v).1.state ≡ a.state)
      × ((apply_verdict a v).1.verdict ≡ some refuse)
      × (l ≡ [])
      × (c ≡ (apply_verdict a v).1)
refusal_is_final a c v l h n m =
    let (returns, ends, stays, stamped, p, w) = refuse_left a v h n in
    let (none_made, same) = no-Moves stamped (p, w) m in
    (returns, ends, stays, stamped, none_made, same)
