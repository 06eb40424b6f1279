-- ===== src/Rail/Held.antt =====
-- A held action is written only after its approval (engine/contextrail/rail/execute.py, models.py).
use contextrail.Prelude.{
  ℕ, true, String, Option, some, List, ◌≡◌, ◌≢◌, inl, inr, At, Bool-cases, arith,
}
use contextrail.Canonical.{Encoder}
use contextrail.Models.Verdict.{hold, Verdict}
use contextrail.Models.Action.{ActionState, planned, approved, Action, apply_verdict}
use contextrail.Models.Lifecycle.{Moves, SameIdentity, IsActed, Moves-SameIdentity, held-IsIdle}
use contextrail.Connectors.Base.{Connector}
use contextrail.Rail.Execute.{ExecOutcome, is_executable, execute_action}

executable_states :
    (c : Action)
    → c.verdict ≡ some hold
    → c.state ≢ planned
    → is_executable c ≡ true
    → c.state ≡ approved
unfolding is_executable
executable_states c v n e = ground arith

executed_when :
    {S : Type 0} (enc : Encoder) (registry : String → Option (Connector S)) (max_attempts : ℕ)
    (run_id : String) (c : Action) (s : S) (r : ExecOutcome × S)
    → execute_action enc registry max_attempts run_id c s ≡ some r
    → is_executable c ≡ true
executed_when enc registry max_attempts run_id c s r e = elim (Bool-cases (is_executable c)) [
  | inl t ↦ t
  | inr f ↦ absurd (unfold execute_action in ground arith)
]

-- Whatever transitions follow a HOLD verdict: the action is executable, and `execute_action` gives an
-- outcome for it, only if it was approved before; it takes a state that a write leaves only after it
-- was approved; and the transitions change neither its identity nor its parameters nor its verdict.
pub held_needs_approval :
    {S : Type 0} (enc : Encoder) (registry : String → Option (Connector S)) (max_attempts : ℕ)
    (run_id : String) (s : S) (r : ExecOutcome × S) (a b c : Action) (v : Verdict)
    (l : List ActionState)
    → v.verdict ≡ hold
    → apply_verdict a v ≡ (true, b)
    → Moves b l c
    → (is_executable c ≡ true → At approved l)
      × (execute_action enc registry max_attempts run_id c s ≡ some r → At approved l)
      × (IsActed c.state → At approved l)
      × SameIdentity b c
held_needs_approval enc registry max_attempts run_id s r a b c v l h e m =
    let (acted, now, started, verdict) = held-IsIdle a b c v l h e m in
    let may : is_executable c ≡ true → At approved l =
      λ x. now (executable_states c verdict started x) in
    (
      may,
      λ x. may (executed_when enc registry max_attempts run_id c s r x),
      acted,
      Moves-SameIdentity m,
    )
