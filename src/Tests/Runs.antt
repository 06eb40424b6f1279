-- ===== src/Tests/Runs.antt =====
-- Held and refused actions, and the events of a run.
use contextrail.Prelude.{
  ℕ, suc, true, ◌↔◌, arith, none, some, List, [], ◌∷◌, ◌≡◌, refl, ◌⊎◌, At, false,
}
use contextrail.Models.Verdict.{hold, refuse, Verdict}
use contextrail.Models.Action.{
  ActionState, planned, awaiting, approved, refused, executed, Action, transition, apply_verdict,
}
use contextrail.Models.Lifecycle.{Moves, still, moved, SameIdentity, IsActed, refusal_is_final}
use contextrail.Models.Value.{end}
use contextrail.Connectors.Base.{ok, Connector}
use contextrail.Rail.Execute.{ExecOutcome, is_executable, execute_action}
use contextrail.Rail.Held.{held_needs_approval}
use contextrail.Models.Run.{running, discover, compile}
use contextrail.Rail.Events.{StageEvent, EventBus, subscribe, emit}
use contextrail.Rail.Streams.{Used, new, subscribed, emitted, IsLive, Used-IsLive}
use contextrail.Tests.Samples.{sample_action, sample_encoder}

abbrev holding : Verdict
holding = record {
  verdict = hold;
  rule_id = "POL-2";
  clause_text = "Ask.";
  approver = some "p1";
  terminal = false;
}

abbrev in_state : ActionState → Action
in_state s = record sample_action {
  verdict = some hold;
  rule_id = some "POL-2";
  clause = some "Ask.";
  approver = some "p1";
  state = s;
}

was_held : apply_verdict sample_action holding ≡ (true, in_state awaiting)
unfolding apply_verdict
was_held = refl

moves : Moves (in_state awaiting) (approved ∷ []) (in_state approved)
unfolding transition
moves = moved {b = in_state awaiting} approved still refl

abbrev acting : Connector ℕ
acting = record {
  write = λ a key n. (ok (record { replayed = false; ref = end }), suc n);
  verify = λ a n. (ok (true, end), n);
}

abbrev wrote : ExecOutcome
wrote = record { action_id = "G01"; state = executed; attempts = 1; replayed = false }

held_needs_approval_example :
    (is_executable (in_state approved) ≡ true → At approved (approved ∷ []))
    × (execute_action sample_encoder (λ name. some acting) 3 "r1" (in_state approved) 0
          ≡ some (wrote, 1)
        → At approved (approved ∷ []))
    × (IsActed approved → At approved (approved ∷ []))
    × SameIdentity (in_state awaiting) (in_state approved)
held_needs_approval_example =
    held_needs_approval sample_encoder (λ name. some acting) 3 "r1" 0 (wrote, 1) sample_action
      (in_state awaiting) (in_state approved) holding (approved ∷ []) refl was_held moves

held_is_written :
    execute_action sample_encoder (λ name. some acting) 3 "r1" (in_state approved) 0
    ≡ some (wrote, 1)
unfolding execute_action is_executable contextrail.Canonical.idempotency_key
    contextrail.Rail.Execute.try_from
held_is_written = refl

abbrev refusing : Verdict
refusing = record {
  verdict = refuse;
  rule_id = "POL-3";
  clause_text = "No.";
  approver = none;
  terminal = false;
}

-- an action that was executed without a verdict
abbrev written : Action
written = record sample_action { state = executed }

abbrev left : Action
left = (apply_verdict written refusing).1

refusal_is_final_example :
    ((apply_verdict written refusing).0 ≡ true
      ↔ ((written.state ≡ planned) ⊎ (written.state ≡ awaiting)))
    × ((apply_verdict written refusing).0 ≡ true → left.state ≡ refused)
    × ((apply_verdict written refusing).0 ≡ false → left.state ≡ written.state)
    × (left.verdict ≡ some refuse)
    × (◌≡◌ {A = List ActionState} [] [])
    × (left ≡ left)
refusal_is_final_example = refusal_is_final written left refusing [] refl refl still

-- a subscriber, two events, and a history of one
abbrev bus : EventBus
bus =
    (emit compile running "two" 6 false
      (emit discover running "one" 5 false
        (subscribe (record { seq = 0; keep = 1; history = []; queues = [] }))).1).1

abbrev events : List StageEvent
events =
    record { seq = 0; stage = discover; status = running; message = "one"; at = 5; replay = false }
    ∷ record { seq = 1; stage = compile; status = running; message = "two"; at = 6; replay = false }
    ∷ []

used : Used 1 events (0 ∷ []) bus
unfolding emit subscribe
used =
    emitted compile running "two" 6 false (emitted discover running "one" 5 false (subscribed new))

Used-IsLive_example : IsLive 1 events (0 ∷ []) bus
Used-IsLive_example = Used-IsLive 1 events (0 ∷ []) bus (omega arith) used
